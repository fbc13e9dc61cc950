-- ===== src/MemIpc/Tests.antt =====
-- A client on which the definitions are run and the theorems are applied.
use claude_agent_runner.Common.{
  ℕ, ◌≡◌, refl, Option, none, some, Bool, false, List, [], ◌∷◌, ◌++◌, ◌==◌, ◌+◌, ◌*◌, if◌then◌else◌,
  ltb,
}
use claude_agent_runner.MemIpc.{
  MemIpcClient, resolved, socket_closed, cut, is_blank, take_lines, on_data, send, on_connect,
  on_close,
}
use claude_agent_runner.MemIpc.Chunks.{on_data-append}
use claude_agent_runner.MemIpc.Order.{
  Op, connects, sends, receives, closes, InOrder, step, run, run-InOrder,
}

program : Unit {0}
unfolding cut is_blank take_lines on_data send on_connect on_close step run
program = tt

-- Two bytes from 200 on are one character, and one such byte alone is the character 65533.
abbrev decode : List ℕ → List ℕ
decode [] = []
decode (a ∷ []) = (if ltb a 200 then a else 65533) ∷ []
decode (a ∷ b ∷ bs) =
    let whole = (a * 256 + b) ∷ decode bs in
    let one = a ∷ decode (b ∷ bs) in if ltb a 200 then one else whole

abbrev is_space : ℕ → Bool
is_space c = c == 32

-- The value of a line is its first character.
abbrev parse : List ℕ → Option ℕ
parse [] = none
parse (c ∷ cs) = some c

abbrev client : MemIpcClient
client = record {
  has_socket = false;
  connected = false;
  buffer = [];
  requests = record { pending = []; settled = [] };
  written = [];
}

abbrev history : List Op
history = connects ∷ sends 1 ∷ sends 2 ∷ receives (7 ∷ 7 ∷ 10 ∷ 32 ∷ []) ∷ closes ∷ []

settles :
    (run decode is_space parse history client).requests.settled
    ≡ (1, resolved 7) ∷ (2, socket_closed) ∷ []
unfolding program
settles = refl

-- A cut within a character changes the answer.
abbrev waiting : MemIpcClient
waiting = run decode is_space parse (connects ∷ sends 1 ∷ []) client

reads_whole :
    (on_data decode is_space parse (200 ∷ 5 ∷ 10 ∷ []) waiting).requests.settled
    ≡ (1, resolved 51205) ∷ []
unfolding program
reads_whole = refl

reads_damaged :
    (on_data decode is_space parse
      (5 ∷ 10 ∷ [])
      (on_data decode is_space parse (200 ∷ []) waiting)).requests.settled
    ≡ (1, resolved 65533) ∷ []
unfolding program
reads_damaged = refl

on_data-append_example :
    on_data decode is_space parse ((7 ∷ 7 ∷ []) ++ (200 ∷ 5 ∷ 10 ∷ [])) waiting
    ≡ on_data decode is_space parse
        (200 ∷ 5 ∷ 10 ∷ [])
        (on_data decode is_space parse (7 ∷ 7 ∷ []) waiting)
on_data-append_example =
    on_data-append decode is_space parse (7 ∷ 7 ∷ []) (200 ∷ 5 ∷ 10 ∷ []) waiting refl

run-InOrder_example : InOrder (run decode is_space parse history client)
run-InOrder_example = run-InOrder decode is_space parse history client refl
