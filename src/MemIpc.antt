-- ===== src/MemIpc.antt =====
-- packages/runner/src/mem-ipc.ts: `MemIpcClient`, requests and answers as lines on a Unix socket. A
-- chunk is the list of its bytes, of which `decode` makes characters as `toString` does for each
-- chunk; `is_space` tells the characters that `trim` takes away, `parse` is `JSON.parse` with `none`
-- for its exception. A request is named by a number; the outcomes of the promises and the requests
-- written are recorded in order.
mod Tests
pub mod Chunks
pub mod Order
use claude_agent_runner.Common.{
  ℕ, Option, none, some, Bool, true, false, not, ◌&&◌, List, [], ◌∷◌, ◌++◌, map, if◌then◌else◌,
  ◌==◌,
}

pub data Outcome : Type 0 where
  resolved : ℕ → Outcome
  invalid_json socket_error socket_closed disconnected : Outcome

-- The requests that wait, and those that are settled.
pub record Requests : Type 0 where
  pub pending : List ℕ
  pub settled : List (ℕ × Outcome)

pub record MemIpcClient : Type 0 where
  pub has_socket : Bool
  pub connected : Bool
  pub buffer : List ℕ
  pub requests : Requests
  pub written : List ℕ

-- A character before the first of the lines.
abbrev pub put : ℕ → List (List ℕ) × List ℕ → List (List ℕ) × List ℕ
put c ([], rest) = ([], c ∷ rest)
put c (line ∷ lines, rest) = ((c ∷ line) ∷ lines, rest)

-- `split("\n")`, the last piece taken off by `pop`.
unfoldable pub cut : List ℕ → List (List ℕ) × List ℕ
cut [] = ([], [])
cut (c ∷ cs) = let r = cut cs in if c == 10 then ([] ∷ r.0, r.1) else put c r

module _ (decode : List ℕ → List ℕ) (is_space : ℕ → Bool) (parse : List ℕ → Option ℕ) where
  unfoldable pub is_blank : List ℕ → Bool
  is_blank [] = true
  is_blank (c ∷ cs) = is_space c && is_blank cs

  abbrev pub outcome : Option ℕ → Outcome
  outcome none = invalid_json
  outcome (some value) = resolved value

  -- An answer goes to the request that waits longest, if there is one.
  abbrev pub answer : List ℕ → Requests → Requests
  answer line q = elim q.pending [
    | [] ↦ q
    | id ∷ ids ↦ record { pending = ids; settled = q.settled ++ (id, outcome (parse line)) ∷ [] }
  ]

  -- The loop over the lines.
  unfoldable pub take_lines : List (List ℕ) → Requests → Requests
  unfolding is_blank
  take_lines [] q = q
  take_lines (line ∷ lines) q = take_lines lines (if is_blank line then q else answer line q)

  -- The listener on "data".
  unfoldable pub on_data : List ℕ → MemIpcClient → MemIpcClient
  unfolding cut take_lines
  on_data chunk s =
      let r = cut (s.buffer ++ decode chunk) in
      record s { buffer = r.1; requests = take_lines r.0 s.requests }

abbrev pub rejected : Outcome → Requests → Requests
rejected o q = record { pending = []; settled = q.settled ++ map (λ id. (id, o)) q.pending }

-- The socket is open.
unfoldable pub on_connect : MemIpcClient → MemIpcClient
on_connect s = record s { has_socket = true; connected = true; buffer = [] }

-- Before the connection stands, only the attempt to connect is rejected.
pub on_error : MemIpcClient → MemIpcClient
on_error s =
    if s.connected
    then record s { connected = false; requests = rejected socket_error s.requests }
    else s

unfoldable pub on_close : MemIpcClient → MemIpcClient
on_close s = record s { connected = false; requests = rejected socket_closed s.requests }

-- `false` is the rejection "IPC not connected".
unfoldable pub send : ℕ → MemIpcClient → Bool × MemIpcClient
send id s =
    if s.has_socket && s.connected
    then (
      true,
      record s {
        requests = record (s.requests) { pending = s.requests.pending ++ id ∷ [] };
        written = s.written ++ id ∷ [];
      },
    )
    else (false, s)

pub disconnect : MemIpcClient → MemIpcClient
disconnect s =
    if s.has_socket
    then record s {
      has_socket = false;
      connected = false;
      requests = rejected disconnected s.requests;
    }
    else s
