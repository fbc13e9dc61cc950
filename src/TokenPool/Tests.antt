-- ===== src/TokenPool/Tests.antt =====
-- A pool of two tokens on which the definitions are run and the theorems are applied.
use claude_agent_runner.Common.{
  ℕ, ◌<◌, ◌≡◌, refl, none, some, Bool, List, [], ◌∷◌, arith, ◌==◌, get_elem?, length,
}
use claude_agent_runner.Common.Dict.{lookup, insert, remove}
use claude_agent_runner.TokenPool.{
  TokenPool, Op, assigns, releases, restores, split_comma, trim_start, trim_end, parse_tokens,
  create, size, restore_sessions, restore, assign, get, release, tally, usage_from, usage, step,
  run, assign_all,
}
use claude_agent_runner.TokenPool.Validity.{IsValid, run-create-IsValid}
use claude_agent_runner.TokenPool.Affinity.{get-assign}
use claude_agent_runner.TokenPool.Usage.{sessions_with, total, usage_lem}

program : Unit {0}
unfolding split_comma trim_start trim_end parse_tokens create restore_sessions restore assign get
    release tally usage_from usage step run assign_all lookup insert remove
program = tt

abbrev is_blank : ℕ → Bool
is_blank c = c == b' '

-- "ab, c,"
abbrev text : List ℕ
text = b'a' ∷ b'b' ∷ b',' ∷ b' ' ∷ b'c' ∷ b',' ∷ []

abbrev two : TokenPool
two = record { tokens = (b'a' ∷ b'b' ∷ []) ∷ (b'c' ∷ []) ∷ []; next_index = 0; session_tokens = [] }

create_runs : create is_blank text ≡ some two
unfolding program
create_runs = refl

create_empty : create is_blank (b',' ∷ b' ' ∷ []) ≡ none
unfolding program
create_empty = refl

abbrev used : TokenPool
used = record two { next_index = 1; session_tokens = (5, 0) ∷ (6, 1) ∷ (7, 0) ∷ [] }

usage_runs : usage used ≡ (0, 2) ∷ (1, 1) ∷ []
unfolding program
usage_runs = refl

used-IsValid : IsValid used
used-IsValid = record { nonempty = omega arith; in_range = omega arith; below = omega arith }

abbrev history : List Op
history = assigns 5 ∷ restores ((6, 1) ∷ (8, 9) ∷ []) (some 4) ∷ releases 5 ∷ []

run-create-IsValid_example :
    let q = run history two in
    (q.next_index < size q)
    × ((s : ℕ) → (t : List ℕ) × ((assign s q).0.token ≡ some t))
    × ((s i : ℕ) → lookup s q.session_tokens ≡ some i → (t : List ℕ) × (get s q ≡ some t))
run-create-IsValid_example = run-create-IsValid is_blank text two history create_runs

get-assign_example :
    get 9 (run (assigns 5 ∷ releases 6 ∷ []) (assign 9 used).1) ≡ (assign 9 used).0.token
get-assign_example = get-assign 9 used (assigns 5 ∷ releases 6 ∷ []) (refl, (refl, tt))

usage_lem_example :
    ((i : ℕ)
      → i < size used
      → get_elem? (usage used) i ≡ some (i, sessions_with i used.session_tokens))
    × (total (usage used) ≡ length used.session_tokens)
usage_lem_example = usage_lem used used-IsValid
