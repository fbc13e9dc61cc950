-- ===== src/TokenPool.antt =====
-- packages/orchestrator/src/token-pool.ts: OAuth tokens handed out in rotation, one to a session.
-- A session id is a number, a token is the list of its characters; `is_space` stands for the
-- characters that `String.trim` takes away.
mod Tests
pub mod Validity
pub mod Affinity
pub mod Rotation
pub mod Usage
use claude_agent_runner.Common.{
  ℕ, zero, suc, ◌+◌, ◌%◌, Option, none, some, Bool, true, false, List, [], ◌∷◌, ◌++◌, map,
  if◌then◌else◌, get_or, ltb, ◌==◌, length, get_elem?, filter,
}
use claude_agent_runner.Common.Dict.{lookup, insert, remove}

pub record TokenPool : Type 0 where
  pub tokens : List (List ℕ)
  pub next_index : ℕ
  pub session_tokens : List (ℕ × ℕ)

-- `split(",")`: the pieces between the commas, the last one open.
pub split_comma : List ℕ → List ℕ → List (List ℕ)
split_comma piece [] = piece ∷ []
split_comma piece (c ∷ cs) =
    let cut = piece ∷ split_comma [] cs in
    let longer = split_comma (piece ++ c ∷ []) cs in if c == b',' then cut else longer

unfoldable pub trim_start : (ℕ → Bool) → List ℕ → List ℕ
trim_start is_space [] = []
trim_start is_space (c ∷ cs) = if is_space c then trim_start is_space cs else c ∷ cs

unfoldable pub trim_end : (ℕ → Bool) → List ℕ → List ℕ
trim_end is_space [] = []
trim_end is_space (c ∷ cs) = elim (trim_end is_space cs) [
  | [] ↦ if is_space c then [] else c ∷ []
  | d ∷ ds ↦ c ∷ d ∷ ds
]

abbrev pub is_nonempty : List ℕ → Bool
is_nonempty [] = false
is_nonempty (c ∷ cs) = true

pub parse_tokens : (ℕ → Bool) → List ℕ → List (List ℕ)
unfolding split_comma trim_start trim_end
parse_tokens is_space text =
    filter is_nonempty (map (λ t. trim_end is_space (trim_start is_space t)) (split_comma [] text))

abbrev pub nonempty_pool : List (List ℕ) → Option TokenPool
nonempty_pool [] = none
nonempty_pool (t ∷ ts) = some (record { tokens = t ∷ ts; next_index = 0; session_tokens = [] })

-- The constructor; `none` is the error "No valid OAuth tokens provided".
pub create : (ℕ → Bool) → List ℕ → Option TokenPool
unfolding parse_tokens
create is_space text = nonempty_pool (parse_tokens is_space text)

abbrev pub size : TokenPool → ℕ
size p = length p.tokens

-- The loop of `restore`: an index past the tokens is dropped.
pub restore_sessions : ℕ → List (ℕ × ℕ) → List (ℕ × ℕ) → List (ℕ × ℕ)
restore_sessions n [] m = m
restore_sessions n ((session, token_index) ∷ rest) m =
    restore_sessions n rest (if ltb token_index n then insert session token_index m else m)

pub restore : List (ℕ × ℕ) → Option ℕ → TokenPool → TokenPool
unfolding restore_sessions
restore active max_index p = record p {
  session_tokens = restore_sessions (size p) active p.session_tokens;
  next_index = elim max_index [ none ↦ p.next_index | some k ↦ (k + 1) % size p ];
}

pub record Assigned : Type 0 where
  pub token : Option (List ℕ)
  pub token_index : ℕ

unfoldable pub assign : ℕ → TokenPool → Assigned × TokenPool
assign session p = (
  record { token = get_elem? p.tokens p.next_index; token_index = p.next_index },
  record p {
    next_index = (p.next_index + 1) % size p;
    session_tokens = insert session p.next_index p.session_tokens;
  },
)

abbrev pub get_by_index : ℕ → TokenPool → Option (List ℕ)
get_by_index token_index p = get_elem? p.tokens token_index

pub get : ℕ → TokenPool → Option (List ℕ)
get session p = elim (lookup session p.session_tokens) [ none ↦ none | some i ↦ get_by_index i p ]

unfoldable pub release : ℕ → TokenPool → TokenPool
release session p = record p { session_tokens = remove session p.session_tokens }

-- The loop of `usage` over the values of the map.
pub tally : List (ℕ × ℕ) → List (ℕ × ℕ) → List (ℕ × ℕ)
tally [] counts = counts
tally ((_, i) ∷ m) counts = tally m (insert i (get_or (lookup i counts) 0 + 1) counts)

pub usage_from : ℕ → List (List ℕ) → List (ℕ × ℕ) → List (ℕ × ℕ)
usage_from i [] counts = []
usage_from i (t ∷ ts) counts = (i, get_or (lookup i counts) 0) ∷ usage_from (i + 1) ts counts

pub usage : TokenPool → List (ℕ × ℕ)
unfolding tally usage_from
usage p = usage_from 0 p.tokens (tally p.session_tokens [])

pub data Op : Type 0 where
  restores : List (ℕ × ℕ) → Option ℕ → Op
  assigns releases : ℕ → Op

pub step : Op → TokenPool → TokenPool
unfolding restore assign release
step (restores active k) p = restore active k p
step (assigns s) p = (assign s p).1
step (releases s) p = release s p

pub run : List Op → TokenPool → TokenPool
run [] p = p
run (o ∷ os) p = run os (step o p)

-- A row of sessions, and the token indices that they were given.
pub assign_all : List ℕ → TokenPool → List ℕ
assign_all [] p = []
assign_all (s ∷ ss) p = let (a, q) = assign s p in a.token_index ∷ assign_all ss q
