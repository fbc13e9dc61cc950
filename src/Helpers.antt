-- ===== src/Helpers.antt =====
-- packages/runner/src/helpers.ts: `createStderrRingBuffer`, the last lines of a process's error
-- output. A text is the list of its characters; `lines` is the array of the closure.
pub mod RingBuffer
mod Tests
use claude_agent_runner.Common.{
  ℕ, ◌-◌, Option, none, some, Bool, true, false, ◌&&◌, List, [], ◌∷◌, ◌++◌, if◌then◌else◌, ◌==◌,
  ltb, get_or, length, drop, min, max, ◌≤◌,
}

abbrev pub line_feed : ℕ
line_feed = 10

abbrev pub carriage_return : ℕ
carriage_return = 13

abbrev pub starts_line_feed : List ℕ → Bool
starts_line_feed [] = false
starts_line_feed (c ∷ cs) = c == line_feed

abbrev pub cons_first : ℕ → List (List ℕ) → List (List ℕ)
cons_first c [] = (c ∷ []) ∷ []
cons_first c (piece ∷ pieces) = (c ∷ piece) ∷ pieces

-- `chunk.split(/\r?\n/)`: a carriage return before a line feed is part of the separator.
unfoldable pub split_chunk : List ℕ → List (List ℕ)
split_chunk [] = [] ∷ []
split_chunk (c ∷ cs) =
    let rest = split_chunk cs in
    if c == line_feed
    then [] ∷ rest
    else if c == carriage_return && starts_line_feed cs
    then rest
    else cons_first c rest

-- `lines.push(line)`, and `lines.shift()` where there are too many.
abbrev pub push_line : ℕ → List ℕ → List (List ℕ) → List (List ℕ)
push_line max_lines line lines =
    let pushed = lines ++ line ∷ [] in
    if ltb max_lines (length pushed) then drop 1 pushed else pushed

abbrev pub push_nonempty : ℕ → List ℕ → List (List ℕ) → List (List ℕ)
push_nonempty max_lines [] lines = lines
push_nonempty max_lines (c ∷ cs) lines = push_line max_lines (c ∷ cs) lines

-- The loop of `push` over the pieces.
unfoldable pub push_pieces : ℕ → List (List ℕ) → List (List ℕ) → List (List ℕ)
push_pieces max_lines [] lines = lines
push_pieces max_lines (piece ∷ pieces) lines =
    push_pieces max_lines pieces (push_nonempty max_lines piece lines)

unfoldable pub push : ℕ → List ℕ → List (List ℕ) → List (List ℕ)
unfolding push_pieces split_chunk
push max_lines chunk lines = push_pieces max_lines (split_chunk chunk) lines

-- `xs.slice(-n)` for a positive n.
abbrev pub last_n : ℕ → List (List ℕ) → List (List ℕ)
last_n n xs = drop (length xs - n) xs

unfoldable pub tail : ℕ → Option ℕ → List (List ℕ) → List (List ℕ)
tail max_lines limit lines = last_n (max 1 (min (get_or limit max_lines) max_lines)) lines
