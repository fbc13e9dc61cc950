-- ===== src/Context/Lines.antt =====
-- packages/runner/src/context.ts: `readJsonl` and `writeJsonl`. A file is the list of its characters,
-- or missing. `parse` is `JSON.parse` (`none` where it throws), `stringify` is `JSON.stringify`, and
-- `is_space` stands for the characters that `String.trim` takes away.
mod Tests
use claude_agent_runner.Common.{
  ℕ, ◌≡◌, refl, sym, ap, ◌∙◌, inl, inr, Option, none, some, Bool, true, false, List, [], ◌∷◌, ◌++◌,
  map, if◌then◌else◌, ◌==◌, arith, last, get_elem?, count, Bool-cases,
}
use mathlib.Core.List.{append_assoc, append-nil}
use claude_agent_runner.TokenPool.{trim_start, trim_end}
use claude_agent_runner.Context.{JsonlRecord}

abbrev pub newline : ℕ
newline = 10

abbrev pub open_brace : ℕ
open_brace = 123

abbrev pub close_brace : ℕ
close_brace = 125

abbrev pub cons_first : ℕ → List (List ℕ) → List (List ℕ)
cons_first c [] = (c ∷ []) ∷ []
cons_first c (piece ∷ pieces) = (c ∷ piece) ∷ pieces

-- `raw.split("\n")`.
unfoldable pub split_lines : List ℕ → List (List ℕ)
split_lines [] = [] ∷ []
split_lines (c ∷ cs) = if c == newline then [] ∷ split_lines cs else cons_first c (split_lines cs)

abbrev pub trim : (ℕ → Bool) → List ℕ → List ℕ
trim is_space text = trim_end is_space (trim_start is_space text)

abbrev pub add_parsed : Option JsonlRecord → List JsonlRecord → List JsonlRecord
add_parsed none rs = rs
add_parsed (some r) rs = r ∷ rs

abbrev pub add_line : (List ℕ → Option JsonlRecord) → List ℕ → List JsonlRecord → List JsonlRecord
add_line parse [] rs = rs
add_line parse (c ∷ cs) rs = add_parsed (parse (c ∷ cs)) rs

-- The loop of `readJsonl`: blank and malformed lines are skipped.
unfoldable pub read_lines :
    (ℕ → Bool) → (List ℕ → Option JsonlRecord) → List (List ℕ) → List JsonlRecord
read_lines is_space parse [] = []
read_lines is_space parse (line ∷ lines) =
    add_line parse (trim is_space line) (read_lines is_space parse lines)

unfoldable pub read_jsonl :
    (ℕ → Bool) → (List ℕ → Option JsonlRecord) → Option (List ℕ) → List JsonlRecord
unfolding read_lines split_lines
read_jsonl is_space parse none = []
read_jsonl is_space parse (some raw) = read_lines is_space parse (split_lines raw)

-- `join("\n")`.
unfoldable pub join_lines : List (List ℕ) → List ℕ
join_lines [] = []
join_lines (line ∷ []) = line
join_lines (line ∷ next ∷ lines) = line ++ newline ∷ join_lines (next ∷ lines)

unfoldable pub write_jsonl : (JsonlRecord → List ℕ) → List JsonlRecord → List ℕ
unfolding join_lines
write_jsonl stringify rs = join_lines (map stringify rs) ++ newline ∷ []

-- What `JSON.stringify` makes of an object: one line between braces, which `JSON.parse` reads back.
pub record Codec (is_space : ℕ → Bool) (parse : List ℕ → Option JsonlRecord)
    (stringify : JsonlRecord → List ℕ) : Type 0 where
  pub parses : (r : JsonlRecord) → parse (stringify r) ≡ some r
  pub one_line : (r : JsonlRecord) → count (λ c. c == newline) (stringify r) ≡ 0
  pub opens : (r : JsonlRecord) → get_elem? (stringify r) 0 ≡ some open_brace
  pub shuts : (r : JsonlRecord) → last (stringify r) ≡ some close_brace
  pub opens_printed : is_space open_brace ≡ false
  pub shuts_printed : is_space close_brace ≡ false

-- A file is read as the records, and what is appended to it is read behind them.
abbrev pub ReadBack :
    (ℕ → Bool) → (List ℕ → Option JsonlRecord) → List JsonlRecord → List ℕ → Type 0
ReadBack is_space parse rs written =
    (read_jsonl is_space parse (some written) ≡ rs)
    × ((more : List ℕ)
        → read_jsonl is_space parse (some (written ++ more))
          ≡ rs ++ read_jsonl is_space parse (some more))

trim_start_printed :
    (is_space : ℕ → Bool) (text : List ℕ) (c : ℕ)
    → get_elem? text 0 ≡ some c
    → is_space c ≡ false
    → trim_start is_space text ≡ text
unfolding trim_start
trim_start_printed is_space [] c e h = refl
trim_start_printed is_space (d ∷ ds) c e h =
    let f : d ≡ c = ground arith in rw (ap is_space f ∙ h) refl

trim_end_printed :
    (is_space : ℕ → Bool) (text : List ℕ) (c : ℕ)
    → last text ≡ some c
    → is_space c ≡ false
    → trim_end is_space text ≡ text
unfolding trim_end
trim_end_printed is_space [] c e h = refl
trim_end_printed is_space (d ∷ []) c e h =
    let f : d ≡ c = ground arith in rw (ap is_space f ∙ h) refl
trim_end_printed is_space (d ∷ x ∷ xs) c e h = rw (trim_end_printed is_space (x ∷ xs) c e h) refl

split_line :
    (line rest : List ℕ)
    → count (λ c. c == newline) line ≡ 0
    → split_lines (line ++ newline ∷ rest) ≡ line ∷ split_lines rest
unfolding split_lines
split_line [] rest e = refl
split_line (c ∷ cs) rest e = elim (Bool-cases (c == newline)) [
  | inl u ↦ ground arith
  | inr u ↦ rw (u, split_line cs rest (rw u at e)) refl
]

module _ (is_space : ℕ → Bool) (parse : List ℕ → Option JsonlRecord)
    (stringify : JsonlRecord → List ℕ) where
  add_line_of :
      Codec is_space parse stringify
      → (r : JsonlRecord) (rs : List JsonlRecord)
      → add_line parse (trim is_space (stringify r)) rs ≡ r ∷ rs
  add_line_of k r rs =
      rw
        (
          trim_start_printed is_space (stringify r) open_brace (k.opens r) k.opens_printed,
          trim_end_printed is_space (stringify r) close_brace (k.shuts r) k.shuts_printed,
        )
        (go (stringify r) (k.opens r) (k.parses r))
    where
      go :
          (text : List ℕ)
          → get_elem? text 0 ≡ some open_brace
          → parse text ≡ some r
          → add_line parse text rs ≡ r ∷ rs
      go [] e h = cc
      go (c ∷ cs) e h = rw h refl

  read_record :
      Codec is_space parse stringify
      → (r : JsonlRecord) (rest : List ℕ)
      → read_lines is_space parse (split_lines (stringify r ++ newline ∷ rest))
        ≡ r ∷ read_lines is_space parse (split_lines rest)
  unfolding read_lines
  read_record k r rest =
      rw (split_line (stringify r) rest (k.one_line r))
        (add_line_of k r (read_lines is_space parse (split_lines rest)))

  read_written :
      Codec is_space parse stringify
      → (rs : List JsonlRecord) (more : List ℕ)
      → read_lines is_space parse (split_lines (join_lines (map stringify rs) ++ newline ∷ more))
        ≡ rs ++ read_lines is_space parse (split_lines more)
  unfolding read_lines split_lines join_lines trim_end trim_start
  read_written k [] more = refl
  read_written k (r ∷ []) more = read_record k r more
  read_written k (r ∷ s ∷ rs) more =
      ap (λ text. read_lines is_space parse (split_lines text))
        (append_assoc (stringify r) (newline ∷ join_lines (map stringify (s ∷ rs)))
          (newline ∷ more))
      ∙ read_record k r (join_lines (map stringify (s ∷ rs)) ++ newline ∷ more)
      ∙ ap (λ read. r ∷ read) (read_written k (s ∷ rs) more)

  -- With a `JSON.stringify` that makes one line between braces of a record, which `JSON.parse` reads
  -- back, `readJsonl` reads what `writeJsonl` wrote, and where any text was appended to it, the
  -- records first and then what is read of that text.
  pub read_jsonl-write_jsonl :
      Codec is_space parse stringify
      → (rs : List JsonlRecord) → ReadBack is_space parse rs (write_jsonl stringify rs)
  unfolding read_jsonl write_jsonl trim_end trim_start
  read_jsonl-write_jsonl k rs = (
    read_written k rs [] ∙ append-nil rs,
    λ more.
        ap (λ text. read_lines is_space parse (split_lines text))
          (append_assoc (join_lines (map stringify rs)) (newline ∷ []) more)
        ∙ read_written k rs more,
  )
