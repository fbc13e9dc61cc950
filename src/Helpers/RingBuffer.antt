-- ===== src/Helpers/RingBuffer.antt =====
-- packages/runner/src/helpers.ts: the buffer holds the last lines of all that was pushed.
use claude_agent_runner.Common.{
  ℕ, zero, suc, ◌+◌, ◌-◌, ◌≡◌, refl, sym, ap, ◌∙◌, inl, inr, Option, true, false, List, [], ◌∷◌,
  ◌++◌, ltb, get_or, length, length-append, drop, filter, min, max, ◌≤◌, ◌<◌, arith, Bool-cases,
}
use mathlib.Core.List.{append_assoc, append-nil}
use mathlib.Core.Path.{subst}
use claude_agent_runner.TokenPool.{is_nonempty}
use claude_agent_runner.Helpers.{split_chunk, push_line, push_pieces, push, last_n, tail}

-- The chunks of a process, one after the other.
abbrev pub push_all : ℕ → List (List ℕ) → List (List ℕ) → List (List ℕ)
push_all m [] lines = lines
push_all m (chunk ∷ chunks) lines = push_all m chunks (push m chunk lines)

-- All lines of the chunks that are not empty.
unfoldable pub all_lines : List (List ℕ) → List (List ℕ)
all_lines [] = []
all_lines (chunk ∷ chunks) = filter is_nonempty (split_chunk chunk) ++ all_lines chunks

drop-append : (k : ℕ) (xs ys : List (List ℕ)) → k ≤ length xs → drop k (xs ++ ys) ≡ drop k xs ++ ys
drop-append zero xs ys h = refl
drop-append (suc k) [] ys h = let bad : ⊥ = omega arith in absurd bad
drop-append (suc k) (x ∷ xs) ys h = drop-append k xs ys (omega arith)

drop-drop : (k : ℕ) (xs : List (List ℕ)) → drop 1 (drop k xs) ≡ drop (suc k) xs
drop-drop zero xs = refl
drop-drop (suc k) [] = refl
drop-drop (suc k) (x ∷ xs) = drop-drop k xs

length-drop : (k : ℕ) (xs : List (List ℕ)) → length (drop k xs) ≡ length xs - k
length-drop zero xs = omega arith
length-drop (suc k) [] = omega arith
length-drop (suc k) (x ∷ xs) = omega (arith, length-drop k xs)

push_line_last :
    (m : ℕ) (all : List (List ℕ)) (line : List ℕ)
    → push_line m line (last_n m all) ≡ last_n m (all ++ line ∷ [])
push_line_last m all line = elim (Bool-cases (ltb (length all) m)) [
  | inl t ↦
      let n : length (all ++ line ∷ []) ≡ length all + 1 = length-append all (line ∷ []) in
      let less : length all < m = ground arith in
      let e : length all - m ≡ 0 = omega arith in
      let f : length (all ++ line ∷ []) - m ≡ 0 = omega arith in
      let u : ltb m (length (all ++ line ∷ [])) ≡ false = ground arith in rw (e, u, f) refl
  | inr t ↦
      let n : length (all ++ line ∷ []) ≡ length all + 1 = length-append all (line ∷ []) in
      let more : m ≤ length all = ground arith in
      let kept = drop (length all - m) all in
      let k : length kept ≡ length all - (length all - m) = length-drop (length all - m) all in
      let l : length (kept ++ line ∷ []) ≡ length kept + 1 = length-append kept (line ∷ []) in
      let u : ltb m (length (kept ++ line ∷ [])) ≡ true = ground arith in
      let e : suc (length all - m) ≡ length (all ++ line ∷ []) - m = omega arith in
      rw u (
        ap (drop 1) (sym (drop-append (length all - m) all (line ∷ []) (omega arith)))
        ∙ drop-drop (length all - m) (all ++ line ∷ [])
        ∙ ap (λ i. drop i (all ++ line ∷ [])) e)
]

push_pieces_last :
    (m : ℕ) (pieces all : List (List ℕ))
    → push_pieces m pieces (last_n m all) ≡ last_n m (all ++ filter is_nonempty pieces)
unfolding push_pieces
push_pieces_last m [] all = ap (last_n m) (sym (append-nil all))
push_pieces_last m ([] ∷ pieces) all = push_pieces_last m pieces all
push_pieces_last m ((c ∷ cs) ∷ pieces) all =
    ap (push_pieces m pieces) (push_line_last m all (c ∷ cs))
    ∙ push_pieces_last m pieces (all ++ (c ∷ cs) ∷ [])
    ∙ ap (last_n m) (append_assoc all ((c ∷ cs) ∷ []) (filter is_nonempty pieces))

push_all_last :
    (m : ℕ) (chunks all : List (List ℕ))
    → push_all m chunks (last_n m all) ≡ last_n m (all ++ all_lines chunks)
unfolding push all_lines
push_all_last m [] all = ap (last_n m) (sym (append-nil all))
push_all_last m (chunk ∷ chunks) all =
    ap (push_all m chunks) (push_pieces_last m (split_chunk chunk) all)
    ∙ push_all_last m chunks (all ++ filter is_nonempty (split_chunk chunk))
    ∙ ap (last_n m) (append_assoc all (filter is_nonempty (split_chunk chunk)) (all_lines chunks))

last_n_nothing : (m : ℕ) → last_n m [] ≡ []
last_n_nothing m = go (0 - m)
  where
    go : (k : ℕ) → drop {A = List ℕ} k [] ≡ []
    go zero = refl
    go (suc k) = refl

length-last_n : (m : ℕ) (xs : List (List ℕ)) → length (last_n m xs) ≡ min m (length xs)
length-last_n m xs = omega (arith, length-drop (length xs - m) xs)

drop-suffix : (k : ℕ) (xs : List (List ℕ)) → (older : List (List ℕ)) × (xs ≡ older ++ drop k xs)
drop-suffix zero xs = ([], refl)
drop-suffix (suc k) [] = ([], refl)
drop-suffix (suc k) (x ∷ xs) = let (older, e) = drop-suffix k xs in (x ∷ older, ap (λ l. x ∷ l) e)

-- The last part of a list, with this length.
abbrev pub IsEnd : List (List ℕ) → ℕ → List (List ℕ) → Type 0
IsEnd all n end = ((older : List (List ℕ)) × (all ≡ older ++ end)) × (length end ≡ n)

last_n-IsEnd : (m : ℕ) (xs : List (List ℕ)) → IsEnd xs (min m (length xs)) (last_n m xs)
last_n-IsEnd m xs = (drop-suffix (length xs - m) xs, length-last_n m xs)

-- The buffer holds the end of all lines, and `tail` gives the end of the buffer.
abbrev pub HoldsLast : ℕ → Option ℕ → List (List ℕ) → List (List ℕ) → Type 0
HoldsLast m limit all lines =
    IsEnd all (min m (length all)) lines
    × IsEnd lines (min (max 1 (min (get_or limit m) m)) (length lines)) (tail m limit lines)

-- Whatever chunks were pushed into an empty buffer, it holds the last `max_lines` of their lines that
-- are not empty, in order, or all of them if there are fewer. `tail` gives the last lines of the
-- buffer, in order: as many as the limit says, but one at least and `max_lines` at most, or all lines
-- if there are fewer.
pub push-HoldsLast :
    (m : ℕ) (limit : Option ℕ) (chunks : List (List ℕ))
    → HoldsLast m limit (all_lines chunks) (push_all m chunks [])
unfolding tail
push-HoldsLast m limit chunks =
    let e : push_all m chunks [] ≡ last_n m (all_lines chunks) =
      ap (push_all m chunks) (sym (last_n_nothing m)) ∙ push_all_last m chunks [] in
    (
      subst (IsEnd (all_lines chunks) (min m (length (all_lines chunks)))) (sym e)
          (last_n-IsEnd m (all_lines chunks)),
      last_n-IsEnd (max 1 (min (get_or limit m) m)) (push_all m chunks []),
    )
