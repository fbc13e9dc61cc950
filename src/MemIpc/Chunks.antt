-- ===== src/MemIpc/Chunks.antt =====
-- packages/runner/src/mem-ipc.ts: what the cutting of the stream into chunks does.
use claude_agent_runner.Common.{
  ℕ, ◌≡◌, refl, sym, ap, ◌∙◌, inl, inr, Option, Bool, false, List, [], ◌∷◌, ◌++◌, ◌==◌, Bool-cases,
}
use mathlib.Core.List.{append_assoc}
use claude_agent_runner.MemIpc.{Requests, MemIpcClient, put, cut, take_lines, on_data}

-- The lines of a text that goes on with `more`.
abbrev joined : List (List ℕ) × List ℕ → List ℕ → List (List ℕ) × List ℕ
joined p more = let r = cut (p.1 ++ more) in (p.0 ++ r.0, r.1)

put-joined :
    (c : ℕ) (p : List (List ℕ) × List ℕ) (more : List ℕ)
    → (c == 10) ≡ false
    → put c (joined p more) ≡ joined (put c p) more
unfolding cut
put-joined c ([], rest) more h = rw h refl
put-joined c (line ∷ lines, rest) more h = refl

cut-append : (text more : List ℕ) → cut (text ++ more) ≡ joined (cut text) more
unfolding cut
cut-append [] more = refl
cut-append (c ∷ cs) more = elim (Bool-cases (c == 10)) [
  | inl t ↦ rw t (ap (λ r. ([] ∷ r.0, r.1)) (cut-append cs more))
  | inr t ↦ rw t (ap (put c) (cut-append cs more) ∙ put-joined c (cut cs) more t)
]

module _ (decode : List ℕ → List ℕ) (is_space : ℕ → Bool) (parse : List ℕ → Option ℕ) where
  take_lines-append :
      (ls ms : List (List ℕ)) (q : Requests)
      → take_lines decode is_space parse (ls ++ ms) q
        ≡ take_lines decode is_space parse ms (take_lines decode is_space parse ls q)
  unfolding take_lines
  take_lines-append [] ms q = refl
  take_lines-append (l ∷ ls) ms q = take_lines-append ls ms _

  -- Two chunks of the stream, which is cut where no character is (the bytes of both are decoded to
  -- what each of them is decoded to), leave the client in the state that the joined chunk leaves it
  -- in: such a cut decides neither which request an answer goes to nor what it is.
  pub on_data-append :
      (chunk more : List ℕ) (s : MemIpcClient)
      → decode (chunk ++ more) ≡ decode chunk ++ decode more
      → on_data decode is_space parse (chunk ++ more) s
        ≡ on_data decode is_space parse more (on_data decode is_space parse chunk s)
  unfolding on_data
  on_data-append chunk more s e =
      let first = cut (s.buffer ++ decode chunk) in
      let second = cut (first.1 ++ decode more) in
      let whole =
        ap (λ l. cut (s.buffer ++ l)) e
        ∙ ap cut (sym (append_assoc s.buffer (decode chunk) (decode more)))
        ∙ cut-append (s.buffer ++ decode chunk) (decode more) in
      ap
        (λ r. record s { buffer = r.1; requests = take_lines decode is_space parse r.0 s.requests })
        whole
      ∙ ap (λ q. record s { buffer = second.1; requests = q })
          (take_lines-append first.0 second.0 s.requests)
