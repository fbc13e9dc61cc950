-- ===== src/LiveContext/Placeholder.antt =====
-- packages/runner/src/merge-back.ts: what `buildRealResult` does with the message that it is given.
use claude_agent_runner.Common.{
  ℕ, ◌≡◌, refl, sym, ap, ◌∙◌, ◌⊎◌, inl, inr, Option, none, some, Bool, true, false, ◌||◌, ◌&&◌,
  List, [], ◌∷◌, map, any, same, arith, Bool-cases,
}
use claude_agent_runner.LiveContext.{
  Block, Content, text_content, blocks, Message, Notice, text_mentions, content_mentions,
  real_block, with_blocks, real_content,
}

module _ (includes : ℕ → ℕ → Bool) (text_of_notice : Notice → ℕ) (user_role : ℕ) where
  -- The block that waits for the result of the task.
  abbrev pub is_placeholder : ℕ → Block → Bool
  is_placeholder task b =
      b.is_tool_result && text_mentions includes text_of_notice user_role task b.content

  abbrev pub holds_result : ℕ → Block → Bool
  holds_result real b = b.is_tool_result && same b.content (some real)

  -- Block by block: the placeholders have the result, the others are as they were.
  pub data Filled (task real : ℕ) : List Block → List Block → Type 0 where
    empty : Filled task real [] []
    filled :
        {b : Block} {bs cs : List Block}
        → is_placeholder task b ≡ true
        → Filled task real bs cs
        → Filled task real (b ∷ bs) (record b { content = some real } ∷ cs)
    kept :
        {b : Block} {bs cs : List Block}
        → is_placeholder task b ≡ false
        → Filled task real bs cs
        → Filled task real (b ∷ bs) (b ∷ cs)

  real_block-Filled :
      (task real : ℕ) (bs : List Block)
      → Filled task real bs (map (real_block includes text_of_notice user_role task real) bs)
  real_block-Filled task real [] = empty
  real_block-Filled task real (b ∷ bs) = elim (Bool-cases (is_placeholder task b)) [
    | inl t ↦ rw t (filled t (real_block-Filled task real bs))
    | inr t ↦ rw t (kept t (real_block-Filled task real bs))
  ]

  no_other : (p q : Bool) → p ≡ false → (p || q) ≡ true → q ≡ true
  no_other false q e h = h
  no_other true q e h = cc

  later_one : (p q : Bool) → q ≡ true → (p || q) ≡ true
  later_one true q e = refl
  later_one false q e = e

  same_one : (n : ℕ) → same (some n) (some n) ≡ true
  same_one n = ground arith

  both_true : (p q : Bool) → (p && q) ≡ true → p ≡ true
  both_true true q e = refl
  both_true false q e = e

  -- With a placeholder the result is there, without one it is not put anywhere.
  Filled-holds_result :
      {task real : ℕ} {bs cs : List Block}
      → Filled task real bs cs
      → any (is_placeholder task) bs ≡ true
      → any (holds_result real) cs ≡ true
  Filled-holds_result empty e = e
  Filled-holds_result {task} {real} (filled {b} {bs} {cs} t f) e =
      rw
        (
          both_true b.is_tool_result
              (text_mentions includes text_of_notice user_role task b.content) t,
          same_one real,
        )
        refl
  Filled-holds_result {task} {real} (kept {b} {bs} {cs} t f) e =
      later_one (holds_result real b) (any (holds_result real) cs) (
        Filled-holds_result f (no_other (is_placeholder task b) (any (is_placeholder task) bs) t e))

  Filled-none :
      {task real : ℕ} {bs cs : List Block}
      → Filled task real bs cs
      → any (is_placeholder task) bs ≡ false
      → cs ≡ bs
  Filled-none empty e = refl
  Filled-none {task} {real} (filled {b} {bs} {cs} t f) e =
      let bad : true ≡ false = sym (ap (λ p. p || any (is_placeholder task) bs) t) ∙ e in cc
  Filled-none {task} {real} (kept {b} {bs} {cs} t f) e =
      ap (λ l. b ∷ l) (Filled-none f (sym (ap (λ p. p || any (is_placeholder task) bs) t) ∙ e))

  -- The message that takes the place of another, of which this is the content.
  abbrev pub IsReplaced : ℕ → ℕ → Option Content → Message → Message → Type 0
  IsReplaced task real none m m' = ⊥
  IsReplaced task real (some (text_content t)) m m' =
      m' ≡ record m { content = some (text_content real) }
  IsReplaced task real (some (blocks bs)) m m' =
      (cs : List Block) × (m' ≡ with_blocks includes text_of_notice user_role cs m)
      × Filled task real bs cs
      × (((any (is_placeholder task) bs ≡ true) × (any (holds_result real) cs ≡ true))
          ⊎ ((any (is_placeholder task) bs ≡ false) × (cs ≡ bs)))

  pub real_content-IsReplaced :
      (task real : ℕ) (x : Option Content) (m : Message)
      → content_mentions includes text_of_notice user_role task x ≡ true
      → IsReplaced task real x m (real_content includes text_of_notice user_role task real x m)
  real_content-IsReplaced task real none m e = let bad : false ≡ true = e in cc
  real_content-IsReplaced task real (some (text_content t)) m e = refl
  real_content-IsReplaced task real (some (blocks bs)) m e =
      let f = real_block-Filled task real bs in
      (
        map (real_block includes text_of_notice user_role task real) bs,
        refl,
        f,
        elim (Bool-cases (any (is_placeholder task) bs)) [
          | inl t ↦ inl (t, Filled-holds_result f t)
          | inr t ↦ inr (t, Filled-none f t)
        ],
      )
