-- ===== src/LiveContext/Merge.antt =====
-- packages/runner/src/merge-back.ts: where the result of a background session goes.
use claude_agent_runner.Common.{
  ℕ, suc, ◌+◌, ◌≡◌, refl, ap, ◌∙◌, ◌⊎◌, inl, inr, Option, none, some, Bool, true, false, ◌||◌, ◌&&◌,
  not, is_some, List, [], ◌∷◌, ◌++◌, any, length, get_elem?, arith,
}
use mathlib.Core.List.{append_assoc}
use claude_agent_runner.LiveContext.{
  Message, content_of, SpliceEnd, spliced, not_spliced, splice_lost, DrainResult, Notice,
  completed_notice, failed_notice, mentions, find_placeholder_index, later_or, build_real_result,
  notice_message, merged_at, replaced_at, merged, merge_back_result,
}
use claude_agent_runner.LiveContext.Placeholder.{IsReplaced, real_content-IsReplaced}
use claude_agent_runner.LiveContext.Rewind.{take_before, drop_through}

at_index :
    (b : List Message) (m : Message) (a : List Message) → get_elem? (b ++ m ∷ a) (length b) ≡ some m
at_index [] m a = refl
at_index (x ∷ b) m a = at_index b m a

-- The last message that passes stands at the index, or none passes.
abbrev pub IsLast : (Message → Bool) → List Message → Option ℕ → Type 0
IsLast test ms none = any test ms ≡ false
IsLast test ms (some i) =
    (b : List Message) × (m : Message) × (a : List Message) × (ms ≡ b ++ m ∷ a)
    × (i ≡ length b)
    × (test m ≡ true)
    × (any test a ≡ false)

no_more : (p q : Bool) → p ≡ false → q ≡ false → (p || q) ≡ false
no_more false q e h = h
no_more true q e h = cc

module _ (includes : ℕ → ℕ → Bool) (text_of_notice : Notice → ℕ) (user_role : ℕ) where
  abbrev mentioned : ℕ → Message → Bool
  mentioned task m = mentions includes text_of_notice user_role task m

  later_or-IsLast :
      (task : ℕ) (x : Message) (ms : List Message) (i : Option ℕ)
      → IsLast (mentioned task) ms i
      → IsLast
          (mentioned task)
          (x ∷ ms)
          (later_or includes text_of_notice user_role i (mentioned task x))
  later_or-IsLast task x ms none h = go (mentioned task x) refl
    where
      go :
          (here : Bool)
          → mentioned task x ≡ here
          → IsLast (mentioned task) (x ∷ ms) (later_or includes text_of_notice user_role none here)
      go true e = ([], x, ms, refl, refl, e, h)
      go false e = no_more (mentioned task x) (any (mentioned task) ms) e h
  later_or-IsLast task x ms (some i) (b, m, a, whole, place, passes, misses) =
      (x ∷ b, m, a, ap (λ l. x ∷ l) whole, ap suc place, passes, misses)

  find_placeholder_index-IsLast :
      (task : ℕ) (ms : List Message)
      → IsLast
          (mentioned task)
          ms
          (find_placeholder_index includes text_of_notice user_role task ms)
  unfolding find_placeholder_index
  find_placeholder_index-IsLast task [] = refl
  find_placeholder_index-IsLast task (x ∷ ms) =
      later_or-IsLast task x ms (find_placeholder_index includes text_of_notice user_role task ms)
        (find_placeholder_index-IsLast task ms)

  -- In place of the last message that mentions the task, or a notice at the end.
  abbrev pub HasReal : ℕ → ℕ → List Message → List Message → Type 0
  HasReal task real ms ms' =
      ((any (mentioned task) ms ≡ false)
        × (ms'
            ≡ ms ++ notice_message includes text_of_notice user_role (completed_notice task) ∷ []))
      ⊎ ((b : List Message) × (m : Message) × (m' : Message) × (a : List Message) × (ms
            ≡ b ++ m ∷ a)
          × (mentioned task m ≡ true)
          × (any (mentioned task) a ≡ false)
          × IsReplaced includes text_of_notice user_role task real
              (content_of includes text_of_notice user_role m) m m'
          × (ms' ≡ b ++ m' ∷ a))

  -- What a session that ended so leads to, if the commands succeed.
  abbrev pub IsMerged : Bool → Option ℕ → Option ℕ → ℕ → List Message → List Message → Type 0
  IsMerged true (some real) error task ms ms' = HasReal task real ms ms'
  IsMerged _ _ error task ms ms' =
      ms' ≡ ms ++ notice_message includes text_of_notice user_role (failed_notice task error) ∷ []

  -- Only a session with a result needs the messages.
  abbrev pub needs_messages : DrainResult → Bool
  needs_messages r = r.success && is_some r.result

  -- Whether the messages change.
  abbrev pub is_written : Bool → SpliceEnd → DrainResult → Bool
  is_written fetched (not_spliced e) r = false
  is_written fetched _ r = not (needs_messages r) || fetched

  merged_at-HasReal :
      (task real : ℕ) (ms : List Message) (i : Option ℕ)
      → IsLast (mentioned task) ms i
      → HasReal task real ms (merged_at includes text_of_notice user_role task real i ms)
  merged_at-HasReal task real ms none h = inl (h, refl)
  merged_at-HasReal task real ms (some i) (b, m, a, whole, place, passes, misses) = inr (
    b,
    m,
    build_real_result includes text_of_notice user_role task real m,
    a,
    whole,
    passes,
    misses,
    real_content-IsReplaced includes text_of_notice user_role task real
        (content_of includes text_of_notice user_role m) m passes,
    ap (λ l. replaced_at includes text_of_notice user_role task real i (get_elem? l i) l) whole
        ∙ ap
            (λ j.
              replaced_at includes text_of_notice user_role task real j (get_elem? (b ++ m ∷ a) j)
                (b ++ m ∷ a))
            place
        ∙ placed,
  )
    where
      placed :
          replaced_at includes text_of_notice user_role task real
            (length b)
            (get_elem? (b ++ m ∷ a) (length b))
            (b ++ m ∷ a)
          ≡ b ++ build_real_result includes text_of_notice user_role task real m ∷ a
      placed =
          let k : length b + 1 ≡ suc (length b) = omega arith in
          rw (at_index b m a, take_before b (m ∷ a), k, drop_through b m a)
            (append_assoc b (build_real_result includes text_of_notice user_role task real m ∷ [])
              a)

  abbrev pub Merges : Bool → DrainResult → ℕ → List Message → List Message → Type 0
  Merges true r task ms ms' = IsMerged r.success r.result r.error task ms ms'
  Merges false r task ms ms' = ms' ≡ ms

  -- Without a connection nothing changes. Nor does it where the command that changes the messages
  -- fails, or where there is a result and the messages cannot be fetched; a command of which only the
  -- answer is lost has changed them. Otherwise, of a session that succeeded with a result, only the
  -- last message that mentions the task changes. If it is a text, the result is its text. If it has
  -- blocks, the result is put in each block that is a tool result and mentions the task, and no other
  -- block changes: with such a block the result is in the message, and without one, where another
  -- block mentions the task, the message has the same blocks and the result is lost. If no message
  -- mentions the task, a notice at the end says that it succeeded. A session that failed, or has no
  -- result, is announced as failed at the end.
  pub merge_back_result-IsMerged :
      (fetched : Bool) (end : SpliceEnd) (r : DrainResult) (task : ℕ) (ms : List Message)
      → Merges
          (is_written fetched end r)
          r
          task
          ms
          (merge_back_result includes text_of_notice user_role true fetched end r task ms)
        × (merge_back_result includes text_of_notice user_role false fetched end r task ms ≡ ms)
  unfolding merge_back_result
  merge_back_result-IsMerged fetched end r task ms = (go fetched end r.success r.result, refl)
    where
      result_in : Bool → Option ℕ → DrainResult
      result_in success result = record { success = success; result = result; error = r.error }

      go :
          (fetched : Bool) (end : SpliceEnd) (success : Bool) (result : Option ℕ)
          → Merges
              (is_written fetched end (result_in success result))
              (result_in success result)
              task
              ms
              (merged includes text_of_notice user_role fetched end task success result r.error ms)
      go true spliced true (some real) =
          merged_at-HasReal task real ms _ (find_placeholder_index-IsLast task ms)
      go true (splice_lost e) true (some real) =
          merged_at-HasReal task real ms _ (find_placeholder_index-IsLast task ms)
      go false spliced true (some real) = refl
      go false (splice_lost e) true (some real) = refl
      go true (not_spliced e) true (some real) = refl
      go false (not_spliced e) true (some real) = refl
      go fetched spliced true none = refl
      go fetched (splice_lost e) true none = refl
      go fetched (not_spliced e) true none = refl
      go fetched spliced false none = refl
      go fetched (splice_lost e) false none = refl
      go fetched (not_spliced e) false none = refl
      go fetched spliced false (some real) = refl
      go fetched (splice_lost e) false (some real) = refl
      go fetched (not_spliced e) false (some real) = refl
