-- ===== src/Helpers/Tests.antt =====
-- packages/runner/src/helpers.ts: runs of the ring buffer.
use claude_agent_runner.Common.{ℕ, ◌≡◌, refl, some, List, [], ◌∷◌}
use claude_agent_runner.Helpers.{split_chunk, push, tail}
use claude_agent_runner.Helpers.RingBuffer.{all_lines, push_all, HoldsLast, push-HoldsLast}

-- "a\r\nb" and "c\n\nd\n", of which the pieces of one chunk are not joined with the next.
abbrev chunks : List (List ℕ)
chunks = (97 ∷ 13 ∷ 10 ∷ 98 ∷ []) ∷ (99 ∷ 10 ∷ 10 ∷ 100 ∷ 10 ∷ []) ∷ []

splits : split_chunk (97 ∷ 13 ∷ 10 ∷ 98 ∷ []) ≡ (97 ∷ []) ∷ (98 ∷ []) ∷ []
unfolding split_chunk
splits = refl

keeps_two : push_all 2 chunks [] ≡ (99 ∷ []) ∷ (100 ∷ []) ∷ []
unfolding push
keeps_two = refl

shows_one : tail 2 (some 0) (push_all 2 chunks []) ≡ (100 ∷ []) ∷ []
unfolding push tail
shows_one = refl

push-HoldsLast_example : HoldsLast 2 (some 0) (all_lines chunks) (push_all 2 chunks [])
push-HoldsLast_example = push-HoldsLast 2 (some 0) chunks
