-- ===== src/TokenPool/Rotation.antt =====
-- `assign` goes round the tokens.
use native.Mathlib.Nat.{mod-add-mod, mod-eq_of_lt, mod-lt}
use claude_agent_runner.Common.{
  ℕ, zero, suc, ◌+◌, ◌%◌, ◌<◌, ◌≡◌, ap, ◌∙◌, some, List, [], ◌∷◌, arith, length, get_elem?,
}
use claude_agent_runner.TokenPool.{TokenPool, size, assign, assign_all}

-- The tokens are handed out in strict rotation: the k-th of a row of new sessions gets the index
-- that lies k places, modulo the number of tokens, behind the next one.
pub assign_all_rotation :
    (ss : List ℕ) (p : TokenPool) (k : ℕ)
    → p.next_index < size p
    → k < length ss
    → get_elem? (assign_all ss p) k ≡ some ((p.next_index + k) % size p)
unfolding assign_all assign
assign_all_rotation [] p k v h = elim h [ ]
assign_all_rotation (s ∷ ss) p zero v h =
    let e : p.next_index + 0 ≡ p.next_index = omega arith in rw (e, mod-eq_of_lt v)
assign_all_rotation (s ∷ ss) p (suc k) v h =
    assign_all_rotation ss (assign s p).1 k (mod-lt (p.next_index + 1) (omega arith)) (omega arith)
    ∙ ap some (mod-add-mod (p.next_index + 1) (size p) k ∙ ap (λ n. n % size p) (omega arith))
