-- ===== src/LiveContext/Rewind.antt =====
-- packages/runner/src/command-handler.ts: what a rewind keeps.
use claude_agent_runner.Common.{
  ℕ, suc, ◌<◌, ◌≡◌, refl, ap, ◌⊎◌, inl, inr, Option, none, some, Bool, true, false, List, [], ◌∷◌,
  ◌++◌, any, length, take, drop, Bool-cases,
}
use claude_agent_runner.LiveContext.{
  Message, not_connected, is_busy, message_not_found, ipc_failed, OpResult, failed, removed,
  has_uuid, later, find_index, SpliceEnd, spliced, not_spliced, splice_lost,
}

pub take_before : (b a : List Message) → take (length b) (b ++ a) ≡ b
take_before [] a = refl
take_before (x ∷ b) a = ap (λ l. x ∷ l) (take_before b a)

pub take_through :
    (b : List Message) (m : Message) (a : List Message)
    → take (suc (length b)) (b ++ m ∷ a) ≡ b ++ m ∷ []
take_through [] m a = refl
take_through (x ∷ b) m a = ap (λ l. x ∷ l) (take_through b m a)

pub drop_through :
    (b : List Message) (m : Message) (a : List Message) → drop (suc (length b)) (b ++ m ∷ a) ≡ a
drop_through [] m a = refl
drop_through (x ∷ b) m a = drop_through b m a

-- The first message that passes stands at the index that was found, or none passes.
abbrev pub IsFirst : (Message → Bool) → List Message → Option ℕ → Type 0
IsFirst test ms none = any test ms ≡ false
IsFirst test ms (some i) =
    (b : List Message) × (m : Message) × (a : List Message) × (ms ≡ b ++ m ∷ a)
    × (i ≡ length b)
    × (test m ≡ true)
    × (any test b ≡ false)

later-IsFirst :
    (test : Message → Bool) (x : Message) (ms : List Message) (i : Option ℕ)
    → test x ≡ false
    → IsFirst test ms i
    → IsFirst test (x ∷ ms) (later i)
later-IsFirst test x ms none e h = rw e h
later-IsFirst test x ms (some i) e (b, m, a, whole, place, passes, misses) =
    (x ∷ b, m, a, ap (λ l. x ∷ l) whole, ap suc place, passes, rw e misses)

pub find_index-IsFirst :
    (test : Message → Bool) (ms : List Message) → IsFirst test ms (find_index test ms)
unfolding find_index
find_index-IsFirst test [] = refl
find_index-IsFirst test (x ∷ ms) = elim (Bool-cases (test x)) [
  | inl e ↦ rw e ([], x, ms, refl, refl, e, refl)
  | inr e ↦ rw e (later-IsFirst test x ms (find_index test ms) e (find_index-IsFirst test ms))
]

-- The messages up to the first with the uuid, and the number of those behind it.
abbrev pub Cut : ℕ → List Message → List Message → ℕ → Type 0
Cut u ms kept n =
    (b : List Message) × (m : Message) × (a : List Message) × (ms ≡ b ++ m ∷ a)
    × (has_uuid u m ≡ true)
    × (any (has_uuid u) b ≡ false)
    × (kept ≡ b ++ m ∷ [])
    × (n ≡ length a)

abbrev pub Rewound :
    Bool → Bool → Option ℕ → SpliceEnd → ℕ → List Message → OpResult × List Message → Type 0
Rewound busy connected fetched end u ms (failed is_busy, ms') = (busy ≡ true) × (ms' ≡ ms)
Rewound busy connected fetched end u ms (failed not_connected, ms') =
    (busy ≡ false) × (connected ≡ false) × (ms' ≡ ms)
Rewound busy connected fetched end u ms (failed (message_not_found v), ms') =
    (v ≡ u)
    × (busy ≡ false)
    × (connected ≡ true)
    × (fetched ≡ none)
    × (any (has_uuid u) ms ≡ false)
    × (ms' ≡ ms)
Rewound busy connected fetched end u ms (failed (ipc_failed e), ms') =
    (busy ≡ false)
    × (connected ≡ true)
    × (((fetched ≡ some e) × (ms' ≡ ms))
        ⊎ ((fetched ≡ none)
            × ((kept : List Message) × (n : ℕ) × Cut u ms kept n
                × (0 < n)
                × (((end ≡ not_spliced e) × (ms' ≡ ms)) ⊎ ((end ≡ splice_lost e) × (ms' ≡ kept))))))
Rewound busy connected fetched end u ms (removed n, ms') =
    (busy ≡ false)
    × (connected ≡ true)
    × (fetched ≡ none)
    × Cut u ms ms' n
    × ((end ≡ spliced) ⊎ (n ≡ 0))
Rewound busy connected fetched end u ms (_, ms') = ⊥
