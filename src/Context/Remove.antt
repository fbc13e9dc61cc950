-- ===== src/Context/Remove.antt =====
-- `removeMessage`: what is left of the file, and where the removed message's children go.
use claude_agent_runner.Common.{
  ℕ, ◌≡◌, refl, ap, ◌⊎◌, inl, inr, Option, none, some, Bool, true, false, not, List, [], ◌∷◌, arith,
  map, same, filter, any, find?, Bool-cases, Option-cases,
}
use claude_agent_runner.Context.{JsonlRecord, not_found, Result, ok, err, repoint, remove_message}

abbrev is_at : ℕ → JsonlRecord → Bool
is_at u r = same r.uuid (some u)

abbrev names : ℕ → JsonlRecord → Bool
names u r = same r.parent_uuid (some u)

-- Either no record has the uuid, and that is the error; or the other records are left, in order,
-- and none of them names the uuid as its parent, unless the removed one did so itself.
abbrev pub Removed : List JsonlRecord → ℕ → Result (List JsonlRecord) → Type 0
Removed rs u (err e) = (e ≡ not_found u) × (any (is_at u) rs ≡ false)
Removed rs u (ok left) =
    (target : JsonlRecord) × (find? (is_at u) rs ≡ some target)
    × (map (λ (r : JsonlRecord). r.uuid) left
        ≡ filter (λ o. not (same o (some u))) (map (λ (r : JsonlRecord). r.uuid) rs))
    × ((same target.parent_uuid (some u) ≡ true) ⊎ (any (names u) left ≡ false))

none_of_find :
    (u : ℕ) (rs : List JsonlRecord) → find? (is_at u) rs ≡ none → any (is_at u) rs ≡ false
none_of_find u [] h = refl
none_of_find u (r ∷ rs) h = elim (Bool-cases (is_at u r)) [
  | inl t ↦ absurd (none_some (rw t at h))
  | inr t ↦ rw t (none_of_find u rs (rw t at h))
]
  where
    none_some : some r ≡ none → ⊥
    none_some e = ground (arith, e)

uuids_left :
    (u : ℕ) (parent : Option ℕ) (rs : List JsonlRecord)
    → map
        (λ (r : JsonlRecord). r.uuid)
        (repoint (names u) parent (filter (λ r. not (is_at u r)) rs))
      ≡ filter (λ o. not (same o (some u))) (map (λ (r : JsonlRecord). r.uuid) rs)
uuids_left u parent [] = refl
uuids_left u parent (r ∷ rs) = elim (Bool-cases (is_at u r)) [
  | inl t ↦ rw t (uuids_left u parent rs)
  | inr t ↦ rw t (elim (Bool-cases (names u r)) [
    | inl n ↦ rw n (ap (λ l. r.uuid ∷ l) (uuids_left u parent rs))
    | inr n ↦ rw n (ap (λ l. r.uuid ∷ l) (uuids_left u parent rs))
  ])
]

repointed :
    (u : ℕ) (parent : Option ℕ) (rs : List JsonlRecord)
    → same parent (some u) ≡ false
    → any (names u) (repoint (names u) parent rs) ≡ false
repointed u parent [] h = refl
repointed u parent (r ∷ rs) h = elim (Bool-cases (names u r)) [
  | inl n ↦ rw n (rw h (repointed u parent rs h))
  | inr n ↦ rw n (rw n (repointed u parent rs h))
]

-- `removeMessage` fails exactly if no record has the uuid. Otherwise the uuids that are left are the
-- others, in their order, and no record that is left names the removed one as its parent, unless
-- that one was its own parent.
pub remove_message-Removed : (rs : List JsonlRecord) (u : ℕ) → Removed rs u (remove_message rs u)
unfolding remove_message
remove_message-Removed rs u = elim (Option-cases (find? (is_at u) rs)) [
  | inl e ↦ rw (e, remove_message) (refl, none_of_find u rs e)
  | inr (target, e) ↦
      let left = filter (λ r. not (is_at u r)) rs in
      rw (e, remove_message)
        (
          target,
          e,
          uuids_left u target.parent_uuid rs,
          elim (Bool-cases (same target.parent_uuid (some u))) [
            | inl t ↦ inl t
            | inr t ↦ inr (repointed u target.parent_uuid left t)
          ],
        )
]
