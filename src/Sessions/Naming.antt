-- ===== src/Sessions/Naming.antt =====
-- What `create`, `remove`, `rename` and `evictableByLru` promise.
use claude_agent_runner.Common.{
  ℕ, ◌≤◌, ◌≡◌, refl, ◌∙◌, ◌⊎◌, inl, inr, Option, none, some, Bool, true, false, not, ◌&&◌, List, [],
  ◌∷◌, arith, ◌==◌, same, filter, find?, any, count, Bool-cases,
}
use claude_agent_runner.Common.Dict.{lookup, remove, lookup-remove}
use claude_agent_runner.Common.Sort.{IsSorted, sort_by-IsSorted, count-sort_by}
use claude_agent_runner.Db.{SessionRow, has_id, refers_to, delete_session}
use claude_agent_runner.Sessions.{
  SessionManager, rows, get, update, in_tenant, rename, is_taken_by, remove_session, is_evictable,
  evictable_by_lru,
}
use claude_agent_runner.Sessions.Identity.{IsUnique}

-- No two sessions of the tenant share a name; with no tenant given, no two at all.
abbrev pub UniqueNames : Option ℕ → List SessionRow → Type 0
UniqueNames tenant rs =
    (name : ℕ) → count (λ (r : SessionRow). same r.name (some name) && in_tenant tenant r) rs ≤ 1

abbrev named : Option ℕ → ℕ → SessionRow → Bool
named tenant name r = same r.name (some name) && in_tenant tenant r

abbrev set_name : ℕ → SessionRow → SessionRow
set_name name r = record r { config = record (r.config) { name = some name } }

count_renamed :
    (id name : ℕ) (tenant : Option ℕ) (rs : List SessionRow)
    → any (is_taken_by id name tenant) rs ≡ false
    → count (named tenant name) (update id (set_name name) rs) ≤ count (has_id id) rs
count_renamed id name tenant [] h = omega arith
count_renamed id name tenant (r ∷ rs) h = ground (arith, count_renamed id name tenant rs)

count_others :
    (id name other : ℕ) (tenant : Option ℕ) (rs : List SessionRow)
    → (name == other) ≡ false
    → count (named tenant other) (update id (set_name name) rs) ≤ count (named tenant other) rs
count_others id name other tenant [] h = omega arith
count_others id name other tenant (r ∷ rs) h =
    ground (arith, count_others id name other tenant rs h)

-- Where the ids and the names within a tenant are unique, `rename` for that tenant keeps these names
-- unique, also where it refuses.
pub rename-UniqueNames :
    (id name : ℕ) (tenant : Option ℕ) (m : SessionManager)
    → IsUnique (rows m)
    → UniqueNames tenant (rows m)
    → UniqueNames tenant (rows (rename id name tenant m).1)
unfolding rename
rename-UniqueNames id name tenant m u n other =
    elim (Bool-cases (any (is_taken_by id name tenant) (rows m))) [
      | inl e ↦ rw e (n other)
      | inr e ↦ rw e (elim (Bool-cases (name == other)) [
        | inl t ↦
            let p : name ≡ other = ground arith in
            rw (← p) (omega (arith, count_renamed id name tenant (rows m) e, u id))
        | inr t ↦ omega (arith, count_others id name other tenant (rows m) t, n other)
      ])
    ]

find_deleted_self :
    (id : ℕ) (rs : List SessionRow) → find? (has_id id) (filter (λ r. not (has_id id r)) rs) ≡ none
find_deleted_self id [] = refl
find_deleted_self id (r ∷ rs) = ground (arith, find_deleted_self id rs)

-- `remove` throws exactly for a session that is there and of which a context snapshot is kept, and
-- otherwise returns the session as it was and leaves neither its row nor its runtime.
pub remove_session_lem :
    (id : ℕ) (m : SessionManager)
    → ((remove_session id m ≡ none)
        × (any (has_id id) (rows m) ≡ true)
        × (any (refers_to id) m.db.snapshots ≡ true))
      ⊎ ((m' : SessionManager) × (remove_session id m ≡ some (get id m, m'))
          × (get id m' ≡ none)
          × (lookup id m'.runtime ≡ none)
          × ((any (has_id id) (rows m) && any (refers_to id) m.db.snapshots) ≡ false))
unfolding remove_session get delete_session
remove_session_lem id m =
    elim (Bool-cases (any (has_id id) (rows m) && any (refers_to id) m.db.snapshots)) [
      | inl e ↦ inl (rw (e, remove_session), ground arith, ground arith)
      | inr e ↦
          let rs = filter (λ (r : SessionRow). not (has_id id r)) (rows m) in
          inr (
            record { db = record (m.db) { sessions = rs }; runtime = remove id m.runtime },
            rw (e, remove_session),
            rw (find_deleted_self id (rows m), get),
            ground (arith, lookup-remove id id m.runtime),
            e,
          )
    ]

count_of_filter :
    (p q : SessionRow → Bool) (rs : List SessionRow)
    → count p (filter q rs) ≡ count (λ r. q r && p r) rs
count_of_filter p q [] = refl
count_of_filter p q (r ∷ rs) = ground (arith, count_of_filter p q rs)

-- The candidates for eviction come least recently active first, and are just the rows of the tenant
-- that are ready or idle and not pinned, each as often as it is in the table.
pub evictable_by_lru_lem :
    (tenant : Option ℕ) (m : SessionManager)
    → IsSorted (λ (r : SessionRow). r.last_activity) (evictable_by_lru tenant m)
      × ((p : SessionRow → Bool)
          → count p (evictable_by_lru tenant m)
            ≡ count (λ r. is_evictable tenant r && p r) (rows m))
unfolding evictable_by_lru
evictable_by_lru_lem tenant m = (
  sort_by-IsSorted (λ (r : SessionRow). r.last_activity) (filter (is_evictable tenant) (rows m)),
  λ p.
      count-sort_by (λ (r : SessionRow). r.last_activity) p (filter (is_evictable tenant) (rows m))
      ∙ count_of_filter p (is_evictable tenant) (rows m),
)
