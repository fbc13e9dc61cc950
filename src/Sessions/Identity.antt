-- ===== src/Sessions/Identity.antt =====
-- Session ids stay unique, and an operation on one session leaves the others alone.
use claude_agent_runner.Common.{
  ℕ, ◌≤◌, ◌≡◌, refl, ap, ◌∙◌, inl, inr, Option, none, some, Bool, false, not, ◌&&◌, List, [], ◌∷◌,
  ◌++◌, arith, ◌==◌, filter, find?, any, count, count-append, Bool-cases,
}
use claude_agent_runner.Common.Dict.{lookup, lookup-insert, lookup-remove}
use claude_agent_runner.Db.{
  SessionStatus, SessionConfig, SessionRow, has_id, refers_to, delete_session,
}
use claude_agent_runner.Sessions.{
  SessionManager, Session, rows, new_row, session_at, get, create, update, update_status, set_error,
  update_container_and_token, set_sdk_session_id, clear_runtime, reactivate, increment_messages,
  add_usage, update_context_tokens, increment_compact_count, remove_session, rename, is_taken_by,
  set_pinned, set_ws, set_pending_resolve,
}

-- The operations that change the state. One that throws, or a refused rename, leaves it as it was.
pub data Op : Type 0 where
  creates : ℕ → ℕ → ℕ → SessionConfig → ℕ → Op
  updates_status : ℕ → SessionStatus → ℕ → Op
  sets_error : ℕ → ℕ → ℕ → Op
  updates_container : ℕ → ℕ → ℕ → ℕ → Op
  sets_sdk_session_id : ℕ → ℕ → ℕ → Op
  reactivates : ℕ → ℕ → ℕ → ℕ → Op
  increments_messages : ℕ → ℕ → Op
  adds_usage : ℕ → ℕ → ℕ → ℕ → Op
  updates_context_tokens : ℕ → ℕ → ℕ → Op
  increments_compact_count : ℕ → ℕ → Op
  removes : ℕ → Op
  renames : ℕ → ℕ → Option ℕ → Op
  sets_pinned : ℕ → Bool → Op
  sets_ws : ℕ → ℕ → Op
  sets_pending_resolve : ℕ → Option ℕ → Op
  clears_runtime : ℕ → Op

abbrev pub target : Op → ℕ
target (creates id _ _ _ _) = id
target (updates_status id _ _) = id
target (sets_error id _ _) = id
target (updates_container id _ _ _) = id
target (sets_sdk_session_id id _ _) = id
target (reactivates id _ _ _) = id
target (increments_messages id _) = id
target (adds_usage id _ _ _) = id
target (updates_context_tokens id _ _) = id
target (increments_compact_count id _) = id
target (removes id) = id
target (renames id _ _) = id
target (sets_pinned id _) = id
target (sets_ws id _) = id
target (sets_pending_resolve id _) = id
target (clears_runtime id) = id

abbrev pub or_stay : SessionManager → Option SessionManager → SessionManager
or_stay m none = m
or_stay m (some m') = m'

abbrev pub after_remove : SessionManager → Option (Option Session × SessionManager) → SessionManager
after_remove m none = m
after_remove m (some (s, m')) = m'

unfoldable pub step : Op → SessionManager → SessionManager
unfolding create update_status set_error update_container_and_token set_sdk_session_id reactivate
    increment_messages add_usage update_context_tokens increment_compact_count remove_session rename
    set_pinned set_ws set_pending_resolve clear_runtime delete_session
step (creates id c t config now) m = or_stay m (create id c t config now m)
step (updates_status id s now) m = update_status id s now m
step (sets_error id message now) m = set_error id message now m
step (updates_container id c t now) m = update_container_and_token id c t now m
step (sets_sdk_session_id id sdk now) m = set_sdk_session_id id sdk now m
step (reactivates id c t now) m = reactivate id c t now m
step (increments_messages id now) m = increment_messages id now m
step (adds_usage id i o c) m = add_usage id i o c m
step (updates_context_tokens id n now) m = update_context_tokens id n now m
step (increments_compact_count id now) m = increment_compact_count id now m
step (removes id) m = after_remove m (remove_session id m)
step (renames id name tenant) m = (rename id name tenant m).1
step (sets_pinned id b) m = set_pinned id b m
step (sets_ws id ws) m = set_ws id ws m
step (sets_pending_resolve id r) m = set_pending_resolve id r m
step (clears_runtime id) m = clear_runtime id m

pub run : List Op → SessionManager → SessionManager
run [] m = m
run (o ∷ os) m = run os (step o m)

-- No two rows share an id.
abbrev pub IsUnique : List SessionRow → Type 0
IsUnique rs = (id : ℕ) → count (has_id id) rs ≤ 1

pub count-update :
    (id j : ℕ) (f : SessionRow → SessionRow) (rs : List SessionRow)
    → ((r : SessionRow) → (f r).id ≡ r.id)
    → count (has_id j) (update id f rs) ≡ count (has_id j) rs
count-update id j f [] k = refl
count-update id j f (r ∷ rs) k = ground (arith, k r, count-update id j f rs k)

count-filter-le :
    (p q : SessionRow → Bool) (rs : List SessionRow) → count p (filter q rs) ≤ count p rs
count-filter-le p q [] = omega arith
count-filter-le p q (r ∷ rs) = ground (arith, count-filter-le p q rs)

count_of_not-any :
    (p : SessionRow → Bool) (rs : List SessionRow) → any p rs ≡ false → count p rs ≡ 0
count_of_not-any p [] h = refl
count_of_not-any p (r ∷ rs) h = ground (arith, count_of_not-any p rs)

-- What an operation does to the rows.
data Change (id : ℕ) (old : List SessionRow) : List SessionRow → Type 0 where
  kept : Change id old old
  updated :
      (f : SessionRow → SessionRow)
      → ((r : SessionRow) → (f r).id ≡ r.id)
      → Change id old (update id f old)
  added : (r : SessionRow) → r.id ≡ id → any (has_id id) old ≡ false → Change id old (old ++ r ∷ [])
  deleted : Change id old (filter (λ r. not (has_id id r)) old)

rename-Change :
    (id name : ℕ) (tenant : Option ℕ) (m : SessionManager)
    → Change id (rows m) (rows (rename id name tenant m).1)
unfolding rename
rename-Change id name tenant m = elim (Bool-cases (any (is_taken_by id name tenant) (rows m))) [
  | inl e ↦ rw e kept
  | inr e ↦ rw e (updated _ (λ r. refl))
]

step-Change : (o : Op) (m : SessionManager) → Change (target o) (rows m) (rows (step o m))
unfolding step
step-Change (creates id c t config now) m = elim (Bool-cases (any (has_id id) (rows m))) [
  | inl e ↦ rw e kept
  | inr e ↦ rw e (added (new_row id c t config now) refl e)
]
step-Change (updates_status id s now) m = updated _ (λ r. refl)
step-Change (sets_error id message now) m = updated _ (λ r. refl)
step-Change (updates_container id c t now) m = updated _ (λ r. refl)
step-Change (sets_sdk_session_id id sdk now) m = updated _ (λ r. refl)
step-Change (reactivates id c t now) m = updated _ (λ r. refl)
step-Change (increments_messages id now) m = updated _ (λ r. refl)
step-Change (adds_usage id i o c) m = updated _ (λ r. refl)
step-Change (updates_context_tokens id n now) m = updated _ (λ r. refl)
step-Change (increments_compact_count id now) m = updated _ (λ r. refl)
step-Change (removes id) m =
    elim (Bool-cases (any (has_id id) (rows m) && any (refers_to id) m.db.snapshots)) [
      | inl e ↦ rw (e, remove_session) kept
      | inr e ↦ rw (e, remove_session) deleted
    ]
step-Change (renames id name tenant) m = rename-Change id name tenant m
step-Change (sets_pinned id b) m = updated _ (λ r. refl)
step-Change (sets_ws id ws) m = kept
step-Change (sets_pending_resolve id r) m = kept
step-Change (clears_runtime id) m = kept

Change-IsUnique :
    {id : ℕ} {old new : List SessionRow} → Change id old new → IsUnique old → IsUnique new
Change-IsUnique kept u j = u j
Change-IsUnique {id} {old} (updated f k) u j = omega (arith, count-update id j f old k, u j)
Change-IsUnique {id} {old} (added r e fresh) u j = ground (
  arith,
  count-append (has_id j) old (r ∷ []),
  u j,
  count_of_not-any (has_id id) old fresh,
  ap (λ k. count (has_id k) old) {x = j} {y = id},
)
Change-IsUnique {id} {old} deleted u j =
    omega (arith, count-filter-le (has_id j) (λ r. not (has_id id r)) old, u j)

-- In a table where no two sessions have the same id, this stays so over any history of operations.
pub run-IsUnique :
    (os : List Op) (m : SessionManager) → IsUnique (rows m) → IsUnique (rows (run os m))
unfolding run
run-IsUnique [] m u = u
run-IsUnique (o ∷ os) m u = run-IsUnique os (step o m) (Change-IsUnique (step-Change o m) u)

find-update :
    (id j : ℕ) (f : SessionRow → SessionRow) (rs : List SessionRow)
    → ((r : SessionRow) → (f r).id ≡ r.id)
    → (id == j) ≡ false
    → find? (has_id j) (update id f rs) ≡ find? (has_id j) rs
find-update id j f [] k h = refl
find-update id j f (r ∷ rs) k h = ground (arith, k r, find-update id j f rs k h)

find-append :
    (id j : ℕ) (r : SessionRow) (rs : List SessionRow)
    → r.id ≡ id
    → (id == j) ≡ false
    → find? (has_id j) (rs ++ r ∷ []) ≡ find? (has_id j) rs
find-append id j r [] e h = ground arith
find-append id j r (x ∷ rs) e h = ground (arith, find-append id j r rs e h)

find-deleted :
    (id j : ℕ) (rs : List SessionRow)
    → (id == j) ≡ false
    → find? (has_id j) (filter (λ r. not (has_id id r)) rs) ≡ find? (has_id j) rs
find-deleted id j [] h = refl
find-deleted id j (x ∷ rs) h = ground (arith, find-deleted id j rs h)

Change-find :
    {id : ℕ} {old new : List SessionRow} (j : ℕ)
    → Change id old new
    → (id == j) ≡ false
    → find? (has_id j) new ≡ find? (has_id j) old
Change-find j kept h = refl
Change-find {id} {old} j (updated f k) h = find-update id j f old k h
Change-find {id} {old} j (added r e fresh) h = find-append id j r old e h
Change-find {id} {old} j deleted h = find-deleted id j old h

step-runtime :
    (o : Op) (m : SessionManager) (j : ℕ)
    → (target o == j) ≡ false
    → lookup j (step o m).runtime ≡ lookup j m.runtime
unfolding step
step-runtime (reactivates id c t now) m j h = lookup-remove id j m.runtime ∙ rw h
step-runtime (clears_runtime id) m j h = lookup-remove id j m.runtime ∙ rw h
step-runtime (sets_ws id ws) m j h = lookup-insert id j _ m.runtime ∙ rw h
step-runtime (sets_pending_resolve id r) m j h = lookup-insert id j _ m.runtime ∙ rw h
step-runtime (removes id) m j h = ground (arith, lookup-remove id j m.runtime)
step-runtime (creates id c t config now) m j h = ground arith
step-runtime (renames id name tenant) m j h = ground arith
step-runtime _ m j h = refl

-- An operation on one session, whatever it is and whether or not it fails, changes nothing that
-- `get` returns for any other session.
pub get-step_other :
    (o : Op) (m : SessionManager) (j : ℕ) → (target o == j) ≡ false → get j (step o m) ≡ get j m
unfolding get
get-step_other o m j h =
    ap (λ r. session_at r (lookup j (step o m).runtime)) (Change-find j (step-Change o m) h)
    ∙ ap (session_at (find? (has_id j) (rows m))) (step-runtime o m j h)
