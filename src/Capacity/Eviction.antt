-- ===== src/Capacity/Eviction.antt =====
-- `ensureCapacity` stops as many sessions as it must, the least recently active first.
use claude_agent_runner.Common.{
  ℕ, zero, suc, ◌+◌, ◌-◌, min, ◌≤◌, ◌<◌, ◌≡◌, refl, sym, ap, ◌∙◌, inl, inr, none, some, Bool, true,
  false, ◌&&◌, List, [], ◌∷◌, arith, if◌then◌else◌, ltb, leb, ◌==◌, length, take, count, Bool-cases,
}
use claude_agent_runner.Db.{SessionRow, stopped, has_id}
use claude_agent_runner.Sessions.{
  SessionManager, rows, update, active_count, in_tenant, is_active, is_evictable, evictable_by_lru,
}
use claude_agent_runner.Sessions.Identity.{IsUnique}
use claude_agent_runner.Sessions.Naming.{evictable_by_lru_lem}
use claude_agent_runner.Capacity.{
  AppContext, session_capacity_reached, stop_session_runtime, evict, ensure_limit, ensure_any,
  ensure_capacity, stop_all,
}

abbrev stop_row : ℕ → SessionRow → SessionRow
stop_row now r = record r { status = stopped; last_activity = now }

-- The active rows with an id.
abbrev active_with : ℕ → List SessionRow → ℕ
active_with j = count (λ r. has_id j r && is_active r)

abbrev active_rows : List SessionRow → ℕ
active_rows = count (λ r. in_tenant none r && is_active r)

active_rows-stop :
    (id now : ℕ) (rs : List SessionRow)
    → active_rows (update id (stop_row now) rs) + active_with id rs ≡ active_rows rs
active_rows-stop id now [] = refl
active_rows-stop id now (r ∷ rs) = ground (arith, active_rows-stop id now rs)

active_with-stop_self :
    (id now : ℕ) (rs : List SessionRow) → active_with id (update id (stop_row now) rs) ≡ 0
active_with-stop_self id now [] = refl
active_with-stop_self id now (r ∷ rs) = ground (arith, active_with-stop_self id now rs)

active_with-stop_other :
    (id j now : ℕ) (rs : List SessionRow)
    → (id == j) ≡ false
    → active_with j (update id (stop_row now) rs) ≡ active_with j rs
active_with-stop_other id j now [] h = refl
active_with-stop_other id j now (r ∷ rs) h = ground (arith, active_with-stop_other id j now rs h)

-- The sessions of a list are distinct, and each is an active one of the table.
abbrev Candidates : List SessionRow → List SessionRow → Type 0
Candidates ss rs = (j : ℕ) → (count (has_id j) ss ≤ active_with j rs) × (active_with j rs ≤ 1)

Candidates-stop :
    (s : SessionRow) (ss rs : List SessionRow) (now : ℕ)
    → Candidates (s ∷ ss) rs
    → Candidates ss (update s.id (stop_row now) rs)
Candidates-stop s ss rs now h j = elim (Bool-cases (s.id == j)) [
  | inl t ↦
      let e : s.id ≡ j = ground arith in
      let z : active_with j (update s.id (stop_row now) rs) ≡ 0 =
        ap (λ k. active_with j (update k (stop_row now) rs)) e ∙ active_with-stop_self j now rs in
      let (a, b) = h j in ground (arith, z, a, b, t)
  | inr t ↦
      let z = active_with-stop_other s.id j now rs t in
      let (a, b) = h j in ground (arith, z, a, b, t)
]

Candidates-head :
    (s : SessionRow) (ss rs : List SessionRow) → Candidates (s ∷ ss) rs → active_with s.id rs ≡ 1
Candidates-head s ss rs h = let (a, b) = h s.id in ground (arith, a, b)

active_count-stop :
    (s : SessionRow) (ss : List SessionRow) (now : ℕ) (c : AppContext)
    → Candidates (s ∷ ss) (rows c.sessions)
    → active_count none (stop_session_runtime s.id now c).sessions + 1
      ≡ active_count none c.sessions
unfolding active_count stop_session_runtime
active_count-stop s ss now c h =
    omega
      (arith, active_rows-stop s.id now (rows c.sessions), Candidates-head s ss (rows c.sessions) h)

Candidates-stop_session :
    (s : SessionRow) (ss : List SessionRow) (now : ℕ) (c : AppContext)
    → Candidates (s ∷ ss) (rows c.sessions)
    → Candidates ss (rows (stop_session_runtime s.id now c).sessions)
unfolding stop_session_runtime
Candidates-stop_session s ss now c h = Candidates-stop s ss (rows c.sessions) now h

take_nil : (k : ℕ) → take {A = SessionRow} k [] ≡ []
take_nil zero = refl
take_nil (suc k) = refl

-- The loop stops the first of its candidates, as many as bring the count below the limit.
evict_lem :
    (limit now : ℕ) (ss : List SessionRow) (c : AppContext) (a k : ℕ)
    → 0 < limit
    → Candidates ss (rows c.sessions)
    → active_count none c.sessions ≡ a
    → a + 1 - limit ≡ k
    → (evict limit now ss a c ≡ (stop_all now (take k ss) c, a - min k (length ss)))
      × (active_count none (stop_all now (take k ss) c).sessions ≡ a - min k (length ss))
unfolding evict stop_all
evict_lem limit now [] c a k p h e f =
    let z : a - min k 0 ≡ a = omega arith in rw (take_nil k, z) (refl, e)
evict_lem limit now (s ∷ ss) c a zero p h e f =
    let z : a - min 0 (suc (length ss)) ≡ a = omega arith in
    let t : ltb a limit ≡ true = ground arith in rw (z, t) (refl, e)
evict_lem limit now (s ∷ ss) c a (suc k) p h e f =
    let d = stop_session_runtime s.id now c in
    let b = active_count none d.sessions in
    let q : b + 1 ≡ a = active_count-stop s ss now c h ∙ e in
    let z : a - min (suc k) (suc (length ss)) ≡ b - min k (length ss) = omega arith in
    let t : ltb a limit ≡ false = ground arith in
    rw (z, t)
      (evict_lem limit now ss d b k p (Candidates-stop_session s ss now c h) refl (omega arith))

count_and_le :
    (p q r : SessionRow → Bool) (rs : List SessionRow)
    → ((x : SessionRow) → q x ≡ true → r x ≡ true)
    → count (λ x. q x && p x) rs ≤ count (λ x. p x && r x) rs
count_and_le p q r [] f = omega arith
count_and_le p q r (x ∷ rs) f = ground (arith, count_and_le p q r rs f, f x)

count_and_left :
    (p q : SessionRow → Bool) (rs : List SessionRow) → count (λ x. p x && q x) rs ≤ count p rs
count_and_left p q [] = omega arith
count_and_left p q (x ∷ rs) = ground (arith, count_and_left p q rs)

evictable_is_active : (r : SessionRow) → is_evictable none r ≡ true → is_active r ≡ true
evictable_is_active r h = ground arith

evictable-Candidates :
    (m : SessionManager) → IsUnique (rows m) → Candidates (evictable_by_lru none m) (rows m)
evictable-Candidates m u j = (
  omega (
    arith,
    (evictable_by_lru_lem none m).1 (has_id j),
    count_and_le (has_id j) (is_evictable none) is_active (rows m) evictable_is_active,
  ),
  omega (arith, count_and_left (has_id j) is_active (rows m), u j),
)

-- What is reported once the loop has left so many.
verdict_lem :
    (limit a n : ℕ)
    → 0 < limit
    → (if ltb a limit
        then none
        else if ltb (a - min (a + 1 - limit) n) limit
        then none
        else some (session_capacity_reached limit))
      ≡ (if leb (a + 1 - limit) n then none else some (session_capacity_reached limit))
verdict_lem limit a n p = ground arith

ensure_limit_lem :
    (limit now : ℕ) (c d : AppContext) (left : ℕ)
    → evict limit now (evictable_by_lru none c.sessions) (active_count none c.sessions) c
      ≡ (d, left)
    → (ltb (active_count none c.sessions) limit ≡ true → d ≡ c)
    → ensure_limit limit now c ≡ (
      d,
      if ltb (active_count none c.sessions) limit
          then none
          else if ltb left limit
          then none
          else some (session_capacity_reached limit),
    )
unfolding ensure_limit
ensure_limit_lem limit now c d left e f =
    elim (Bool-cases (ltb (active_count none c.sessions) limit)) [
      | inl t ↦ rw t (ap (λ x. (x, none)) (sym (f t)))
      | inr t ↦ rw (t, e) (ground arith)
    ]

stop_none :
    (limit a now : ℕ) (ss : List SessionRow) (c : AppContext)
    → ltb a limit ≡ true
    → stop_all now (take (a + 1 - limit) ss) c ≡ c
unfolding stop_all
stop_none limit a now ss c t = let z : a + 1 - limit ≡ 0 = ground arith in rw z

-- With a limit, `ensureCapacity` stops exactly as many of the candidates as are too many, the
-- least recently active first, and none if there is room; it succeeds, with fewer active sessions
-- than the limit, exactly if there were that many candidates, and else reports the limit.
pub ensure_capacity_lem :
    (limit now : ℕ) (c : AppContext)
    → 0 < limit
    → c.max_active_sessions ≡ some limit
    → IsUnique (rows c.sessions)
    → let candidates = evictable_by_lru none c.sessions in
      let needed = active_count none c.sessions + 1 - limit in
      let (c', error) = ensure_capacity now c in
      (c' ≡ stop_all now (take needed candidates) c)
      × (active_count none c'.sessions
          ≡ active_count none c.sessions - min needed (length candidates))
      × (error ≡ (
          if leb needed (length candidates) then none else some (session_capacity_reached limit)))
unfolding ensure_capacity
ensure_capacity_lem limit now c p e u =
    let a = active_count none c.sessions in
    let ss = evictable_by_lru none c.sessions in
    let (f, g) =
      evict_lem limit now ss c a (a + 1 - limit) p (evictable-Candidates c.sessions u) refl refl in
    let h =
      ensure_limit_lem limit now c _ _ f (stop_none limit a now ss c)
      ∙ ap (λ v. (stop_all now (take (a + 1 - limit) ss) c, v))
          (verdict_lem limit a (length ss) p) in
    let t : ltb 0 limit ≡ true = ground arith in
    let r : ensure_capacity now c ≡ ensure_limit limit now c =
      ap (λ o. ensure_any o now c) e
      ∙ ap (λ b. if b then ensure_limit limit now c else (c, none)) t in
    rw (r, h) (refl, g, refl)
