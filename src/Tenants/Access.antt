-- ===== src/Tenants/Access.antt =====
-- packages/orchestrator/src/auth.ts: who gets past the middleware, and which keys stay good.
use claude_agent_runner.Common.{
  ℕ, ◌+◌, ◌≡◌, refl, sym, ap, ◌∙◌, ◌⊎◌, inl, inr, Option, none, some, Bool, true, false, ◌&&◌, List,
  [], ◌∷◌, arith, if◌then◌else◌, ◌==◌, ==_iff, find?, count, In, find-In, find_unique, count_of_In,
  ==_refl, Bool-cases,
}
use mathlib.Core.Path.{subst}
use claude_agent_runner.Tenants.{
  Tenant, TenantRow, TenantManager, rotated, row_to_tenant, tenant_of, has_id, has_hash,
  get_by_api_key, update_rows, set_hash, rotate_api_key,
}
use claude_agent_runner.Tenants.Cache.{IsValid, get_by_api_key_lem}
use claude_agent_runner.Tenants.Operations.{rotate-IsValid, In-update_self}

-- `path.startsWith(prefix)`.
unfoldable pub starts_with : List ℕ → List ℕ → Bool
starts_with [] path = true
starts_with (c ∷ prefix) [] = false
starts_with (c ∷ prefix) (d ∷ path) = c == d && starts_with prefix path

unfoldable pub same_path : List ℕ → List ℕ → Bool
same_path [] [] = true
same_path [] (d ∷ path) = false
same_path (c ∷ text) [] = false
same_path (c ∷ text) (d ∷ path) = c == d && same_path text path

abbrev pub health_path : List ℕ
health_path = b'/' ∷ b'h' ∷ b'e' ∷ b'a' ∷ b'l' ∷ b't' ∷ b'h' ∷ []

abbrev pub tenants_path : List ℕ
tenants_path = b'/' ∷ b't' ∷ b'e' ∷ b'n' ∷ b'a' ∷ b'n' ∷ b't' ∷ b's' ∷ []

-- `next()`, with the tenant that is put into the request's context, or a status code.
pub data Verdict : Type 0 where
  next : Option Tenant → Verdict
  missing_key unauthorized not_configured : Verdict

abbrev pub admit : Option Tenant × TenantManager → Verdict × TenantManager
admit (none, m) = (unauthorized, m)
admit (some t, m) = (next (some t), m)

abbrev pub tenants_route : (ℕ → ℕ) → Option ℕ → ℕ → TenantManager → Verdict × TenantManager
tenants_route hash none key m = (not_configured, m)
tenants_route hash (some admin) key m =
    if key == admin then (next none, m) else admit (get_by_api_key hash key m)

abbrev pub with_key :
    (ℕ → ℕ) → Option ℕ → List ℕ → Option ℕ → TenantManager → Verdict × TenantManager
with_key hash admin path none m = (missing_key, m)
with_key hash admin path (some key) m =
    if starts_with tenants_path path
    then tenants_route hash admin key m
    else admit (get_by_api_key hash key m)

-- `createAuthMiddleware`, with tenants enabled.
unfoldable pub authenticate :
    (ℕ → ℕ) → Option ℕ → List ℕ → Option ℕ → TenantManager → Verdict × TenantManager
unfolding starts_with same_path
authenticate hash admin path api_key m =
    if same_path health_path path then (next none, m) else with_key hash admin path api_key m

-- `authenticateWs`.
pub authenticate_ws : (ℕ → ℕ) → Option ℕ → TenantManager → Option Tenant × TenantManager
authenticate_ws hash none m = (none, m)
authenticate_ws hash (some key) m = get_by_api_key hash key m

admit-next :
    (r : Option Tenant × TenantManager) (t : Option Tenant)
    → (admit r).0 ≡ next t
    → (u : Tenant) × (t ≡ some u) × (r.0 ≡ some u)
admit-next (none, m) t h = cc
admit-next (some u, m) t h = (u, ground arith, refl)

-- The key's hash stands in the table, in the row of the tenant.
abbrev pub KeyOf : (ℕ → ℕ) → ℕ → Tenant → TenantManager → Type 0
KeyOf hash key t m =
    (r : TenantRow) × In r m.table × (r.api_key_hash ≡ hash key) × (row_to_tenant r ≡ t)

KeyOf-found :
    (hash : ℕ → ℕ) (key : ℕ) (u : Tenant) (m : TenantManager)
    → IsValid m
    → (get_by_api_key hash key m).0 ≡ some u
    → KeyOf hash key u m
KeyOf-found hash key u m v e = go (find? (has_hash (hash key)) m.table) refl
  where
    go : (o : Option TenantRow) → find? (has_hash (hash key)) m.table ≡ o → KeyOf hash key u m
    go none f =
        let z : none ≡ some u =
          ap tenant_of (sym f) ∙ sym (get_by_api_key_lem hash key m v).0 ∙ e in
        cc
    go (some r) f =
        let (i, k) = find-In (has_hash (hash key)) m.table r f in
        let z : some (row_to_tenant r) ≡ some u =
          ap tenant_of (sym f) ∙ sym (get_by_api_key_lem hash key m v).0 ∙ e in
        (r, i, (==_iff r.api_key_hash (hash key)).0 k, ground arith)

-- What a request that passes the middleware has shown.
abbrev pub Shown : (ℕ → ℕ) → Option ℕ → List ℕ → Option ℕ → TenantManager → Option Tenant → Type 0
Shown hash admin path api_key m none =
    (same_path health_path path ≡ true)
    ⊎ ((starts_with tenants_path path ≡ true)
        × ((key : ℕ) × (api_key ≡ some key) × (admin ≡ some key)))
Shown hash admin path api_key m (some t) = (key : ℕ) × (api_key ≡ some key) × KeyOf hash key t m

admit-Shown :
    (hash : ℕ → ℕ) (admin : Option ℕ) (path : List ℕ) (key : ℕ) (m : TenantManager)
    (t : Option Tenant)
    → IsValid m
    → (admit (get_by_api_key hash key m)).0 ≡ next t
    → Shown hash admin path (some key) m t
admit-Shown hash admin path key m none v h = let (u, e, f) = admit-next _ none h in cc
admit-Shown hash admin path key m (some t) v h =
    let (u, e, f) = admit-next _ (some t) h in
    let g : (get_by_api_key hash key m).0 ≡ some t = f ∙ sym e in
    (key, refl, KeyOf-found hash key t m v g)

admin_Shown :
    (hash : ℕ → ℕ) (path : List ℕ) (key admin : ℕ) (m : TenantManager) (t : Option Tenant)
    → starts_with tenants_path path ≡ true
    → (key == admin) ≡ true
    → next none ≡ next t
    → Shown hash (some admin) path (some key) m t
admin_Shown hash path key admin m none s y h = inr (s, (key, refl, ground arith))
admin_Shown hash path key admin m (some t) s y h = cc

health_Shown :
    (hash : ℕ → ℕ) (admin : Option ℕ) (path : List ℕ) (api_key : Option ℕ) (m : TenantManager)
    (t : Option Tenant)
    → same_path health_path path ≡ true
    → next none ≡ next t
    → Shown hash admin path api_key m t
health_Shown hash admin path api_key m none y h = inl y
health_Shown hash admin path api_key m (some t) y h = cc

tenants_route-Shown :
    (hash : ℕ → ℕ) (admin : Option ℕ) (path : List ℕ) (key : ℕ) (m : TenantManager)
    (t : Option Tenant)
    → IsValid m
    → starts_with tenants_path path ≡ true
    → (tenants_route hash admin key m).0 ≡ next t
    → Shown hash admin path (some key) m t
tenants_route-Shown hash none path key m t v s h = cc
tenants_route-Shown hash (some admin) path key m t v s h = elim (Bool-cases (key == admin)) [
  | inl y ↦ admin_Shown hash path key admin m t s y (rw y at h)
  | inr n ↦ admit-Shown hash (some admin) path key m t v (rw n at h)
]

with_key-Shown :
    (hash : ℕ → ℕ) (admin : Option ℕ) (path : List ℕ) (api_key : Option ℕ) (m : TenantManager)
    (t : Option Tenant)
    → IsValid m
    → (with_key hash admin path api_key m).0 ≡ next t
    → Shown hash admin path api_key m t
with_key-Shown hash admin path none m t v h = cc
with_key-Shown hash admin path (some key) m t v h =
    elim (Bool-cases (starts_with tenants_path path)) [
      | inl y ↦ tenants_route-Shown hash admin path key m t v y (rw y at h)
      | inr n ↦ admit-Shown hash admin path key m t v (rw n at h)
    ]

-- A request gets past the middleware only if it is for the health check, or shows the admin key on
-- a path under "/tenants", or shows a key whose hash a tenant's row holds; only in the last case has
-- it a tenant, that one.
pub authenticate_lem :
    (hash : ℕ → ℕ) (admin : Option ℕ) (path : List ℕ) (api_key : Option ℕ) (m : TenantManager)
    (t : Option Tenant)
    → IsValid m
    → (authenticate hash admin path api_key m).0 ≡ next t
    → Shown hash admin path api_key m t
unfolding authenticate
authenticate_lem hash admin path api_key m t v h = elim (Bool-cases (same_path health_path path)) [
  | inl y ↦ health_Shown hash admin path api_key m t y (rw (y, authenticate) at h)
  | inr n ↦ with_key-Shown hash admin path api_key m t v (rw (n, authenticate) at h)
]

rotated_table :
    (id new now : ℕ) (m : TenantManager)
    → (rotate_api_key id new now m).0 ≡ rotated
    → (r : TenantRow) × (find? (has_id id) m.table ≡ some r)
      × ((rotate_api_key id new now m).1.table ≡ update_rows id (set_hash new now) m.table)
unfolding rotate_api_key
rotated_table id new now m h = ground arith

-- The rows with another hash, after the row of the id has got the new one.
count_left :
    (id new now h : ℕ) (tb : List TenantRow)
    → (new == h) ≡ false
    → count (has_hash h) (update_rows id (set_hash new now) tb)
        + count (λ r. has_hash h r && has_id id r) tb
      ≡ count (has_hash h) tb
count_left id new now h [] n = refl
count_left id new now h (r ∷ tb) n = ground (arith, count_left id new now h tb n)

find_of_count_zero :
    (p : TenantRow → Bool) (tb : List TenantRow) → count p tb ≡ 0 → find? p tb ≡ none
find_of_count_zero p [] h = refl
find_of_count_zero p (r ∷ tb) h = ground (arith, find_of_count_zero p tb)

-- Once a tenant's key has been rotated, the old key is refused and the new one gives the same tenant,
-- provided that the two hashes differ.
pub rotate-get_by_api_key :
    (hash : ℕ → ℕ) (old_key new_key now : ℕ) (m : TenantManager) (t : Tenant)
    → IsValid m
    → (get_by_api_key hash old_key m).0 ≡ some t
    → (hash new_key == hash old_key) ≡ false
    → (rotate_api_key t.id (hash new_key) now m).0 ≡ rotated
    → let m' = (rotate_api_key t.id (hash new_key) now m).1 in
      ((get_by_api_key hash old_key m').0 ≡ none)
      × ((t' : Tenant) × ((get_by_api_key hash new_key m').0 ≡ some t') × (t'.id ≡ t.id))
rotate-get_by_api_key hash old_key new_key now m t v f n h =
    let m' = (rotate_api_key t.id (hash new_key) now m).1 in
    let v' : IsValid m' = rotate-IsValid t.id (hash new_key) now m v in
    let (r, e, tb) = rotated_table t.id (hash new_key) now m h in
    let (x, i, k, g) = KeyOf-found hash old_key t m v f in
    let xid : has_id t.id x ≡ true = (==_iff x.id t.id).1 (ap (λ (z : Tenant). z.id) g) in
    let xhash : has_hash (hash old_key) x ≡ true = (==_iff x.api_key_hash (hash old_key)).1 k in
    let both =
      count_of_In (λ (s : TenantRow). has_hash (hash old_key) s && has_id t.id s) m.table x i
        (rw (xhash, xid)) in
    let z : count (has_hash (hash old_key)) m'.table ≡ 0 =
      ap (count (has_hash (hash old_key))) tb
      ∙ omega (
        arith,
        count_left t.id (hash new_key) now (hash old_key) m.table n,
        both,
        v.unique.1 (hash old_key),
      ) in
    let (ri, rid) = find-In (has_id t.id) m.table r e in
    let s = set_hash (hash new_key) now r in
    let there : In s m'.table =
      subst (In s) (sym tb) (In-update_self t.id (set_hash (hash new_key) now) r m.table ri rid) in
    let found =
      find_unique (has_hash (hash new_key)) m'.table s (v'.unique.1 (hash new_key)) there
        (==_refl (hash new_key)) in
    (
      (get_by_api_key_lem hash old_key m' v').0
          ∙ ap tenant_of (find_of_count_zero (has_hash (hash old_key)) m'.table z),
      (
        row_to_tenant s,
        (get_by_api_key_lem hash new_key m' v').0 ∙ ap tenant_of found,
        (==_iff r.id t.id).0 rid,
      ),
    )
