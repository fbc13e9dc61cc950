-- ===== src/Tenants/Cache.antt =====
-- The tenant cache never shows: a key resolves as the table says.
use claude_agent_runner.Common.{
  ℕ, ◌≤◌, ◌≡◌, refl, sym, ap, ◌∙◌, ==_iff, inl, inr, Option, none, some, false, List, [], ◌∷◌,
  arith, ◌==◌, find?, count, In, find-In, find_unique, Bool-cases,
}
use mathlib.Core.Path.{subst}
use claude_agent_runner.Common.Dict.{lookup, insert, remove, lookup-insert, lookup-remove}
use claude_agent_runner.Tenants.{
  Tenant, TenantRow, TenantManager, row_to_tenant, tenant_of, has_id, has_hash, warm_cache,
  open_manager, answer, get_by_api_key,
}

abbrev pub IsUnique : List TenantRow → Type 0
IsUnique tb = ((j : ℕ) → count (has_id j) tb ≤ 1) × ((h : ℕ) → count (has_hash h) tb ≤ 1)

-- The cached tenant is what a row of the table with that hash holds.
abbrev pub Backed : ℕ → Tenant → List TenantRow → Type 0
Backed h t tb = (r : TenantRow) × In r tb × (r.api_key_hash ≡ h) × (row_to_tenant r ≡ t)

abbrev pub IsCoherent : List (ℕ × Tenant) → List TenantRow → Type 0
IsCoherent cache tb = (h : ℕ) (t : Tenant) → lookup h cache ≡ some t → Backed h t tb

pub record IsValid (m : TenantManager) : Type 0 where
  pub unique : IsUnique m.table
  pub coherent : IsCoherent m.cache m.table

-- An entry that a row backs may be added.
pub insert-IsCoherent :
    (r : TenantRow) (cache : List (ℕ × Tenant)) (tb : List TenantRow)
    → In r tb
    → IsCoherent cache tb
    → IsCoherent (insert r.api_key_hash (row_to_tenant r) cache) tb
insert-IsCoherent r cache tb i c h t e = elim (Bool-cases (r.api_key_hash == h)) [
  | inl y ↦ (
    r,
    i,
    ground arith,
    ground (arith, lookup-insert r.api_key_hash h (row_to_tenant r) cache, y, e),
  )
  | inr n ↦ c h t (ground (arith, lookup-insert r.api_key_hash h (row_to_tenant r) cache, n, e))
]

pub remove-lookup :
    (k h : ℕ) (t : Tenant) (cache : List (ℕ × Tenant))
    → lookup h (remove k cache) ≡ some t
    → ((k == h) ≡ false) × (lookup h cache ≡ some t)
remove-lookup k h t cache e = ground (arith, lookup-remove k h cache)

pub remove-IsCoherent :
    (k : ℕ) (cache : List (ℕ × Tenant)) (tb : List TenantRow)
    → IsCoherent cache tb
    → IsCoherent (remove k cache) tb
remove-IsCoherent k cache tb c h t e = c h t (remove-lookup k h t cache e).1

warm_cache-IsCoherent :
    (rs : List TenantRow) (cache : List (ℕ × Tenant)) (tb : List TenantRow)
    → ((r : TenantRow) → In r rs → In r tb)
    → IsCoherent cache tb
    → IsCoherent (warm_cache rs cache) tb
unfolding warm_cache
warm_cache-IsCoherent [] cache tb s c = c
warm_cache-IsCoherent (r ∷ rs) cache tb s c =
    warm_cache-IsCoherent rs _ tb (λ x i. s x (inr i))
      (insert-IsCoherent r cache tb (s r (inl refl)) c)

pub open_manager-IsValid : (tb : List TenantRow) → IsUnique tb → IsValid (open_manager tb)
unfolding open_manager lookup
open_manager-IsValid tb u = record {
  unique = u;
  coherent = warm_cache-IsCoherent tb [] tb (λ r i. i) (λ h t e. cc);
}

answer-IsValid :
    (h : ℕ) (m : TenantManager) (cached : Option Tenant) (row : Option TenantRow)
    → IsValid m
    → lookup h m.cache ≡ cached
    → find? (has_hash h) m.table ≡ row
    → ((answer h m cached row).0 ≡ tenant_of row)
      × ((answer h m cached row).1.table ≡ m.table)
      × IsValid (answer h m cached row).1
answer-IsValid h m (some t) row v e f =
    let (r, i, k, g) = v.coherent h t e in
    let found : row ≡ some r =
      sym f ∙ find_unique (has_hash h) m.table r (v.unique.1 h) i ((==_iff r.api_key_hash h).1 k) in
    (ap some (sym g) ∙ sym (ap tenant_of found), refl, v)
answer-IsValid h m none none v e f = (refl, refl, v)
answer-IsValid h m none (some r) v e f =
    let (i, k) = find-In (has_hash h) m.table r f in
    let same_hash : r.api_key_hash ≡ h = (==_iff r.api_key_hash h).0 k in
    (
      refl,
      refl,
      record {
        unique = v.unique;
        coherent =
            subst (λ j. IsCoherent (insert j (row_to_tenant r) m.cache) m.table) same_hash
              (insert-IsCoherent r m.cache m.table i v.coherent);
      },
    )

-- The lookup by key gives what the table holds for the key's hash, whatever is cached, and keeps
-- the table and the invariant.
pub get_by_api_key_lem :
    (hash : ℕ → ℕ) (key : ℕ) (m : TenantManager)
    → IsValid m
    → let (found, m') = get_by_api_key hash key m in
      (found ≡ tenant_of (find? (has_hash (hash key)) m.table)) × (m'.table ≡ m.table) × IsValid m'
unfolding get_by_api_key
get_by_api_key_lem hash key m v = answer-IsValid (hash key) m _ _ v refl refl
