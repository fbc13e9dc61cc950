-- ===== src/Tenants.antt =====
-- packages/orchestrator/src/tenants.ts: `TenantManager`, the tenants table behind a cache from key
-- hashes to tenants. A text is a number; `hash` stands for SHA-256 and `claude_t` for the text
-- "claude-t-" put before an id; the random key of `create` and `rotateApiKey` is an argument.
mod Tests
pub mod Cache
pub mod Operations
pub mod Access
use claude_agent_runner.Common.{
  ℕ, Option, none, some, Bool, true, false, not, ◌&&◌, ◌||◌, List, [], ◌∷◌, ◌++◌, map,
  if◌then◌else◌, ◌==◌, is_some, get_or, filter, find?, any,
}
use claude_agent_runner.Common.Dict.{lookup, insert, remove}

pub record Tenant : Type 0 where
  pub id : ℕ
  pub name : ℕ
  pub namespace : ℕ
  pub max_sessions : ℕ
  pub email : Option ℕ
  pub vault : Option ℕ
  pub git_token : Option ℕ
  pub created_at : ℕ
  pub updated_at : ℕ

pub record TenantRow : Type 0 where
  pub api_key_hash : ℕ
  pub tenant : Tenant
  pub open tenant use *

abbrev pub row_to_tenant : TenantRow → Tenant
row_to_tenant r = r.tenant

pub record CreateTenantConfig : Type 0 where
  pub id : ℕ
  pub name : ℕ
  pub namespace : Option ℕ
  pub max_sessions : Option ℕ
  pub email : Option ℕ
  pub vault : Option ℕ
  pub git_token : Option ℕ

-- `none` is a field that is not given, `some none` one that is set to null.
pub record UpdateTenantConfig : Type 0 where
  pub name : Option ℕ
  pub max_sessions : Option ℕ
  pub email : Option (Option ℕ)
  pub vault : Option (Option ℕ)
  pub git_token : Option (Option ℕ)

pub record TenantManager : Type 0 where
  pub table : List TenantRow
  pub cache : List (ℕ × Tenant)

abbrev pub has_id : ℕ → TenantRow → Bool
has_id id r = r.id == id

abbrev pub has_hash : ℕ → TenantRow → Bool
has_hash h r = r.api_key_hash == h

-- `warmCache`, run by the constructor.
pub warm_cache : List TenantRow → List (ℕ × Tenant) → List (ℕ × Tenant)
warm_cache [] cache = cache
warm_cache (r ∷ rs) cache = warm_cache rs (insert r.api_key_hash (row_to_tenant r) cache)

pub open_manager : List TenantRow → TenantManager
unfolding warm_cache
open_manager table = record { table = table; cache = warm_cache table [] }

abbrev pub tenant_of : Option TenantRow → Option Tenant
tenant_of none = none
tenant_of (some r) = some (row_to_tenant r)

pub get : ℕ → TenantManager → Option Tenant
get id m = tenant_of (find? (has_id id) m.table)

abbrev pub new_row : (ℕ → ℕ) → CreateTenantConfig → ℕ → ℕ → TenantRow
new_row claude_t config h now = record {
  api_key_hash = h;
  tenant = record {
    id = config.id;
    name = config.name;
    namespace = get_or config.namespace (claude_t config.id);
    max_sessions = get_or config.max_sessions 10;
    email = config.email;
    vault = config.vault;
    git_token = config.git_token;
    created_at = now;
    updated_at = now;
  };
}

-- A row that the new one may not stand beside: the primary key and the two UNIQUE columns.
abbrev pub conflicts : TenantRow → TenantRow → Bool
conflicts new r = has_id new.id r || (has_hash new.api_key_hash r || r.namespace == new.namespace)

-- `none` is the exception of a constraint.
pub create : (ℕ → ℕ) → CreateTenantConfig → ℕ → ℕ → TenantManager → Option (Tenant × TenantManager)
create claude_t config h now m =
    let row = new_row claude_t config h now in
    if any (conflicts row) m.table
    then none
    else some (
      row_to_tenant row,
      record { table = m.table ++ row ∷ []; cache = insert h (row_to_tenant row) m.cache },
    )

-- The cache first, then the table, whose answer is cached.
abbrev pub answer :
    ℕ → TenantManager → Option Tenant → Option TenantRow → Option Tenant × TenantManager
answer h m (some t) row = (some t, m)
answer h m none none = (none, m)
answer h m none (some r) =
    (some (row_to_tenant r), record m { cache = insert h (row_to_tenant r) m.cache })

pub get_by_api_key : (ℕ → ℕ) → ℕ → TenantManager → Option Tenant × TenantManager
get_by_api_key hash key m =
    answer (hash key) m (lookup (hash key) m.cache) (find? (has_hash (hash key)) m.table)

abbrev pub update_rows : ℕ → (TenantRow → TenantRow) → List TenantRow → List TenantRow
update_rows id f = map (λ r. if has_id id r then f r else r)

-- `sets.length === 0`.
abbrev pub is_empty : UpdateTenantConfig → Bool
is_empty c = not (
    is_some c.name
    || (is_some c.max_sessions || (is_some c.email || (is_some c.vault || is_some c.git_token))))

abbrev pub apply_config : UpdateTenantConfig → ℕ → TenantRow → TenantRow
apply_config c now r = record r {
  tenant = record (r.tenant) {
    name = get_or c.name r.name;
    max_sessions = get_or c.max_sessions r.max_sessions;
    email = get_or c.email r.email;
    vault = get_or c.vault r.vault;
    git_token = get_or c.git_token r.git_token;
    updated_at = now;
  };
}

-- The row is updated, read again and cached under its hash.
abbrev pub recached : TenantManager → ℕ → (TenantRow → TenantRow) → TenantRow → TenantManager
recached m id f r = record {
  table = update_rows id f m.table;
  cache = insert (f r).api_key_hash (row_to_tenant (f r)) m.cache;
}

pub update : ℕ → UpdateTenantConfig → ℕ → TenantManager → Option Tenant × TenantManager
update id c now m = elim (find? (has_id id) m.table) [
  | none ↦ (none, m)
  | some r ↦
      if is_empty c
      then (some (row_to_tenant r), m)
      else (some (row_to_tenant (apply_config c now r)), recached m id (apply_config c now) r)
]

abbrev pub set_hash : ℕ → ℕ → TenantRow → TenantRow
set_hash h now r = record r { api_key_hash = h; tenant = record (r.tenant) { updated_at = now } }

pub data Rotation : Type 0 where
  unknown : Rotation
  rotated : Rotation
  constraint_failed : Rotation

-- The old entry leaves the cache first, also where the UNIQUE column then refuses the new hash.
pub rotate_api_key : ℕ → ℕ → ℕ → TenantManager → Rotation × TenantManager
rotate_api_key id new_hash now m = elim (find? (has_id id) m.table) [
  | none ↦ (unknown, m)
  | some r ↦
      let dropped = record m { cache = remove r.api_key_hash m.cache } in
      if any (λ s. has_hash new_hash s && not (has_id id s)) m.table
      then (constraint_failed, dropped)
      else (rotated, recached dropped id (set_hash new_hash now) r)
]

pub delete : ℕ → TenantManager → Bool × TenantManager
delete id m = elim (find? (has_id id) m.table) [
  | none ↦ (false, m)
  | some r ↦ (
    true,
    record {
      table = filter (λ s. not (has_id id s)) m.table;
      cache = remove r.api_key_hash m.cache;
    },
  )
]
