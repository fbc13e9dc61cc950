-- ===== src/Tenants/Tests.antt =====
-- Two tenants on which the definitions are run and the theorems are applied.
use claude_agent_runner.Common.{ℕ, ◌+◌, ◌≡◌, refl, none, some, List, [], ◌∷◌, arith, find?}
use claude_agent_runner.Common.Dict.{lookup, insert, remove}
use claude_agent_runner.Tenants.{
  Tenant, TenantRow, TenantManager, rotated, has_hash, tenant_of, warm_cache, open_manager,
  get_by_api_key, update, rotate_api_key, delete,
}
use claude_agent_runner.Tenants.Cache.{IsUnique, IsValid, open_manager-IsValid}
use claude_agent_runner.Tenants.Operations.{Op, rotates, deletes, looks_up, run, get_by_api_key-run}
use claude_agent_runner.Tenants.Access.{
  next, unauthorized, Shown, tenants_path, same_path, starts_with, authenticate, authenticate_lem,
  rotate-get_by_api_key,
}

program : Unit {0}
unfolding warm_cache open_manager get_by_api_key update rotate_api_key delete starts_with same_path
    authenticate lookup insert remove
program = tt

-- A stand-in for the hash: any function serves the theorems.
abbrev hash : ℕ → ℕ
hash key = key + 1000

abbrev tenant : ℕ → Tenant
tenant id = record {
  id = id;
  name = id;
  namespace = id;
  max_sessions = 10;
  email = none;
  vault = none;
  git_token = none;
  created_at = 0;
  updated_at = 0;
}

abbrev two : List TenantRow
two =
    record { api_key_hash = hash 1; tenant = tenant 7 }
    ∷ record { api_key_hash = hash 2; tenant = tenant 8 }
    ∷ []

two-IsUnique : IsUnique two
two-IsUnique = (λ j. ground arith, λ h. ground arith)

abbrev manager : TenantManager
manager = open_manager two

manager-IsValid : IsValid manager
manager-IsValid = open_manager-IsValid two two-IsUnique

admin_runs : (authenticate hash (some 5) tenants_path (some 5) manager).0 ≡ next none
unfolding program
admin_runs = refl

stranger_runs : (authenticate hash (some 5) tenants_path (some 6) manager).0 ≡ unauthorized
unfolding program
stranger_runs = refl

history : List Op
history = looks_up 1 ∷ rotates 7 (hash 3) 50 ∷ deletes 8 ∷ []

get_by_api_key-run_example :
    let m = run hash hash history (open_manager two) in
    (get_by_api_key hash 1 m).0 ≡ tenant_of (find? (has_hash (hash 1)) m.table)
get_by_api_key-run_example = get_by_api_key-run hash hash two history 1 two-IsUnique

passes : (authenticate hash (some 5) [] (some 2) manager).0 ≡ next (some (tenant 8))
unfolding program
passes = refl

authenticate_lem_example : Shown hash (some 5) [] (some 2) manager (some (tenant 8))
authenticate_lem_example =
    authenticate_lem hash (some 5) [] (some 2) manager (some (tenant 8)) manager-IsValid passes

found : (get_by_api_key hash 1 manager).0 ≡ some (tenant 7)
unfolding program
found = refl

rotates_run : (rotate_api_key 7 (hash 3) 50 manager).0 ≡ rotated
unfolding program
rotates_run = refl

rotate-get_by_api_key_example :
    let m' = (rotate_api_key 7 (hash 3) 50 manager).1 in
    ((get_by_api_key hash 1 m').0 ≡ none)
    × ((t' : Tenant) × ((get_by_api_key hash 3 m').0 ≡ some t') × (t'.id ≡ 7))
rotate-get_by_api_key_example =
    rotate-get_by_api_key hash 1 3 50 manager (tenant 7) manager-IsValid found refl rotates_run
