-- ===== src/Tenants/Operations.antt =====
-- Every operation of `TenantManager` keeps its tables consistent and its cache coherent.
use claude_agent_runner.Common.{
  ℕ, ◌≤◌, ◌≡◌, refl, sym, ap, ◌∙◌, ==_iff, inl, inr, Option, none, some, true, false, not, ◌&&◌,
  List, [], ◌∷◌, ◌++◌, arith, if◌then◌else◌, ◌==◌, filter, find?, any, count, count-append, In,
  In-map, In-append_left, In-append_last, In-filter_of, find-In, find_unique, count-filter-le,
  Bool-cases, Option-cases,
}
use mathlib.Core.Path.{subst}
use claude_agent_runner.Common.Dict.{lookup, remove, lookup-insert}
use claude_agent_runner.Tenants.{
  Tenant, TenantRow, TenantManager, CreateTenantConfig, UpdateTenantConfig, row_to_tenant,
  tenant_of, has_id, has_hash, open_manager, new_row, conflicts, create, get_by_api_key,
  update_rows, is_empty, apply_config, recached, update, set_hash, rotate_api_key, delete,
}
use claude_agent_runner.Tenants.Cache.{
  IsUnique, Backed, IsCoherent, IsValid, insert-IsCoherent, remove-lookup, remove-IsCoherent,
  open_manager-IsValid, get_by_api_key_lem,
}

create-IsUnique :
    (new : TenantRow) (tb : List TenantRow)
    → any (conflicts new) tb ≡ false
    → IsUnique tb
    → IsUnique (tb ++ new ∷ [])
create-IsUnique new tb f u = (
  λ j. ground (
    arith,
    count-append (has_id j) tb (new ∷ []),
    u.0 j,
    ap (λ k. count (has_id k) tb) {x = j} {y = new.id},
    no_id tb f,
  ),
  λ h. ground (
    arith,
    count-append (has_hash h) tb (new ∷ []),
    u.1 h,
    ap (λ k. count (has_hash k) tb) {x = h} {y = new.api_key_hash},
    no_hash tb f,
  ),
)
  where
    no_id : (rs : List TenantRow) → any (conflicts new) rs ≡ false → count (has_id new.id) rs ≡ 0
    no_id [] h = refl
    no_id (r ∷ rs) h = ground (arith, no_id rs)

    no_hash :
        (rs : List TenantRow)
        → any (conflicts new) rs ≡ false
        → count (has_hash new.api_key_hash) rs ≡ 0
    no_hash [] h = refl
    no_hash (r ∷ rs) h = ground (arith, no_hash rs)

pub In-update_self :
    (id : ℕ) (f : TenantRow → TenantRow) (r : TenantRow) (tb : List TenantRow)
    → In r tb
    → has_id id r ≡ true
    → In (f r) (update_rows id f tb)
In-update_self id f r tb i h =
    subst (λ b. In (if b then f r else r) (update_rows id f tb)) h
      (In-map (λ s. if has_id id s then f s else s) tb r i)

In-update_other :
    (id : ℕ) (f : TenantRow → TenantRow) (r : TenantRow) (tb : List TenantRow)
    → In r tb
    → has_id id r ≡ false
    → In r (update_rows id f tb)
In-update_other id f r tb i h =
    subst (λ b. In (if b then f r else r) (update_rows id f tb)) h
      (In-map (λ s. if has_id id s then f s else s) tb r i)

-- A row with another hash than the row of the id has another id.
other_id :
    (id h : ℕ) (r x : TenantRow) (tb : List TenantRow)
    → IsUnique tb
    → find? (has_id id) tb ≡ some r
    → In x tb
    → x.api_key_hash ≡ h
    → (r.api_key_hash == h) ≡ false
    → has_id id x ≡ false
other_id id h r x tb u e i k n = elim (Bool-cases (has_id id x)) [
  | inl y ↦
      let p : some r ≡ some x = sym e ∙ find_unique (has_id id) tb x (u.0 id) i y in
      let q : r.api_key_hash ≡ x.api_key_hash = ground arith in ground arith
  | inr y ↦ y
]

-- The row of an id is changed and cached again; the other entries are backed by rows that the
-- update leaves as they are.
recached-IsCoherent :
    (m : TenantManager) (id : ℕ) (f : TenantRow → TenantRow) (r : TenantRow)
    → IsUnique m.table
    → find? (has_id id) m.table ≡ some r
    → ((h : ℕ) (t : Tenant)
        → ((f r).api_key_hash == h) ≡ false
        → lookup h m.cache ≡ some t
        → (x : TenantRow) × In x (update_rows id f m.table)
          × (x.api_key_hash ≡ h)
          × (row_to_tenant x ≡ t))
    → IsCoherent (recached m id f r).cache (recached m id f r).table
recached-IsCoherent m id f r u e c h t l = elim (Bool-cases ((f r).api_key_hash == h)) [
  | inl y ↦
      let (i, k) = find-In (has_id id) m.table r e in
      (
        f r,
        In-update_self id f r m.table i k,
        (==_iff (f r).api_key_hash h).0 y,
        ground (arith, lookup-insert (f r).api_key_hash h (row_to_tenant (f r)) m.cache, y, l),
      )
  | inr n ↦
      c h t n
        (ground (arith, lookup-insert (f r).api_key_hash h (row_to_tenant (f r)) m.cache, n, l))
]

-- An entry of another hash is still backed after the update.
still-Backed :
    (m : TenantManager) (id h : ℕ) (f : TenantRow → TenantRow) (r : TenantRow) (t : Tenant)
    → IsUnique m.table
    → find? (has_id id) m.table ≡ some r
    → (r.api_key_hash == h) ≡ false
    → Backed h t m.table
    → Backed h t (update_rows id f m.table)
still-Backed m id h f r t u e n (x, i, k, g) =
    (x, In-update_other id f x m.table i (other_id id h r x m.table u e i k n), k, g)

update-IsUnique :
    (id : ℕ) (f : TenantRow → TenantRow) (tb : List TenantRow)
    → ((r : TenantRow) → ((f r).id ≡ r.id) × ((f r).api_key_hash ≡ r.api_key_hash))
    → (j h : ℕ)
    → (count (has_id j) (update_rows id f tb) ≡ count (has_id j) tb)
      × (count (has_hash h) (update_rows id f tb) ≡ count (has_hash h) tb)
update-IsUnique id f [] k j h = (refl, refl)
update-IsUnique id f (r ∷ tb) k j h = ground (arith, k r, update-IsUnique id f tb k j h)

update-IsValid :
    (id : ℕ) (c : UpdateTenantConfig) (now : ℕ) (m : TenantManager)
    → IsValid m
    → IsValid (update id c now m).1
unfolding update
update-IsValid id c now m v = elim (Option-cases (find? (has_id id) m.table)) [
  | inl e ↦ rw (e, update) v
  | inr (r, e) ↦
      rw (e, update)
        (elim (Bool-cases (is_empty c)) [
          | inl y ↦ rw y v
          | inr n ↦
              let f = apply_config c now in
              let k = update-IsUnique id f m.table (λ s. (refl, refl)) in
              rw n (record {
                unique = (
                  λ j. omega (arith, (k j 0).0, v.unique.0 j),
                  λ h. omega (arith, (k 0 h).1, v.unique.1 h),
                );
                coherent =
                    recached-IsCoherent m id f r v.unique e
                      (λ h t z l. still-Backed m id h f r t v.unique e z (v.coherent h t l));
              })
        ])
]

rotated-count :
    (id new now j h : ℕ) (tb : List TenantRow)
    → any (λ s. has_hash new s && not (has_id id s)) tb ≡ false
    → (count (has_id j) (update_rows id (set_hash new now) tb) ≡ count (has_id j) tb)
      × (count (has_hash h) (update_rows id (set_hash new now) tb)
          ≤ (if new == h then count (has_id id) tb else count (has_hash h) tb))
rotated-count id new now j h [] k = ground arith
rotated-count id new now j h (r ∷ tb) k = ground (arith, rotated-count id new now j h tb)

pub rotate-IsValid :
    (id new now : ℕ) (m : TenantManager) → IsValid m → IsValid (rotate_api_key id new now m).1
unfolding rotate_api_key
rotate-IsValid id new now m v = elim (Option-cases (find? (has_id id) m.table)) [
  | inl e ↦ rw (e, rotate_api_key) v
  | inr (r, e) ↦
      rw (e, rotate_api_key)
        (let dropped = record m { cache = remove r.api_key_hash m.cache } in
          elim (Bool-cases (any (λ s. has_hash new s && not (has_id id s)) m.table)) [
            | inl y ↦ rw y (record {
              unique = v.unique;
              coherent = remove-IsCoherent r.api_key_hash m.cache m.table v.coherent;
            })
            | inr n ↦
                let f = set_hash new now in
                let k = λ (j h : ℕ). rotated-count id new now j h m.table n in
                rw n (record {
                  unique = (
                    λ j. omega (arith, (k j 0).0, v.unique.0 j),
                    λ h. ground (arith, (k 0 h).1, v.unique.1 h, v.unique.0 id),
                  );
                  coherent = recached-IsCoherent dropped id f r v.unique e (λ h t z l.
                      let (w, l') = remove-lookup r.api_key_hash h t m.cache l in
                      still-Backed dropped id h f r t v.unique e w (v.coherent h t l'));
                })
          ])
]

Backed-append :
    (h : ℕ) (t : Tenant) (new : TenantRow) (tb : List TenantRow)
    → Backed h t tb
    → Backed h t (tb ++ new ∷ [])
Backed-append h t new tb (x, i, k, g) = (x, In-append_left tb (new ∷ []) x i, k, g)

abbrev pub after_create : TenantManager → Option (Tenant × TenantManager) → TenantManager
after_create m none = m
after_create m (some (t, m')) = m'

create-IsValid :
    (claude_t : ℕ → ℕ) (c : CreateTenantConfig) (h now : ℕ) (m : TenantManager)
    → IsValid m
    → IsValid (after_create m (create claude_t c h now m))
unfolding create
create-IsValid claude_t c h now m v =
    let new = new_row claude_t c h now in
    elim (Bool-cases (any (conflicts new) m.table)) [
      | inl y ↦ rw y v
      | inr n ↦ rw n (record {
        unique = create-IsUnique new m.table n v.unique;
        coherent =
            insert-IsCoherent new m.cache (m.table ++ new ∷ []) (In-append_last m.table new)
              (λ k t l. Backed-append k t new m.table (v.coherent k t l));
      })
    ]

Backed-delete :
    (id h : ℕ) (r : TenantRow) (t : Tenant) (tb : List TenantRow)
    → IsUnique tb
    → find? (has_id id) tb ≡ some r
    → (r.api_key_hash == h) ≡ false
    → Backed h t tb
    → Backed h t (filter (λ s. not (has_id id s)) tb)
Backed-delete id h r t tb u e n (x, i, k, g) =
    (x, In-filter_of (λ s. not (has_id id s)) tb x i (rw (other_id id h r x tb u e i k n)), k, g)

pub delete-IsValid : (id : ℕ) (m : TenantManager) → IsValid m → IsValid (delete id m).1
unfolding delete
delete-IsValid id m v = elim (Option-cases (find? (has_id id) m.table)) [
  | inl e ↦ rw (e, delete) v
  | inr (r, e) ↦
      rw (e, delete)
        (record {
          unique = (
            λ j.
                omega (
                  arith,
                  count-filter-le (has_id j) (λ s. not (has_id id s)) m.table,
                  v.unique.0 j,
                ),
            λ h. omega (
              arith,
              count-filter-le (has_hash h) (λ s. not (has_id id s)) m.table,
              v.unique.1 h,
            ),
          );
          coherent = λ h t l.
              let (w, l') = remove-lookup r.api_key_hash h t m.cache l in
              Backed-delete id h r t m.table v.unique e w (v.coherent h t l');
        })
]

-- The operations, with the random keys that they draw given by their hashes.
pub data Op : Type 0 where
  creates : CreateTenantConfig → ℕ → ℕ → Op
  updates : ℕ → UpdateTenantConfig → ℕ → Op
  rotates : ℕ → ℕ → ℕ → Op
  deletes : ℕ → Op
  looks_up : ℕ → Op

module _ (hash claude_t : ℕ → ℕ) where
  pub step : Op → TenantManager → TenantManager
  step (creates c h now) m = after_create m (create claude_t c h now m)
  step (updates id c now) m = (update id c now m).1
  step (rotates id h now) m = (rotate_api_key id h now m).1
  step (deletes id) m = (delete id m).1
  step (looks_up key) m = (get_by_api_key hash key m).1

  pub run : List Op → TenantManager → TenantManager
  run [] m = m
  run (o ∷ os) m = run os (step o m)

  step-IsValid : (o : Op) (m : TenantManager) → IsValid m → IsValid (step o m)
  unfolding step
  step-IsValid (creates c h now) m v = create-IsValid claude_t c h now m v
  step-IsValid (updates id c now) m v = update-IsValid id c now m v
  step-IsValid (rotates id h now) m v = rotate-IsValid id h now m v
  step-IsValid (deletes id) m v = delete-IsValid id m v
  step-IsValid (looks_up key) m v = (get_by_api_key_lem hash key m v).2

  pub run-IsValid : (os : List Op) (m : TenantManager) → IsValid m → IsValid (run os m)
  unfolding run
  run-IsValid [] m v = v
  run-IsValid (o ∷ os) m v = run-IsValid os (step o m) (step-IsValid o m v)

  -- The cache is transparent: after any operations on a manager that was opened on a consistent
  -- table, a key resolves to what the table then holds under the key's hash, whatever is cached.
  pub get_by_api_key-run :
      (tb : List TenantRow) (os : List Op) (key : ℕ)
      → IsUnique tb
      → let m = run os (open_manager tb) in
        (get_by_api_key hash key m).0 ≡ tenant_of (find? (has_hash (hash key)) m.table)
  get_by_api_key-run tb os key u =
      (get_by_api_key_lem hash key (run os (open_manager tb))
        (run-IsValid os (open_manager tb) (open_manager-IsValid tb u))).0
