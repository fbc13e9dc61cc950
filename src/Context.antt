-- ===== src/Context.antt =====
-- packages/runner/src/context.ts: a session's JSONL file as a list of records, the conversation
-- chain that is rebuilt from it, and the operations that edit it. A text that the code only
-- compares is a number; a missing, null or empty uuid is `none`, since the code tests it by truth.
mod Tests
pub mod Walk
pub mod Leaf
pub mod Inject
pub mod Remove
pub mod Lines
use claude_agent_runner.Common.{
  ℕ, zero, suc, ◌+◌, ◌-◌, ◌*◌, ◌/◌, Option, none, some, Bool, true, false, not, ◌&&◌, ◌||◌, List,
  [], ◌∷◌, ◌++◌, map, if◌then◌else◌, same, is_some, get_or, leb, ◌==◌, filter, last, length, drop,
  find?, any, count,
}
use claude_agent_runner.Common.Dict.{lookup, insert}

pub data Kind : Type 0 where
  user assistant system : Kind
  other : ℕ → Kind

-- `message` and `content` of a record: what the file held, or what `injectMessage` builds.
pub data Payload : Type 0 where
  raw : ℕ → Payload
  user_message : ℕ → Payload

pub record JsonlRecord : Type 0 where
  pub uuid : Option ℕ
  pub parent_uuid : Option ℕ
  pub kind : Kind
  pub is_sidechain : Bool
  pub message : Option Payload
  pub content : Option Payload
  pub timestamp : Option ℕ

pub data Error : Type 0 where
  not_found : ℕ → Error
  after_not_found : ℕ → Error
  type_error : Error

pub data Result {ℓ} (A : Type ℓ) : Type ℓ where
  ok : A → Result A
  err : Error → Result A

-- `set.has(u)` for the sets of `buildChain`, as lists.
abbrev pub has : Option ℕ → List (Option ℕ) → Bool
has u = any (same u)

abbrev pub add_known : Option ℕ → JsonlRecord → List (ℕ × JsonlRecord) → List (ℕ × JsonlRecord)
add_known none r m = m
add_known (some u) r m = insert u r m

-- `byUuid`: a later record with the same uuid replaces an earlier one.
pub index : List JsonlRecord → List (ℕ × JsonlRecord) → List (ℕ × JsonlRecord)
index [] m = m
index (r ∷ rs) m = index rs (add_known r.uuid r m)

-- `hasChildren`: the parents that records with a uuid name.
pub parents : List JsonlRecord → List (Option ℕ)
parents [] = []
parents (r ∷ rs) =
    if is_some r.uuid && is_some r.parent_uuid then r.parent_uuid ∷ parents rs else parents rs

abbrev pub is_leaf : List (Option ℕ) → JsonlRecord → Bool
is_leaf ps r = is_some r.uuid && not (has r.uuid ps)

abbrev pub is_main_leaf : List (Option ℕ) → JsonlRecord → Bool
is_main_leaf ps r = is_leaf ps r && not r.is_sidechain

-- The last leaf in file order, sidechains only where there is no other.
pub pick_leaf : List JsonlRecord → Option JsonlRecord
pick_leaf rs = elim (last (filter (is_main_leaf (parents rs)) rs)) [
  | some r ↦ some r
  | none ↦ last (filter (is_leaf (parents rs)) rs)
]

-- `current.parentUuid ? byUuid.get(current.parentUuid) : undefined`.
abbrev pub look : List (ℕ × JsonlRecord) → Option ℕ → Option JsonlRecord
look m none = none
look m (some p) = lookup p m

abbrev pub parent_of : List (ℕ × JsonlRecord) → JsonlRecord → Option JsonlRecord
parent_of m r = look m r.parent_uuid

-- The loop that walks from the leaf to the root. `chain.unshift` puts each record in front.
pub walk :
    ℕ
    → List (ℕ × JsonlRecord)
    → List (Option ℕ)
    → Option JsonlRecord
    → List JsonlRecord
    → List JsonlRecord
walk zero m visited current chain = chain
walk (suc fuel) m visited none chain = chain
walk (suc fuel) m visited (some r) chain =
    let rest = walk fuel m (r.uuid ∷ visited) (parent_of m r) (r ∷ chain) in
    if has r.uuid visited then chain else rest

-- The visited uuids are distinct keys of the index, so that this much fuel is enough.
abbrev pub rounds : List JsonlRecord → ℕ
rounds rs = suc (suc (length rs))

pub build_chain : List JsonlRecord → List JsonlRecord
build_chain rs = walk (rounds rs) (index rs []) [] (pick_leaf rs) []

-- The role of an injected message, and where `afterUuid` asks for it.
pub data Role : Type 0 where
  user_role system_role : Role

pub data Place : Type 0 where
  at_tail at_start : Place
  after : ℕ → Place

pub new_record : ℕ → ℕ → ℕ → Role → Option ℕ → JsonlRecord
new_record new_uuid now text system_role parent = record {
  uuid = some new_uuid;
  parent_uuid = parent;
  kind = system;
  is_sidechain = false;
  message = none;
  content = some (raw text);
  timestamp = some now;
}
new_record new_uuid now text user_role parent = record {
  uuid = some new_uuid;
  parent_uuid = parent;
  kind = user;
  is_sidechain = false;
  message = some (user_message text);
  content = none;
  timestamp = some now;
}

-- The loops that re-point the records which pass the test.
abbrev pub repoint : (JsonlRecord → Bool) → Option ℕ → List JsonlRecord → List JsonlRecord
repoint test parent = map (λ r. if test r then record r { parent_uuid = parent } else r)

abbrev pub leaf_uuid : Option JsonlRecord → Option ℕ
leaf_uuid none = none
leaf_uuid (some r) = r.uuid

abbrev pub tail_uuid : List JsonlRecord → Option ℕ
tail_uuid chain = leaf_uuid (last chain)

-- The test of the loop under "__start__": the chain's first record, if it is a root.
abbrev pub is_root_of : List JsonlRecord → JsonlRecord → Bool
is_root_of [] r = false
is_root_of (root ∷ chain) r = same r.uuid root.uuid && not (is_some r.parent_uuid)

pub inject_message : List JsonlRecord → ℕ → ℕ → ℕ → Role → Place → Result (List JsonlRecord)
inject_message rs new_uuid now text role at_tail =
    ok (rs ++ new_record new_uuid now text role (tail_uuid (build_chain rs)) ∷ [])
inject_message rs new_uuid now text role at_start = ok (
    repoint (is_root_of (build_chain rs)) (some new_uuid) rs
    ++ new_record new_uuid now text role none ∷ [])
inject_message rs new_uuid now text role (after u) =
    if any (λ r. same r.uuid (some u)) rs
    then ok (
        repoint (λ r. same r.parent_uuid (some u)) (some new_uuid) rs
        ++ new_record new_uuid now text role (some u) ∷ [])
    else err (after_not_found u)

-- The children of the removed message go to its parent.
pub remove_message : List JsonlRecord → ℕ → Result (List JsonlRecord)
remove_message rs target_uuid = elim (find? (λ r. same r.uuid (some target_uuid)) rs) [
  | none ↦ err (not_found target_uuid)
  | some target ↦ ok (
      repoint (λ r. same r.parent_uuid (some target_uuid)) target.parent_uuid
        (filter (λ r. not (same r.uuid (some target_uuid))) rs))
]

abbrev pub is_conversational : JsonlRecord → Bool
is_conversational r = elim r.kind [
  | user ↦ true
  | assistant ↦ true
  | system ↦ false
  | other _ ↦ false
]

-- The chain from its first record with the uuid on.
pub from_uuid : Option ℕ → List JsonlRecord → List JsonlRecord
from_uuid u [] = []
from_uuid u (r ∷ chain) = if same r.uuid u then r ∷ chain else from_uuid u chain

-- `firstKept.parentUuid = null`, at the first record with the uuid.
pub cut_parent : Option ℕ → List JsonlRecord → List JsonlRecord
cut_parent u [] = []
cut_parent u (r ∷ rs) =
    if same r.uuid u then record r { parent_uuid = none } ∷ rs else r ∷ cut_parent u rs

abbrev pub keep_from : List JsonlRecord → List JsonlRecord → JsonlRecord → List JsonlRecord
keep_from rs chain first =
    cut_parent first.uuid
      (filter (λ r. has r.uuid (map (λ k. k.uuid) (from_uuid first.uuid chain))) rs)

-- `conversational[keepFrom].uuid` throws where there is no such record.
pub truncate_to_last_n : List JsonlRecord → ℕ → Result (List JsonlRecord)
truncate_to_last_n rs n =
    let chain = build_chain rs in
    let conversational = filter is_conversational chain in
    let keep_count = n * 2 in
    if leb (length conversational) keep_count
    then ok rs
    else elim (drop (length conversational - keep_count) conversational) [
      | [] ↦ err type_error
      | first ∷ _ ↦ ok (keep_from rs chain first)
    ]
