-- ===== src/WarmPool.antt =====
-- packages/orchestrator/src/warm-pool.ts: `WarmPool`, runners that are started before a session asks
-- for one. A text is a number, and 0 is the empty one, which the code's tests by truth take for a
-- missing one. `uuid k` is the k-th random id that is drawn, `connected` the bridge's
-- `isConnected` at the moment of the call. The call of `docker.spawn` is an `await`: `refill` is the
-- code up to there, `spawned` and `spawn_failed` the code after it, and `destroy` is taken with no
-- other call in between.
mod Tests
pub mod Refill
pub mod Adopt
pub mod Tokens
use claude_agent_runner.Common.{
  ℕ, zero, suc, ◌+◌, ◌-◌, Option, none, some, Bool, true, false, not, ◌&&◌, List, [], ◌∷◌, ◌++◌,
  map, if◌then◌else◌, ◌==◌, same, filter, count, any, length,
}
use claude_agent_runner.TokenPool.{TokenPool, assign, release}

pub data Status : Type 0 where
  spawning ready : Status

pub record WarmEntry : Type 0 where
  pub warm_id : ℕ
  pub container_id : ℕ
  pub token_index : ℕ
  pub status : Status
  pub spawned_at : ℕ
  pub vault : Option ℕ
  pub agent_id : Option ℕ

pub record WarmPoolProfile : Type 0 where
  pub vault : Option ℕ
  pub agent_id : Option ℕ
  pub namespace : Option ℕ
  pub target_size : ℕ

-- `awaited`: the ids whose spawn the refill that runs still waits for.
pub record WarmPool : Type 0 where
  pub profiles : List WarmPoolProfile
  pub pool : List WarmEntry
  pub refilling : Bool
  pub awaited : List ℕ
  pub token_pool : TokenPool
  pub drawn : ℕ

abbrev pub truthy : Option ℕ → Bool
truthy none = false
truthy (some text) = not (text == 0)

-- `wanted ? actual === wanted : !actual`.
abbrev pub fits : Option ℕ → Option ℕ → Bool
fits wanted actual = if truthy wanted then same actual wanted else not (truthy actual)

abbrev pub matches_profile : WarmPoolProfile → WarmEntry → Bool
matches_profile p e = fits p.vault e.vault && fits p.agent_id e.agent_id

abbrev pub is_ready : WarmEntry → Bool
is_ready e = elim e.status [ ready ↦ true | spawning ↦ false ]

abbrev pub has_warm_id : ℕ → WarmEntry → Bool
has_warm_id id e = e.warm_id == id

abbrev pub is_empty : List ℕ → Bool
is_empty [] = true
is_empty (id ∷ ids) = false

abbrev pub new_entry : WarmPoolProfile → ℕ → ℕ → ℕ → WarmEntry
new_entry p id token_index now = record {
  warm_id = id;
  container_id = 0;
  token_index = token_index;
  status = spawning;
  spawned_at = now;
  vault = p.vault;
  agent_id = p.agent_id;
}

module _ (uuid : ℕ → ℕ) where
  -- `spawnWarmContainer` up to the call of `docker.spawn`.
  pub begin_spawn : WarmPoolProfile → ℕ → WarmPool → WarmPool
  begin_spawn p now s =
      let id = uuid s.drawn in
      let (a, tokens) = assign id s.token_pool in
      record s {
        token_pool = tokens;
        drawn = s.drawn + 1;
        awaited = s.awaited ++ id ∷ [];
        pool = s.pool ++ new_entry p id a.token_index now ∷ [];
      }

  -- The inner loop of `refill`.
  pub spawn_times : ℕ → WarmPoolProfile → ℕ → WarmPool → WarmPool
  unfolding begin_spawn
  spawn_times zero p now s = s
  spawn_times (suc n) p now s = spawn_times n p now (begin_spawn p now s)

  -- The loop over the profiles. What one of them starts counts for the next.
  pub fill_profiles : List WarmPoolProfile → ℕ → WarmPool → WarmPool
  unfolding spawn_times
  fill_profiles [] now s = s
  fill_profiles (p ∷ ps) now s =
      let needed = p.target_size - count (matches_profile p) s.pool in
      fill_profiles ps now (spawn_times needed p now s)

  -- With nothing to wait for, the flag is taken back at once.
  abbrev pub begun : Bool → WarmPool → WarmPool → WarmPool
  begun true s filled = s
  begun false s filled = record filled { refilling = not (is_empty filled.awaited) }

  pub refill : ℕ → WarmPool → WarmPool
  unfolding fill_profiles
  refill now s =
      begun s.refilling s
        (fill_profiles s.profiles now (record s { refilling = true; awaited = [] }))

-- `Promise.allSettled`: with the last of the awaited spawns the refill ends.
abbrev pub settle : ℕ → WarmPool → WarmPool
settle id s =
    let left = filter (λ i. not (i == id)) s.awaited in
    record s { awaited = left; refilling = s.refilling && not (is_empty left) }

pub spawned : ℕ → ℕ → WarmPool → WarmPool
spawned id container s = settle id (record s {
  pool = map (λ e. if has_warm_id id e then record e { container_id = container } else e) s.pool;
})

-- Ids are distinct, so that the entry is found by its id.
pub spawn_failed : ℕ → WarmPool → WarmPool
unfolding release
spawn_failed id s = settle id (record s {
  pool = filter (λ e. not (has_warm_id id e)) s.pool;
  token_pool = release id s.token_pool;
})

-- An entry before the one that is found stays in the list.
abbrev pub put_back :
    WarmEntry → Option (WarmEntry × List WarmEntry) → Option (WarmEntry × List WarmEntry)
put_back e none = none
put_back e (some (found, left)) = some (found, e ∷ left)

-- The first entry that passes the test, with the rest: `findIndex` and `splice`.
pub split_first : (WarmEntry → Bool) → List WarmEntry → Option (WarmEntry × List WarmEntry)
split_first test [] = none
split_first test (e ∷ es) =
    let later = put_back e (split_first test es) in if test e then some (e, es) else later

abbrev pub usable : (ℕ → Bool) → Option ℕ → Option ℕ → WarmEntry → Bool
usable connected vault agent e =
    is_ready e && connected e.warm_id && (fits vault e.vault && fits agent e.agent_id)

-- What `adopt` and `take` share: the entry leaves the pool, and a refill starts.
module _ (uuid : ℕ → ℕ) where
  abbrev pub taken :
      ℕ → WarmPool → Option (WarmEntry × List WarmEntry) → Option WarmEntry × WarmPool
  taken now s none = (none, s)
  taken now s (some (e, left)) = (some e, refill uuid now (record s { pool = left }))

  unfoldable pub adopt :
      (ℕ → Bool) → Option ℕ → Option ℕ → ℕ → WarmPool → Option WarmEntry × WarmPool
  unfolding split_first refill
  adopt connected vault agent now s =
      taken now s (split_first (usable connected vault agent) s.pool)

  pub take : (ℕ → Bool) → ℕ → WarmPool → Option WarmEntry × WarmPool
  unfolding split_first refill
  take connected now s = taken now s (split_first (usable connected none none) s.pool)

-- The first entry with the id.
pub mark_first : ℕ → List WarmEntry → List WarmEntry
mark_first id [] = []
mark_first id (e ∷ es) =
    if has_warm_id id e then record e { status = ready } ∷ es else e ∷ mark_first id es

pub mark_ready : ℕ → WarmPool → WarmPool
unfolding mark_first
mark_ready id s = record s { pool = mark_first id s.pool }

pub release_all : List WarmEntry → TokenPool → TokenPool
unfolding release
release_all [] tokens = tokens
release_all (e ∷ es) tokens = release_all es (release e.warm_id tokens)

pub destroy : WarmPool → WarmPool
unfolding release_all
destroy s = record s { pool = []; token_pool = release_all s.pool s.token_pool }

pub is_warm_id : ℕ → WarmPool → Bool
is_warm_id id s = any (has_warm_id id) s.pool

pub ready_count : WarmPool → ℕ
ready_count s = count is_ready s.pool

pub target_sum : List WarmPoolProfile → ℕ
target_sum [] = 0
target_sum (p ∷ ps) = p.target_size + target_sum ps

pub record ProfileStats : Type 0 where
  pub target : ℕ
  pub current : ℕ
  pub ready_now : ℕ

pub record Stats : Type 0 where
  pub target : ℕ
  pub total : ℕ
  pub ready_entries : ℕ
  pub spawning_entries : ℕ
  pub profiles : List ProfileStats

pub stats : WarmPool → Stats
unfolding target_sum ready_count
stats s = record {
  target = target_sum s.profiles;
  total = length s.pool;
  ready_entries = ready_count s;
  spawning_entries = count (λ e. not (is_ready e)) s.pool;
  profiles = map of_profile s.profiles;
}
  where
    of_profile : WarmPoolProfile → ProfileStats
    of_profile p = record {
      target = p.target_size;
      current = count (matches_profile p) s.pool;
      ready_now = count is_ready (filter (matches_profile p) s.pool);
    }
