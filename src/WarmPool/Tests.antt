-- ===== src/WarmPool/Tests.antt =====
-- A warm pool with two profiles on which the definitions are run and the theorems are applied.
use claude_agent_runner.Common.{
  ℕ, ◌+◌, ◌≤◌, ◌≡◌, refl, Option, none, some, Bool, true, false, List, [], ◌∷◌, ◌++◌, arith, length,
  map,
}
use claude_agent_runner.Common.Dict.{lookup, insert, remove}
use claude_agent_runner.TokenPool.{TokenPool, assign, release}
use claude_agent_runner.WarmPool.{
  ready, WarmEntry, WarmPoolProfile, WarmPool, usable, refill, adopt, mark_ready, spawned,
  spawn_failed, begin_spawn, spawn_times, fill_profiles, split_first, mark_first, is_warm_id,
  target_sum,
}
use claude_agent_runner.WarmPool.Refill.{Reached, refill-Reached}
use claude_agent_runner.WarmPool.Adopt.{Adopted, adopt-Adopted}
use claude_agent_runner.WarmPool.Tokens.{
  Op, refills, fails, marks, spawns, adopts, run, IsValid, run-AllHeld,
}

program : Unit {0}
unfolding assign release lookup insert remove refill adopt mark_ready spawned spawn_failed
    begin_spawn spawn_times fill_profiles split_first mark_first is_warm_id
program = tt

abbrev tokens : TokenPool
tokens = record { tokens = [] ∷ [] ∷ []; next_index = 0; session_tokens = [] }

abbrev plain : WarmPoolProfile
plain = record { vault = none; agent_id = none; namespace = none; target_size = 2 }

abbrev with_vault : WarmPoolProfile
with_vault = record { vault = some 5; agent_id = none; namespace = none; target_size = 1 }

abbrev start : WarmPool
start = record {
  profiles = plain ∷ with_vault ∷ [];
  pool = [];
  refilling = false;
  awaited = [];
  token_pool = tokens;
  drawn = 0;
}

abbrev uuid : ℕ → ℕ
uuid n = n + 100

abbrev connected : ℕ → Bool
connected id = true

fills : map (λ (e : WarmEntry). e.warm_id) (refill uuid 7 start).pool ≡ 100 ∷ 101 ∷ 102 ∷ []
unfolding program
fills = refl

abbrev served : WarmPool
served = mark_ready 102 (mark_ready 101 (spawned 101 9 (spawn_failed 100 (refill uuid 7 start))))

adopts_vault :
    (adopt uuid connected (some 5) none 8 served).0
    ≡ some (record {
      warm_id = 102;
      container_id = 0;
      token_index = 0;
      status = ready;
      spawned_at = 7;
      vault = some 5;
      agent_id = none;
    })
unfolding program
adopts_vault = refl

refill-Reached_example :
    (added : List WarmEntry) × ((refill uuid 7 start).pool ≡ start.pool ++ added)
    × (length added ≤ target_sum start.profiles)
    × Reached (refill uuid 7 start).pool start.profiles
refill-Reached_example = refill-Reached uuid 7 start refl

abbrev entry : ℕ → Option ℕ → WarmEntry
entry id vault = record {
  warm_id = id;
  container_id = 1;
  token_index = 0;
  status = ready;
  spawned_at = 7;
  vault = vault;
  agent_id = none;
}

abbrev filled : WarmPool
filled = record start { pool = entry 1 none ∷ entry 2 (some 5) ∷ entry 3 none ∷ [] }

filled-Reached : Reached filled.pool filled.profiles
filled-Reached = (omega arith, (omega arith, tt))

adopt-Adopted_example :
    Adopted uuid
      (usable connected (some 5) none)
      8
      served
      (adopt uuid connected (some 5) none 8 served)
adopt-Adopted_example = adopt-Adopted uuid connected (some 5) none 8 served

uuid_fresh : (i j : ℕ) → uuid i ≡ uuid j → i ≡ j
uuid_fresh i j e = omega (arith, e)

history : List Op
history = refills 7 ∷ fails 100 ∷ spawns 101 9 ∷ marks 101 ∷ adopts connected none none 8 ∷ []

run-AllHeld_example : IsValid uuid (run uuid history start)
run-AllHeld_example = run-AllHeld uuid uuid_fresh history start (tt, λ id. omega arith)
