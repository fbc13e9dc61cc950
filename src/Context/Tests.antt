-- ===== src/Context/Tests.antt =====
-- Small files on which the definitions are run and the theorems are applied.
use claude_agent_runner.Common.{
  ℕ, ◌+◌, ◌≡◌, refl, inr, Option, none, some, true, false, List, [], ◌∷◌, ◌++◌,
}
use claude_agent_runner.Common.Dict.{lookup, insert}
use claude_agent_runner.Context.{
  JsonlRecord, Kind, user, assistant, raw, ok, err, not_found, type_error, user_role, at_tail,
  index, parents, walk, rounds, pick_leaf, build_chain, new_record, inject_message, remove_message,
  from_uuid, cut_parent, truncate_to_last_n,
}
use claude_agent_runner.Context.Walk.{IsConversation}
use claude_agent_runner.Context.Leaf.{IsUnique, build_chain-IsConversation, build_chain_fuel}
use claude_agent_runner.Context.Remove.{Removed, remove_message-Removed}
use claude_agent_runner.Context.Inject.{IsFresh, inject_message-tail}

program : Unit {0}
unfolding index parents walk pick_leaf build_chain new_record inject_message remove_message
    from_uuid cut_parent truncate_to_last_n lookup insert
program = tt

abbrev entry : Kind → ℕ → Option ℕ → JsonlRecord
entry k u p = record {
  uuid = some u;
  parent_uuid = p;
  kind = k;
  is_sidechain = false;
  message = some (raw u);
  content = none;
  timestamp = none;
}

-- A question, its answer, and a side branch of the question.
abbrev file : List JsonlRecord
file =
    entry user 1 none
    ∷ record (entry assistant 3 (some 1)) { is_sidechain = true }
    ∷ entry assistant 2 (some 1)
    ∷ []

chain_runs : build_chain file ≡ entry user 1 none ∷ entry assistant 2 (some 1) ∷ []
unfolding program
chain_runs = refl

-- Two records that name one another: the walk stops where it comes back.
abbrev cycle : List JsonlRecord
cycle = entry user 1 (some 2) ∷ entry assistant 2 (some 1) ∷ entry user 3 (some 2) ∷ []

cycle_runs :
    build_chain cycle
    ≡ entry user 1 (some 2) ∷ entry assistant 2 (some 1) ∷ entry user 3 (some 2) ∷ []
unfolding program
cycle_runs = refl

remove_runs :
    remove_message file 1
    ≡ ok (record (entry assistant 3 none) { is_sidechain = true } ∷ entry assistant 2 none ∷ [])
unfolding program
remove_runs = refl

remove_missing : remove_message file 9 ≡ err (not_found 9)
unfolding program
remove_missing = refl

truncate_runs :
    truncate_to_last_n cycle 1 ≡ ok (entry assistant 2 none ∷ entry user 3 (some 2) ∷ [])
unfolding program
truncate_runs = refl

truncate_zero : truncate_to_last_n file 0 ≡ err type_error
unfolding program
truncate_zero = refl

file-IsUnique : IsUnique file
file-IsUnique = (inr refl, (inr refl, (inr refl, tt)))

file-IsFresh : IsFresh 4 file
unfolding parents
file-IsFresh = record { unused = refl; unnamed = refl }

inject_message-tail_example :
    (out : List JsonlRecord) × (new : JsonlRecord) × (inject_message file 4 100 7 user_role at_tail
      ≡ ok out)
    × (out ≡ file ++ new ∷ [])
    × (new.uuid ≡ some 4)
    × (build_chain out ≡ build_chain file ++ new ∷ [])
inject_message-tail_example = inject_message-tail file 4 100 7 user_role file-IsUnique file-IsFresh

build_chain-IsConversation_example : IsConversation (index cycle []) (build_chain cycle)
build_chain-IsConversation_example = build_chain-IsConversation cycle

build_chain_fuel_example :
    walk (rounds cycle + 10) (index cycle []) [] (pick_leaf cycle) [] ≡ build_chain cycle
build_chain_fuel_example = build_chain_fuel cycle 10

remove_message-Removed_example : Removed file 1 (remove_message file 1)
remove_message-Removed_example = remove_message-Removed file 1
