-- ===== src/RunnerTurn/Tests.antt =====
-- packages/runner/src/command-handler.ts: histories of an idle runner on which the definitions are run
-- and the theorems are applied.
use claude_agent_runner.Common.{ℕ, ◌≡◌, refl, none, some, true, false, List, [], ◌∷◌}
use claude_agent_runner.RunnerTurn.{
  TurnRequest, SteerRequest, looping, RunnerState, done, thrown, turn_of, steer_turn, on_message,
  on_compact, on_steer, on_fork_and_steer, on_wait_end, resume_first,
}
use claude_agent_runner.RunnerTurn.Busy.{
  messaged, steered_by, forked_by, ended, Steps, stay, next, IsBusyRight, history-IsBusyRight,
}
use claude_agent_runner.RunnerTurn.Steers.{settle, IsSettled, settle-IsSettled}

program : Unit {0}
unfolding on_message on_compact on_steer on_fork_and_steer on_wait_end resume_first settle
program = tt

abbrev idle : RunnerState
idle = record {
  is_busy = false;
  force_compact_on_next = false;
  pending_compact_instructions = none;
  pending_steer = none;
  pending_fork = none;
  thinking_override = none;
  has_session = true;
  handlers = [];
  operations = [];
  turns = [];
  interrupts = 0;
  sent = [];
}

abbrev request : ℕ → TurnRequest
request text = record {
  message = text;
  content = none;
  model = none;
  max_turns = none;
  max_thinking_tokens = none;
  request_id = some text;
  trace_id = none;
}

abbrev steer : ℕ → List ℕ → SteerRequest
steer text operations = record {
  request = request text;
  compact = some true;
  compact_instructions = none;
  operations = operations;
}

-- A message, a fork and a steer while its turn runs, which is interrupted.
abbrev steered : RunnerState
steered =
    on_steer true (steer 6 (3 ∷ []))
      (on_fork_and_steer true (request 8) (on_message true (request 5) idle))

follows :
    (settle (thrown 9 ∷ done ∷ done ∷ done ∷ done ∷ []) steered).turns
    ≡ turn_of (request 5) false none
      ∷ turn_of (request 8) false none
      ∷ steer_turn (steer 6 (3 ∷ []))
      ∷ []
unfolding program
follows = refl

-- Where the fork fails, its request is a steer, and the steer is lost.
loses_steer :
    (settle (thrown 9 ∷ thrown 4 ∷ done ∷ done ∷ []) steered).turns
    ≡ turn_of (request 5) false none ∷ turn_of (request 8) false none ∷ []
unfolding program
loses_steer = refl

-- A steer that came while the turn of a steer runs is left behind when that turn ends.
left_behind :
    let s =
      on_wait_end true done
        (on_steer true (steer 7 []) (on_wait_end true done (on_steer true (steer 6 []) idle))) in
    (s.is_busy ≡ false) × (s.handlers ≡ []) × (s.pending_steer ≡ some (steer 7 []))
unfolding program
left_behind = (refl, refl, refl)

-- So is one that came while the interrupt of a cancel is awaited.
left_by_cancel :
    let s = on_wait_end true done (
      on_steer true
        (steer 7 [])
        (on_wait_end true done (on_steer true (steer 0 []) (on_message true (request 5) idle)))) in
    (s.is_busy ≡ false) × (s.handlers ≡ []) × (s.pending_steer ≡ some (steer 7 []))
unfolding program
left_by_cancel = (refl, refl, refl)

arrives : Steps idle (on_wait_end true (thrown 4) (on_wait_end true (thrown 9) steered))
arrives = next (messaged true (request 5) idle refl) (
    next (forked_by true (request 8) (on_message true (request 5) idle)) (
      next
        (steered_by true (steer 6 (3 ∷ []))
          (on_fork_and_steer true (request 8) (on_message true (request 5) idle)))
        (next (ended true (thrown 9) steered) (
          next (ended true (thrown 4) (on_wait_end true (thrown 9) steered))
            (stay (on_wait_end true (thrown 4) (on_wait_end true (thrown 9) steered)))))))

history-IsBusyRight_example :
    IsBusyRight (on_wait_end true (thrown 4) (on_wait_end true (thrown 9) steered))
history-IsBusyRight_example = history-IsBusyRight arrives refl

only_waits : steered.handlers ≡ looping (turn_of (request 5) false none) ∷ []
unfolding program
only_waits = refl

settle-IsSettled_example :
    IsSettled
      (turn_of (request 5) false none)
      done
      steered
      (settle (thrown 9 ∷ done ∷ done ∷ done ∷ done ∷ []) steered)
settle-IsSettled_example =
    settle-IsSettled (turn_of (request 5) false none) (thrown 9) done done done done [] steered
      only_waits
