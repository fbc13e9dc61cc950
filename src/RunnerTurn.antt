-- ===== src/RunnerTurn.antt =====
-- packages/runner/src/command-handler.ts, and the fork in run-turn.ts: the commands that start, steer
-- and end turns. A handler that waits is an entry of `handlers`, with what it waits for; what happens
-- between two waits is one step. The operations of a steer and its snapshot are one wait, and the
-- operations are recorded when it begins; their errors are only logged. `turns` are the calls of
-- `runTurn`. A text is a number, and 0 is the empty one; a content that is there is never empty.
-- `is_open` is the socket's state at the call.
mod Tests
pub mod Busy
pub mod Steers
use claude_agent_runner.Common.{
  ℕ, zero, suc, ◌+◌, Option, none, some, Bool, true, false, not, ◌&&◌, List, [], ◌∷◌, ◌++◌,
  if◌then◌else◌, ◌==◌, get_or, is_some,
}

-- The fields that a message, a steer and a fork share.
pub record TurnRequest : Type 0 where
  pub message : ℕ
  pub content : Option ℕ
  pub model : Option ℕ
  pub max_turns : Option ℕ
  pub max_thinking_tokens : Option ℕ
  pub request_id : Option ℕ
  pub trace_id : Option ℕ

pub record SteerRequest : Type 0 where
  pub request : TurnRequest
  pub compact : Option Bool
  pub compact_instructions : Option ℕ
  pub operations : List ℕ

-- The arguments of `runTurn`.
pub record Turn : Type 0 where
  pub prompt : ℕ
  pub model : Option ℕ
  pub max_turns : Option ℕ
  pub max_thinking_tokens : Option ℕ
  pub request_id : Option ℕ
  pub trace_id : Option ℕ
  pub force_compact : Bool
  pub compact_instructions : Option ℕ

-- What a handler waits for. In the loop of a message: a turn, the fork behind a turn, the interrupt of
-- a cancel, the operations of a steer. For a steer or a fork that came while idle: the operations, the
-- turn.
pub data Handler : Type 0 where
  looping single interrupting : Turn → Handler
  forking : Turn → TurnRequest → Handler
  preparing readying : SteerRequest → Handler

pub data RunnerFrame : Type 0 where
  busy_status ready_status : Option ℕ → Option ℕ → RunnerFrame
  execution_error : Option ℕ → Option ℕ → ℕ → RunnerFrame

pub record RunnerState : Type 0 where
  pub is_busy : Bool
  pub force_compact_on_next : Bool
  pub pending_compact_instructions : Option ℕ
  pub pending_steer : Option SteerRequest
  pub pending_fork : Option TurnRequest
  pub thinking_override : Option ℕ
  pub has_session : Bool
  pub handlers : List Handler
  pub operations : List ℕ
  pub turns : List Turn
  pub interrupts : ℕ
  pub sent : List RunnerFrame

-- How what a handler waits for ends; an interrupt and operations end in the same way with both.
pub data TurnEnd : Type 0 where
  done : TurnEnd
  thrown : ℕ → TurnEnd

abbrev pub prompt_of : TurnRequest → ℕ
prompt_of r = get_or r.content r.message

-- Neither a message nor a content: a cancel.
abbrev pub is_cancel : TurnRequest → Bool
is_cancel r = r.message == 0 && not (is_some r.content)

abbrev pub turn_of : TurnRequest → Bool → Option ℕ → Turn
turn_of r compact instructions = record {
  prompt = prompt_of r;
  model = r.model;
  max_turns = r.max_turns;
  max_thinking_tokens = r.max_thinking_tokens;
  request_id = r.request_id;
  trace_id = r.trace_id;
  force_compact = compact;
  compact_instructions = instructions;
}

abbrev pub steer_turn : SteerRequest → Turn
steer_turn p = turn_of p.request (get_or p.compact false) p.compact_instructions

-- What `maybeHandleForkAndSteer` makes of a fork that fails.
abbrev pub steer_of : TurnRequest → SteerRequest
steer_of r = record {
  request = record r { max_thinking_tokens = none };
  compact = none;
  compact_instructions = none;
  operations = [];
}

abbrev pub start : Turn → RunnerState → RunnerState
start t s = record s { turns = s.turns ++ t ∷ [] }

abbrev pub interrupt : RunnerState → RunnerState
interrupt s = if s.has_session then record s { interrupts = s.interrupts + 1 } else s

module _ (is_open : Bool) where
  abbrev pub send : RunnerFrame → RunnerState → RunnerState
  send f s = if is_open then record s { sent = s.sent ++ f ∷ [] } else s

  -- `state.isBusy = true`, `sendBusy`, and the first wait.
  abbrev pub begin : Handler → Option ℕ → Option ℕ → RunnerState → RunnerState
  begin h request trace s =
      let told = send (busy_status request trace) (record s { is_busy = true }) in
      record told { handlers = told.handlers ++ h ∷ [] }

  abbrev pub thinking_or : Option ℕ → Option ℕ → Option ℕ
  thinking_or none override = override
  thinking_or (some n) override = some n

  unfoldable pub on_message : TurnRequest → RunnerState → RunnerState
  on_message r s =
      let t = record (turn_of r s.force_compact_on_next s.pending_compact_instructions) {
        max_thinking_tokens = thinking_or r.max_thinking_tokens s.thinking_override;
      } in
      begin (looping t) r.request_id r.trace_id
        (start t (record s { force_compact_on_next = false; pending_compact_instructions = none }))

  unfoldable pub on_compact : Option ℕ → Option ℕ → RunnerState → RunnerState
  on_compact instructions request s =
      send (ready_status request none)
        (record s { force_compact_on_next = true; pending_compact_instructions = instructions })

  abbrev pub on_steer_idle : SteerRequest → RunnerState → RunnerState
  on_steer_idle p s =
      if is_cancel p.request
      then send (ready_status p.request.request_id p.request.trace_id) s
      else begin (readying p) p.request.request_id p.request.trace_id
          (record s { operations = s.operations ++ p.operations })

  unfoldable pub on_steer : SteerRequest → RunnerState → RunnerState
  on_steer p s =
      if s.is_busy then interrupt (record s { pending_steer = some p }) else on_steer_idle p s

  unfoldable pub on_fork_and_steer : TurnRequest → RunnerState → RunnerState
  on_fork_and_steer r s =
      if s.is_busy
      then interrupt (record s { pending_fork = some r })
      else begin (single (turn_of r false none)) r.request_id r.trace_id
          (start (turn_of r false none) s)

  -- The `catch` of the loop: with a pending steer the end was asked for.
  abbrev pub reported : Turn → TurnEnd → Bool → RunnerState → RunnerState
  reported t done steered s = s
  reported t (thrown e) true s = s
  reported t (thrown e) false s = send (execution_error t.request_id t.trace_id e) s

  -- `state.isBusy = false`, `sendReady`: the handler is over.
  abbrev pub finish : Turn → RunnerState → RunnerState
  finish t s = send (ready_status t.request_id t.trace_id) (record s { is_busy = false })

  -- The `break` of a cancel; without a session there is nothing to wait for.
  abbrev pub cancelled : Turn → Bool → RunnerState → Option Handler × RunnerState
  cancelled t true s = (some (interrupting t), interrupt s)
  cancelled t false s = (none, finish t s)

  -- What a handler comes to: what it waits for next, if it goes on.
  abbrev pub steered : Turn → Option SteerRequest → RunnerState → Option Handler × RunnerState
  steered t none s = (none, finish t s)
  steered t (some p) s =
      let taken = record s { pending_steer = none } in
      if is_cancel p.request
      then cancelled t s.has_session taken
      else (some (preparing p), record taken { operations = taken.operations ++ p.operations })

  abbrev pub forked : Turn → Option TurnRequest → RunnerState → Option Handler × RunnerState
  forked t none s = steered t s.pending_steer s
  forked t (some r) s = (some (forking t r), record s { pending_fork = none })

  -- A fork that fails becomes the pending steer, whatever was pending, and is taken at once.
  abbrev pub fork_ended : Turn → TurnRequest → TurnEnd → RunnerState → Option Handler × RunnerState
  fork_ended t r done s = (some (looping (turn_of r false none)), start (turn_of r false none) s)
  fork_ended t r (thrown e) s =
      steered t (some (steer_of r)) (record s { pending_steer = some (steer_of r) })

  abbrev pub resumed : Handler → TurnEnd → RunnerState → Option Handler × RunnerState
  resumed (looping t) end s = forked t s.pending_fork (reported t end (is_some s.pending_steer) s)
  resumed (forking t r) end s = fork_ended t r end s
  resumed (interrupting t) end s = (none, finish t s)
  resumed (preparing p) end s = (
    some (looping (steer_turn p)),
    start (steer_turn p) (send (busy_status p.request.request_id p.request.trace_id) s),
  )
  resumed (readying p) end s = (some (single (steer_turn p)), start (steer_turn p) s)
  resumed (single t) end s = (none, finish t (reported t end false s))

  abbrev pub waits_on : Option Handler → List Handler
  waits_on none = []
  waits_on (some h) = h ∷ []

  -- What the first handler waits for ends; the others, of which there are none where messages come
  -- only while idle, wait on.
  unfoldable pub resume_first : List Handler → TurnEnd → RunnerState → RunnerState
  resume_first [] end s = s
  resume_first (h ∷ hs) end s =
      let (next, s') = resumed h end s in record s' { handlers = waits_on next ++ hs }

  unfoldable pub on_wait_end : TurnEnd → RunnerState → RunnerState
  unfolding resume_first
  on_wait_end end s = resume_first s.handlers end s
