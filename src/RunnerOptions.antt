-- ===== src/RunnerOptions.antt =====
-- packages/runner/src/command-handler.ts and session-lifecycle.ts: the options of a runner, and those
-- with which its SDK session was made. `set_options` and `adopt` change the first; a session that is
-- not closed keeps the second but for what it is told. A text is a number, and 0 is the empty one.
mod Tests
pub mod Current
use claude_agent_runner.Common.{
  ℕ, zero, suc, Option, none, some, Bool, true, false, not, if◌then◌else◌, ltb, ◌==◌, get_or,
}
use claude_agent_runner.WarmPool.{truthy}

-- What `buildSessionOptions` reads of the state and of the environment.
pub record Options : Type 0 where
  pub token : ℕ
  pub model : ℕ
  pub system_prompt : Option ℕ
  pub append_system_prompt : Option ℕ
  pub max_turns : Option ℕ
  pub thinking : Bool
  pub effort : Option ℕ
  pub allowed_tools : Option ℕ
  pub disallowed_tools : Option ℕ
  pub permission_mode : ℕ
  pub mcp_servers : Option ℕ
  pub allowed_paths : Option ℕ

pub record RunnerOptions : Type 0 where
  pub options : Options
  pub session : Option Options
  pub thinking_override : Option ℕ
  pub active_compact_instructions : Option ℕ

-- `none` clears the effort.
pub data Effort : Type 0 where
  no_effort : Effort
  level : ℕ → Effort

pub record SetOptionsCommand : Type 0 where
  pub model : Option ℕ
  pub max_thinking_tokens : Option ℕ
  pub compact_instructions : Option ℕ
  pub permission_mode : Option ℕ
  pub effort : Option Effort

-- `state.session.close()`.
abbrev pub close : RunnerOptions → RunnerOptions
close s = record s { session = none }

abbrev pub told_model : Bool → ℕ → Option Options → Option Options
told_model taken m none = none
told_model taken m (some o) = some (if taken then record o { model = m } else o)

-- `taken` tells whether the session's `setModel` succeeds; its failure is ignored.
abbrev pub set_model : Bool → Option ℕ → RunnerOptions → RunnerOptions
set_model taken none s = s
set_model taken (some m) s = if m == 0 then s else record s {
  options = record (s.options) { model = m };
  session = told_model taken m s.session;
}

abbrev pub both : Bool → Bool → Bool
both true b = b
both false b = not b

abbrev pub set_thinking : Option ℕ → RunnerOptions → RunnerOptions
set_thinking none s = s
set_thinking (some n) s =
    let noted = record s { thinking_override = some n } in
    if both (ltb 0 n) s.options.thinking
    then noted
    else close (record noted { options = record (s.options) { thinking = ltb 0 n } })

abbrev pub set_compact_instructions : Option ℕ → RunnerOptions → RunnerOptions
set_compact_instructions text s =
    if truthy text then record s { active_compact_instructions = text } else s

abbrev pub effort_of : Effort → Option ℕ
effort_of no_effort = none
effort_of (level n) = some n

abbrev pub set_effort : Option Effort → RunnerOptions → RunnerOptions
set_effort none s = s
set_effort (some e) s = close (record s { options = record (s.options) { effort = effort_of e } })

abbrev pub set_permission_mode : Option ℕ → RunnerOptions → RunnerOptions
set_permission_mode none s = s
set_permission_mode (some p) s =
    if p == 0
    then s
    else if p == s.options.permission_mode
    then s
    else close (record s { options = record (s.options) { permission_mode = p } })

unfoldable pub set_options : Bool → SetOptionsCommand → RunnerOptions → RunnerOptions
set_options taken c s = set_permission_mode c.permission_mode (
    set_effort c.effort (
      set_compact_instructions c.compact_instructions
        (set_thinking c.max_thinking_tokens (set_model taken c.model s))))

-- The configuration that `adopt` brings; a field that is missing changes nothing.
pub record AdoptConfig : Type 0 where
  pub model : Option ℕ
  pub system_prompt : Option ℕ
  pub append_system_prompt : Option ℕ
  pub max_turns : Option ℕ
  pub thinking : Option Bool
  pub effort : Option ℕ
  pub allowed_tools : Option ℕ
  pub disallowed_tools : Option ℕ
  pub permission_mode : Option ℕ
  pub mcp_servers : Option ℕ
  pub allowed_paths : Option ℕ

abbrev pub given {ℓ} : {A : Type ℓ} → Option A → Option A → Option A
given none old = old
given (some new) old = some new

-- `if (cfg.x !== undefined) state.X = cfg.x || fallback`.
abbrev pub given_or : Option ℕ → ℕ → ℕ → ℕ
given_or none fallback old = old
given_or (some new) fallback old = if new == 0 then fallback else new

-- `sonnet` and `bypass` are the texts that stand for an empty model and permission mode.
module _ (sonnet bypass : ℕ) where
  abbrev pub adopted_options : AdoptConfig → ℕ → Options → Options
  adopted_options c token o = record {
    token = token;
    model = given_or c.model sonnet o.model;
    system_prompt = given c.system_prompt o.system_prompt;
    append_system_prompt = given c.append_system_prompt o.append_system_prompt;
    max_turns = given c.max_turns o.max_turns;
    thinking = get_or c.thinking o.thinking;
    effort = given c.effort o.effort;
    allowed_tools = given c.allowed_tools o.allowed_tools;
    disallowed_tools = given c.disallowed_tools o.disallowed_tools;
    permission_mode = given_or c.permission_mode bypass o.permission_mode;
    mcp_servers = given c.mcp_servers o.mcp_servers;
    allowed_paths = given c.allowed_paths o.allowed_paths;
  }

  abbrev pub told : Option ℕ → ℕ → ℕ
  told none old = old
  told (some new) old = if new == 0 then old else new

  -- What a live session is told: the model, the servers, the permission mode, and thinking if on.
  abbrev pub reconfigured : AdoptConfig → Options → Options
  reconfigured c o = record o {
    model = told c.model o.model;
    mcp_servers = given c.mcp_servers o.mcp_servers;
    permission_mode = told c.permission_mode o.permission_mode;
    thinking = true;
  }

  -- With thinking off a live session is closed; without a session one is made.
  abbrev pub adopted_session : AdoptConfig → Options → Option Options → Option Options
  adopted_session c now none = some now
  adopted_session c now (some o) = if now.thinking then some (reconfigured c o) else none

  -- How the preparation of the source and of the session ends: the second is a session that is made
  -- anew after an error, the third an error there too.
  abbrev pub adopt_end : ℕ → AdoptConfig → Options → Option Options → Option Options
  adopt_end zero c now session = adopted_session c now session
  adopt_end (suc zero) c now session = some now
  adopt_end (suc (suc n)) c now session = none

  unfoldable pub adopt : ℕ → AdoptConfig → ℕ → RunnerOptions → RunnerOptions
  adopt failures c token s =
      let now = adopted_options c token s.options in
      record s { options = now; session = adopt_end failures c now s.session }

-- A session that is made when there is none: `createOrResumeSession` at the next turn.
unfoldable pub create_session : RunnerOptions → RunnerOptions
create_session s = record s { session = elim s.session [ none ↦ some s.options | some o ↦ some o ] }
