-- ===== src/RunnerOptions/Tests.antt =====
-- packages/runner/src/command-handler.ts: a warm runner that is adopted, on which the definitions are
-- run and the theorem is applied.
use claude_agent_runner.Common.{◌≡◌, refl, none, some, Bool, true, false}
use claude_agent_runner.RunnerOptions.{
  Options, RunnerOptions, SetOptionsCommand, AdoptConfig, level, set_options, adopt, create_session,
}

program : Unit {0}
unfolding set_options adopt create_session
program = tt

abbrev options : Options
options = record {
  token = 1;
  model = 2;
  system_prompt = none;
  append_system_prompt = none;
  max_turns = none;
  thinking = false;
  effort = none;
  allowed_tools = none;
  disallowed_tools = none;
  permission_mode = 3;
  mcp_servers = none;
  allowed_paths = none;
}

-- A warm runner with a session that was made in advance.
abbrev warm : RunnerOptions
warm = record {
  options = options;
  session = some options;
  thinking_override = none;
  active_compact_instructions = none;
}

abbrev config : Bool → AdoptConfig
config thinking = record {
  model = some 4;
  system_prompt = some 5;
  append_system_prompt = none;
  max_turns = none;
  thinking = some thinking;
  effort = none;
  allowed_tools = none;
  disallowed_tools = none;
  permission_mode = none;
  mcp_servers = none;
  allowed_paths = some 6;
}

abbrev change : SetOptionsCommand
change = record {
  model = none;
  max_thinking_tokens = none;
  compact_instructions = none;
  permission_mode = none;
  effort = some (level 7);
}

-- With thinking on, the session that was made in advance keeps its token, prompt and paths.
keeps_old :
    (adopt 2 3 0 (config true) 9 warm).session
    ≡ some (record options { model = 4; thinking = true })
unfolding program
keeps_old = refl

closes_old : (adopt 2 3 0 (config false) 9 warm).session ≡ none
unfolding program
closes_old = refl

abbrev adopted : RunnerOptions
adopted = create_session (adopt 2 3 0 (config false) 9 warm)

abbrev changed : RunnerOptions
changed = create_session (set_options true change adopted)

runs :
    changed.session
    ≡ some (record options {
      token = 9;
      model = 4;
      system_prompt = some 5;
      effort = some 7;
      allowed_paths = some 6;
    })
unfolding program
runs = refl
