-- ===== src/RunnerOptions/Current.antt =====
-- packages/runner/src/command-handler.ts: the options that a live session runs with after an
-- adoption.
use claude_agent_runner.Common.{ℕ, ◌≡◌, Option, none, some, Bool, false, get_or}
use claude_agent_runner.RunnerOptions.{
  Options, RunnerOptions, SetOptionsCommand, AdoptConfig, set_options, create_session,
}

-- The session's options are the runner's, but for the model, which it may have refused.
abbrev pub HasOptions : Options → Option Options → Type 0
HasOptions now none = Unit {0}
HasOptions now (some o) = record o { model = now.model } ≡ now

abbrev pub IsCurrent : RunnerOptions → Type 0
IsCurrent s = HasOptions s.options s.session

-- The value that the configuration brings, or the old one where it brings none.
abbrev pub Brings : Option ℕ → Option ℕ → Option ℕ → Type 0
Brings none old now = now ≡ old
Brings (some x) old now = now ≡ some x

-- What no change of the options touches: the token, the paths, the prompts, the bound on turns, the
-- tools and the servers are those of the adoption.
abbrev pub HasAdopted : AdoptConfig → ℕ → Options → Options → Type 0
HasAdopted c token old o =
    (o.token ≡ token)
    × Brings c.allowed_paths old.allowed_paths o.allowed_paths
    × Brings c.system_prompt old.system_prompt o.system_prompt
    × Brings c.append_system_prompt old.append_system_prompt o.append_system_prompt
    × Brings c.max_turns old.max_turns o.max_turns
    × Brings c.allowed_tools old.allowed_tools o.allowed_tools
    × Brings c.disallowed_tools old.disallowed_tools o.disallowed_tools
    × Brings c.mcp_servers old.mcp_servers o.mcp_servers

-- What changes the options or the session until the next adoption.
pub data Step : RunnerOptions → RunnerOptions → Type 0 where
  sets : (taken : Bool) (c : SetOptionsCommand) (s : RunnerOptions) → Step s (set_options taken c s)
  creates : (s : RunnerOptions) → Step s (create_session s)

pub data Steps : RunnerOptions → RunnerOptions → Type 0 where
  stay : (s : RunnerOptions) → Steps s s
  next : {s t u : RunnerOptions} → Step s t → Steps t u → Steps s u

-- The live session, if there is one, has the adoption's token and paths, and all that the runner's
-- options say but for the model.
abbrev pub RunsAs : AdoptConfig → ℕ → Options → RunnerOptions → Type 0
RunsAs c token old s = IsCurrent s × HasAdopted c token old s.options

abbrev pub SessionRunsAs : AdoptConfig → ℕ → Options → Option Options → Type 0
SessionRunsAs c token old none = Unit {0}
SessionRunsAs c token old (some o) = HasAdopted c token old o

module _ (sonnet bypass : ℕ) where
  -- Whether an adoption finds a live session that it does not close.
  abbrev pub keeps_session : AdoptConfig → RunnerOptions → Bool
  keeps_session c s = elim s.session [
    | none ↦ false
    | some o ↦ get_or c.thinking s.options.thinking
  ]
