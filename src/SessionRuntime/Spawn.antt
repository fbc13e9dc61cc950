-- ===== src/SessionRuntime/Spawn.antt =====
-- packages/orchestrator/src/server/services/session-runtime.ts: `spawnSession`. Each function is the
-- code between two `await`s, so that anything may happen between them. The token pool that the
-- context and the warm pool share is one object; `docker` lists the calls of the container manager.
use claude_agent_runner.Common.{
  ℕ, Option, none, some, Bool, true, false, not, ◌&&◌, List, [], ◌∷◌, ◌++◌, if◌then◌else◌, ◌==◌,
  get_or,
}
use mathlib.Core.Option
use claude_agent_runner.Db.{SessionConfig}
use claude_agent_runner.Sessions.{SessionManager, create}
use claude_agent_runner.TokenPool.{TokenPool, Assigned, assign, release}
use claude_agent_runner.WarmPool.{WarmPool, WarmEntry, adopt, truthy}
use claude_agent_runner.WsBridge.{WsBridge, deliver, is_connected, rekey_connection, with_sessions}
use claude_agent_runner.WsBridge.Frames.{send_adopt}
use claude_agent_runner.SessionRuntime.{SessionRequest, PinnedField, pinned}

-- What a new container, or an adopted runner, is told of the session.
pub record Settings : Type 0 where
  pub repo : Option ℕ
  pub branch : Option ℕ
  pub vault : Option ℕ
  pub model : ℕ
  pub system_prompt : Option ℕ
  pub append_system_prompt : Option ℕ
  pub max_turns : Option ℕ
  pub thinking : Option Bool
  pub allowed_tools : Option ℕ
  pub disallowed_tools : Option ℕ
  pub compact_instructions : Option ℕ
  pub permission_mode : Option ℕ
  pub mcp_servers : List (ℕ × ℕ)
  pub allowed_paths : Option ℕ
  pub credentials : List (ℕ × ℕ)

pub record SpawnOptions : Type 0 where
  pub session_id : ℕ
  pub token : Option (List ℕ)
  pub tenant_id : Option ℕ
  pub workspace : Option ℕ
  pub additional_directories : Option ℕ
  pub settings : Settings

pub data DockerCall : Type 0 where
  spawn : SpawnOptions → DockerCall
  kill : ℕ → DockerCall
  rekey_session : ℕ → ℕ → DockerCall

-- No token pool, one, or one that a warm pool shares.
pub data Pools : Type 0 where
  no_pool : Pools
  tokens_only : TokenPool → Pools
  with_warm : WarmPool → Pools

pub record RuntimeContext : Type 0 where
  pub bridge : WsBridge
  pub pools : Pools
  pub docker : List DockerCall

abbrev pub tokens_of : Pools → Option TokenPool
tokens_of no_pool = none
tokens_of (tokens_only p) = some p
tokens_of (with_warm w) = some w.token_pool

abbrev pub with_tokens : TokenPool → Pools → Pools
with_tokens p no_pool = no_pool
with_tokens p (tokens_only q) = tokens_only p
with_tokens p (with_warm w) = with_warm (record w { token_pool = p })

abbrev pub is_pinned : PinnedField → Bool
is_pinned (pinned b) = b
is_pinned _ = false

-- `sonnet` is the model where the request names none, `encode` the text of an array or an object.
module _ (trim : ℕ → ℕ) (sonnet : ℕ) (encode : List (ℕ × ℕ) → Option ℕ) where
  abbrev pub model_of : SessionRequest → ℕ
  model_of body = if truthy body.model then get_or body.model sonnet else sonnet

  abbrev pub settings_of : SessionRequest → List (ℕ × ℕ) → Settings
  settings_of body credentials = record {
    repo = body.repo;
    branch = body.branch;
    vault = body.vault;
    model = model_of body;
    system_prompt = body.system_prompt;
    append_system_prompt = body.append_system_prompt;
    max_turns = body.max_turns;
    thinking = body.thinking;
    allowed_tools = body.allowed_tools;
    disallowed_tools = body.disallowed_tools;
    compact_instructions = body.compact_instructions;
    permission_mode = body.permission_mode;
    mcp_servers = body.mcp_servers;
    allowed_paths = body.allowed_paths;
    credentials = credentials;
  }

  -- The options of `sessions.create`, the same on both paths.
  abbrev pub config_of : SessionRequest → Option ℕ → SessionConfig
  config_of body tenant = record {
    name = Option.map trim body.name;
    pinned = is_pinned body.pinned;
    repo = body.repo;
    branch = body.branch;
    workspace = body.workspace;
    vault_name = body.vault;
    agent_id = body.agent_id;
    model = model_of body;
    system_prompt = body.system_prompt;
    max_turns = body.max_turns;
    thinking = body.thinking;
    additional_directories = body.additional_directories;
    compact_instructions = body.compact_instructions;
    permission_mode = body.permission_mode;
    mcp_servers = encode body.mcp_servers;
    allowed_paths = body.allowed_paths;
    forked_from = none;
    tenant_id = tenant;
  }

-- Only a request with a message, and without own directories, takes a warm runner; `has_some` tells
-- whether an array has an item.
abbrev pub can_use_warm_pool : (ℕ → Bool) → SessionRequest → Bool
can_use_warm_pool has_some body =
    truthy body.message
    && (not (truthy body.workspace)
        && not (elim body.additional_directories [ none ↦ false | some ds ↦ has_some ds ]))

-- What is known between the first `await` and the next.
pub data Begun : Type 0 where
  adopting : WarmEntry → Assigned → Begun
  spawning : Assigned → Begun
  no_token_pool : Begun

abbrev pub fresh : ℕ → Option TokenPool → RuntimeContext → Begun × RuntimeContext
fresh id none c = (no_token_pool, c)
fresh id (some p) c =
    let (a, q) = assign id p in (spawning a, record c { pools = with_tokens q c.pools })

-- The warm runner's token is released, and one assigned to the session.
abbrev pub begin_adopted : ℕ → Option WarmEntry × WarmPool → RuntimeContext → Begun × RuntimeContext
begin_adopted id (none, w) c = fresh id (some w.token_pool) (record c { pools = with_warm w })
begin_adopted id (some e, w) c =
    let (a, q) = assign id (release e.warm_id w.token_pool) in
    (adopting e a, record c { pools = with_warm (record w { token_pool = q }) })

module _ (uuid : ℕ → ℕ) (is_open : ℕ → Bool) where
  abbrev pub begin_in :
      ℕ → SessionRequest → ℕ → Bool → Pools → RuntimeContext → Begun × RuntimeContext
  begin_in id body now true (with_warm w) c =
      begin_adopted id
        (adopt uuid (λ s. is_connected is_open s c.bridge) body.vault body.agent_id now w) c
  begin_in id body now _ pools c = fresh id (tokens_of pools) c

  -- `spawnSession` up to the `await` of the credentials.
  unfoldable pub begin_spawn_session :
      (ℕ → Bool) → ℕ → SessionRequest → ℕ → RuntimeContext → Begun × RuntimeContext
  unfolding adopt is_connected assign release
  begin_spawn_session has_some id body now c =
      begin_in id body now (can_use_warm_pool has_some body) c.pools c

pub data Spawned : Type 0 where
  started : ℕ → Spawned
  failed : Spawned

abbrev pub adopt_created :
    WarmEntry → Option SessionManager → RuntimeContext → Spawned × RuntimeContext
adopt_created e none c = (failed, c)
adopt_created e (some m) c =
    (started e.container_id, record c { bridge = with_sessions m c.bridge })

-- `text_of` is a token as a text and `packed` the text of the settings. There is no `try` around
-- this part: a `create` that throws leaves everything else as it is.
module _ (is_open : ℕ → Bool) (text_of : Option (List ℕ) → ℕ) (packed : Settings → ℕ) where
  unfoldable pub finish_adopted :
      ℕ
      → WarmEntry
      → Assigned
      → Settings
      → SessionConfig
      → ℕ
      → RuntimeContext
      → Spawned × RuntimeContext
  unfolding deliver rekey_connection create
  finish_adopted id e a settings config now c =
      let (_, told) =
        deliver is_open e.warm_id (send_adopt id (text_of a.token) (packed settings)) c.bridge in
      let (_, moved) = rekey_connection e.warm_id id told in
      adopt_created e (create id e.container_id a.token_index config now moved.sessions)
        (record c { bridge = moved; docker = c.docker ++ rekey_session e.warm_id id ∷ [] })

-- The call of `docker.spawn`, with the credentials at hand.
pub request_spawn :
    ℕ → SessionRequest → Assigned → Option ℕ → Settings → RuntimeContext → RuntimeContext
request_spawn id body a tenant settings c = record c {
  docker =
      c.docker
      ++ spawn (record {
        session_id = id;
        token = a.token;
        tenant_id = if truthy tenant then tenant else none;
        workspace = body.workspace;
        additional_directories = body.additional_directories;
        settings = settings;
      })
        ∷ [];
}

abbrev pub release_in : ℕ → Pools → Pools
release_in id no_pool = no_pool
release_in id (tokens_only p) = tokens_only (release id p)
release_in id (with_warm w) = with_warm (record w { token_pool = release id w.token_pool })

-- The `catch`: a container that has an id is killed, and the token released.
abbrev pub undone : ℕ → ℕ → RuntimeContext → Spawned × RuntimeContext
undone id container c = (
  failed,
  record c {
    docker = if container == 0 then c.docker else c.docker ++ kill id ∷ [];
    pools = release_in id c.pools;
  },
)

abbrev pub created : ℕ → ℕ → Option SessionManager → RuntimeContext → Spawned × RuntimeContext
created id container none c = undone id container c
created id container (some m) c =
    (started container, record c { bridge = with_sessions m c.bridge })

-- The rest of `spawnSession`, with the container's id or `none` where `docker.spawn` threw.
unfoldable pub spawn_settled :
    ℕ → Assigned → SessionConfig → ℕ → Option ℕ → RuntimeContext → Spawned × RuntimeContext
unfolding create release
spawn_settled id a config now none c = undone id 0 c
spawn_settled id a config now (some container) c =
    created id container (create id container a.token_index config now c.bridge.sessions) c
