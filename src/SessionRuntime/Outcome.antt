-- ===== src/SessionRuntime/Outcome.antt =====
-- packages/orchestrator/src/server/services/session-runtime.ts: how `spawnSession` ends.
use claude_agent_runner.Common.{
  ℕ, ◌≡◌, ◌≢◌, ◌⊎◌, refl, sym, ap, ◌∙◌, inl, inr, Option, none, some, Bool, true, false, List, [],
  ◌∷◌, ◌++◌, if◌then◌else◌, ◌==◌, ==_iff, ==_refl, any, find?, arith, Bool-cases,
}
use mathlib.Core.Path.{subst}
use claude_agent_runner.Common.Dict.{lookup, insert, remove, lookup-insert, lookup-remove}
use claude_agent_runner.Db.{SessionConfig, has_id, starting}
use claude_agent_runner.Sessions.{
  SessionManager, Session, Runtime, get, create, rows, with_rows, new_row, with_runtime, set_ws,
  runtime_of,
}
use claude_agent_runner.TokenPool.{Assigned, release}
use claude_agent_runner.WarmPool.{WarmEntry}
use claude_agent_runner.WsBridge.{WsBridge, deliver, rekey_connection, with_sessions}
use claude_agent_runner.WsBridge.Frames.{send_adopt, frame_of}
use claude_agent_runner.SessionRuntime.Spawn.{
  Settings, kill, rekey_session, Pools, no_pool, tokens_only, with_warm, RuntimeContext, release_in,
  Spawned, started, failed, spawn_settled, finish_adopted,
}

-- The index of the token that a session has.
abbrev pub slot : ℕ → Pools → Option ℕ
slot s no_pool = none
slot s (tokens_only p) = lookup s p.session_tokens
slot s (with_warm w) = lookup s w.token_pool.session_tokens

slot-release_in :
    (id s : ℕ) (p : Pools) → slot s (release_in id p) ≡ (if id == s then none else slot s p)
unfolding release
slot-release_in id s no_pool = ground arith
slot-release_in id s (tokens_only p) = lookup-remove id s p.session_tokens
slot-release_in id s (with_warm w) = lookup-remove id s w.token_pool.session_tokens

find_added :
    {A : Type 0} (p : A → Bool) (xs : List A) (x : A)
    → any p xs ≡ false
    → p x ≡ true
    → find? p (xs ++ x ∷ []) ≡ some x
find_added p [] x h t = rw t refl
find_added p (y ∷ ys) x h t = ground (arith, find_added p ys x)

abbrev pub entered : ℕ → ℕ → ℕ → SessionConfig → ℕ → SessionManager → SessionManager
entered id container token_index config now m =
    with_rows m (rows m ++ new_row id container token_index config now ∷ [])

-- The row that `create` enters is the one that `get` finds.
get-entered :
    (id container token_index now : ℕ) (config : SessionConfig) (m : SessionManager)
    → any (has_id id) (rows m) ≡ false
    → get id (entered id container token_index config now m)
      ≡ some (with_runtime (new_row id container token_index config now) (lookup id m.runtime))
unfolding get
get-entered id container token_index now config m e =
    rw
      (find_added (has_id id) (rows m) (new_row id container token_index config now) e (==_refl id))
      refl

create_free :
    (id container token_index now : ℕ) (config : SessionConfig) (m : SessionManager)
    → any (has_id id) (rows m) ≡ false
    → create id container token_index config now m
      ≡ some (entered id container token_index config now m)
unfolding create
create_free id container token_index now config m e = rw e refl

create_used :
    (id container token_index now : ℕ) (config : SessionConfig) (m : SessionManager)
    → any (has_id id) (rows m) ≡ true
    → create id container token_index config now m ≡ none
unfolding create
create_used id container token_index now config m e = rw e refl

-- The session has the container and the token, and the configuration that was asked for.
abbrev pub IsEntered : ℕ → ℕ → ℕ → SessionConfig → Option Session → Type 0
IsEntered id container token_index config none = ⊥
IsEntered id container token_index config (some s) =
    (s.container_id ≡ container)
    × (s.oauth_token_index ≡ token_index)
    × (s.row.config ≡ config)
    × (s.status ≡ starting)

new_row-IsEntered :
    (id container token_index now : ℕ) (config : SessionConfig) (rt : Option Runtime)
    → IsEntered id container token_index config
        (some (with_runtime (new_row id container token_index config now) rt))
new_row-IsEntered id container token_index now config none = (refl, refl, refl, refl)
new_row-IsEntered id container token_index now config (some rt) = (refl, refl, refl, refl)

-- What the end of a spawn does, by its result.
abbrev pub Ended :
    ℕ → Assigned → SessionConfig → Option ℕ → RuntimeContext → Spawned × RuntimeContext → Type 0
Ended id a config container c (started k, c') =
    (container ≡ some k)
    × IsEntered id k a.token_index config (get id c'.bridge.sessions)
    × (c'.pools ≡ c.pools)
    × (c'.docker ≡ c.docker)
Ended id a config container c (failed, c') =
    ((container ≡ none) ⊎ (any (has_id id) (rows c.bridge.sessions) ≡ true))
    × (c'.bridge ≡ c.bridge)
    × ((s : ℕ) → slot s c'.pools ≡ (if id == s then none else slot s c.pools))
    × (c'.docker ≡ (elim container [
      | none ↦ c.docker
      | some k ↦ if k == 0 then c.docker else c.docker ++ kill id ∷ []
    ]))

-- Whatever happened since its token was assigned, a spawn ends in one of two ways. It succeeds, with
-- the container that `docker.spawn` returned: `get` then finds a session with that container, the
-- token assigned and the configuration, and the pools are as they were. Or it fails, because
-- `docker.spawn` threw or the id is taken: then the session has no token, all others keep theirs, the
-- sessions and the bridge are as they were, and a container that has an id is killed.
pub spawn_settled-Ended :
    (id : ℕ) (a : Assigned) (config : SessionConfig) (now : ℕ) (container : Option ℕ)
    (c : RuntimeContext)
    → Ended id a config container c (spawn_settled id a config now container c)
unfolding spawn_settled
spawn_settled-Ended id a config now none c =
    (inl refl, refl, λ s. slot-release_in id s c.pools, refl)
spawn_settled-Ended id a config now (some k) c =
    elim (Bool-cases (any (has_id id) (rows c.bridge.sessions))) [
      | inl t ↦
          rw (create_used id k a.token_index now config c.bridge.sessions t)
            (inr t, refl, λ s. slot-release_in id s c.pools, refl)
      | inr t ↦ rw (create_free id k a.token_index now config c.bridge.sessions t) (
        refl,
        rw (get-entered id k a.token_index now config c.bridge.sessions t)
            (new_row-IsEntered id k a.token_index now config (lookup id c.bridge.sessions.runtime)),
        refl,
        refl,
      )
    ]

-- The bridge that an adoption leaves: the runner was told, and its socket is the session's.
abbrev pub adopted_bridge : ℕ → ℕ → ℕ → ℕ → ℕ → WsBridge → WsBridge
adopted_bridge id warm w token settings b = record b {
  sent = b.sent ++ (w, frame_of (send_adopt id token settings)) ∷ [];
  connections = insert id w (remove warm b.connections);
  labels = insert w id b.labels;
  sessions = set_ws id w b.sessions;
}

-- The session is started on the warm container: the runner's socket got the one frame, the socket
-- belongs to the session and the warm id has none, the container manager was called once, and `get`
-- finds the session with that socket, the container, the token and the configuration.
abbrev pub HandedOver :
    ℕ
    → ℕ
    → WarmEntry
    → Assigned
    → ℕ
    → ℕ
    → SessionConfig
    → RuntimeContext
    → Spawned × RuntimeContext
    → Type 0
HandedOver id w e a token settings config c (r, c') =
    (r ≡ started e.container_id)
    × (c'.bridge.sent ≡ c.bridge.sent ++ (w, frame_of (send_adopt id token settings)) ∷ [])
    × (lookup id c'.bridge.connections ≡ some w)
    × (lookup e.warm_id c'.bridge.connections ≡ none)
    × (c'.docker ≡ c.docker ++ rekey_session e.warm_id id ∷ [])
    × ((s : Session) × (get id c'.bridge.sessions ≡ some s)
        × (s.ws ≡ some w)
        × IsEntered id e.container_id a.token_index config (some s))

adopted_id : (id warm w : ℕ) (cs : List (ℕ × ℕ)) → lookup id (insert id w (remove warm cs)) ≡ some w
adopted_id id warm w cs = lookup-insert id id w (remove warm cs) ∙ rw (==_refl id) refl

adopted_warm :
    (id warm w : ℕ) (cs : List (ℕ × ℕ))
    → id ≢ warm
    → lookup warm (insert id w (remove warm cs)) ≡ none
adopted_warm id warm w cs n = elim (Bool-cases (id == warm)) [
  | inl u ↦ absurd (n ((==_iff id warm).0 u))
  | inr u ↦
      lookup-insert id warm w (remove warm cs)
      ∙ rw (u, lookup-remove warm warm cs, ==_refl warm) refl
]

adopted_runtime :
    (id w : ℕ) (m : SessionManager)
    → lookup id (set_ws id w m).runtime ≡ some (record (runtime_of id m) { ws = some w })
unfolding set_ws
adopted_runtime id w m =
    lookup-insert id id (record (runtime_of id m) { ws = some w }) m.runtime ∙ rw (==_refl id) refl

adopted_rows : (id w : ℕ) (m : SessionManager) → rows (set_ws id w m) ≡ rows m
unfolding set_ws
adopted_rows id w m = refl

module _ (is_open : ℕ → Bool) (text_of : Option (List ℕ) → ℕ) (packed : Settings → ℕ) where
  finish_adopted_lem :
      (id : ℕ) (e : WarmEntry) (a : Assigned) (settings : Settings) (config : SessionConfig)
      (now w : ℕ) (c : RuntimeContext)
      → lookup e.warm_id c.bridge.connections ≡ some w
      → is_open w ≡ true
      → any (has_id id) (rows c.bridge.sessions) ≡ false
      → finish_adopted is_open text_of packed id e a settings config now c ≡ (
        started e.container_id,
        record c {
          bridge =
              with_sessions
                (entered id e.container_id a.token_index config now (set_ws id w c.bridge.sessions))
                (adopted_bridge id e.warm_id w (text_of a.token) (packed settings) c.bridge);
          docker = c.docker ++ rekey_session e.warm_id id ∷ [];
        },
      )
  unfolding finish_adopted deliver rekey_connection
  finish_adopted_lem id e a settings config now w c l o t =
      let free : any (has_id id) (rows (set_ws id w c.bridge.sessions)) ≡ false =
        ap (any (has_id id)) (adopted_rows id w c.bridge.sessions) ∙ t in
      rw (l, o, l, free) refl

  -- Where the warm runner is still connected by an open socket, and the new id is another and is not
  -- taken, an adoption hands the runner over: the session is started on the warm container, the
  -- runner's socket gets one frame and is then the session's and no longer the warm id's, the
  -- container manager is called once, and `get` finds the session with that socket, the container,
  -- the token and the configuration.
  pub finish_adopted-HandedOver :
      (id : ℕ) (e : WarmEntry) (a : Assigned) (settings : Settings) (config : SessionConfig)
      (now w : ℕ) (c : RuntimeContext)
      → lookup e.warm_id c.bridge.connections ≡ some w
      → is_open w ≡ true
      → any (has_id id) (rows c.bridge.sessions) ≡ false
      → id ≢ e.warm_id
      → HandedOver id w e a
          (text_of a.token)
          (packed settings)
          config
          c
          (finish_adopted is_open text_of packed id e a settings config now c)
  finish_adopted-HandedOver id e a settings config now w c l o t n =
      let m = set_ws id w c.bridge.sessions in
      let rt = record (runtime_of id c.bridge.sessions) { ws = some w } in
      let free : any (has_id id) (rows m) ≡ false =
        ap (any (has_id id)) (adopted_rows id w c.bridge.sessions) ∙ t in
      let found =
        get-entered id e.container_id a.token_index now config m free
        ∙ ap (λ r. some (with_runtime (new_row id e.container_id a.token_index config now) r))
            (adopted_runtime id w c.bridge.sessions) in
      subst (HandedOver id w e a (text_of a.token) (packed settings) config c)
        (sym (finish_adopted_lem id e a settings config now w c l o t))
        (
          refl,
          refl,
          adopted_id id e.warm_id w c.bridge.connections,
          adopted_warm id e.warm_id w c.bridge.connections n,
          refl,
          (
            with_runtime (new_row id e.container_id a.token_index config now) (some rt),
            found,
            refl,
            (refl, refl, refl, refl),
          ),
        )
