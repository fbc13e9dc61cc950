-- ===== src/WsBridge/Isolation.antt =====
-- packages/orchestrator/src/ws-bridge.ts with sessions.ts: which sessions a message or the end of a
-- socket changes.
use claude_agent_runner.Common.{
  ℕ, ◌≡◌, refl, ap, ◌∙◌, inl, inr, Option, none, some, Bool, true, false, if◌then◌else◌, ◌==◌,
  ==_refl, same, any, Bool-cases,
}
use claude_agent_runner.Common.Dict.{lookup, lookup-insert}
use claude_agent_runner.Db.{insert_snapshot, has_id}
use claude_agent_runner.Sessions.{SessionManager, get}
use claude_agent_runner.Sessions.Identity.{
  updates_status, sets_error, sets_sdk_session_id, updates_context_tokens, increments_compact_count,
  sets_ws, step, get-step_other,
}
use claude_agent_runner.WsBridge.Sockets.{handle-SameSockets}
use claude_agent_runner.WsBridge.{
  WsBridge, RunnerMessage, Body, Snapshot, status, session_init, event, failure, context_state,
  context_result, permission_request, commands_result, context_snapshot, mcp_result,
  utility_query_result, pty_data, pty_exit, background_complete, unhandled, handle, contact,
  speaker, dispatch, on_message, disconnect, closed, on_close, store_snapshot, counted,
}

abbrev SameSession : ℕ → SessionManager → SessionManager → Type 0
SameSession j m n = get j m ≡ get j n

stored-SameSession :
    (b : Bool) (s : ℕ) (p : Snapshot) (now j : ℕ) (m : SessionManager)
    → SameSession j (store_snapshot b s p now m) m
unfolding get insert_snapshot
stored-SameSession false s p now j m = refl
stored-SameSession true s p now j m = elim (Bool-cases (any (has_id s) m.db.sessions)) [
  | inl t ↦ rw t refl
  | inr t ↦ rw t refl
]

counted-SameSession :
    (b : Bool) (s now j : ℕ) (m : SessionManager)
    → (s == j) ≡ false
    → SameSession j (counted b s now m) m
unfolding step
counted-SameSession false s now j m h = refl
counted-SameSession true s now j m h = get-step_other (increments_compact_count s now) m j h

handle-SameSession :
    (s : ℕ) (body : Body) (now : ℕ) (b : WsBridge) (j : ℕ)
    → (s == j) ≡ false
    → SameSession j (handle s body now b).sessions b.sessions
unfolding handle step
handle-SameSession s (status st) now b j h = get-step_other (updates_status s st now) b.sessions j h
handle-SameSession s (session_init none) now b j h = refl
handle-SameSession s (session_init (some sdk)) now b j h =
    get-step_other (sets_sdk_session_id s sdk now) b.sessions j h
handle-SameSession s (event e) now b j h = refl
handle-SameSession s (failure code text) now b j h =
    get-step_other (sets_error s text now) b.sessions j h
handle-SameSession s (context_state tokens compacted whole) now b j h =
    let updates = updates_context_tokens s tokens now in
    counted-SameSession compacted s now j (step updates b.sessions) h
    ∙ get-step_other updates b.sessions j h
handle-SameSession s (context_result request whole) now b j h = refl
handle-SameSession s (permission_request whole) now b j h = refl
handle-SameSession s (commands_result request whole) now b j h = refl
handle-SameSession s (context_snapshot p) now b j h =
    stored-SameSession b.has_db s p now j b.sessions
handle-SameSession s (mcp_result request whole) now b j h = refl
handle-SameSession s (utility_query_result request whole) now b j h = refl
handle-SameSession s (pty_data text stderr) now b j h = refl
handle-SameSession s (pty_exit code signal) now b j h = refl
handle-SameSession s (background_complete whole) now b j h = refl
handle-SameSession s unhandled now b j h = refl

dispatch-SameSession :
    (s : Option ℕ) (body : Body) (now : ℕ) (b : WsBridge) (j : ℕ)
    → same s (some j) ≡ false
    → SameSession j (dispatch s body now b).sessions b.sessions
dispatch-SameSession none body now b j h = refl
dispatch-SameSession (some s) body now b j h = handle-SameSession s body now b j h

contact-SameSession :
    (w : ℕ) (label id : Option ℕ) (b : WsBridge) (j : ℕ)
    → same (speaker id label) (some j) ≡ false
    → SameSession j (contact w label id b).sessions b.sessions
unfolding step
contact-SameSession w (some l) id b j h = refl
contact-SameSession w none none b j h = refl
contact-SameSession w none (some s) b j h = get-step_other (sets_ws s w) b.sessions j h

-- A message changes nothing that `get` returns for any session but the one that the message names
-- or, where it names none, that its socket is labelled with.
pub on_message-get :
    (w : ℕ) (msg : RunnerMessage) (now : ℕ) (b : WsBridge) (j : ℕ)
    → same (speaker msg.session_id (lookup w b.labels)) (some j) ≡ false
    → get j (on_message w (some msg) now b).sessions ≡ get j b.sessions
unfolding on_message
on_message-get w msg now b j h =
    let label = lookup w b.labels in
    let met = contact w label msg.session_id b in
    dispatch-SameSession (speaker msg.session_id label) msg.body now met j h
    ∙ contact-SameSession w label msg.session_id b j h

closed_stale :
    (w s current now : ℕ) (b : WsBridge)
    → lookup s b.connections ≡ some current
    → (current == w) ≡ false
    → closed w (some s) now b ≡ b
closed_stale w s current now b e other =
    let gone = disconnect s now (get s b.sessions) b in
    ap (λ c. if same c (some w) then gone else b) e ∙ ap (λ t. if t then gone else b) other

met_again :
    (w current s : ℕ) (body : Body) (now : ℕ) (b : WsBridge) (label : Option ℕ)
    → label ≡ none
    → lookup w b.labels ≡ some s
    → (current == w) ≡ false
    → let c = dispatch (speaker (some s) label) body now (contact current label (some s) b) in
      (lookup s c.connections ≡ some current) × (lookup w c.labels ≡ some s)
met_again w current s body now b (some l) free e other = cc
met_again w current s body now b none free e other =
    let (c, l) = handle-SameSockets s body now (contact current none (some s) b) in
    (
      ap (lookup s) c ∙ lookup-insert s s current b.connections ∙ rw (==_refl s),
      ap (lookup w) l ∙ lookup-insert current w s b.labels ∙ rw other e,
    )

-- When a runner has connected again for a session, by a first message on a new socket, the end of
-- the old socket, however late, changes nothing at all: the session is not stopped.
pub on_message-on_close :
    (w current s : ℕ) (body : Body) (now later : ℕ) (b : WsBridge)
    → lookup w b.labels ≡ some s
    → lookup current b.labels ≡ none
    → (current == w) ≡ false
    → let c = on_message current (some (record { session_id = some s; body = body })) now b in
      on_close w later c ≡ c
unfolding on_message on_close
on_message-on_close w current s body now later b e free other =
    let c = on_message current (some (record { session_id = some s; body = body })) now b in
    let (sock, label) = met_again w current s body now b (lookup current b.labels) free e other in
    ap (λ l. closed w l later c) label ∙ closed_stale w s current later c sock other
