-- ===== src/ClientWs.antt =====
-- packages/orchestrator/src/client-ws.ts: the WebSocket of the clients. A subscription of a client to
-- a session is five listeners on the bridge's events, here the entries of `listeners`; a closure is
-- named by its channel, session and client, since a client subscribes to a session once at most.
pub mod Commands
pub mod Replies
pub mod Truth
pub mod Sockets
pub mod Answers
pub mod Terminal
pub mod Links
pub mod Subscriptions
pub mod Delivery
pub mod Admission
mod Tests
use claude_agent_runner.Common.{
  ℕ, Option, none, some, Bool, true, false, not, ◌&&◌, List, [], ◌∷◌, ◌++◌, map, if◌then◌else◌,
  ◌==◌, same, any, filter, take, drop, get_elem?, ◌+◌,
}
use mathlib.Core.Option
use claude_agent_runner.Common.Dict.{lookup, insert, remove}
use claude_agent_runner.Sessions.{SessionManager, Session, get}
use claude_agent_runner.WsBridge.{
  Event, session_status, session_event, session_error, session_context_state, permission_requests,
  commands_results, mcp_results,
}
use claude_agent_runner.Tenants.{Tenant, TenantManager}
use claude_agent_runner.Tenants.Access.{authenticate_ws}
use claude_agent_runner.ClientWs.Commands.{
  Request, HandleContext, Hub, ServerFrame, pong, error_frame, subscribed, commands_result, ack,
  status_frame, event_frame, session_error_frame, context_state_frame, permission_request_frame,
  invalid_request, session_not_found, runner_code, AckError, timed_out, reported, Wait, WaitKind,
  for_commands, for_mcp, send_frame, handle_request, is_answered, settle_waits,
}

-- The events that a subscription listens to.
pub data Channel : Type 0 where
  status_channel event_channel error_channel context_channel permission_channel : Channel

abbrev pub code : Channel → ℕ
code status_channel = 0
code event_channel = 1
code error_channel = 2
code context_channel = 3
code permission_channel = 4

abbrev pub channels : List Channel
channels =
    status_channel ∷ event_channel ∷ error_channel ∷ context_channel ∷ permission_channel ∷ []

pub record Listener : Type 0 where
  pub channel : Channel
  pub session : ℕ
  pub client : ℕ

pub record Client : Type 0 where
  pub tenant : Option ℕ
  pub subscriptions : List ℕ

pub record World : Type 0 where
  pub hub : Hub
  pub listeners : List Listener
  pub clients : List (ℕ × Client)

pub data ClientFrame : Type 0 where
  ping unknown invalid_json : ClientFrame
  subscribe unsubscribe : ℕ → ClientFrame
  request : ℕ → Request → ClientFrame

abbrev pub is_listener : Channel → ℕ → ℕ → Listener → Bool
is_listener ch s c l = code l.channel == code ch && (l.session == s && l.client == c)

-- `removeListener` of one of the closures.
pub off : Channel → ℕ → ℕ → List Listener → List Listener
off ch s c ls = filter (λ l. not (is_listener ch s c l)) ls

pub off_all : List Channel → ℕ → ℕ → List Listener → List Listener
unfolding off
off_all [] s c ls = ls
off_all (ch ∷ chs) s c ls = off_all chs s c (off ch s c ls)

-- `cleanup` of a subscription.
abbrev pub cleanup : ℕ → ℕ → List Listener → List Listener
cleanup s c ls = off_all channels s c ls

abbrev pub attached : ℕ → ℕ → List Listener
attached s c = map (λ ch. record { channel = ch; session = s; client = c }) channels

abbrev pub has_subscription : ℕ → Client → Bool
has_subscription s k = any (λ x. x == s) k.subscriptions

module _ (is_open : ℕ → Bool) where
  abbrev pub reply : HandleContext → ServerFrame → World → World
  reply ctx frame w = record w { hub = send_frame is_open ctx.client frame w.hub }

  abbrev pub refuse : HandleContext → ℕ → World → World
  refuse ctx s w = reply ctx (error_frame session_not_found (some s) (some ctx.request_id)) w

  -- The subscription is entered, its listeners attached and the status sent.
  abbrev pub add_subscription : HandleContext → ℕ → Client → Session → World → World
  add_subscription ctx s k session w =
      reply ctx (subscribed s session.status ctx.request_id) (record w {
        listeners = w.listeners ++ attached s ctx.client;
        clients =
            insert ctx.client (record k { subscriptions = k.subscriptions ++ s ∷ [] }) w.clients;
      })

  -- `ctx.tenantId && session.tenantId !== ctx.tenantId` refuses.
  abbrev pub owns : Option ℕ → Option ℕ → Bool
  owns none tenant = true
  owns (some t) tenant = same tenant (some t)

  abbrev pub subscribe_found : HandleContext → ℕ → Client → Option Session → World → World
  subscribe_found ctx s k none w = refuse ctx s w
  subscribe_found ctx s k (some session) w =
      if owns ctx.tenant session.tenant_id
      then add_subscription ctx s k session w
      else refuse ctx s w

  abbrev pub handle_subscribe : HandleContext → ℕ → Client → World → World
  handle_subscribe ctx s k w =
      if has_subscription s k
      then reply ctx (error_frame invalid_request (some s) (some ctx.request_id)) w
      else subscribe_found ctx s k (get s w.hub.bridge.sessions) w

  abbrev pub handle_unsubscribe : HandleContext → ℕ → Client → World → World
  handle_unsubscribe ctx s k w =
      let left = record k { subscriptions = filter (λ x. not (x == s)) k.subscriptions } in
      if has_subscription s k
      then record w {
        listeners = cleanup s ctx.client w.listeners;
        clients = insert ctx.client left w.clients;
      }
      else reply ctx (error_frame invalid_request (some s) none) w

  -- `handleFrame`, and the reply to a text that is no JSON.
  abbrev pub handle_frame : HandleContext → ClientFrame → Client → World → World
  handle_frame ctx ping k w = reply ctx pong w
  handle_frame ctx unknown k w =
      reply ctx (error_frame invalid_request none (some ctx.request_id)) w
  handle_frame ctx invalid_json k w = reply ctx (error_frame invalid_request none none) w
  handle_frame ctx (subscribe s) k w = handle_subscribe ctx s k w
  handle_frame ctx (unsubscribe s) k w = handle_unsubscribe ctx s k w
  handle_frame ctx (request s q) k w = record w { hub = handle_request is_open ctx s q w.hub }

  abbrev pub frame_from : HandleContext → ClientFrame → Option Client → World → World
  frame_from ctx frame none w = w
  frame_from ctx frame (some k) w = handle_frame (record ctx { tenant = k.tenant }) frame k w

  -- The listener on "message". The tenant of a connection is set when it is made.
  pub on_frame : HandleContext → ClientFrame → World → World
  unfolding handle_request
  on_frame ctx frame w = frame_from ctx frame (lookup ctx.client w.clients) w

  -- What a listener sends for an event: the channel, the session and the frame.
  abbrev pub heard : Event → Option (Channel × ℕ × ServerFrame)
  heard (session_status s st) = some (status_channel, s, status_frame s st)
  heard (session_event s e) = some (event_channel, s, event_frame s e)
  heard (session_error s c text) = some (error_channel, s, session_error_frame s c text)
  heard (session_context_state s whole) = some (context_channel, s, context_state_frame s whole)
  heard (permission_requests s whole) =
      some (permission_channel, s, permission_request_frame s whole)
  heard _ = none

  pub notify : Channel → ℕ → ServerFrame → List Listener → List (ℕ × ServerFrame)
  notify ch s frame [] = []
  notify ch s frame (l ∷ ls) =
      if is_listener ch s l.client l && is_open l.client
      then (l.client, frame) ∷ notify ch s frame ls
      else notify ch s frame ls

  abbrev pub heard_by : Option (Channel × ℕ × ServerFrame) → World → World
  heard_by none w = w
  heard_by (some (ch, s, frame)) w = record w {
    hub = record (w.hub) { outbox = w.hub.outbox ++ notify ch s frame w.listeners };
  }

  -- An event of the bridge at the listeners of the subscriptions.
  pub on_event : Event → World → World
  unfolding notify
  on_event e w = heard_by (heard e) w

pub on_connect : ℕ → Option ℕ → World → World
on_connect c tenant w = record w {
  clients = insert c (record { tenant = tenant; subscriptions = [] }) w.clients;
}

pub clean_all : List ℕ → ℕ → List Listener → List Listener
unfolding off_all
clean_all [] c ls = ls
clean_all (s ∷ ss) c ls = clean_all ss c (cleanup s c ls)

abbrev pub left_by : ℕ → Option Client → World → World
left_by c none w = w
left_by c (some k) w = record w {
  listeners = clean_all k.subscriptions c w.listeners;
  clients = remove c w.clients;
}

-- The listener on "close".
pub on_client_close : ℕ → World → World
unfolding clean_all
on_client_close c w = left_by c (lookup c w.clients) w
