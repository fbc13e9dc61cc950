-- ===== src/ClientWs/Replies.antt =====
-- packages/orchestrator/src/client-ws.ts: each request has one answer, at once or when it is waited for,
-- and a positive one is no lie.
use claude_agent_runner.Common.{
  ℕ, zero, suc, ◌+◌, ◌≡◌, refl, Option, none, some, Bool, true, false, List, [], ◌∷◌, ◌++◌, arith,
  length, length-append, All, All-append,
}
use claude_agent_runner.Sessions.{get, increment_messages, rename}
use claude_agent_runner.WsBridge.{WsBridge, deliver, with_sessions}
use claude_agent_runner.WsBridge.Frames.{send_rename}
use claude_agent_runner.ClientWs.Commands.{
  Request, send, steer, compact, permission_response, rewind, set_options, get_commands,
  rename_session, mcp, ServerFrame, AckError, Wait, WaitKind, for_commands, for_mcp, Hub,
  HandleContext, send_frame, acknowledged, perform, handle_request, commands_requested,
  mcp_requested, unless_refused, refusal, wait_for,
}
use claude_agent_runner.ClientWs.Answers.{on_timeout, too_late}

-- The frames sent to clients and the answers still waited for.
abbrev pub load : Hub → ℕ
load h = length h.outbox + length h.waits

module _ (is_open : ℕ → Bool) where
  load-send_frame :
      (c : ℕ) (f : ServerFrame) (h : Hub)
      → is_open c ≡ true
      → load (send_frame is_open c f h) ≡ suc (load h)
  load-send_frame c f h o = rw o (omega (arith, length-append h.outbox ((c, f) ∷ [])))

  load-acknowledged :
      (ctx : HandleContext) (s : ℕ) (p : Bool × WsBridge) (h : Hub)
      → is_open ctx.client ≡ true
      → load (acknowledged is_open ctx s p h) ≡ suc (load h)
  load-acknowledged ctx s (d, b) h o = load-send_frame ctx.client _ (record h { bridge = b }) o

  load-wait_for :
      (kind : WaitKind) (ctx : HandleContext) (s : ℕ) (h : Hub)
      → load (wait_for is_open kind ctx s h) ≡ suc (load h)
  load-wait_for kind ctx s h =
      let w : Wait = record {
        kind = kind;
        session = s;
        request = ctx.request_id;
        client = ctx.client;
      } in
      omega (arith, length-append h.waits (w ∷ []))

  load-commands_requested :
      (ctx : HandleContext) (s : ℕ) (p : Bool × WsBridge) (h : Hub)
      → is_open ctx.client ≡ true
      → load (commands_requested is_open ctx s p h) ≡ suc (load h)
  load-commands_requested ctx s (true, b) h o =
      load-wait_for for_commands ctx s (record h { bridge = b })
  load-commands_requested ctx s (false, b) h o =
      load-send_frame ctx.client _ (record h { bridge = b }) o

  load-mcp_requested :
      (ctx : HandleContext) (s : ℕ) (p : Bool × WsBridge) (h : Hub)
      → is_open ctx.client ≡ true
      → load (mcp_requested is_open ctx s p h) ≡ suc (load h)
  load-mcp_requested ctx s (true, b) h o = load-wait_for for_mcp ctx s (record h { bridge = b })
  load-mcp_requested ctx s (false, b) h o = load-send_frame ctx.client _ (record h { bridge = b }) o

  load-perform :
      (ctx : HandleContext) (s : ℕ) (q : Request) (h : Hub)
      → is_open ctx.client ≡ true
      → load (perform is_open ctx s q h) ≡ suc (load h)
  unfolding perform
  load-perform ctx s (send text f) h o =
      load-acknowledged ctx s _
        (record h {
          bridge = with_sessions (increment_messages s ctx.now h.bridge.sessions) h.bridge;
        })
        o
  load-perform ctx s (steer text f) h o = load-acknowledged ctx s _ h o
  load-perform ctx s (compact i) h o = load-acknowledged ctx s _ h o
  load-perform ctx s (permission_response a b c d) h o = load-acknowledged ctx s _ h o
  load-perform ctx s (rewind u) h o = load-acknowledged ctx s _ h o
  load-perform ctx s (set_options f) h o = load-acknowledged ctx s _ h o
  load-perform ctx s get_commands h o = load-commands_requested ctx s _ h o
  load-perform ctx s (rename_session t) h o =
      let m = (rename s t ctx.tenant h.bridge.sessions).1 in
      let b =
        (deliver is_open s (send_rename t (some ctx.request_id)) (with_sessions m h.bridge)).1 in
      load-send_frame ctx.client _ (record h { bridge = b }) o
  load-perform ctx s (mcp a n e) h o = load-mcp_requested ctx s _ h o

  load-unless_refused :
      (ctx : HandleContext) (s : ℕ) (q : Request) (x : Option AckError) (h : Hub)
      → is_open ctx.client ≡ true
      → load (unless_refused is_open ctx s q x h) ≡ suc (load h)
  load-unless_refused ctx s q none h o = load-perform ctx s q h o
  load-unless_refused ctx s q (some e) h o = load-send_frame ctx.client _ h o

-- Whoever waits can still be written to.
abbrev pub IsOpenFor : (ℕ → Bool) → List Wait → Type 0
IsOpenFor is_open ws = All (λ (w : Wait). is_open w.client ≡ true) ws

-- The timers of all that wait, the oldest first.
abbrev pub expire : (ℕ → Bool) → ℕ → Hub → Hub
expire is_open zero h = h
expire is_open (suc n) h = expire is_open n (on_timeout is_open 0 h)

-- When the timers have run out, none waits, and one more frame was sent than answers were due.
abbrev pub IsAnswered : (ℕ → Bool) → Hub → Hub → Type 0
IsAnswered is_open h h' =
    let late : Hub = expire is_open (length h'.waits) h' in
    (late.waits ≡ []) × (length late.outbox ≡ length h.outbox + length h.waits + 1)

module _ (is_open : ℕ → Bool) where
  send_frame-IsOpenFor :
      (c : ℕ) (f : ServerFrame) (h : Hub)
      → is_open c ≡ true
      → IsOpenFor is_open h.waits
      → IsOpenFor is_open (send_frame is_open c f h).waits
  send_frame-IsOpenFor c f h o a = rw o a

  wait_for-IsOpenFor :
      (kind : WaitKind) (ctx : HandleContext) (s : ℕ) (h : Hub)
      → is_open ctx.client ≡ true
      → IsOpenFor is_open h.waits
      → IsOpenFor is_open (wait_for is_open kind ctx s h).waits
  wait_for-IsOpenFor kind ctx s h o a = All-append _ h.waits _ a (o, tt)

  acknowledged-IsOpenFor :
      (ctx : HandleContext) (s : ℕ) (p : Bool × WsBridge) (h : Hub)
      → is_open ctx.client ≡ true
      → IsOpenFor is_open h.waits
      → IsOpenFor is_open (acknowledged is_open ctx s p h).waits
  acknowledged-IsOpenFor ctx s (d, b) h o a = rw o a

  commands_requested-IsOpenFor :
      (ctx : HandleContext) (s : ℕ) (p : Bool × WsBridge) (h : Hub)
      → is_open ctx.client ≡ true
      → IsOpenFor is_open h.waits
      → IsOpenFor is_open (commands_requested is_open ctx s p h).waits
  commands_requested-IsOpenFor ctx s (true, b) h o a =
      wait_for-IsOpenFor for_commands ctx s (record h { bridge = b }) o a
  commands_requested-IsOpenFor ctx s (false, b) h o a = rw o a

  mcp_requested-IsOpenFor :
      (ctx : HandleContext) (s : ℕ) (p : Bool × WsBridge) (h : Hub)
      → is_open ctx.client ≡ true
      → IsOpenFor is_open h.waits
      → IsOpenFor is_open (mcp_requested is_open ctx s p h).waits
  mcp_requested-IsOpenFor ctx s (true, b) h o a =
      wait_for-IsOpenFor for_mcp ctx s (record h { bridge = b }) o a
  mcp_requested-IsOpenFor ctx s (false, b) h o a = rw o a

  perform-IsOpenFor :
      (ctx : HandleContext) (s : ℕ) (q : Request) (h : Hub)
      → is_open ctx.client ≡ true
      → IsOpenFor is_open h.waits
      → IsOpenFor is_open (perform is_open ctx s q h).waits
  unfolding perform
  perform-IsOpenFor ctx s (send text f) h o a =
      acknowledged-IsOpenFor ctx s _
        (record h {
          bridge = with_sessions (increment_messages s ctx.now h.bridge.sessions) h.bridge;
        })
        o a
  perform-IsOpenFor ctx s (steer text f) h o a = acknowledged-IsOpenFor ctx s _ h o a
  perform-IsOpenFor ctx s (compact i) h o a = acknowledged-IsOpenFor ctx s _ h o a
  perform-IsOpenFor ctx s (permission_response t c x i) h o a = acknowledged-IsOpenFor ctx s _ h o a
  perform-IsOpenFor ctx s (rewind u) h o a = acknowledged-IsOpenFor ctx s _ h o a
  perform-IsOpenFor ctx s (set_options f) h o a = acknowledged-IsOpenFor ctx s _ h o a
  perform-IsOpenFor ctx s get_commands h o a = commands_requested-IsOpenFor ctx s _ h o a
  perform-IsOpenFor ctx s (rename_session t) h o a = rw o a
  perform-IsOpenFor ctx s (mcp t n e) h o a = mcp_requested-IsOpenFor ctx s _ h o a

  unless_refused-IsOpenFor :
      (ctx : HandleContext) (s : ℕ) (q : Request) (x : Option AckError) (h : Hub)
      → is_open ctx.client ≡ true
      → IsOpenFor is_open h.waits
      → IsOpenFor is_open (unless_refused is_open ctx s q x h).waits
  unless_refused-IsOpenFor ctx s q none h o a = perform-IsOpenFor ctx s q h o a
  unless_refused-IsOpenFor ctx s q (some e) h o a = rw o a

  on_timeout_first :
      (b : WsBridge) (w : Wait) (ws : List Wait) (out : List (ℕ × ServerFrame))
      → is_open w.client ≡ true
      → on_timeout is_open 0 (record { bridge = b; waits = w ∷ ws; outbox = out }) ≡ record {
        bridge = b;
        waits = ws;
        outbox = out ++ (w.client, too_late is_open w w.kind) ∷ [];
      }
  on_timeout_first b w ws out o = rw o refl

  expired :
      (b : WsBridge) (ws : List Wait) (out : List (ℕ × ServerFrame))
      → IsOpenFor is_open ws
      → let h : Hub =
          expire is_open (length ws) (record { bridge = b; waits = ws; outbox = out }) in
        (h.waits ≡ []) × (length h.outbox ≡ length out + length ws)
  expired b [] out a = (refl, omega arith)
  expired b (w ∷ ws) out a =
      let f : ℕ × ServerFrame = (w.client, too_late is_open w w.kind) in
      let r = expired b ws (out ++ f ∷ []) a.1 in
      rw (expire, on_timeout_first b w ws out a.0)
        (r.0, omega (arith, r.1, length-append out (f ∷ [])))

  -- Where the client and those that wait already can be written to, a request of the client is
  -- answered: once the timers of all that wait have run out, none waits any more, and as many frames
  -- have been sent to clients as waited before, and one for the request.
  pub handle_request-IsAnswered :
      (ctx : HandleContext) (s : ℕ) (q : Request) (h : Hub)
      → is_open ctx.client ≡ true
      → IsOpenFor is_open h.waits
      → IsAnswered is_open h (handle_request is_open ctx s q h)
  unfolding handle_request
  handle_request-IsAnswered ctx s q h o a =
      let x : Option AckError = refusal is_open q (get s h.bridge.sessions) in
      let h' : Hub = unless_refused is_open ctx s q x h in
      let r = expired h'.bridge h'.waits h'.outbox (unless_refused-IsOpenFor ctx s q x h o a) in
      (r.0, omega (arith, r.1, load-unless_refused is_open ctx s q x h o))
