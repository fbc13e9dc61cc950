-- ===== src/ClientWs/Truth.antt =====
-- packages/orchestrator/src/client-ws.ts: a positive answer comes with a frame at the session's runner.
use claude_agent_runner.Common.{
  ℕ, ◌≡◌, refl, ap, ◌⊎◌, inl, inr, Option, none, some, Bool, true, false, [], ◌∷◌, ◌++◌,
}
use claude_agent_runner.Common.Dict.{lookup}
use claude_agent_runner.Sessions.{get, increment_messages}
use claude_agent_runner.WsBridge.{WsBridge, with_sessions}
use claude_agent_runner.WsBridge.Frames.{Command, frame_of}
use claude_agent_runner.ClientWs.Commands.{
  Request, send, steer, compact, permission_response, rewind, set_options, get_commands,
  rename_session, mcp, ServerFrame, ack, commands_result, not_connected, AckError, WaitKind,
  for_commands, for_mcp, Hub, HandleContext, acknowledged, perform, handle_request,
  commands_requested, mcp_requested, unless_refused, refusal,
}
use claude_agent_runner.WsBridge.Sockets.{IsBacked, Delivered, deliver-Delivered}

-- The session's runner was not written to, and the client is told so.
abbrev pub IsDenied : HandleContext → ℕ → Hub → Hub → Type 0
IsDenied ctx s h h' =
    (h'.bridge.sent ≡ h.bridge.sent)
    × (h'.waits ≡ h.waits)
    × ((frame : ServerFrame) × (h'.outbox ≡ h.outbox ++ (ctx.client, frame) ∷ [])
        × (((e : AckError) × (frame ≡ ack s false (some e) ctx.request_id))
            ⊎ (frame ≡ commands_result s none ctx.request_id)))

-- One frame was written, to an open socket of the session, and the client is told so or waits.
abbrev pub IsGranted : (ℕ → Bool) → HandleContext → ℕ → Hub → Hub → Type 0
IsGranted is_open ctx s h h' =
    ((w : ℕ) × (c : Command) × (h'.bridge.sent ≡ h.bridge.sent ++ (w, frame_of c) ∷ [])
      × (is_open w ≡ true)
      × (lookup w h.bridge.labels ≡ some s))
    × (((h'.waits ≡ h.waits)
          × (h'.outbox ≡ h.outbox ++ (ctx.client, ack s true none ctx.request_id) ∷ []))
        ⊎ ((h'.outbox ≡ h.outbox)
            × ((kind : WaitKind) × (h'.waits
                  ≡ h.waits
                    ++ record {
                      kind = kind;
                      session = s;
                      request = ctx.request_id;
                      client = ctx.client;
                    }
                      ∷ []))))

abbrev pub is_rename : Request → Bool
is_rename (rename_session t) = true
is_rename _ = false

abbrev pub Answered : (ℕ → Bool) → HandleContext → ℕ → Hub → Hub → Type 0
Answered is_open ctx s h h' = IsDenied ctx s h h' ⊎ IsGranted is_open ctx s h h'

module _ (is_open : ℕ → Bool) where
  acknowledged-Answered :
      (ctx : HandleContext) (s : ℕ) (c : Command) (p : Bool × WsBridge) (h : Hub)
      → is_open ctx.client ≡ true
      → Delivered is_open s c h.bridge p
      → Answered is_open ctx s h (acknowledged is_open ctx s p h)
  acknowledged-Answered ctx s c (false, b) h o d = rw o (
      inl (
        ap (λ x. x.sent) d.0,
        refl,
        (ack s false (some not_connected) ctx.request_id, refl, inl (not_connected, refl)),
      ))
  acknowledged-Answered ctx s c (true, b) h o d =
      let (w, e, u, l) = d in rw o (inr ((w, c, ap (λ x. x.sent) e, u, l), inl (refl, refl)))

  commands_requested-Answered :
      (ctx : HandleContext) (s : ℕ) (c : Command) (p : Bool × WsBridge) (h : Hub)
      → is_open ctx.client ≡ true
      → Delivered is_open s c h.bridge p
      → Answered is_open ctx s h (commands_requested is_open ctx s p h)
  commands_requested-Answered ctx s c (false, b) h o d =
      rw o
        (inl (ap (λ x. x.sent) d.0, refl, (commands_result s none ctx.request_id, refl, inr refl)))
  commands_requested-Answered ctx s c (true, b) h o d =
      let (w, e, u, l) = d in
      inr ((w, c, ap (λ x. x.sent) e, u, l), inr (refl, (for_commands, refl)))

  mcp_requested-Answered :
      (ctx : HandleContext) (s : ℕ) (c : Command) (p : Bool × WsBridge) (h : Hub)
      → is_open ctx.client ≡ true
      → Delivered is_open s c h.bridge p
      → Answered is_open ctx s h (mcp_requested is_open ctx s p h)
  mcp_requested-Answered ctx s c (false, b) h o d = rw o (
      inl (
        ap (λ x. x.sent) d.0,
        refl,
        (ack s false (some not_connected) ctx.request_id, refl, inl (not_connected, refl)),
      ))
  mcp_requested-Answered ctx s c (true, b) h o d =
      let (w, e, u, l) = d in inr ((w, c, ap (λ x. x.sent) e, u, l), inr (refl, (for_mcp, refl)))

  perform-Answered :
      (ctx : HandleContext) (s : ℕ) (q : Request) (h : Hub)
      → is_open ctx.client ≡ true
      → is_rename q ≡ false
      → IsBacked h.bridge
      → Answered is_open ctx s h (perform is_open ctx s q h)
  unfolding perform
  perform-Answered ctx s (send text f) h o r b =
      let h' : Hub = record h {
        bridge = with_sessions (increment_messages s ctx.now h.bridge.sessions) h.bridge;
      } in
      acknowledged-Answered ctx s _ _ h' o (deliver-Delivered is_open s _ h'.bridge b)
  perform-Answered ctx s (steer text f) h o r b =
      acknowledged-Answered ctx s _ _ h o (deliver-Delivered is_open s _ h.bridge b)
  perform-Answered ctx s (compact i) h o r b =
      acknowledged-Answered ctx s _ _ h o (deliver-Delivered is_open s _ h.bridge b)
  perform-Answered ctx s (permission_response t c x i) h o r b =
      acknowledged-Answered ctx s _ _ h o (deliver-Delivered is_open s _ h.bridge b)
  perform-Answered ctx s (rewind u) h o r b =
      acknowledged-Answered ctx s _ _ h o (deliver-Delivered is_open s _ h.bridge b)
  perform-Answered ctx s (set_options f) h o r b =
      acknowledged-Answered ctx s _ _ h o (deliver-Delivered is_open s _ h.bridge b)
  perform-Answered ctx s get_commands h o r b =
      commands_requested-Answered ctx s _ _ h o (deliver-Delivered is_open s _ h.bridge b)
  perform-Answered ctx s (rename_session t) h o r b = cc
  perform-Answered ctx s (mcp a n e) h o r b =
      mcp_requested-Answered ctx s _ _ h o (deliver-Delivered is_open s _ h.bridge b)

  unless_refused-Answered :
      (ctx : HandleContext) (s : ℕ) (q : Request) (x : Option AckError) (h : Hub)
      → is_open ctx.client ≡ true
      → is_rename q ≡ false
      → IsBacked h.bridge
      → Answered is_open ctx s h (unless_refused is_open ctx s q x h)
  unless_refused-Answered ctx s q none h o r b = perform-Answered ctx s q h o r b
  unless_refused-Answered ctx s q (some e) h o r b =
      rw o (inl (refl, refl, (ack s false (some e) ctx.request_id, refl, inl (e, refl))))

  -- For an open client, where every session's socket is labelled with it, a request other than a
  -- rename ends in one of two ways: nothing is written to a runner and the client is told of a
  -- failure (or gets no commands), or one frame is written, to an open socket that is labelled with
  -- the session, and the client is told of success or waits for the runner's answer.
  pub handle_request-Answered :
      (ctx : HandleContext) (s : ℕ) (q : Request) (h : Hub)
      → is_open ctx.client ≡ true
      → is_rename q ≡ false
      → IsBacked h.bridge
      → Answered is_open ctx s h (handle_request is_open ctx s q h)
  unfolding handle_request
  handle_request-Answered ctx s q h o r b =
      unless_refused-Answered ctx s q (refusal is_open q (get s h.bridge.sessions)) h o r b
