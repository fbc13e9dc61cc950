-- ===== src/ClientWs/Admission.antt =====
-- packages/orchestrator/src/client-ws.ts: which frames make a client a subscriber of a session.
use claude_agent_runner.Common.{
  ℕ, ◌≡◌, refl, sym, ap, ◌∙◌, ◌⊎◌, inl, inr, Option, none, some, Bool, true, false, not, ◌||◌, [],
  ◌∷◌, ◌++◌, if◌then◌else◌, ◌==◌, filter,
}
use claude_agent_runner.Common.Dict.{lookup, insert, lookup-insert}
use claude_agent_runner.Sessions.{Session, get}
use claude_agent_runner.ClientWs.Commands.{HandleContext}
use claude_agent_runner.ClientWs.{
  Client, World, ClientFrame, ping, unknown, invalid_json, subscribe, unsubscribe, request,
  has_subscription, owns, subscribe_found, handle_frame, frame_from, on_frame,
}
use claude_agent_runner.ClientWs.Links.{subscribed_by, is_subscribed, equal_of}
use claude_agent_runner.ClientWs.Subscriptions.{any-append, any-left}

abbrev with_session : ℕ → Client → Client
with_session s k = record k { subscriptions = k.subscriptions ++ s ∷ [] }

abbrev without_session : ℕ → Client → Client
without_session s k = record k { subscriptions = filter (λ x. not (x == s)) k.subscriptions }

or_cases : (a b : Bool) → (a || b) ≡ true → (a ≡ true) ⊎ (b ≡ true)
or_cases true b h = inl refl
or_cases false b h = inr h

if_cases :
    {A : Type 0} (P : A → Type 0) (b : Bool) (x y : A)
    → P (if b then x else y)
    → ((b ≡ true) × P x) ⊎ ((b ≡ false) × P y)
if_cases P true x y h = inl (refl, h)
if_cases P false x y h = inr (refl, h)

-- What holds of a session, a client and its entry when the client may subscribe to the session.
abbrev pub MaySubscribe : (ℕ → Bool) → HandleContext → ClientFrame → ℕ → ℕ → Client → World → Type 0
MaySubscribe is_open ctx f d s k w =
    (d ≡ ctx.client)
    × (f ≡ subscribe s)
    × (lookup ctx.client w.clients ≡ some k)
    × ((session : Session) × (get s w.hub.bridge.sessions ≡ some session)
        × (owns is_open k.tenant session.tenant_id ≡ true))

module _ (is_open : ℕ → Bool) where
  subscribes_found :
      (ctx : HandleContext) (t d s : ℕ) (k : Client) (x : Option Session) (w : World)
      → lookup ctx.client w.clients ≡ some k
      → get t w.hub.bridge.sessions ≡ x
      → is_subscribed d s (subscribe_found is_open (record ctx { tenant = k.tenant }) t k x w)
        ≡ true
      → (is_subscribed d s w ≡ true) ⊎ MaySubscribe is_open ctx (subscribe t) d s k w
  subscribes_found ctx t d s k none w e g h = inl h
  subscribes_found ctx t d s k (some session) w e g h =
      go
        (if_cases (λ v. is_subscribed d s v ≡ true) (owns is_open k.tenant session.tenant_id) _ _ h)
    where
      entered :
          owns is_open k.tenant session.tenant_id ≡ true
          → ((ctx.client == d ≡ true) × (subscribed_by s (some (with_session t k)) ≡ true))
            ⊎ ((ctx.client == d ≡ false) × (subscribed_by s (lookup d w.clients) ≡ true))
          → (is_subscribed d s w ≡ true) ⊎ MaySubscribe is_open ctx (subscribe t) d s k w
      entered o (inr (u, r)) = inl r
      entered o (inl (u, r)) =
          elim (or_cases (has_subscription s k) (t == s)
            (sym (any-append (λ x. x == s) k.subscriptions t) ∙ r)) [
              | inl a ↦ inl (rw (sym (equal_of ctx.client d u), e) a)
              | inr b ↦ inr (
                sym (equal_of ctx.client d u),
                ap subscribe (equal_of t s b),
                e,
                (session, rw (sym (equal_of t s b)) g, o),
              )
            ]

      go :
          ((owns is_open k.tenant session.tenant_id ≡ true)
              × (subscribed_by s (lookup d (insert ctx.client (with_session t k) w.clients))
                  ≡ true))
            ⊎ ((owns is_open k.tenant session.tenant_id ≡ false) × (is_subscribed d s w ≡ true))
          → (is_subscribed d s w ≡ true) ⊎ MaySubscribe is_open ctx (subscribe t) d s k w
      go (inl (o, r)) = entered o (
          if_cases (λ v. subscribed_by s v ≡ true) (ctx.client == d) (some (with_session t k))
            (lookup d w.clients)
            (rw (sym (lookup-insert ctx.client d (with_session t k) w.clients)) r))
      go (inr (o, r)) = inl r

  left_still : (u : Bool) (a : Bool) → (if u then false else a) ≡ true → a ≡ true
  left_still true a h = cc
  left_still false a h = h

  subscribes_frame :
      (ctx : HandleContext) (f : ClientFrame) (d s : ℕ) (k : Client) (w : World)
      → lookup ctx.client w.clients ≡ some k
      → is_subscribed d s (handle_frame is_open (record ctx { tenant = k.tenant }) f k w) ≡ true
      → (is_subscribed d s w ≡ true) ⊎ MaySubscribe is_open ctx f d s k w
  subscribes_frame ctx ping d s k w e h = inl h
  subscribes_frame ctx unknown d s k w e h = inl h
  subscribes_frame ctx invalid_json d s k w e h = inl h
  subscribes_frame ctx (request t q) d s k w e h = inl h
  subscribes_frame ctx (subscribe t) d s k w e h =
      elim (if_cases (λ v. is_subscribed d s v ≡ true) (has_subscription t k) _ _ h) [
        | inl (u, r) ↦ inl r
        | inr (u, r) ↦ subscribes_found ctx t d s k (get t w.hub.bridge.sessions) w e refl r
      ]
  subscribes_frame ctx (unsubscribe t) d s k w e h =
      elim (if_cases (λ v. is_subscribed d s v ≡ true) (has_subscription t k) _ _ h) [
        | inr (u, r) ↦ inl r
        | inl (u, r) ↦ go (
            if_cases (λ v. subscribed_by s v ≡ true) (ctx.client == d) (some (without_session t k))
              (lookup d w.clients)
              (rw (sym (lookup-insert ctx.client d (without_session t k) w.clients)) r))
      ]
    where
      go :
          ((ctx.client == d ≡ true) × (subscribed_by s (some (without_session t k)) ≡ true))
            ⊎ ((ctx.client == d ≡ false) × (subscribed_by s (lookup d w.clients) ≡ true))
          → (is_subscribed d s w ≡ true) ⊎ MaySubscribe is_open ctx (unsubscribe t) d s k w
      go (inr (u, r)) = inl r
      go (inl (u, r)) = inl (
          rw (sym (equal_of ctx.client d u), e)
            (left_still (t == s) (has_subscription s k) (sym (any-left t s k.subscriptions) ∙ r)))

  subscribes_from :
      (ctx : HandleContext) (f : ClientFrame) (d s : ℕ) (x : Option Client) (w : World)
      → lookup ctx.client w.clients ≡ x
      → is_subscribed d s (frame_from is_open ctx f x w) ≡ true
      → (is_subscribed d s w ≡ true) ⊎ ((k : Client) × MaySubscribe is_open ctx f d s k w)
  subscribes_from ctx f d s none w e h = inl h
  subscribes_from ctx f d s (some k) w e h = elim (subscribes_frame ctx f d s k w e h) [
    | inl a ↦ inl a
    | inr b ↦ inr (k, b)
  ]

  -- Who is subscribed after a frame was subscribed before, or the frame is its own subscription to a
  -- session that is known and, where the connection has a tenant, is that tenant's.
  pub on_frame-subscribes :
      (ctx : HandleContext) (f : ClientFrame) (d s : ℕ) (w : World)
      → is_subscribed d s (on_frame is_open ctx f w) ≡ true
      → (is_subscribed d s w ≡ true) ⊎ ((k : Client) × MaySubscribe is_open ctx f d s k w)
  unfolding on_frame
  on_frame-subscribes ctx f d s w h =
      subscribes_from ctx f d s (lookup ctx.client w.clients) w refl h
