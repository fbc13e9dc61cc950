-- ===== src/ClientWs/Delivery.antt =====
-- packages/orchestrator/src/client-ws.ts: who receives an event, and what a
-- close takes away.
use claude_agent_runner.Common.{
  ℕ, suc, ◌≡◌, ◌≢◌, refl, sym, ap, ◌∙◌, inl, inr, Option, none, some, Bool, true, false, ◌&&◌, List,
  [], ◌∷◌, ◌++◌, if◌then◌else◌, ◌==◌, ==_refl, count, All, Bool-cases,
}
use claude_agent_runner.Common.Dict.{lookup, lookup-remove}
use claude_agent_runner.WsBridge.{Event}
use claude_agent_runner.ClientWs.Commands.{ServerFrame}
use claude_agent_runner.ClientWs.{
  Channel, Listener, Client, World, is_listener, code, notify, heard, on_event, left_by,
  on_client_close,
}
use claude_agent_runner.ClientWs.Links.{one_if, subscribed_by, is_subscribed, IsLinked, equal_of}
use claude_agent_runner.ClientWs.Subscriptions.{left_by-IsLinked, and_no}

abbrev pub count_if : Bool → ℕ → ℕ
count_if true n = n
count_if false n = 0

told_count :
    (q o : Bool) (m n : ℕ)
    → m ≡ count_if o n
    → (if q && o then suc m else m) ≡ count_if o (if q then suc n else n)
told_count true true m n e = ap suc e
told_count true false m n e = e
told_count false true m n e = e
told_count false false m n e = e

either_way : (b : Bool) (n : ℕ) → (if b then n else n) ≡ n
either_way true n = refl
either_way false n = refl

count_of_if :
    {A : Type 0} (p : A → Bool) (b : Bool) (x : A) (xs : List A)
    → count p (if b then x ∷ xs else xs)
      ≡ (if b then (if p x then suc (count p xs) else count p xs) else count p xs)
count_of_if p true x xs = refl
count_of_if p false x xs = refl

-- What was sent of an event: the frame, once to each open subscriber of the session.
abbrev pub IsDelivered : (ℕ → Bool) → ℕ → ServerFrame → World → World → Type 0
IsDelivered is_open s frame w w' =
    (sent : List (ℕ × ServerFrame)) × (w'.hub.outbox ≡ w.hub.outbox ++ sent)
    × All (λ x. x.1 ≡ frame) sent
    × ((d : ℕ) → count (λ x. x.0 == d) sent ≡ one_if (is_subscribed d s w && is_open d))
    × (w'.clients ≡ w.clients)

-- The client and its listeners are gone, and the other clients have theirs.
abbrev pub IsGone : ℕ → World → World → Type 0
IsGone c w w' =
    (lookup c w'.clients ≡ none)
    × ((ch : Channel) (s : ℕ) → count (is_listener ch s c) w'.listeners ≡ 0)
    × ((ch : Channel) (s d : ℕ)
        → c ≢ d
        → count (is_listener ch s d) w'.listeners ≡ count (is_listener ch s d) w.listeners)

module _ (is_open : ℕ → Bool) where
  -- A listener that is told, counted for the client `d`.
  listener_count :
      (ch : Channel) (s d : ℕ) (l : Listener) (m n : ℕ)
      → m ≡ count_if (is_open d) n
      → (if is_listener ch s l.client l && is_open l.client
          then (if l.client == d then suc m else m)
          else m)
        ≡ count_if (is_open d) (if is_listener ch s d l then suc n else n)
  listener_count ch s d l m n e = elim (Bool-cases (l.client == d)) [
    | inl u ↦
        rw (==_refl l.client, u, ap is_open (equal_of l.client d u))
          (told_count (code l.channel == code ch && (l.session == s && true)) (is_open d) m n e)
    | inr u ↦
        rw
          (
            u,
            either_way (is_listener ch s l.client l && is_open l.client) m,
            and_no (l.session == s),
            and_no (code l.channel == code ch),
          )
          e
  ]

  count-notify :
      (ch : Channel) (s d : ℕ) (frame : ServerFrame) (ls : List Listener)
      → count (λ x. x.0 == d) (notify is_open ch s frame ls)
        ≡ count_if (is_open d) (count (is_listener ch s d) ls)
  unfolding notify
  count-notify ch s d frame [] = elim (Bool-cases (is_open d)) [
    | inl u ↦ rw u refl
    | inr u ↦ rw u refl
  ]
  count-notify ch s d frame (l ∷ ls) =
      count_of_if (λ x. x.0 == d) (is_listener ch s l.client l && is_open l.client)
        (l.client, frame) (notify is_open ch s frame ls)
      ∙ listener_count ch s d l (count (λ x. x.0 == d) (notify is_open ch s frame ls))
          (count (is_listener ch s d) ls) (count-notify ch s d frame ls)

  All-notify :
      (ch : Channel) (s : ℕ) (frame : ServerFrame) (ls : List Listener)
      → All (λ x. x.1 ≡ frame) (notify is_open ch s frame ls)
  unfolding notify
  All-notify ch s frame [] = tt
  All-notify ch s frame (l ∷ ls) =
      elim (Bool-cases (is_listener ch s l.client l && is_open l.client)) [
        | inl u ↦ rw u (refl, All-notify ch s frame ls)
        | inr u ↦ rw u (All-notify ch s frame ls)
      ]

  one_if_both : (a b : Bool) → count_if b (one_if a) ≡ one_if (a && b)
  one_if_both true true = refl
  one_if_both true false = refl
  one_if_both false true = refl
  one_if_both false false = refl

  -- Where the listeners are those of the subscriptions, a client event of a session is appended to
  -- what is sent once for each client that is subscribed to the session and open, for no other
  -- client, and always with the frame of the event. Subscriptions stay as they are.
  pub on_event-IsDelivered :
      (e : Event) (ch : Channel) (s : ℕ) (frame : ServerFrame) (w : World)
      → IsLinked w
      → heard is_open e ≡ some (ch, s, frame)
      → IsDelivered is_open s frame w (on_event is_open e w)
  unfolding on_event
  on_event-IsDelivered e ch s frame w h k = rw k (
    notify is_open ch s frame w.listeners,
    refl,
    All-notify ch s frame w.listeners,
    λ d.
        count-notify ch s d frame w.listeners
        ∙ ap (count_if (is_open d)) (h ch d s)
        ∙ one_if_both (is_subscribed d s w) (is_open d),
    refl,
  )

-- Where the listeners are those of the subscriptions, the close of a socket takes the client and all
-- its listeners away, and leaves the listeners of the other clients.
pub on_client_close-IsGone : (c : ℕ) (w : World) → IsLinked w → IsGone c w (on_client_close c w)
unfolding on_client_close
on_client_close-IsGone c w h =
    let after = left_by-IsLinked c (lookup c w.clients) w refl h in
    let gone = go (lookup c w.clients) refl in
    (
      gone,
      λ ch s. after ch c s ∙ ap (λ x. one_if (subscribed_by s x)) gone,
      λ ch s d n.
          after ch d s
          ∙ ap (λ x. one_if (subscribed_by s x)) (others d n (lookup c w.clients) refl)
          ∙ sym (h ch d s),
    )
  where
    go : (x : Option Client) → lookup c w.clients ≡ x → lookup c (left_by c x w).clients ≡ none
    go none e = e
    go (some k) e = rw (lookup-remove c c w.clients, ==_refl c) refl

    others :
        (d : ℕ)
        → c ≢ d
        → (x : Option Client) → lookup c w.clients ≡ x
        → lookup d (left_by c x w).clients ≡ lookup d w.clients
    others d n none e = refl
    others d n (some k) e =
        rw (lookup-remove c d w.clients)
          (elim (Bool-cases (c == d)) [ inl u ↦ absurd (n (equal_of c d u)) | inr u ↦ rw u refl ])
