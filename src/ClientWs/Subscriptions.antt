-- ===== src/ClientWs/Subscriptions.antt =====
-- packages/orchestrator/src/client-ws.ts: the listeners are those of the subscriptions.
use claude_agent_runner.Common.{
  ℕ, ◌+◌, ◌≡◌, refl, sym, inl, inr, Option, none, some, Bool, true, false, not, ◌&&◌, ◌||◌, List,
  [], ◌∷◌, ◌++◌, arith, if◌then◌else◌, ◌==◌, ==_refl, any, filter, count, count-append, Bool-cases,
}
use claude_agent_runner.Common.Dict.{lookup, insert, remove, lookup-insert, lookup-remove}
use claude_agent_runner.Sessions.{Session, get}
use claude_agent_runner.WsBridge.{Event}
use claude_agent_runner.ClientWs.Commands.{Hub, HandleContext, ServerFrame}
use claude_agent_runner.ClientWs.{
  Channel, Listener, Client, World, ClientFrame, ping, unknown, invalid_json, subscribe,
  unsubscribe, request, is_listener, cleanup, attached, has_subscription, refuse, add_subscription,
  owns, subscribe_found, handle_frame, frame_from, on_frame, heard, heard_by, on_event, on_connect,
  clean_all, left_by, on_client_close,
}
use claude_agent_runner.ClientWs.Links.{
  one_if, Linked, IsLinked, count_unless, count-cleanup, count-attached, equal_of,
}

pub any-append : (p : ℕ → Bool) (xs : List ℕ) (y : ℕ) → any p (xs ++ y ∷ []) ≡ (any p xs || p y)
any-append p [] y = ground arith
any-append p (x ∷ xs) y = ground (arith, any-append p xs y)

-- What is kept of a subscription list once `s` is left.
pub any-left :
    (s t : ℕ) (xs : List ℕ)
    → any (λ x. x == t) (filter (λ x. not (x == s)) xs)
      ≡ (if s == t then false else any (λ x. x == t) xs)
any-left s t [] = ground arith
any-left s t (x ∷ xs) = ground (arith, any-left s t xs)

pub and_yes : (a : Bool) → (a && true) ≡ a
and_yes true = refl
and_yes false = refl

pub and_no : (a : Bool) → (a && false) ≡ false
and_no true = refl
and_no false = refl

added_count : (a b : Bool) → (b ≡ true → a ≡ false) → one_if a + one_if b ≡ one_if (a || b)
added_count true true h = let bad : true ≡ false = h refl in cc
added_count true false h = refl
added_count false true h = refl
added_count false false h = refl

left_count : (u a : Bool) → count_unless u (one_if a) ≡ one_if (if u then false else a)
left_count true a = refl
left_count false a = refl

add_subscription-Linked :
    (c s : ℕ) (k : Client) (ls : List Listener) (cs : List (ℕ × Client))
    → lookup c cs ≡ some k
    → has_subscription s k ≡ false
    → Linked ls cs
    → Linked
        (ls ++ attached s c)
        (insert c (record k { subscriptions = k.subscriptions ++ s ∷ [] }) cs)
add_subscription-Linked c s k ls cs e f h ch d t =
    let new = record k { subscriptions = k.subscriptions ++ s ∷ [] } in
    rw
      (
        count-append (is_listener ch t d) ls (attached s c),
        h ch d t,
        count-attached ch s c t d,
        lookup-insert c d new cs,
      )
      (elim (Bool-cases (c == d)) [
        | inl u ↦
            rw (sym (equal_of c d u), e, ==_refl c, any-append (λ x. x == t) k.subscriptions s)
              (rw (and_yes (s == t))
                (added_count (has_subscription t k) (s == t) (λ v. rw (sym (equal_of s t v)) f)))
        | inr u ↦ rw u (rw (and_no (s == t)) (omega arith))
      ])

unsubscribe-Linked :
    (c s : ℕ) (k : Client) (ls : List Listener) (cs : List (ℕ × Client))
    → lookup c cs ≡ some k
    → Linked ls cs
    → Linked
        (cleanup s c ls)
        (insert c (record k { subscriptions = filter (λ x. not (x == s)) k.subscriptions }) cs)
unsubscribe-Linked c s k ls cs e h ch d t =
    let new = record k { subscriptions = filter (λ x. not (x == s)) k.subscriptions } in
    rw (count-cleanup ch s c t d ls, h ch d t, lookup-insert c d new cs)
      (elim (Bool-cases (c == d)) [
        | inl u ↦
            rw (sym (equal_of c d u), e, ==_refl c, any-left s t k.subscriptions)
              (rw (and_yes (s == t)) (left_count (s == t) (has_subscription t k)))
        | inr u ↦ rw u (rw (and_no (s == t)) refl)
      ])

cleaned_count :
    (a b u : Bool) (n : ℕ)
    → count_unless (u && a) (count_unless (b && u) n) ≡ count_unless (u && (b || a)) n
cleaned_count true true true n = refl
cleaned_count true true false n = refl
cleaned_count true false true n = refl
cleaned_count true false false n = refl
cleaned_count false true true n = refl
cleaned_count false true false n = refl
cleaned_count false false true n = refl
cleaned_count false false false n = refl

count-clean_all :
    (ch : Channel) (c t d : ℕ) (ss : List ℕ) (ls : List Listener)
    → count (is_listener ch t d) (clean_all ss c ls)
      ≡ count_unless (c == d && any (λ x. x == t) ss) (count (is_listener ch t d) ls)
unfolding clean_all
count-clean_all ch c t d [] ls = rw (and_no (c == d)) refl
count-clean_all ch c t d (s ∷ ss) ls =
    rw (count-clean_all ch c t d ss (cleanup s c ls), count-cleanup ch s c t d ls)
      (cleaned_count (any (λ x. x == t) ss) (s == t) (c == d) (count (is_listener ch t d) ls))

none_left : (a : Bool) → count_unless a (one_if a) ≡ 0
none_left true = refl
none_left false = refl

close-Linked :
    (c : ℕ) (k : Client) (ls : List Listener) (cs : List (ℕ × Client))
    → lookup c cs ≡ some k
    → Linked ls cs
    → Linked (clean_all k.subscriptions c ls) (remove c cs)
close-Linked c k ls cs e h ch d t =
    rw (count-clean_all ch c t d k.subscriptions ls, h ch d t, lookup-remove c d cs)
      (elim (Bool-cases (c == d)) [
        | inl u ↦ rw (sym (equal_of c d u), e, ==_refl c) (none_left (has_subscription t k))
        | inr u ↦ rw u refl
      ])

connect-Linked :
    (c : ℕ) (tenant : Option ℕ) (ls : List Listener) (cs : List (ℕ × Client))
    → lookup c cs ≡ none
    → Linked ls cs
    → Linked ls (insert c (record { tenant = tenant; subscriptions = [] }) cs)
connect-Linked c tenant ls cs e h ch d t =
    rw (h ch d t, lookup-insert c d (record { tenant = tenant; subscriptions = [] }) cs)
      (elim (Bool-cases (c == d)) [
        | inl u ↦ rw (sym (equal_of c d u), e, ==_refl c) refl
        | inr u ↦ rw u refl
      ])

if-IsLinked :
    (b : Bool) (v w : World)
    → (b ≡ true → IsLinked v)
    → (b ≡ false → IsLinked w)
    → IsLinked (if b then v else w)
if-IsLinked true v w f g = f refl
if-IsLinked false v w f g = g refl

module _ (is_open : ℕ → Bool) where
  subscribe_found-IsLinked :
      (ctx : HandleContext) (s : ℕ) (k : Client) (x : Option Session) (w : World)
      → lookup ctx.client w.clients ≡ some k
      → has_subscription s k ≡ false
      → IsLinked w
      → IsLinked (subscribe_found is_open ctx s k x w)
  subscribe_found-IsLinked ctx s k none w e f h = h
  subscribe_found-IsLinked ctx s k (some session) w e f h =
      if-IsLinked (owns is_open ctx.tenant session.tenant_id)
        (add_subscription is_open ctx s k session w) (refuse is_open ctx s w)
        (λ u. add_subscription-Linked ctx.client s k w.listeners w.clients e f h) (λ u. h)

  handle_frame-IsLinked :
      (ctx : HandleContext) (f : ClientFrame) (k : Client) (w : World)
      → lookup ctx.client w.clients ≡ some k
      → IsLinked w
      → IsLinked (handle_frame is_open ctx f k w)
  handle_frame-IsLinked ctx ping k w e h = h
  handle_frame-IsLinked ctx unknown k w e h = h
  handle_frame-IsLinked ctx invalid_json k w e h = h
  handle_frame-IsLinked ctx (subscribe s) k w e h =
      if-IsLinked (has_subscription s k) _ _ (λ u. h)
        (λ u. subscribe_found-IsLinked ctx s k (get s w.hub.bridge.sessions) w e u h)
  handle_frame-IsLinked ctx (unsubscribe s) k w e h =
      if-IsLinked (has_subscription s k) _ _
        (λ u. unsubscribe-Linked ctx.client s k w.listeners w.clients e h) (λ u. h)
  handle_frame-IsLinked ctx (request s q) k w e h = h

  frame_from-IsLinked :
      (ctx : HandleContext) (f : ClientFrame) (x : Option Client) (w : World)
      → lookup ctx.client w.clients ≡ x
      → IsLinked w
      → IsLinked (frame_from is_open ctx f x w)
  frame_from-IsLinked ctx f none w e h = h
  frame_from-IsLinked ctx f (some k) w e h =
      handle_frame-IsLinked (record ctx { tenant = k.tenant }) f k w e h

  heard_by-IsLinked :
      (x : Option (Channel × ℕ × ServerFrame)) (w : World)
      → IsLinked w
      → IsLinked (heard_by is_open x w)
  heard_by-IsLinked none w h = h
  heard_by-IsLinked (some (ch, s, frame)) w h = h

pub left_by-IsLinked :
    (c : ℕ) (x : Option Client) (w : World)
    → lookup c w.clients ≡ x
    → IsLinked w
    → IsLinked (left_by c x w)
left_by-IsLinked c none w e h = h
left_by-IsLinked c (some k) w e h = close-Linked c k w.listeners w.clients e h

-- What changes the connections: a socket with an id that no other has, a frame, an event of the bridge,
-- a close, and whatever happens to the rest of the process.
pub data Step : World → World → Type 0 where
  connected :
      (c : ℕ) (tenant : Option ℕ) (w : World)
      → lookup c w.clients ≡ none
      → Step w (on_connect c tenant w)
  framed :
      (is_open : ℕ → Bool) (ctx : HandleContext) (f : ClientFrame) (w : World)
      → Step w (on_frame is_open ctx f w)
  happened : (is_open : ℕ → Bool) (e : Event) (w : World) → Step w (on_event is_open e w)
  closed : (c : ℕ) (w : World) → Step w (on_client_close c w)
  elsewhere : (h : Hub) (w : World) → Step w (record w { hub = h })

pub data Steps : World → World → Type 0 where
  stay : (w : World) → Steps w w
  next : {u v w : World} → Step u v → Steps v w → Steps u w

step-IsLinked : {v w : World} → Step v w → IsLinked v → IsLinked w
unfolding on_connect on_frame on_event on_client_close
step-IsLinked (connected c tenant w e) h = connect-Linked c tenant w.listeners w.clients e h
step-IsLinked (framed o ctx f w) h =
    frame_from-IsLinked o ctx f (lookup ctx.client w.clients) w refl h
step-IsLinked (happened o e w) h = heard_by-IsLinked o (heard o e) w h
step-IsLinked (closed c w) h = left_by-IsLinked c (lookup c w.clients) w refl h
step-IsLinked (elsewhere x w) h = h

-- If each subscription of a client has one listener on each of its channels and there is no other
-- listener, as where nobody is connected, this stays so over any history of connections, frames,
-- events and closes, in any order and with anything else that happens in between.
pub reached-IsLinked : {v w : World} → Steps v w → IsLinked v → IsLinked w
reached-IsLinked (stay w) h = h
reached-IsLinked (next s r) h = reached-IsLinked r (step-IsLinked s h)
