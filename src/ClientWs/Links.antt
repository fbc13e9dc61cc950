-- ===== src/ClientWs/Links.antt =====
-- packages/orchestrator/src/client-ws.ts: the listeners are those of the subscriptions.
use claude_agent_runner.Common.{
  ℕ, ◌≡◌, refl, sym, ap, ◌∙◌, suc, inl, inr, Option, none, some, Bool, true, false, ◌&&◌, List, [],
  ◌∷◌, if◌then◌else◌, ◌==◌, ==_iff, count, Bool-cases,
}
use claude_agent_runner.Common.Dict.{lookup}
use claude_agent_runner.ClientWs.{
  Channel, status_channel, event_channel, error_channel, context_channel, permission_channel, code,
  Listener, Client, World, is_listener, off, off_all, cleanup, attached, has_subscription,
}

abbrev pub subscribed_by : ℕ → Option Client → Bool
subscribed_by s none = false
subscribed_by s (some k) = has_subscription s k

abbrev pub is_subscribed : ℕ → ℕ → World → Bool
is_subscribed c s w = subscribed_by s (lookup c w.clients)

abbrev pub one_if : Bool → ℕ
one_if true = 1
one_if false = 0

-- On each channel a subscription has one listener, and there is no other.
abbrev pub Linked : List Listener → List (ℕ × Client) → Type 0
Linked ls cs =
    (ch : Channel) (c s : ℕ)
    → count (is_listener ch s c) ls ≡ one_if (subscribed_by s (lookup c cs))

abbrev pub IsLinked : World → Type 0
IsLinked w = Linked w.listeners w.clients

pub and_true : (p q : Bool) → (p && q) ≡ true → (p ≡ true) × (q ≡ true)
and_true true q h = (refl, h)
and_true false q h = cc

-- The same channel, session and client.
abbrev same_link : Channel → ℕ → ℕ → Channel → ℕ → ℕ → Bool
same_link ch s c dh t d = code ch == code dh && (s == t && c == d)

pub equal_of : (x y : ℕ) → (x == y) ≡ true → x ≡ y
equal_of x y h = (==_iff x y).0 h

is_listener_of_same :
    (ch dh : Channel) (s c t d : ℕ) (l : Listener)
    → same_link ch s c dh t d ≡ true
    → is_listener ch s c l ≡ is_listener dh t d l
is_listener_of_same ch dh s c t d l h =
    let (e, r) = and_true (code ch == code dh) (s == t && c == d) h in
    let (f, g) = and_true (s == t) (c == d) r in
    rw (equal_of (code ch) (code dh) e, equal_of s t f, equal_of c d g) refl

is_listener_of_both :
    (ch dh : Channel) (s c t d : ℕ) (l : Listener)
    → is_listener ch s c l ≡ true
    → is_listener dh t d l ≡ same_link ch s c dh t d
is_listener_of_both ch dh s c t d l h =
    let (e, r) = and_true (code l.channel == code ch) (l.session == s && l.client == c) h in
    let (f, g) = and_true (l.session == s) (l.client == c) r in
    rw
      (
        sym (equal_of (code l.channel) (code ch) e),
        sym (equal_of l.session s f),
        sym (equal_of l.client c g),
      )
      refl

abbrev pub count_unless : Bool → ℕ → ℕ
count_unless true n = 0
count_unless false n = n

dropped_count : (u : Bool) (n : ℕ) → count_unless u n ≡ count_unless u (if u then suc n else n)
dropped_count true n = refl
dropped_count false n = refl

kept_count :
    (u p : Bool) (m n : ℕ)
    → (u ≡ true → p ≡ false)
    → m ≡ count_unless u n
    → (if p then suc m else m) ≡ count_unless u (if p then suc n else n)
kept_count true true m n k e = let bad : true ≡ false = k refl in cc
kept_count true false m n k e = e
kept_count false true m n k e = ap suc e
kept_count false false m n k e = e

count-off :
    (ch dh : Channel) (s c t d : ℕ) (ls : List Listener)
    → count (is_listener dh t d) (off ch s c ls)
      ≡ count_unless (same_link ch s c dh t d) (count (is_listener dh t d) ls)
unfolding off
count-off ch dh s c t d [] = elim (Bool-cases (same_link ch s c dh t d)) [
  | inl e ↦ rw e refl
  | inr e ↦ rw e refl
]
count-off ch dh s c t d (l ∷ ls) = elim (Bool-cases (is_listener ch s c l)) [
  | inl e ↦
      rw (e, is_listener_of_both ch dh s c t d l e, count-off ch dh s c t d ls)
        (dropped_count (same_link ch s c dh t d) (count (is_listener dh t d) ls))
  | inr e ↦ rw e (
      kept_count (same_link ch s c dh t d) (is_listener dh t d l)
        (count (is_listener dh t d) (off ch s c ls)) (count (is_listener dh t d) ls)
        (λ u. sym (is_listener_of_same ch dh s c t d l u) ∙ e) (count-off ch dh s c t d ls))
]

-- The cleanup of a subscription takes its listeners away, and no other.
pub count-cleanup :
    (dh : Channel) (s c t d : ℕ) (ls : List Listener)
    → count (is_listener dh t d) (cleanup s c ls)
      ≡ count_unless (s == t && c == d) (count (is_listener dh t d) ls)
unfolding off_all
count-cleanup dh s c t d ls =
    let e0 = off status_channel s c ls in
    let e1 = off event_channel s c e0 in
    let e2 = off error_channel s c e1 in
    let e3 = off context_channel s c e2 in
    go dh (count (is_listener dh t d) ls) (count-off permission_channel dh s c t d e3)
      (count-off context_channel dh s c t d e2) (count-off error_channel dh s c t d e1)
      (count-off event_channel dh s c t d e0) (count-off status_channel dh s c t d ls)
  where
    go :
        {e n4 n3 n2 n1 : ℕ} (dh : Channel) (n0 : ℕ)
        → e ≡ count_unless (same_link permission_channel s c dh t d) n4
        → n4 ≡ count_unless (same_link context_channel s c dh t d) n3
        → n3 ≡ count_unless (same_link error_channel s c dh t d) n2
        → n2 ≡ count_unless (same_link event_channel s c dh t d) n1
        → n1 ≡ count_unless (same_link status_channel s c dh t d) n0
        → e ≡ count_unless (s == t && c == d) n0
    go status_channel n a b f g h = a ∙ b ∙ f ∙ g ∙ h
    go event_channel n a b f g h = a ∙ b ∙ f ∙ g ∙ ap (count_unless (s == t && c == d)) h
    go error_channel n a b f g h = a ∙ b ∙ f ∙ ap (count_unless (s == t && c == d)) (g ∙ h)
    go context_channel n a b f g h = a ∙ b ∙ ap (count_unless (s == t && c == d)) (f ∙ g ∙ h)
    go permission_channel n a b f g h = a ∙ ap (count_unless (s == t && c == d)) (b ∙ f ∙ g ∙ h)

pub count-attached :
    (dh : Channel) (s c t d : ℕ)
    → count (is_listener dh t d) (attached s c) ≡ one_if (s == t && c == d)
count-attached dh s c t d = elim (Bool-cases (s == t && c == d)) [
  | inl e ↦ go dh true e
  | inr e ↦ go dh false e
]
  where
    go :
        (dh : Channel) (b : Bool)
        → (s == t && c == d) ≡ b
        → count (is_listener dh t d) (attached s c) ≡ one_if (s == t && c == d)
    go status_channel true e = rw e refl
    go event_channel true e = rw e refl
    go error_channel true e = rw e refl
    go context_channel true e = rw e refl
    go permission_channel true e = rw e refl
    go status_channel false e = rw e refl
    go event_channel false e = rw e refl
    go error_channel false e = rw e refl
    go context_channel false e = rw e refl
    go permission_channel false e = rw e refl
