-- ===== src/Notifications/Retries.antt =====
-- What becomes of a message that Logic Apps did not take.
use bookflow_ai_apps.Prelude.{
  ℕ, ◌≡◌, ◌<◌, ◌+◌, refl, sym, ap, ◌∙◌, Bool, true, false, Option, none, some, ◌==◌, any_of,
  Bool-cases, inl, inr, arith,
}
use bookflow_ai_apps.Auth.{AuthContext}
use bookflow_ai_apps.Notifications.Recipients.{EventType, Payload, number, inbound_rejected}
use bookflow_ai_apps.Notifications.{
  Settings, failed, dedup, Hub, Fate, SendRequest, is_live, check_and_set_dedup, post_logic_apps,
  buffer_rejected, post_once, dispatch, send, get_logic_apps_url, publish, Channel, event_channel,
}

-- A message that can be told again.
abbrev pub message : EventType → Payload → ℕ → SendRequest
message e p id = record { event_type = e; payload_summary = p; correlation_id = some id }

abbrev pub after : ℕ → Hub → Hub
after n h = record h { now = h.now + n }

publish-same :
    (c : Option Channel) (up : Bool) (id : ℕ) (h : Hub)
    → ((publish c up id h).keys ≡ h.keys)
      × ((publish c up id h).posts ≡ h.posts)
      × ((publish c up id h).now ≡ h.now)
publish-same none up id h = (refl, refl, refl)
publish-same (some c) true id h = (refl, refl, refl)
publish-same (some c) false id h = (refl, refl, refl)

-- What a failed message leaves behind.
record Left (s : Settings) (e : EventType) (id : ℕ) (h h' : Hub) : Type 0 where
  not_buffered : (number e == number inbound_rejected) ≡ false
  has_url : get_logic_apps_url s e ≡ true
  same_time : h'.now ≡ h.now
  has_key : (n : ℕ) → n < 300 → any_of (is_live e id (h.now + n)) h'.keys ≡ true

dispatch-Left :
    (s : Settings) (f : Fate) (e : EventType) (p : Payload) (id : ℕ) (h : Hub)
    → f.redis_up ≡ true
    → (dispatch s f (message e p id) h).0 ≡ failed
    → Left s e id h (dispatch s f (message e p id) h).1
unfolding dispatch buffer_rejected post_once check_and_set_dedup post_logic_apps
dispatch-Left s f e p id h up fails = elim (Bool-cases (number e == number inbound_rejected)) [
  | inl t ↦ let bad = rw (t, up) at fails in cc
  | inr n ↦ elim (Bool-cases (get_logic_apps_url s e)) [
    | inr m ↦ let bad = rw (n, m) at fails in cc
    | inl m ↦ elim (Bool-cases (any_of (is_live e id h.now) h.keys)) [
      | inl t ↦ let bad = rw (n, m, up, t) at fails in cc
      | inr k ↦
          rw (n, m, up, k)
            (record {
              not_buffered = n;
              has_url = m;
              same_time = refl;
              has_key = λ i lt. ground arith;
            })
    ]
  ]
]

dispatch_dedup :
    (s : Settings) (g : Fate) (e : EventType) (p : Payload) (id : ℕ) (h : Hub)
    → g.redis_up ≡ true
    → (number e == number inbound_rejected) ≡ false
    → get_logic_apps_url s e ≡ true
    → any_of (is_live e id h.now) h.keys ≡ true
    → dispatch s g (message e p id) h ≡ (dedup, h)
unfolding dispatch post_once check_and_set_dedup
dispatch_dedup s g e p id h up n m t = rw (n, m, up, t) refl

send-same :
    (s : Settings) (f : Fate) (u : ℕ) (req : SendRequest) (ctx : AuthContext) (h : Hub)
    → let sent = send s f u req ctx h in
      let done = dispatch s f req h in
      (sent.0 ≡ done.0)
      × (sent.1.keys ≡ done.1.keys)
      × (sent.1.posts ≡ done.1.posts)
      × (sent.1.now ≡ done.1.now)
unfolding send
send-same s f u req ctx h =
    let same = publish-same (event_channel req.event_type) f.publish_up u _ in
    (refl, same.0, same.1, same.2)

-- A message that Logic Apps did not take, while Redis answered, is not tried again for 300
-- seconds: when it is sent again before, it is taken for a duplicate, and nothing is posted.
pub send_again :
    (s : Settings) (f g : Fate) (u v : ℕ) (e : EventType) (p p' : Payload) (id n : ℕ)
    (ctx ctx' : AuthContext) (h : Hub)
    → f.redis_up ≡ true
    → g.redis_up ≡ true
    → (send s f u (message e p id) ctx h).0 ≡ failed
    → n < 300
    → let first = (send s f u (message e p id) ctx h).1 in
      let second = send s g v (message e p' id) ctx' (after n first) in
      (second.0 ≡ dedup) × (second.1.posts ≡ first.posts)
send_again s f g u v e p p' id n ctx ctx' h up up' fails lt =
    let first = (send s f u (message e p id) ctx h).1 in
    let (status, keys, posts, now) = send-same s f u (message e p id) ctx h in
    let left = dispatch-Left s f e p id h up (sym status ∙ fails) in
    let key : any_of (is_live e id (first.now + n)) first.keys ≡ true =
      rw (keys, now, left.same_time) (left.has_key n lt) in
    let again = dispatch_dedup s g e p' id (after n first) up' left.not_buffered left.has_url key in
    let (status', keys', posts', now') = send-same s g v (message e p' id) ctx' (after n first) in
    (status' ∙ ap (λ r. r.0) again, posts' ∙ ap (λ r. r.1.posts) again)
