-- ===== src/Notifications/Spacing.antt =====
-- How often a message is posted.
use bookflow_ai_apps.Prelude.{
  ℕ, ◌≡◌, ◌≤◌, ◌+◌, refl, Bool, true, false, ◌&&◌, Option, none, some, List, [], ◌∷◌, subst, ◌==◌,
  leb, any_of, All, All-map, Bool-cases, length, inl, inr, arith,
}
use bookflow_ai_apps.Sql.{rows_where}
use bookflow_ai_apps.Auth.{AuthContext}
use bookflow_ai_apps.Notifications.Recipients.{EventType, Payload, number, inbound_rejected}
use bookflow_ai_apps.Notifications.{
  Settings, DedupKey, Post, Hub, Fate, SendRequest, is_live, check_and_set_dedup, post_logic_apps,
  buffer_rejected, post_once, dispatch, send, Step, wait, serve, turn, run, flush, is_for,
  get_logic_apps_url, publish, Channel, event_channel,
}

-- The message of a post is that of a key or of another post: one event, and one correlation.
abbrev is_about : EventType → ℕ → Option ℕ → Post → Bool
is_about e id none q = false
is_about e id (some c) q = number q.event == number e && c == id

abbrev pub same_message : Post → Post → Bool
same_message p q = about p.correlation
  where
    about : Option ℕ → Bool
    about none = false
    about (some id) = is_about p.event id q.correlation q

-- The posts of a message are 300 seconds apart.
abbrev pub Apart : List Post → Type 0
Apart [] = Unit
Apart (p ∷ ps) = All (λ q. same_message p q ≡ true → q.at + 300 ≤ p.at) ps × Apart ps

abbrev covers : ℕ → EventType → ℕ → DedupKey → Bool
covers at e id k = number k.event == number e && k.correlation == id && leb at k.set_at

abbrev has_key : List DedupKey → Post → Option ℕ → Bool
has_key ks q none = true
has_key ks q (some id) = any_of (covers q.at q.event id) ks

-- Each post has set its key, or found it younger.
pub record IsSpaced (h : Hub) : Type 0 where
  pub apart : Apart h.posts
  pub keyed : All (λ q. has_key h.keys q q.correlation ≡ true) h.posts

not_live :
    (ks : List DedupKey) (e e' : EventType) (id at now : ℕ)
    → any_of (is_live e id now) ks ≡ false
    → any_of (covers at e' id) ks ≡ true
    → (number e' == number e) ≡ true
    → at + 300 ≤ now
not_live [] e e' id at now live cov same = cc
not_live (k ∷ ks) e e' id at now live cov same = ground (arith, not_live ks e e' id at now)

-- A new post of a message whose key has run out.
later :
    (ks : List DedupKey) (e : EventType) (q : Post) (id now : ℕ)
    → any_of (is_live e id now) ks ≡ false
    → (o : Option ℕ) → has_key ks q o ≡ true
    → is_about e id o q ≡ true
    → q.at + 300 ≤ now
later ks e q id now live none key about = cc
later ks e q id now live (some c) key about =
    let same : c ≡ id = ground arith in
    let cov = subst (λ i. any_of (covers q.at q.event i) ks ≡ true) same key in
    not_live ks e q.event id q.at now live cov (ground arith)

still_keyed :
    (k : DedupKey) (ks : List DedupKey) (q : Post) (o : Option ℕ)
    → has_key ks q o ≡ true
    → has_key (k ∷ ks) q o ≡ true
still_keyed k ks q none h = refl
still_keyed k ks q (some c) h = ground arith

post_once-IsSpaced :
    (s : Settings) (f : Fate) (e : EventType) (p : Payload) (id : Option ℕ) (h : Hub)
    → f.redis_up ≡ true
    → IsSpaced h
    → IsSpaced (post_once s f e p id h).1
unfolding post_once check_and_set_dedup post_logic_apps
post_once-IsSpaced s f e p none h up sp = record {
  apart = (All-map h.posts (λ q key same. cc) sp.keyed, sp.apart);
  keyed = (refl, sp.keyed);
}
post_once-IsSpaced s f e p (some id) h up sp =
    elim (Bool-cases (any_of (is_live e id h.now) h.keys)) [
      | inl t ↦ rw (up, t) sp
      | inr n ↦
          rw (up, n)
            (record {
              apart = (
                All-map h.posts (λ q key same. later h.keys e q id h.now n q.correlation key same)
                    sp.keyed,
                sp.apart,
              );
              keyed = (
                ground arith,
                All-map h.posts (λ q key. still_keyed _ h.keys q q.correlation key) sp.keyed,
              );
            })
    ]

dispatch-IsSpaced :
    (s : Settings) (f : Fate) (req : SendRequest) (h : Hub)
    → f.redis_up ≡ true
    → IsSpaced h
    → IsSpaced (dispatch s f req h).1
unfolding dispatch buffer_rejected
dispatch-IsSpaced s f req h up sp =
    elim (Bool-cases (number req.event_type == number inbound_rejected)) [
      | inl t ↦ rw (t, up) (record { apart = sp.apart; keyed = sp.keyed })
      | inr n ↦ elim (Bool-cases (get_logic_apps_url s req.event_type)) [
        | inl t ↦
            rw (n, t)
              (post_once-IsSpaced s f req.event_type req.payload_summary req.correlation_id h up sp)
        | inr m ↦ rw (n, m) sp
      ]
    ]

publish-IsSpaced :
    (c : Option Channel) (up : Bool) (id : ℕ) (h : Hub) → IsSpaced h → IsSpaced (publish c up id h)
publish-IsSpaced none up id h sp = sp
publish-IsSpaced (some c) true id h sp = record { apart = sp.apart; keyed = sp.keyed }
publish-IsSpaced (some c) false id h sp = sp

send-IsSpaced :
    (s : Settings) (f : Fate) (uuid : ℕ) (req : SendRequest) (ctx : AuthContext) (h : Hub)
    → f.redis_up ≡ true
    → IsSpaced h
    → IsSpaced (send s f uuid req ctx h).1
unfolding send
send-IsSpaced s f uuid req ctx h up sp =
    let done = dispatch-IsSpaced s f req h up sp in
    publish-IsSpaced (event_channel req.event_type) f.publish_up uuid _
      (record { apart = done.apart; keyed = done.keyed })

flush-IsSpaced :
    (s : Settings) (raises : Option ℕ → Bool) (whs : List (Option ℕ)) (h : Hub)
    → IsSpaced h
    → IsSpaced (flush s raises whs h)
unfolding flush
flush-IsSpaced s raises [] h sp = sp
flush-IsSpaced s raises (wh ∷ whs) h sp =
    elim (Bool-cases (length (rows_where (is_for wh) h.buffered) == 0)) [
      | inl t ↦ rw t (flush-IsSpaced s raises whs h sp)
      | inr n ↦ elim (Bool-cases (get_logic_apps_url s inbound_rejected)) [
        | inl u ↦ elim (Bool-cases (raises wh)) [
          | inl r ↦ rw (n, u, r) (record { apart = sp.apart; keyed = sp.keyed })
          | inr r ↦
              rw (n, u, r)
                (flush-IsSpaced s raises whs _ (record { apart = sp.apart; keyed = sp.keyed }))
        ]
        | inr u ↦
            rw (n, u)
              (flush-IsSpaced s raises whs _ (record { apart = sp.apart; keyed = sp.keyed }))
      ]
    ]

-- Redis answers this step, if it asks.
abbrev Answers : Step → Type 0
Answers (wait n) = Unit
Answers (serve f uuid req ctx) = f.redis_up ≡ true
Answers (turn raises whs) = Unit

run-IsSpaced :
    (s : Settings) (steps : List Step) (h : Hub)
    → All Answers steps
    → IsSpaced h
    → IsSpaced (run s steps h)
unfolding run
run-IsSpaced s [] h ok sp = sp
run-IsSpaced s (wait n ∷ rest) h (ok, oks) sp =
    run-IsSpaced s rest _ oks (record { apart = sp.apart; keyed = sp.keyed })
run-IsSpaced s (serve f uuid req ctx ∷ rest) h (ok, oks) sp =
    run-IsSpaced s rest _ oks (send-IsSpaced s f uuid req ctx h ok sp)
run-IsSpaced s (turn raises whs ∷ rest) h (ok, oks) sp =
    run-IsSpaced s rest _ oks (flush-IsSpaced s raises whs h sp)

-- Over any sequence of messages, waits and turns of the loop in which Redis answers the messages,
-- from a hub that has posted nothing, two posts of one event and one correlation are at least 300
-- seconds apart.
pub run-Apart :
    (s : Settings) (steps : List Step) (h : Hub)
    → All Answers steps
    → h.posts ≡ []
    → Apart (run s steps h).posts
run-Apart s steps h ok e =
    let start : IsSpaced h = record { apart = rw e tt; keyed = rw e tt } in
    (run-IsSpaced s steps h ok start).apart
