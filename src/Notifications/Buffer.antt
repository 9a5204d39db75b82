-- ===== src/Notifications/Buffer.antt =====
-- The refused arrivals that wait for the mail of their region.
use bookflow_ai_apps.Prelude.{
  ℕ, ◌≡◌, ◌+◌, refl, sym, subst, Bool, true, false, not, Option, none, some, List, [], ◌∷◌, ◌++◌,
  ◌==◌, All, Bool-cases, inl, inr, arith, length, any_of, if◌then◌else◌,
}
use bookflow_ai_apps.Sql.{rows_where}
use bookflow_ai_apps.Auth.{AuthContext}
use bookflow_ai_apps.Notifications.Recipients.{EventType, Payload, number, inbound_rejected}
use bookflow_ai_apps.Notifications.{
  Settings, SendStatus, buffered, sent, failed, Digest, LogRow, Hub, Fate, SendRequest,
  check_and_set_dedup, post_logic_apps, buffer_rejected, post_once, dispatch, send,
  get_logic_apps_url, publish, Channel, event_channel, is_for, is_live, is_success, take_buffer,
  post_digest, flush, Step, wait, serve, turn, run,
}

abbrev one_if : SendStatus → ℕ
one_if buffered = 1
one_if _ = 0

-- The arrivals that were answered BUFFERED, and those that a mail has reported.
abbrev pub accepted : List LogRow → ℕ
accepted [] = 0
accepted (r ∷ rs) = one_if r.status + accepted rs

abbrev pub reported : List Digest → ℕ
reported [] = 0
reported (d ∷ ds) = d.n + reported ds

-- Every accepted arrival has been reported or still waits.
abbrev pub IsAccounted : Hub → Type 0
IsAccounted h = reported h.digests + length h.buffered ≡ accepted h.log

length-append_one : {A : Type 0} (xs : List A) (x : A) → length (xs ++ x ∷ []) ≡ length xs + 1
length-append_one [] x = refl
length-append_one (y ∷ ys) x = let ih = length-append_one ys x in omega arith

accepted-append :
    (xs : List LogRow) (x : LogRow) → accepted (xs ++ x ∷ []) ≡ accepted xs + one_if x.status
accepted-append [] x = omega arith
accepted-append (y ∷ ys) x = let ih = accepted-append ys x in omega arith

reported-append : (xs : List Digest) (x : Digest) → reported (xs ++ x ∷ []) ≡ reported xs + x.n
reported-append [] x = omega arith
reported-append (y ∷ ys) x = let ih = reported-append ys x in omega arith

length-parts :
    {A : Type 0} (p : A → Bool) (xs : List A)
    → length (rows_where p xs) + length (rows_where (λ x. not (p x)) xs) ≡ length xs
unfolding rows_where
length-parts p [] = refl
length-parts p (x ∷ xs) =
    let ih = length-parts p xs in
    elim (Bool-cases (p x)) [ inl t ↦ rw t (omega arith) | inr f ↦ rw f (omega arith) ]

-- A way of a message adds to the buffers exactly what it answers BUFFERED.
abbrev IsEntered : Hub → SendStatus × Hub → Type 0
IsEntered h r =
    (r.1.digests ≡ h.digests)
    × (r.1.log ≡ h.log)
    × (length r.1.buffered ≡ length h.buffered + one_if r.0)

buffer_rejected-IsEntered :
    (up : Bool) (p : Payload) (h : Hub) → IsEntered h (buffer_rejected up p h)
unfolding buffer_rejected
buffer_rejected-IsEntered true p h = (refl, refl, length-append_one h.buffered _)
buffer_rejected-IsEntered false p h = (refl, refl, omega arith)

-- The key of a message is no row.
abbrev SameRows : Hub → Hub → Type 0
SameRows h h' = (h'.digests ≡ h.digests) × (h'.log ≡ h.log) × (h'.buffered ≡ h.buffered)

check_and_set_dedup-SameRows :
    (up : Bool) (e : EventType) (id : Option ℕ) (h : Hub)
    → SameRows h (check_and_set_dedup up e id h).1
unfolding check_and_set_dedup
check_and_set_dedup-SameRows up e none h = (refl, refl, refl)
check_and_set_dedup-SameRows false e (some id) h = (refl, refl, refl)
check_and_set_dedup-SameRows true e (some id) h =
    elim (Bool-cases (any_of (is_live e id h.now) h.keys)) [
      | inl t ↦ rw t (refl, refl, refl)
      | inr n ↦ rw n (refl, refl, refl)
    ]

answer_counts : (b : Bool) → one_if (if b then sent else failed) ≡ 0
answer_counts true = refl
answer_counts false = refl

post_once-IsEntered :
    (s : Settings) (f : Fate) (e : EventType) (p : Payload) (id : Option ℕ) (h : Hub)
    → IsEntered h (post_once s f e p id h)
unfolding post_once post_logic_apps
post_once-IsEntered s f e p id h =
    let (digests, log, waiting) = check_and_set_dedup-SameRows f.redis_up e id h in
    elim (Bool-cases (check_and_set_dedup f.redis_up e id h).0) [
      | inl t ↦ rw t (digests, log, rw waiting (omega arith))
      | inr n ↦ rw n (digests, log, rw (waiting, answer_counts (is_success f.answer)) (omega arith))
    ]

dispatch-IsEntered :
    (s : Settings) (f : Fate) (req : SendRequest) (h : Hub) → IsEntered h (dispatch s f req h)
unfolding dispatch
dispatch-IsEntered s f req h =
    elim (Bool-cases (number req.event_type == number inbound_rejected)) [
      | inl t ↦ rw t (buffer_rejected-IsEntered f.redis_up req.payload_summary h)
      | inr n ↦ elim (Bool-cases (get_logic_apps_url s req.event_type)) [
        | inl t ↦
            rw (n, t)
              (post_once-IsEntered s f req.event_type req.payload_summary req.correlation_id h)
        | inr m ↦ rw (n, m) (refl, refl, omega arith)
      ]
    ]

publish-IsAccounted :
    (c : Option Channel) (up : Bool) (id : ℕ) (h : Hub)
    → IsAccounted h
    → IsAccounted (publish c up id h)
publish-IsAccounted none up id h a = a
publish-IsAccounted (some c) true id h a = a
publish-IsAccounted (some c) false id h a = a

send-IsAccounted :
    (s : Settings) (f : Fate) (uuid : ℕ) (req : SendRequest) (ctx : AuthContext) (h : Hub)
    → IsAccounted h
    → IsAccounted (send s f uuid req ctx h).1
unfolding send
send-IsAccounted s f uuid req ctx h a =
    let (digests, log, waiting) = dispatch-IsEntered s f req h in
    publish-IsAccounted (event_channel req.event_type) f.publish_up uuid _
      (rw (digests, waiting, log, accepted-append h.log _) (omega arith))

post_digest-IsAccounted :
    (s : Settings) (wh : Option ℕ) (h : Hub)
    → get_logic_apps_url s inbound_rejected ≡ true
    → IsAccounted h
    → IsAccounted (post_digest s wh (length (rows_where (is_for wh) h.buffered)) (take_buffer wh h))
post_digest-IsAccounted s wh h url a =
    let parts = length-parts (is_for wh) h.buffered in
    rw (url, reported-append h.digests _) (omega arith)

flush-next :
    (s : Settings) (raises : Option ℕ → Bool) (wh : Option ℕ) (whs : List (Option ℕ)) (h : Hub)
    → get_logic_apps_url s inbound_rejected ≡ true
    → raises wh ≡ false
    → let n = length (rows_where (is_for wh) h.buffered) in
      (n == 0) ≡ false
      → flush s raises (wh ∷ whs) h ≡ flush s raises whs (post_digest s wh n (take_buffer wh h))
unfolding flush
flush-next s raises wh whs h url ok n = rw (n, url, ok) refl

flush-IsAccounted :
    (s : Settings) (raises : Option ℕ → Bool) (whs : List (Option ℕ)) (h : Hub)
    → get_logic_apps_url s inbound_rejected ≡ true
    → ((wh : Option ℕ) → raises wh ≡ false)
    → IsAccounted h
    → IsAccounted (flush s raises whs h)
unfolding flush
flush-IsAccounted s raises [] h url ok a = a
flush-IsAccounted s raises (wh ∷ whs) h url ok a =
    elim (Bool-cases (length (rows_where (is_for wh) h.buffered) == 0)) [
      | inl t ↦ rw t (flush-IsAccounted s raises whs h url ok a)
      | inr n ↦
          subst IsAccounted (sym (flush-next s raises wh whs h url (ok wh) n))
            (flush-IsAccounted s raises whs _ url ok (post_digest-IsAccounted s wh h url a))
    ]

-- A turn of the loop reaches Logic Apps for every region.
abbrev pub Reaches : Step → Type 0
Reaches (turn raises whs) = (wh : Option ℕ) → raises wh ≡ false
Reaches _ = Unit

-- Over any sequence of messages, waits and turns of the loop, none of which fails to reach Logic
-- Apps, with a URL for the mail, this is kept: the refused arrivals that were answered BUFFERED
-- are as many as those that the mails count and those that wait together.
pub run-IsAccounted :
    (s : Settings) (steps : List Step) (h : Hub)
    → get_logic_apps_url s inbound_rejected ≡ true
    → All Reaches steps
    → IsAccounted h
    → IsAccounted (run s steps h)
unfolding run
run-IsAccounted s [] h url ok a = a
run-IsAccounted s (wait n ∷ rest) h url (ok, oks) a = run-IsAccounted s rest _ url oks a
run-IsAccounted s (serve f uuid req ctx ∷ rest) h url (ok, oks) a =
    run-IsAccounted s rest _ url oks (send-IsAccounted s f uuid req ctx h a)
run-IsAccounted s (turn raises whs ∷ rest) h url (ok, oks) a =
    run-IsAccounted s rest _ url oks (flush-IsAccounted s raises whs h url ok a)
