-- ===== src/Notifications.antt =====
-- The notices of the services: eks-pods/notification-svc/src/routes/notification.py and the loop of
-- eks-pods/notification-svc/src/main.py, over the table `notifications_log`, Redis, and the workflows of
-- Logic Apps, which send the mails.
pub mod Texts
pub mod Recipients
pub mod Addresses
pub mod Spacing
pub mod Retries
pub mod Buffer
use bookflow_ai_apps.Prelude.{
  ℕ, ◌+◌, Bool, true, false, ◌&&◌, ◌||◌, not, Option, none, some, List, [], ◌∷◌, ◌++◌, ◌==◌, map,
  ltb, leb, opt_eq, is_some, if◌then◌else◌, any_of, length,
}
use bookflow_ai_apps.Sql.{rows_where}
use bookflow_ai_apps.Exec.{http, Exec, pure, raise, gets, ◌>>=◌, ◌>>◌, modify, raise_if}
use bookflow_ai_apps.Auth.{AuthContext, is_clerk}
use bookflow_ai_apps.Notifications.Recipients.{
  EventType, order_pending, order_approved, order_rejected, auto_executed_urgent,
  auto_rejected_batch, spike_urgent, stock_depart_pending, stock_arrival_pending, new_book_request,
  return_pending, daily_plan_finalized, inbound_rejected, forecast_completed, branch_feedback,
  goods_display_campaign, number, Payload, no_payload, Contacts, Recipient, get_recipients,
}

pub data Channel : Type 0 where
  pending approved dispatched rejected spike newbook : Channel

-- EVENT_CHANNEL, for the events that a request can name.
abbrev pub event_channel : EventType → Option Channel
event_channel order_pending = some pending
event_channel order_approved = some approved
event_channel order_rejected = some rejected
event_channel auto_executed_urgent = some dispatched
event_channel auto_rejected_batch = some rejected
event_channel spike_urgent = some spike
event_channel stock_depart_pending = some dispatched
event_channel stock_arrival_pending = some dispatched
event_channel new_book_request = some newbook
event_channel return_pending = some pending
event_channel _ = none

pub data Workflow : Type 0 where
  notification approval_request stock_depart stock_arrival : Workflow

-- _EVENT_LOGIC_APPS
abbrev pub event_logic_apps : EventType → Option Workflow
event_logic_apps forecast_completed = some approval_request
event_logic_apps order_pending = some approval_request
event_logic_apps daily_plan_finalized = some notification
event_logic_apps spike_urgent = some notification
event_logic_apps inbound_rejected = some notification
event_logic_apps stock_depart_pending = some stock_depart
event_logic_apps stock_arrival_pending = some stock_arrival
event_logic_apps new_book_request = some notification
event_logic_apps goods_display_campaign = some notification
event_logic_apps _ = none

-- The settings: whether the URL of a workflow is more than blanks, and who is written to.
pub record Settings : Type 0 where
  pub has_url : Workflow → Bool
  pub contacts : Contacts

abbrev url_of : Settings → Option Workflow → Bool
url_of s none = false
url_of s (some flow) = s.has_url flow

-- `_get_logic_apps_url`, and whether it gives one.
unfoldable pub get_logic_apps_url : Settings → EventType → Bool
get_logic_apps_url s e = url_of s (event_logic_apps e)

-- A key `notif:dedup:{event_type}:{correlation_id}`, which lives for 300 seconds.
pub record DedupKey : Type 0 where
  pub event : EventType
  pub correlation : ℕ
  pub set_at : ℕ

-- What was posted to Logic Apps, whether it answered or not.
pub record Post : Type 0 where
  pub event : EventType
  pub correlation : Option ℕ
  pub at : ℕ
  pub recipients : List Recipient

pub data SendStatus : Type 0 where
  buffered sent failed dedup skipped : SendStatus

pub record LogRow : Type 0 where
  pub notification_id : ℕ
  pub event : EventType
  pub correlation : Option ℕ
  pub status : SendStatus
  pub sent_at : ℕ

-- The mail about refused arrivals of a region: how many there were.
pub record Digest : Type 0 where
  pub warehouse_id : ℕ
  pub n : ℕ
  pub recipients : List Recipient

-- The keys and the posts stand the latest first. A buffer is the part of `buffered` for its warehouse.
-- The rows of `audit_log` name the user.
pub record Hub : Type 0 where
  pub keys : List DedupKey
  pub buffered : List (Option ℕ × Payload)
  pub posts : List Post
  pub digests : List Digest
  pub log : List LogRow
  pub audit : List (ℕ × ℕ × SendStatus)
  pub published : List (Channel × ℕ)
  pub now : ℕ

-- What a request meets: whether Redis answers at first and when it publishes, and what Logic Apps
-- answers, if it does.
pub record Fate : Type 0 where
  pub redis_up : Bool
  pub publish_up : Bool
  pub answer : Option ℕ

pub record SendRequest : Type 0 where
  pub event_type : EventType
  pub payload_summary : Payload
  pub correlation_id : Option ℕ

abbrev pub dedup_ttl : ℕ
dedup_ttl = 300

abbrev pub is_live : EventType → ℕ → ℕ → DedupKey → Bool
is_live e id now k =
    number k.event == number e && k.correlation == id && ltb now (k.set_at + dedup_ttl)

-- `_check_and_set_dedup`, which lets a message pass when Redis does not answer.
unfoldable pub check_and_set_dedup : Bool → EventType → Option ℕ → Hub → Bool × Hub
check_and_set_dedup up e none h = (false, h)
check_and_set_dedup false e (some id) h = (false, h)
check_and_set_dedup true e (some id) h = if any_of (is_live e id h.now) h.keys then (true, h) else (
  false,
  record h { keys = record { event = e; correlation = id; set_at = h.now } ∷ h.keys },
)

-- `200 <= r.status_code < 300`
abbrev pub is_success : Option ℕ → Bool
is_success none = false
is_success (some code) = leb 200 code && ltb code 300

-- `_post_logic_apps`, for an event that has a URL.
unfoldable pub post_logic_apps :
    Settings → Option ℕ → EventType → Payload → Option ℕ → Hub → SendStatus × Hub
post_logic_apps s answer e p id h = (
  if is_success answer then sent else failed,
  record h {
    posts =
        record {
          event = e;
          correlation = id;
          at = h.now;
          recipients = get_recipients s.contacts e p;
        }
        ∷ h.posts;
  },
)

-- The end of a buffer's key: 0 where the field is absent, and `None` where it is null.
abbrev pub buffer_key : Option (Option ℕ) → Option ℕ
buffer_key none = some 0
buffer_key (some wh) = wh

-- `int(wh_id_str) if wh_id_str.isdigit() else 0`
abbrev pub or_zero : Option ℕ → ℕ
or_zero none = 0
or_zero (some n) = n

-- A refused arrival waits for the mail of its region.
unfoldable pub buffer_rejected : Bool → Payload → Hub → SendStatus × Hub
buffer_rejected false p h = (failed, h)
buffer_rejected true p h =
    (buffered, record h { buffered = h.buffered ++ (buffer_key p.target_wh_id, p) ∷ [] })

unfoldable pub post_once : Settings → Fate → EventType → Payload → Option ℕ → Hub → SendStatus × Hub
post_once s f e p id h =
    let (again, h') = check_and_set_dedup f.redis_up e id h in
    if again then (dedup, h') else post_logic_apps s f.answer e p id h'

-- The three ways of a message.
unfoldable pub dispatch : Settings → Fate → SendRequest → Hub → SendStatus × Hub
dispatch s f req h =
    if number req.event_type == number inbound_rejected
    then buffer_rejected f.redis_up req.payload_summary h
    else if get_logic_apps_url s req.event_type
    then post_once s f req.event_type req.payload_summary req.correlation_id h
    else (skipped, h)

abbrev pub publish : Option Channel → Bool → ℕ → Hub → Hub
publish (some c) true id h = record h { published = h.published ++ (c, id) ∷ [] }
publish _ _ id h = h

-- POST /notification/send, with the id that `uuid4` gave, over a database that answers.
unfoldable pub send : Settings → Fate → ℕ → SendRequest → AuthContext → Hub → SendStatus × Hub
send s f uuid req ctx h =
    let (status, h1) = dispatch s f req h in
    let row : LogRow = record {
      notification_id = uuid;
      event = req.event_type;
      correlation = req.correlation_id;
      status = status;
      sent_at = h1.now;
    } in
    let h2 : Hub = record h1 {
      log = h1.log ++ row ∷ [];
      audit = h1.audit ++ (ctx.user_id, uuid, status) ∷ [];
    } in
    (status, publish (event_channel req.event_type) f.publish_up uuid h2)

-- POST /notification/branch-feedback
unfoldable pub branch_feedback_rows : ℕ → AuthContext → Exec Hub ℕ
branch_feedback_rows uuid ctx = do
  raise_if (not (is_clerk ctx.role)) (http 403)
  raise_if (not (is_some ctx.scope_store_id)) (http 403)
  modify (λ h. record h {
    log =
        h.log
        ++ record {
          notification_id = uuid;
          event = branch_feedback;
          correlation = none;
          status = sent;
          sent_at = h.now;
        }
          ∷ [];
  })
  pure uuid

-- `_flush_inbound_rejected`, one turn over the keys that Redis lists. A post that raises ends the turn.
abbrev pub is_for : Option ℕ → Option ℕ × Payload → Bool
is_for wh item = opt_eq item.0 wh

abbrev pub take_buffer : Option ℕ → Hub → Hub
take_buffer wh h = record h { buffered = rows_where (λ i. not (is_for wh i)) h.buffered }

abbrev pub post_digest : Settings → Option ℕ → ℕ → Hub → Hub
post_digest s wh n h =
    let digest : Digest = record {
      warehouse_id = or_zero wh;
      n = n;
      recipients =
          get_recipients s.contacts inbound_rejected
            (record no_payload { target_wh_id = some (some (or_zero wh)) });
    } in
    if get_logic_apps_url s inbound_rejected
    then record h { digests = h.digests ++ digest ∷ [] }
    else h

unfoldable pub flush : Settings → (Option ℕ → Bool) → List (Option ℕ) → Hub → Hub
flush s raises [] h = h
flush s raises (wh ∷ whs) h =
    let n = length (rows_where (is_for wh) h.buffered) in
    let h' = take_buffer wh h in
    let skip = flush s raises whs h in
    let next = flush s raises whs (post_digest s wh n h') in
    if n == 0 then skip else if get_logic_apps_url s inbound_rejected && raises wh then h' else next

pub data Step : Type 0 where
  wait : ℕ → Step
  serve : Fate → ℕ → SendRequest → AuthContext → Step
  turn : (Option ℕ → Bool) → List (Option ℕ) → Step

unfoldable pub run : Settings → List Step → Hub → Hub
run s [] h = h
run s (wait n ∷ rest) h = run s rest (record h { now = h.now + n })
run s (serve f uuid req ctx ∷ rest) h = run s rest (send s f uuid req ctx h).1
run s (turn raises whs ∷ rest) h = run s rest (flush s raises whs h)
