-- ===== src/Notifications/Recipients.antt =====
-- Who is written to about an event: eks-pods/notification-svc/src/recipients.py.
use Prim.Native.String.{String}
use text.Mathlib.Text.{◌==◌ as str_eq}
use bookflow_ai_apps.Prelude.{
  ℕ, Bool, true, false, Option, none, some, List, [], ◌∷◌, ◌++◌, if◌then◌else◌, any_of,
}
use bookflow_ai_apps.Notifications.Texts.{is_empty, strip, split_commas}

-- The events that a request can name, in the order of the source.
pub data EventType : Type 0 where
  order_pending order_approved order_rejected : EventType
  auto_executed_urgent auto_rejected_batch spike_urgent : EventType
  stock_depart_pending stock_arrival_pending new_book_request return_pending : EventType
  daily_plan_finalized approval_delayed inbound_rejected forecast_completed : EventType
  delivery_completed lambda_alarm deployment_rollback : EventType
  new_book_submitted_to_hq new_book_accepted_to_publisher : EventType
  new_book_rejected_to_publisher new_book_display_request : EventType
  branch_feedback goods_display_campaign : EventType

-- The place of an event in that list; two events have one name exactly if they have one place.
abbrev pub number : EventType → ℕ
number order_pending = 0
number order_approved = 1
number order_rejected = 2
number auto_executed_urgent = 3
number auto_rejected_batch = 4
number spike_urgent = 5
number stock_depart_pending = 6
number stock_arrival_pending = 7
number new_book_request = 8
number return_pending = 9
number daily_plan_finalized = 10
number approval_delayed = 11
number inbound_rejected = 12
number forecast_completed = 13
number delivery_completed = 14
number lambda_alarm = 15
number deployment_rollback = 16
number new_book_submitted_to_hq = 17
number new_book_accepted_to_publisher = 18
number new_book_rejected_to_publisher = 19
number new_book_display_request = 20
number branch_feedback = 21
number goods_display_campaign = 22

pub data Stage : Type 0 where
  discovered approved rejected : Stage

-- The fields of a payload that decide about its recipients.
pub record Payload : Type 0 where
  pub target_wh_id : Option (Option ℕ)  -- absent, null, or a number
  pub target_location_id : Option ℕ
  pub target_location : Option String
  pub source_location_id : Option ℕ
  pub source_location : Option String
  pub branch_id : Option ℕ
  pub branch_name : Option String
  pub stage : Option Stage
  pub requester_email : Option String

abbrev pub no_payload : Payload
no_payload = record {
  target_wh_id = none;
  target_location_id = none;
  target_location = none;
  source_location_id = none;
  source_location = none;
  branch_id = none;
  branch_name = none;
  stage = none;
  requester_email = none;
}

pub data Display : Type 0 where
  hq wh branches publisher : Display
  named : String → Display
  keeper : ℕ → Display

pub record Recipient : Type 0 where
  pub address : String
  pub display : Display

-- The settings with the addresses; the JSON text of the locations' is decoded.
pub record Contacts : Type 0 where
  pub hq_emails : String
  pub wh_emails : String
  pub branch_emails : String
  pub location_contacts : ℕ → Option String

-- `_parse`
abbrev pub addressed : String → Display → List Recipient
addressed e display =
    if is_empty (strip e) then [] else record { address = strip e; display = display } ∷ []

unfoldable pub parse_all : List String → Display → List Recipient
parse_all [] display = []
parse_all (e ∷ es) display = addressed e display ++ parse_all es display

abbrev pub parse : String → Display → List Recipient
parse raw display = parse_all (split_commas raw) display

-- `_publisher` and `_location_recipient`, whose guards both amount to an address that is not blank.
abbrev pub addressed_if : Option String → Display → List Recipient
addressed_if none display = []
addressed_if (some e) display = addressed e display

-- `display_name or f"담당자({location_id})"`
abbrev pub display_of : Option String → ℕ → Display
display_of none id = keeper id
display_of (some name) id = if is_empty name then keeper id else named name

abbrev pub location_recipient : Contacts → Option ℕ → Option String → List Recipient
location_recipient c none name = []
location_recipient c (some id) name = addressed_if (c.location_contacts id) (display_of name id)

-- `_dedup`
unfoldable pub dedup_from : List String → List Recipient → List Recipient
dedup_from seen [] = []
dedup_from seen (r ∷ rs) =
    let skipped = dedup_from seen rs in
    let kept = r ∷ dedup_from (r.address ∷ seen) rs in
    if any_of (str_eq r.address) seen then skipped else kept

abbrev pub is_decided : Option Stage → Bool
is_decided (some approved) = true
is_decided (some rejected) = true
is_decided _ = false

abbrev pub to_hq : Contacts → List Recipient
to_hq c = parse c.hq_emails hq

abbrev pub to_wh : Contacts → List Recipient
to_wh c = parse c.wh_emails wh

abbrev pub to_branches : Contacts → List Recipient
to_branches c = parse c.branch_emails branches

unfoldable pub mapped_recipients : Contacts → EventType → Payload → List Recipient
mapped_recipients c stock_depart_pending p =
    location_recipient c p.target_location_id p.target_location
mapped_recipients c stock_arrival_pending p =
    location_recipient c p.source_location_id p.source_location
mapped_recipients c goods_display_campaign p = location_recipient c p.branch_id p.branch_name
mapped_recipients c new_book_request p =
    if is_decided p.stage then to_hq c ++ addressed_if p.requester_email publisher else to_hq c
mapped_recipients c auto_executed_urgent p = to_hq c
mapped_recipients c return_pending p = to_hq c
mapped_recipients c branch_feedback p = to_hq c
mapped_recipients c spike_urgent p = to_hq c
mapped_recipients c approval_delayed p = to_hq c ++ to_wh c
mapped_recipients c inbound_rejected p = to_hq c ++ to_wh c
mapped_recipients c forecast_completed p = to_hq c ++ to_wh c ++ to_branches c
mapped_recipients c daily_plan_finalized p = to_hq c ++ to_wh c ++ to_branches c
mapped_recipients c order_pending p = to_hq c ++ to_wh c ++ to_branches c
mapped_recipients c _ p = []

unfoldable pub get_recipients : Contacts → EventType → Payload → List Recipient
get_recipients c e p = dedup_from [] (mapped_recipients c e p)
