-- ===== src/Notifications/Addresses.antt =====
-- What holds of every list of recipients.
use Prim.Native.String.{String}
use text.Mathlib.Text.{◌==◌ as str_eq}
use text.Mathlib.TextEquality.{eq_iff}
use bookflow_ai_apps.Prelude.{
  ℕ, ◌≡◌, ◌≢◌, refl, Bool, true, false, ◌||◌, Option, none, some, List, [], ◌∷◌, ◌++◌, sym, subst,
  if◌then◌else◌, any_of, All, All-append, All-map, Bool-cases, inl, inr, arith,
}
use bookflow_ai_apps.Notifications.Texts.{is_empty, strip, split_commas}
use bookflow_ai_apps.Notifications.Recipients.{
  EventType, Payload, Display, hq, wh, branches, publisher, Recipient, Contacts, addressed, parse,
  parse_all, addressed_if, display_of, location_recipient, dedup_from, is_decided, to_hq, to_wh,
  to_branches, mapped_recipients, get_recipients,
}

abbrev pub Addressed : Recipient → Type 0
Addressed r = is_empty r.address ≡ false

abbrev pub Unrepeated : List Recipient → Type 0
Unrepeated [] = Unit
Unrepeated (r ∷ rs) = All (λ q. r.address ≢ q.address) rs × Unrepeated rs

addressed_lem : (e : String) (d : Display) → All Addressed (addressed e d)
addressed_lem e d = elim (Bool-cases (is_empty (strip e))) [
  | inl t ↦ rw t tt
  | inr f ↦ rw f (f, tt)
]

parse_all-Addressed : (es : List String) (d : Display) → All Addressed (parse_all es d)
unfolding parse_all
parse_all-Addressed [] d = tt
parse_all-Addressed (e ∷ es) d =
    All-append Addressed _ _ (addressed_lem e d) (parse_all-Addressed es d)

addressed_if-Addressed : (o : Option String) (d : Display) → All Addressed (addressed_if o d)
addressed_if-Addressed none d = tt
addressed_if-Addressed (some e) d = addressed_lem e d

location-Addressed :
    (c : Contacts) (id : Option ℕ) (name : Option String)
    → All Addressed (location_recipient c id name)
location-Addressed c none name = tt
location-Addressed c (some id) name =
    addressed_if-Addressed (c.location_contacts id) (display_of name id)

if-Addressed :
    (b : Bool) (xs ys : List Recipient)
    → All Addressed xs
    → All Addressed ys
    → All Addressed (if b then xs else ys)
if-Addressed true xs ys hx hy = hx
if-Addressed false xs ys hx hy = hy

parse-Addressed : (raw : String) (d : Display) → All Addressed (parse raw d)
parse-Addressed raw d = parse_all-Addressed (split_commas raw) d

two_groups : (c : Contacts) → All Addressed (to_hq c ++ to_wh c)
two_groups c =
    All-append Addressed _ _ (parse-Addressed c.hq_emails hq) (parse-Addressed c.wh_emails wh)

three_groups : (c : Contacts) → All Addressed (to_hq c ++ to_wh c ++ to_branches c)
three_groups c = All-append Addressed _ _ (two_groups c) (parse-Addressed c.branch_emails branches)

mapped-Addressed :
    (c : Contacts) (e : EventType) (p : Payload) → All Addressed (mapped_recipients c e p)
unfolding mapped_recipients
mapped-Addressed c EventType.stock_depart_pending p = location-Addressed c _ _
mapped-Addressed c EventType.stock_arrival_pending p = location-Addressed c _ _
mapped-Addressed c EventType.goods_display_campaign p = location-Addressed c _ _
mapped-Addressed c EventType.new_book_request p =
    let at_hq = parse-Addressed c.hq_emails hq in
    if-Addressed (is_decided p.stage) _ _
      (All-append Addressed _ _ at_hq (addressed_if-Addressed p.requester_email publisher)) at_hq
mapped-Addressed c EventType.auto_executed_urgent p = parse-Addressed c.hq_emails hq
mapped-Addressed c EventType.return_pending p = parse-Addressed c.hq_emails hq
mapped-Addressed c EventType.branch_feedback p = parse-Addressed c.hq_emails hq
mapped-Addressed c EventType.spike_urgent p = parse-Addressed c.hq_emails hq
mapped-Addressed c EventType.approval_delayed p = two_groups c
mapped-Addressed c EventType.inbound_rejected p = two_groups c
mapped-Addressed c EventType.forecast_completed p = three_groups c
mapped-Addressed c EventType.daily_plan_finalized p = three_groups c
mapped-Addressed c EventType.order_pending p = three_groups c
mapped-Addressed c EventType.order_approved p = tt
mapped-Addressed c EventType.order_rejected p = tt
mapped-Addressed c EventType.auto_rejected_batch p = tt
mapped-Addressed c EventType.delivery_completed p = tt
mapped-Addressed c EventType.lambda_alarm p = tt
mapped-Addressed c EventType.deployment_rollback p = tt
mapped-Addressed c EventType.new_book_submitted_to_hq p = tt
mapped-Addressed c EventType.new_book_accepted_to_publisher p = tt
mapped-Addressed c EventType.new_book_rejected_to_publisher p = tt
mapped-Addressed c EventType.new_book_display_request p = tt

-- `_dedup` keeps a property that all recipients have.
dedup_from-All :
    (P : Recipient → Type 0) (seen : List String) (rs : List Recipient)
    → All P rs
    → All P (dedup_from seen rs)
unfolding dedup_from
dedup_from-All P seen [] h = tt
dedup_from-All P seen (r ∷ rs) (h, hs) = elim (Bool-cases (any_of (str_eq r.address) seen)) [
  | inl t ↦ rw t (dedup_from-All P seen rs hs)
  | inr f ↦ rw f (h, dedup_from-All P (r.address ∷ seen) rs hs)
]

dedup_from-unseen :
    (seen : List String) (rs : List Recipient)
    → All (λ q. any_of (str_eq q.address) seen ≡ false) (dedup_from seen rs)
unfolding dedup_from
dedup_from-unseen seen [] = tt
dedup_from-unseen seen (r ∷ rs) = elim (Bool-cases (any_of (str_eq r.address) seen)) [
  | inl t ↦ rw t (dedup_from-unseen seen rs)
  | inr f ↦
      let later : All (λ q. any_of (str_eq q.address) seen ≡ false)
          (dedup_from (r.address ∷ seen) rs) =
        All-map _ (λ q h. ground arith) (dedup_from-unseen (r.address ∷ seen) rs) in
      rw f (f, later)
]

differs : (a b : String) → str_eq b a ≡ false → a ≢ b
differs a b h e = let same = (eq_iff b a).1 (sym e) in ground arith

dedup_from-Unrepeated : (seen : List String) (rs : List Recipient) → Unrepeated (dedup_from seen rs)
unfolding dedup_from
dedup_from-Unrepeated seen [] = tt
dedup_from-Unrepeated seen (r ∷ rs) = elim (Bool-cases (any_of (str_eq r.address) seen)) [
  | inl t ↦ rw t (dedup_from-Unrepeated seen rs)
  | inr f ↦
      let apart : All (λ q. r.address ≢ q.address) (dedup_from (r.address ∷ seen) rs) =
        All-map _ (λ q h. differs r.address q.address (ground arith))
          (dedup_from-unseen (r.address ∷ seen) rs) in
      rw f (apart, dedup_from-Unrepeated (r.address ∷ seen) rs)
]

abbrev pub reached : List Recipient → Recipient → Bool
reached qs r = any_of (λ q. str_eq r.address q.address) qs

dedup_from-seen :
    (seen : List String) (r : Recipient) (rs : List Recipient)
    → any_of (str_eq r.address) seen ≡ true
    → dedup_from seen (r ∷ rs) ≡ dedup_from seen rs
unfolding dedup_from
dedup_from-seen seen r rs t = rw t refl

dedup_from-new :
    (seen : List String) (r : Recipient) (rs : List Recipient)
    → any_of (str_eq r.address) seen ≡ false
    → dedup_from seen (r ∷ rs) ≡ r ∷ dedup_from (r.address ∷ seen) rs
unfolding dedup_from
dedup_from-new seen r rs f = rw f refl

abbrev Covers : List String → List Recipient → List Recipient → Type 0
Covers seen rs out = All (λ r. (any_of (str_eq r.address) seen || reached out r) ≡ true) rs

dedup_from-Covers : (seen : List String) (rs : List Recipient) → Covers seen rs (dedup_from seen rs)
dedup_from-Covers seen [] = tt
dedup_from-Covers seen (x ∷ xs) = elim (Bool-cases (any_of (str_eq x.address) seen)) [
  | inl t ↦
      subst (Covers seen (x ∷ xs)) (sym (dedup_from-seen seen x xs t))
        (ground arith, dedup_from-Covers seen xs)
  | inr f ↦
      let self = (eq_iff x.address x.address).1 refl in
      let later = dedup_from-Covers (x.address ∷ seen) xs in
      subst (Covers seen (x ∷ xs)) (sym (dedup_from-new seen x xs f))
        (ground (arith, self), All-map xs (λ r h. ground arith) later)
]

-- Nobody gets a mail twice: the addresses of the recipients of an event differ and none is empty,
-- and every address that the event calls for is among them.
pub get_recipients_once :
    (c : Contacts) (e : EventType) (p : Payload)
    → Unrepeated (get_recipients c e p)
      × All Addressed (get_recipients c e p)
      × All (λ r. reached (get_recipients c e p) r ≡ true) (mapped_recipients c e p)
unfolding get_recipients
get_recipients_once c e p = (
  dedup_from-Unrepeated [] _,
  dedup_from-All Addressed [] _ (mapped-Addressed c e p),
  dedup_from-Covers [] _,
)
