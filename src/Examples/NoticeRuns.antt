-- ===== src/Examples/NoticeRuns.antt =====
-- Runs of the notices.
use bookflow_ai_apps.Prelude.{◌≡◌, refl, true, false, none, some, List, [], ◌∷◌, arith, All}
use bookflow_ai_apps.Notifications.Texts.{lstrip, rstrip, split_commas}
use bookflow_ai_apps.Notifications.Recipients.{
  spike_urgent, inbound_rejected, forecast_completed, no_payload, Contacts, hq, mapped_recipients,
  dedup_from, get_recipients, parse_all,
}
use bookflow_ai_apps.Notifications.Addresses.{Unrepeated, Addressed, reached, get_recipients_once}
use bookflow_ai_apps.Notifications.{
  Settings, Hub, Fate, SendRequest, dedup, check_and_set_dedup, post_logic_apps, post_once,
  dispatch, send, Step, wait, serve, turn, run, get_logic_apps_url,
}
use bookflow_ai_apps.Notifications.Spacing.{Apart, run-Apart}
use bookflow_ai_apps.Notifications.Retries.{message, after, send_again}
use bookflow_ai_apps.Notifications.Buffer.{IsAccounted, run-IsAccounted}
use bookflow_ai_apps.Examples.{manager}
use bookflow_ai_apps.Examples.ReviewRuns.{headquarters}

-- One address stands for headquarters and for the warehouses.
abbrev contacts : Contacts
contacts = record {
  hq_emails = " hq@b.kr, ,all@b.kr";
  wh_emails = "all@b.kr";
  branch_emails = "";
  location_contacts = λ id. none;
}

abbrev settings : Settings
settings = record { has_url = λ flow. true; contacts = contacts }

abbrev hub : Hub
hub = record {
  keys = [];
  buffered = [];
  posts = [];
  digests = [];
  log = [];
  audit = [];
  published = [];
  now = 0;
}

abbrev answered : Fate
answered = record { redis_up = true; publish_up = true; answer = some 202 }

abbrev unanswered : Fate
unanswered = record { redis_up = true; publish_up = true; answer = none }

abbrev refused_arrival : SendRequest
refused_arrival = record {
  event_type = inbound_rejected;
  payload_summary = record no_payload { target_wh_id = some (some 1) };
  correlation_id = none;
}

abbrev steps : List Step
steps =
    serve answered 1 (message spike_urgent no_payload 7) manager
    ∷ wait 200
    ∷ serve answered 2 (message spike_urgent no_payload 7) manager
    ∷ serve answered 3 refused_arrival manager
    ∷ wait 100
    ∷ serve answered 4 (message spike_urgent no_payload 7) manager
    ∷ turn (λ wh. false) (some 1 ∷ some 2 ∷ none ∷ [])
    ∷ serve answered 5 refused_arrival manager
    ∷ []

run-Apart_example : Apart (run settings steps hub).posts
run-Apart_example =
    run-Apart settings steps hub (refl, (tt, (refl, (refl, (tt, (refl, (tt, (refl, tt)))))))) refl

send_again_example :
    ((send settings answered 2 (message spike_urgent no_payload 7) headquarters (
        after 299 (send settings unanswered 1 (message spike_urgent no_payload 7) manager hub).1)).0
      ≡ dedup)
    × ((send settings answered 2 (message spike_urgent no_payload 7) headquarters (
          after 299
            (send settings unanswered 1 (message spike_urgent no_payload 7) manager hub).1)).1.posts
        ≡ (send settings unanswered 1 (message spike_urgent no_payload 7) manager hub).1.posts)
unfolding send dispatch post_once check_and_set_dedup post_logic_apps get_logic_apps_url
send_again_example =
    send_again settings unanswered answered 1 2 spike_urgent no_payload no_payload 7 299 manager
      headquarters hub refl refl refl (omega arith)

run-IsAccounted_example : IsAccounted (run settings steps hub)
unfolding get_logic_apps_url
run-IsAccounted_example =
    run-IsAccounted settings steps hub refl
      (tt, (tt, (tt, (tt, (tt, (tt, ((λ wh. refl), (tt, tt)))))))) refl

get_recipients_once_example :
    Unrepeated (get_recipients contacts forecast_completed no_payload)
    × All Addressed (get_recipients contacts forecast_completed no_payload)
    × All
        (λ r. reached (get_recipients contacts forecast_completed no_payload) r ≡ true)
        (mapped_recipients contacts forecast_completed no_payload)
get_recipients_once_example = get_recipients_once contacts forecast_completed no_payload

-- The common address is written to once.
forecast_mail :
    get_recipients contacts forecast_completed no_payload
    ≡ record { address = "hq@b.kr"; display = hq }
      ∷ record { address = "all@b.kr"; display = hq }
      ∷ []
unfolding get_recipients mapped_recipients parse_all split_commas dedup_from lstrip rstrip
forecast_mail = refl
