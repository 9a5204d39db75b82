-- ===== src/Examples/DecisionRuns.antt =====
-- Runs of the handler that proposes orders.
use bookflow_ai_apps.Prelude.{
  ℕ, ◌≡◌, refl, ap, true, false, List, [], ◌∷◌, some, ◌+ℤ◌, ◌-ℤ◌, pos_part, sum_by,
}
use bookflow_ai_apps.Sql.{rows_where}
use bookflow_ai_apps.Exec.{http, ok, err, is_ok}
use bookflow_ai_apps.Locations.{store_offline}
use bookflow_ai_apps.Orders.{Order, OrderType, audit}
use bookflow_ai_apps.Decision.{
  Book, Arithmetic, still_sold, best_by, effective_available, partner_surplus, incoming_qty,
  expected_demand_14d, is_stage0, is_stage1, is_stage2, stage0_source, stage1_source, stage2_source,
  check_book_decision_eligibility,
}
use bookflow_ai_apps.Decision.Decide.{DecideRequest, choose, proposed_order, decide_rows, decide}
use bookflow_ai_apps.Decision.Cascade.{Chosen, choose-Chosen}
use bookflow_ai_apps.Decision.Proposals.{
  IsProposal, target_of, book_of, decide-IsProposal, decide_returns,
}
use bookflow_ai_apps.Decision.Batch.{BatchDecideResponse}
use bookflow_ai_apps.Examples.{manager, clerk, first_store, morning}

abbrev floats : Arithmetic
floats = record {
  parts = 1;
  to_int = λ d. d;
  float_eoq = λ demand price. pos_part demand;
  float_days_below = λ halves available daily. false;
}

abbrev pub novel : Book
novel = record {
  isbn13 = 100;
  active = true;
  discontinue_mode = still_sold;
  price_standard = some 20;
}

abbrev pub books : List Book
books = novel ∷ []

-- The warehouse of the region has it to spare.
abbrev small : DecideRequest
small = record { isbn13 = 100; target_location_id = 2; qty = 4 }

choose-Chosen_example :
    Chosen floats books small
      (some 1)
      store_offline
      true
      morning
      (choose floats books small (some 1) store_offline true morning).0
choose-Chosen_example = choose-Chosen floats books small (some 1) store_offline true morning

abbrev small_order : Order
small_order =
    proposed_order floats books 70 small
      (record { stage = 1; order_type = OrderType.wh_to_store; source_location_id = some 1 })
      morning

small_runs : (decide floats books 70 small manager morning).0 ≡ ok small_order
unfolding decide decide_rows choose stage0_source stage1_source stage2_source best_by rows_where
    is_stage0 is_stage1 is_stage2 effective_available partner_surplus incoming_qty
    expected_demand_14d check_book_decision_eligibility audit sum_by ◌+ℤ◌ ◌-ℤ◌
small_runs = refl

decide-IsProposal_example :
    IsProposal floats books 70 small manager morning
      (decide floats books 70 small manager morning).1
      small_order
decide-IsProposal_example =
    decide-IsProposal floats books 70 small manager morning
      (decide floats books 70 small manager morning).1 small_order
      (ap (λ r. (r, (decide floats books 70 small manager morning).1)) small_runs)

clerk_runs : (decide floats books 70 small clerk morning).0 ≡ err (http 403)
unfolding decide
clerk_runs = refl

target_found : target_of small morning ≡ some first_store
unfolding rows_where
target_found = refl

book_found : book_of small books ≡ some novel
unfolding rows_where
book_found = refl

decide_returns_example : is_ok (decide floats books 70 small manager morning).0 ≡ true
decide_returns_example =
    decide_returns floats books 70 small manager morning first_store novel refl target_found refl
      book_found refl refl

-- A book that nobody knows.
abbrev unknown : DecideRequest
unknown = record { isbn13 = 999; target_location_id = 2; qty = 4 }

abbrev two_items : List (ℕ × DecideRequest)
two_items = (70, small) ∷ (71, unknown) ∷ []

abbrev answer : BatchDecideResponse
answer = record {
  total = 2;
  s0 = 0;
  s1 = 1;
  s2 = 0;
  s3 = 0;
  failed = 1;
  errors = (999, http 404) ∷ [];
}
