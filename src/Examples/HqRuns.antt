-- ===== src/Examples/HqRuns.antt =====
-- Runs of what headquarters decides: early orders, returns, and the switch of a book.
use bookflow_ai_apps.Prelude.{
  ℕ, ◌≡◌, ◌≢◌, ◌+◌, refl, true, none, some, List, [], ◌∷◌, ◌++◌, arith, All,
}
use bookflow_ai_apps.Sql.{rows_where, update_where}
use bookflow_ai_apps.Exec.{http, ok, err}
use bookflow_ai_apps.Auth.{AuthContext}
use bookflow_ai_apps.Locations.{Location, wh, store_offline}
use bookflow_ai_apps.Orders.{Order, World, audit, is_publisher, newbook}
use bookflow_ai_apps.Decision.{Book, check_book_decision_eligibility, soft_discontinue}
use bookflow_ai_apps.Chained.{even_split, even_from}
use bookflow_ai_apps.Preorders.{
  new, NewBookRequest, Desk, stores_in, sort_ids, issue_all, issue_stores, take_request, log,
  approve_rows, approve_new_book_request, reject_new_book_request,
}
use bookflow_ai_apps.Preorders.Quantities.{is_to_store, qty_of, approve_new_book_request-qty}
use bookflow_ai_apps.Preorders.Once.{approve_new_book_request_once}
use bookflow_ai_apps.Returns as Returns
use bookflow_ai_apps.Returns.{Return, Counter, ask, accept, refuse, serve_all}
use bookflow_ai_apps.Returns.Histories.{
  IsConsistent, IsFrozen, serve_all-IsConsistent_returns, serve_all_processed,
}
use bookflow_ai_apps.Books.{BookRow, Catalogue, soft_off, set_mode, change_rows, change_book_status}
use bookflow_ai_apps.Books.Eligibility.{Allows, eligible, change_book_status-Allows}
use bookflow_ai_apps.Examples.{
  manager, clerk, warehouse, first_store, second_store, shelves, morning,
}
use bookflow_ai_apps.Examples.DecisionRuns.{novel}
use bookflow_ai_apps.Examples.ReviewRuns.{headquarters}

-- A second region, with one store.
abbrev far_warehouse : Location
far_warehouse = record { location_id = 11; location_type = wh; wh_id = some 2; active = true }

abbrev far_store : Location
far_store = record {
  location_id = 12;
  location_type = store_offline;
  wh_id = some 2;
  active = true;
}

abbrev country : World
country = record morning {
  orders = [];
  stock = record shelves {
    locations = warehouse ∷ first_store ∷ second_store ∷ far_warehouse ∷ far_store ∷ [];
  };
}

abbrev asked : NewBookRequest
asked = record { id = 1; isbn13 = 200; status = new; approved_at = none }

abbrev desk : Desk
desk = record { requests = asked ∷ []; spikes = []; world = country }

abbrev ids : ℕ → ℕ
ids i = 700 + i

abbrev made : List Order
made = elim (issue_all ids newbook 200 country 5 3) [ ok os ↦ os | err e ↦ [] ]

approval_runs : (approve_new_book_request ids 1 5 3 headquarters desk).0 ≡ ok made
unfolding approve_new_book_request approve_rows take_request log issue_all issue_stores even_split
    even_from sort_ids rows_where update_where audit
approval_runs = refl

near_stores : stores_in 1 country.stock.locations ≢ []
unfolding sort_ids rows_where
near_stores e = ground arith

far_stores : stores_in 2 country.stock.locations ≢ []
unfolding sort_ids rows_where
far_stores e = ground arith

approve_new_book_request-qty_example :
    ((approve_new_book_request ids 1 5 3 headquarters desk).1.world.orders
      ≡ desk.world.orders ++ made)
    × (qty_of is_publisher made ≡ 5 + 3)
    × (qty_of is_to_store made ≡ 5 + 3)
approve_new_book_request-qty_example =
    approve_new_book_request-qty ids 1 5 3 headquarters desk made approval_runs near_stores
      far_stores

approve_new_book_request_once_example :
    let d = (approve_new_book_request ids 1 5 3 headquarters desk).1 in
    (approve_new_book_request ids 1 9 0 headquarters d ≡ (err (http 404), d))
    × (reject_new_book_request 1 headquarters d ≡ (err (http 404), d))
approve_new_book_request_once_example =
    approve_new_book_request_once ids 1 5 3 9 0 headquarters headquarters desk made approval_runs
      refl

abbrev torn : Returns.ReturnRequest
torn = record { isbn13 = 100; location_id = 2; qty = 1; reason = "torn" }

-- Sent back yesterday, and accepted.
abbrev settled : Return
settled = record (Returns.new_return 40 torn 20) {
  status = Returns.approved;
  hq_approved_at = some 30;
}

abbrev counter : Counter
counter = record { returns = settled ∷ []; audit = []; sent = []; now = 50 }

abbrev returns_day : List (AuthContext × Returns.Request)
returns_day =
    (clerk, ask 41 torn)
    ∷ (headquarters, refuse 40 "late")
    ∷ (headquarters, accept 41)
    ∷ (manager, accept 40)
    ∷ []

serve_all-IsConsistent_returns_example : All IsConsistent (serve_all returns_day counter).returns
serve_all-IsConsistent_returns_example =
    serve_all-IsConsistent_returns returns_day counter (ground arith, tt)

serve_all_processed_example : All (IsFrozen settled) (serve_all returns_day counter).returns
serve_all_processed_example =
    serve_all_processed settled returns_day counter refl ((λ e. ground arith), (tt, (tt, (tt, tt))))
      ((λ e. refl), tt)

abbrev shelf_row : BookRow
shelf_row = record {
  book = novel;
  discontinue_reason = none;
  discontinue_at = none;
  discontinue_by = none;
  reactivated_at = none;
}

abbrev catalogue : Catalogue
catalogue = record { books = shelf_row ∷ []; audit = []; now = 50 }

abbrev fading : Book
fading = record novel { discontinue_mode = soft_discontinue }

switch_runs : (change_book_status 100 soft_off none headquarters catalogue).0 ≡ ok fading
unfolding change_book_status change_rows set_mode rows_where update_where
switch_runs = refl

change_book_status-Allows_example :
    (check_book_decision_eligibility fading.active fading.discontinue_mode ≡ eligible soft_off)
    × All
        (Allows 100 (eligible soft_off))
        (change_book_status 100 soft_off none headquarters catalogue).1.books
change_book_status-Allows_example =
    change_book_status-Allows 100 soft_off none headquarters catalogue fading switch_runs
