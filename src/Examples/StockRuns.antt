-- ===== src/Examples/StockRuns.antt =====
-- Runs of the operations of inventory-svc.
use bookflow_ai_apps.Prelude.{◌≡◌, ◌≢◌, refl, true, none, some, pos, negsuc, arith, ◌+ℤ◌, ◌-ℤ◌}
use bookflow_ai_apps.Sql.{rows_where, update_where}
use bookflow_ai_apps.Exec.{http, ok, err}
use bookflow_ai_apps.Locations.{select_wh_id, joined_wh_id}
use bookflow_ai_apps.Inventory.{
  AdjustRequest, AdjustResponse, ReserveRequest, adjust, adjust_rows, reserve,
  check_inventory_write_perm, publish_stock,
}
use bookflow_ai_apps.Inventory.Bounds.{IsKeyed, IsSound, adjust-IsSound}
use bookflow_ai_apps.Authority.{
  meta_of, can_dispatch, can_receive, is_source_party, is_target_party,
}
use bookflow_ai_apps.Authority.Permits.{receive_permitted}
use bookflow_ai_apps.Examples.{manager, clerk, shelves, waiting, on_way}

abbrev sale : AdjustRequest
sale = record { isbn13 = 100; location_id = 1; delta = negsuc 3 }

abbrev oversale : AdjustRequest
oversale = record { isbn13 = 100; location_id = 1; delta = negsuc 30 }

abbrev booking : ReserveRequest
booking = record { isbn13 = 100; location_id = 1; qty = 8; ttl_seconds = 900 }

shelves-IsKeyed : IsKeyed shelves.rows
unfolding rows_where
shelves-IsKeyed isbn loc = ground arith

shelves-IsSound : IsSound shelves
shelves-IsSound = record { keyed = shelves-IsKeyed; nonneg = ground arith }

abbrev sale_response : AdjustResponse
sale_response = record {
  isbn13 = 100;
  location_id = 1;
  on_hand_before = pos 10;
  on_hand_after = pos 6;
}

sale_runs : (adjust sale manager shelves).0 ≡ ok sale_response
unfolding adjust adjust_rows publish_stock check_inventory_write_perm rows_where update_where
    select_wh_id ◌+ℤ◌
sale_runs = refl

oversale_runs : (adjust oversale manager shelves).0 ≡ err (http 409)
unfolding adjust adjust_rows publish_stock check_inventory_write_perm rows_where update_where
    select_wh_id ◌+ℤ◌
oversale_runs = refl

booking_runs : (reserve 60 500 booking manager shelves).0 ≡ ok 500
unfolding reserve rows_where update_where ◌-ℤ◌
booking_runs = refl

adjust-IsSound_example : IsSound (adjust sale manager shelves).1
adjust-IsSound_example = adjust-IsSound sale manager shelves shelves-IsSound

in_own_region : joined_wh_id shelves.locations (some 1) ≢ none
unfolding joined_wh_id select_wh_id rows_where
in_own_region e = ground arith

store_in_region : joined_wh_id shelves.locations (some 2) ≢ none
unfolding joined_wh_id select_wh_id rows_where
store_in_region e = ground arith

manager_dispatches : can_dispatch manager (meta_of shelves.locations waiting) ≡ true
unfolding can_dispatch meta_of is_source_party joined_wh_id select_wh_id rows_where
manager_dispatches = refl

clerk_receives : can_receive clerk (meta_of shelves.locations on_way) ≡ true
unfolding can_receive meta_of is_target_party joined_wh_id select_wh_id rows_where
clerk_receives = refl

receive_permitted_example : check_inventory_write_perm clerk 2 shelves ≡ (ok tt, shelves)
receive_permitted_example =
    receive_permitted clerk on_way shelves 2 refl store_in_region clerk_receives
