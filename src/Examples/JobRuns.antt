-- ===== src/Examples/JobRuns.antt =====
-- Runs of the two jobs, and a history of the stock.
use bookflow_ai_apps.Prelude.{
  negsuc, ℕ, ◌≡◌, ◌≤◌, refl, true, false, [], ◌∷◌, none, All, arith, length,
}
use bookflow_ai_apps.Sql.{rows_where}
use bookflow_ai_apps.Inventory.{Stock, Reservation, active}
use bookflow_ai_apps.Inventory.Bounds.{IsSound}
use bookflow_ai_apps.Inventory.Cleanup.{has_run_out, batch_size, expire_reservations}
use bookflow_ai_apps.Inventory.Cleanup.Released.{expire_reservations-none_left}
use bookflow_ai_apps.Orders.{Order, Urgency, World, pending}
use bookflow_ai_apps.Inventory.{AdjustRequest, adjust, ReserveRequest, reserve}
use bookflow_ai_apps.Inventory.Ledger.{active_qty, adjust-reservations}
use bookflow_ai_apps.Inventory.Histories.{
  ◌⇒*◌, adjusts, reserves, expires, start, next, is_taken, IsOrderly, history-IsOrderly,
}
use bookflow_ai_apps.Examples.{manager, shelves, waiting, on_way, morning, to_store}

abbrev marked : Order
marked = record (to_store 4 6 pending none) { auto_execute_eligible = true; approved_at = none }

abbrev unmarked : Order
unmarked = record (to_store 5 6 pending none) { approved_at = none }

abbrev proposals : World
proposals = record morning { orders = unmarked ∷ marked ∷ waiting ∷ on_way ∷ [] }

abbrev no_rank : Urgency → ℕ
no_rank u = 0

abbrev old_booking : Reservation
old_booking = record {
  reservation_id = 500;
  isbn13 = 100;
  location_id = 1;
  qty = 2;
  status = active;
  ttl = 40;
  created_by = 11;
}

abbrev new_booking : Reservation
new_booking = record old_booking { reservation_id = 501; ttl = 90 }

abbrev booked : Stock
booked = record shelves { reservations = old_booking ∷ new_booking ∷ [] }

booked-IsSound : IsSound booked
unfolding rows_where
booked-IsSound = record { keyed = λ isbn loc. ground arith; nonneg = ground arith }

few_run_out : length (rows_where (has_run_out 50) booked.reservations) ≤ batch_size
unfolding rows_where
few_run_out = ground arith

expire_reservations-none_left_example :
    All (λ r. has_run_out 50 r ≡ false) (expire_reservations 50 booked).1.reservations
expire_reservations-none_left_example = expire_reservations-none_left 50 booked few_run_out

abbrev sale : AdjustRequest
sale = record { isbn13 = 100; location_id = 1; delta = negsuc 3 }

abbrev request : ReserveRequest
request = record { isbn13 = 100; location_id = 1; qty = 3; ttl_seconds = 900 }

-- One reservation of two copies, as the row of the warehouse has it.
abbrev opening : Stock
opening = record shelves { reservations = new_booking ∷ [] }

opening-IsOrderly : IsOrderly opening
unfolding rows_where active_qty
opening-IsOrderly = record {
  sound = record { keyed = λ isbn loc. ground arith; nonneg = ground arith };
  ledger = (refl, (refl, tt));
  unique = (refl, tt);
}

abbrev after_sale : Stock
after_sale = (adjust sale manager opening).1

abbrev after_request : Stock
after_request = (reserve 60 502 request manager after_sale).1

abbrev evening : Stock
evening = (expire_reservations 100 after_request).1

free_id : is_taken 502 after_sale.reservations ≡ false
free_id = rw (adjust-reservations sale manager opening) refl

history : opening ⇒* evening
history =
    next (next (next start (adjusts sale manager)) (reserves 60 502 request manager free_id))
      (expires 100)

history-IsOrderly_example : IsOrderly evening
history-IsOrderly_example = history-IsOrderly opening evening history opening-IsOrderly
