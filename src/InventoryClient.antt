-- ===== src/InventoryClient.antt =====
-- `_call_inventory_adjust` of eks-pods/intervention-svc/src/state_machine.py: the stock change is an HTTP
-- request to inventory-svc, sent again once if no answer comes.
use bookflow_ai_apps.Prelude.{ℕ, zero, suc, ◌≡◌, Option, none, some, List, [], ◌∷◌, arith, ℤ}
use bookflow_ai_apps.Exec.{http, Result, ok, err, Exec, raise}
use bookflow_ai_apps.Auth.{AuthContext}
use bookflow_ai_apps.Inventory.{Stock, AdjustResponse, adjust}
use bookflow_ai_apps.Orders.{World, Attempt, answered, lost_request, lost_reply}

-- The request as inventory-svc serves it: a NULL location fails the validation of `AdjustRequest`.
unfoldable pub serve_adjust : Option ℕ → ℕ → ℤ → AuthContext → Exec Stock AdjustResponse
serve_adjust none isbn delta ctx = raise (http 422)
serve_adjust (some loc) isbn delta ctx =
    adjust (record { isbn13 = isbn; location_id = loc; delta = delta }) ctx

-- The fate of the next request; with nothing left in the list the network is reliable.
abbrev pub next_attempt : List Attempt → Attempt
next_attempt [] = answered
next_attempt (a ∷ _) = a

abbrev pub rest_attempts : List Attempt → List Attempt
rest_attempts [] = []
rest_attempts (_ ∷ as') = as'

-- An answer of 400 or more is raised as 502.
abbrev answer : Result AdjustResponse → Result (Unit {0})
answer (ok _) = ok tt
answer (err _) = err (http 502)

-- The loop over the attempts, with the number of those left; the last one falls through to the raise.
unfoldable pub attempts : ℕ → Option ℕ → ℕ → ℤ → AuthContext → Exec World Unit
attempts zero loc isbn delta ctx w = (err (http 502), w)
attempts (suc n) loc isbn delta ctx w =
    let w' = record w { net = rest_attempts w.net } in
    let (r, stock') = serve_adjust loc isbn delta ctx w.stock in
    let served = record w' { stock = stock' } in
    elim (next_attempt w.net) [
      | answered ↦ (answer r, served)
      | lost_request ↦ attempts n loc isbn delta ctx w'
      | lost_reply ↦ attempts n loc isbn delta ctx served
    ]

unfoldable pub call_inventory_adjust : AuthContext → Option ℕ → ℕ → ℤ → Exec World Unit
call_inventory_adjust ctx loc isbn delta = attempts 2 loc isbn delta ctx

-- The call changes nothing but the stock of inventory-svc and what is left of the network's script.
pub record SameTables (w w' : World) : Type 0 where
  pub orders : w'.orders ≡ w.orders
  pub approvals : w'.approvals ≡ w.approvals
  pub audit : w'.audit ≡ w.audit
  pub now : w'.now ≡ w.now
  pub today : w'.today ≡ w.today

pub attempts-SameTables :
    (n : ℕ) (loc : Option ℕ) (isbn : ℕ) (d : ℤ) (ctx : AuthContext) (w : World)
    → SameTables w (attempts n loc isbn d ctx w).1
unfolding attempts
attempts-SameTables zero loc isbn d ctx w = ground arith
attempts-SameTables (suc n) loc isbn d ctx w =
    let w' = record w { net = rest_attempts w.net } in
    let served = record w' { stock = (serve_adjust loc isbn d ctx w.stock).1 } in
    ground
      (arith, attempts-SameTables n loc isbn d ctx w', attempts-SameTables n loc isbn d ctx served)

pub call_inventory_adjust-SameTables :
    (ctx : AuthContext) (loc : Option ℕ) (isbn : ℕ) (d : ℤ) (w : World)
    → SameTables w (call_inventory_adjust ctx loc isbn d w).1
unfolding call_inventory_adjust
call_inventory_adjust-SameTables ctx loc isbn d w = attempts-SameTables 2 loc isbn d ctx w
