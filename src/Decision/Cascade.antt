-- ===== src/Decision/Cascade.antt =====
-- The order of the stages, and what `decide` inserts.
use bookflow_ai_apps.Prelude.{
  ℕ, ◌≡◌, refl, Bool, true, false, Option, none, some, List, arith, if◌then◌else◌,
}
use bookflow_ai_apps.Exec.{Result, ok, err}
use bookflow_ai_apps.Locations.{LocationType, is_store}
use bookflow_ai_apps.Inventory.{StockRow}
use bookflow_ai_apps.Orders.{rebalance, wh_to_store, wh_transfer, publisher_order, World}
use bookflow_ai_apps.Decision.{
  Book, Arithmetic, effective_available, surplus, is_stage0, is_stage1, is_stage2, stage0_source,
  stage1_source, stage2_source,
}
use bookflow_ai_apps.Decision.Decide.{DecideRequest, Plan, from_store, choose}
use bookflow_ai_apps.Decision.Stages.{IsBest, NoneFits, Found, best_by-Found}

module _ (x : Arithmetic) (books : List Book) (req : DecideRequest) (wh : Option ℕ) where
  abbrev pub store_fits : World → StockRow → Bool
  store_fits w = is_stage1 x books req.isbn13 wh req.target_location_id req.qty w

  abbrev pub own_fits : World → StockRow → Bool
  own_fits w = is_stage0 x books req.isbn13 wh req.qty w

  abbrev pub partner_fits : World → StockRow → Bool
  partner_fits w = is_stage2 x books req.isbn13 wh req.qty w

  -- No source within the region, for a target of the given kind.
  abbrev pub NoneNear : LocationType → World → Type 0
  NoneNear kind w =
      is_store kind ≡ true
      → NoneFits (store_fits w) w.stock.rows × NoneFits (own_fits w) w.stock.rows

  -- The best source of the first stage that has one.
  pub data IsCascade (kind : LocationType) (allowed : Bool) (w : World) : Plan → Type 0 where
    by_store :
        (r : StockRow)
        → is_store kind ≡ true
        → IsBest (store_fits w) (effective_available x books w) w.stock.rows r
        → IsCascade kind allowed w
            (record { stage = 0; order_type = rebalance; source_location_id = some r.location_id })
    by_own :
        (r : StockRow)
        → is_store kind ≡ true
        → NoneFits (store_fits w) w.stock.rows
        → IsBest (own_fits w) (effective_available x books w) w.stock.rows r
        → IsCascade kind allowed w (record {
          stage = 1;
          order_type = wh_to_store;
          source_location_id = some r.location_id;
        })
    by_partner :
        (r : StockRow)
        → NoneNear kind w
        → IsBest (partner_fits w) (surplus x books w) w.stock.rows r
        → IsCascade kind allowed w (record {
          stage = 2;
          order_type = wh_transfer;
          source_location_id = some r.location_id;
        })
    by_publisher :
        NoneNear kind w
        → NoneFits (partner_fits w) w.stock.rows
        → allowed ≡ true
        → IsCascade kind allowed w
            (record { stage = 3; order_type = publisher_order; source_location_id = none })

  -- What the cascade comes to: a plan, or a refusal for want of any source.
  abbrev pub Chosen : LocationType → Bool → World → Result Plan → Type 0
  Chosen kind allowed w (ok plan) = IsCascade kind allowed w plan
  Chosen kind allowed w (err e) =
      (allowed ≡ false) × NoneNear kind w × NoneFits (partner_fits w) w.stock.rows

  -- A stage that is asked only for a store.
  record ForStore (b : Bool) (p : StockRow → Bool) (w : World) (found : Option StockRow)
      : Type 0 where
    asked : b ≡ true → Found p (effective_available x books w) w.stock.rows found
    not_asked : b ≡ false → found ≡ none

  for_store_lem :
      (b : Bool) (p : StockRow → Bool) (w : World) (found : Option StockRow)
      → Found p (effective_available x books w) w.stock.rows found
      → ForStore b p w (if b then found else none)
  for_store_lem true p w found h = record { asked = λ _. h; not_asked = λ e. absurd (ground arith) }
  for_store_lem false p w found h = record {
    asked = λ e. absurd (ground arith);
    not_asked = λ _. refl;
  }

  is_asked :
      (b : Bool) (p : StockRow → Bool) (w : World) (r : StockRow)
      → ForStore b p w (some r)
      → b ≡ true
  is_asked true p w r h = refl
  is_asked false p w r h = absurd (let e = h.not_asked refl in ground arith)

  from_store-Chosen :
      (kind : LocationType) (allowed : Bool) (w : World) (store own partner : Option StockRow)
      → ForStore (is_store kind) (store_fits w) w store
      → ForStore (is_store kind) (own_fits w) w own
      → Found (partner_fits w) (surplus x books w) w.stock.rows partner
      → Chosen kind allowed w (from_store x books allowed store own partner w).0
  from_store-Chosen kind allowed w (some r) own partner hs ho hp =
      let k = is_asked (is_store kind) (store_fits w) w r hs in by_store r k (hs.asked k)
  from_store-Chosen kind allowed w none (some r) partner hs ho hp =
      let k = is_asked (is_store kind) (own_fits w) w r ho in by_own r k (hs.asked k) (ho.asked k)
  from_store-Chosen kind allowed w none none (some r) hs ho hp =
      by_partner r (λ k. (hs.asked k, ho.asked k)) hp
  from_store-Chosen kind true w none none none hs ho hp =
      by_publisher (λ k. (hs.asked k, ho.asked k)) hp refl
  from_store-Chosen kind false w none none none hs ho hp =
      (refl, (λ k. (hs.asked k, ho.asked k)), hp)

  -- The cascade takes the best source of the first stage that has one, and refuses only if no stage
  -- has one and the book may not be ordered from its publisher.
  pub choose-Chosen :
      (kind : LocationType) (allowed : Bool) (w : World)
      → Chosen kind allowed w (choose x books req wh kind allowed w).0
  unfolding choose stage0_source stage1_source stage2_source
  choose-Chosen kind allowed w =
      from_store-Chosen kind allowed w _ _ _
        (for_store_lem (is_store kind) (store_fits w) w _ (best_by-Found _ _ w.stock.rows))
        (for_store_lem (is_store kind) (own_fits w) w _ (best_by-Found _ _ w.stock.rows))
        (best_by-Found _ _ w.stock.rows)

  pub choose_state :
      (kind : LocationType) (allowed : Bool) (w : World)
      → (choose x books req wh kind allowed w).1 ≡ w
  unfolding choose
  choose_state kind allowed w = ground arith
