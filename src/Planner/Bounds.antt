-- ===== src/Planner/Bounds.antt =====
-- The plan of a book against the gaps that it starts from.
use bookflow_ai_apps.Prelude.{
  ℕ, suc, ◌+◌, ◌≤◌, ◌≡◌, Bool, true, Option, none, some, List, [], ◌∷◌, arith, inl, inr, All,
  Bool-cases, ltb, leb_ℤ, length, ℤ, pos_part, neg_part,
}
use bookflow_ai_apps.Sql.{rows_where}
use bookflow_ai_apps.Orders.{World}
use bookflow_ai_apps.Locations.{Location}
use bookflow_ai_apps.Planner.{loc_meta, Floats, initial_gaps, wh_to_stores, wh_body}
use bookflow_ai_apps.Planner.Phases.{
  shortages, publisher_row, Gaps, Planning, Leg, level, commit, is_surplus, drain, drain_all,
  sorted, insert_by, shorts_of, surplus_of, phase_a, supply_from, supply_region, phase_a_fallback,
  warehouses, phase_b, order_residual, phase_c, plan_from, plan_book,
}
use bookflow_ai_apps.Planner.Fair.{
  inflow, outflow, inflow-append, outflow-append, FairMove, same_level, Fair, Fair-refl, Fair-trans,
  commit-Fair, drain-Fair, supply-Fair,
}

-- Locations that are not short.
abbrev pub IsClosed : Gaps → ℕ → Type 0
IsClosed g loc = pos_part (level g loc) ≡ 0

insert_by-All :
    (key : ℕ → ℤ) (P : ℕ → Type 0) (x : ℕ) (xs : List ℕ)
    → P x
    → All P xs
    → All P (insert_by key x xs)
insert_by-All key P x [] h hs = (h, tt)
insert_by-All key P x (y ∷ ys) h hs = elim (Bool-cases (leb_ℤ (key x) (key y))) [
  | inl t ↦ rw t (h, hs)
  | inr f ↦ rw f (hs.0, insert_by-All key P x ys h hs.1)
]

pub sorted-All : (key : ℕ → ℤ) (P : ℕ → Type 0) (xs : List ℕ) → All P xs → All P (sorted key xs)
unfolding sorted
sorted-All key P [] h = tt
sorted-All key P (x ∷ xs) h = insert_by-All key P x (sorted key xs) h.0 (sorted-All key P xs h.1)

surplus_IsClosed : (g : ℤ) → ltb 0 (neg_part g) ≡ true → pos_part g ≡ 0
surplus_IsClosed g h = ground arith

where_surplus : (g : Gaps) (locs : List ℕ) → All (IsClosed g) (rows_where (is_surplus g) locs)
unfolding rows_where
where_surplus g [] = tt
where_surplus g (l ∷ ls) = elim (Bool-cases (is_surplus g l)) [
  | inl t ↦ rw t (surplus_IsClosed (level g l) t, where_surplus g ls)
  | inr f ↦ rw f (where_surplus g ls)
]

still-IsClosed :
    (st st' : Planning) (locs : List ℕ)
    → ((loc : ℕ) → Fair loc st st')
    → All (IsClosed st.gaps) locs
    → All (IsClosed st'.gaps) locs
still-IsClosed st st' [] fair h = tt
still-IsClosed st st' (l ∷ ls) fair h =
    ((fair l).move.giver_level h.0, still-IsClosed st st' ls fair h.1)

module _ (loc : ℕ) where
  drain_one-Fair :
      (fuel : ℕ) (leg : Leg) (skips : ℕ → Bool) (src : ℕ) (ts : List ℕ) (st : Planning)
      → IsClosed st.gaps src
      → let d = drain fuel leg skips src (neg_part (level st.gaps src)) ts st in
        Fair loc st (commit src d.avail d.state)
  drain_one-Fair fuel leg skips src ts st closed =
      Fair-trans loc _ _ _ (commit-Fair leg loc src st closed)
        (drain-Fair leg loc src fuel skips _ ts st closed)

pub drain_all-Fair :
    (loc : ℕ) (leg : Leg) (skips : ℕ → ℕ → Bool) (srcs ts : List ℕ) (st : Planning)
    → All (IsClosed st.gaps) srcs
    → Fair loc st (drain_all leg skips srcs ts st)
unfolding drain_all
drain_all-Fair loc leg skips [] ts st closed = Fair-refl loc st
drain_all-Fair loc leg skips (src ∷ srcs) [] st closed = Fair-refl loc st
drain_all-Fair loc leg skips (src ∷ srcs) (t ∷ ts) st closed =
    let one =
      λ (l : ℕ). drain_one-Fair l (suc (length ts)) leg (skips src) src (t ∷ ts) st closed.0 in
    Fair-trans loc _ _ _ (one loc)
      (drain_all-Fair loc leg skips srcs _ _ (still-IsClosed _ _ srcs one closed.1))

module _ (loc : ℕ) where
  pub phase_a-Fair :
      (isbn : ℕ) (regions : List (ℕ × List ℕ)) (st : Planning)
      → Fair loc st (phase_a isbn regions st)
  unfolding phase_a
  phase_a-Fair isbn [] st = Fair-refl loc st
  phase_a-Fair isbn ((wh_id, locs) ∷ rest) st =
      Fair-trans loc _ _ _
        (drain_all-Fair loc _ _ (surplus_of locs st.gaps) (shorts_of locs st.gaps) st
          (sorted-All _ _ _ (where_surplus st.gaps locs)))
        (phase_a-Fair isbn rest _)

  supply_from-Fair :
      (leg : Leg) (src : ℕ) (ts : List ℕ) (st : Planning) → Fair loc st (supply_from leg src ts st)
  supply_from-Fair leg src ts st = elim (Bool-cases (is_surplus st.gaps src)) [
    | inl t ↦
        let closed = surplus_IsClosed (level st.gaps src) t in
        rw t (
          Fair-trans loc _ _ _ (commit-Fair leg loc src st closed)
            (supply-Fair leg loc src ts _ st closed))
    | inr f ↦ rw f (Fair-refl loc st)
  ]

  supply_region-Fair :
      (isbn : ℕ) (wb : Option ℕ) (locs : List ℕ) (st : Planning)
      → Fair loc st (supply_region isbn wb locs st)
  supply_region-Fair isbn none locs st = Fair-refl loc st
  supply_region-Fair isbn (some wb) locs st = supply_from-Fair _ wb (shorts_of locs st.gaps) st

  phase_a_fallback-Fair :
      (isbn : ℕ) (ls : List Location) (regions : List (ℕ × List ℕ)) (st : Planning)
      → Fair loc st (phase_a_fallback isbn ls regions st)
  unfolding phase_a_fallback
  phase_a_fallback-Fair isbn ls [] st = Fair-refl loc st
  phase_a_fallback-Fair isbn ls ((wh_id, locs) ∷ rest) st =
      Fair-trans loc _ _ _ (supply_region-Fair isbn (wh_body wh_id ls) locs st)
        (phase_a_fallback-Fair isbn ls rest _)

  phase_b-Fair : (isbn : ℕ) (ls : List Location) (st : Planning) → Fair loc st (phase_b isbn ls st)
  unfolding phase_b
  phase_b-Fair isbn ls st =
      drain_all-Fair loc _ _ (surplus_of (warehouses ls) st.gaps)
        (shorts_of (warehouses ls) st.gaps) st
        (sorted-All _ _ _ (where_surplus st.gaps (warehouses ls)))

  -- An order to the publisher moves nothing between locations.
  order_residual-Fair :
      (isbn : ℕ) (wb : Option ℕ) (locs : List ℕ) (st : Planning)
      → Fair loc st (order_residual isbn wb locs st)
  order_residual-Fair isbn none locs st = Fair-refl loc st
  order_residual-Fair isbn (some wb) locs st =
      let residual = shortages st.gaps locs + pos_part (level st.gaps wb) in
      elim (Bool-cases (ltb residual 5)) [
        | inl t ↦ rw t (Fair-refl loc st)
        | inr f ↦ rw f (record {
          move =
              same_level _ _ _ _ _
                (omega (arith, inflow-append loc st.plan (publisher_row isbn wb residual)))
                (omega (arith, outflow-append loc st.plan (publisher_row isbn wb residual)));
        })
      ]

  phase_c-Fair :
      (isbn : ℕ) (ls : List Location) (regions : List (ℕ × List ℕ)) (st : Planning)
      → Fair loc st (phase_c isbn ls regions st)
  unfolding phase_c
  phase_c-Fair isbn ls [] st = Fair-refl loc st
  phase_c-Fair isbn ls ((wh_id, locs) ∷ rest) st =
      Fair-trans loc _ _ _ (order_residual-Fair isbn (wh_body wh_id ls) locs st)
        (phase_c-Fair isbn ls rest _)

within : (g g' : ℤ) (i o : ℕ) → FairMove g g' 0 i 0 o → (o ≤ neg_part g) × (i ≤ pos_part g)
within g g' i o m = ground (arith, m.giver_out, m.giver_in, m.taker_in, m.taker_out)

plan_from-within :
    (isbn : ℕ) (ls : List Location) (g : Gaps) (loc : ℕ)
    → (outflow loc (plan_from isbn ls g) ≤ neg_part (level g loc))
      × (inflow loc (plan_from isbn ls g) ≤ pos_part (level g loc))
unfolding plan_from inflow outflow
plan_from-within isbn ls g loc =
    within _ _ _ _
      (Fair-trans loc _ _ _ (phase_a-Fair loc isbn (wh_to_stores ls) _) (
        Fair-trans loc _ _ _ (phase_a_fallback-Fair loc isbn ls (wh_to_stores ls) _) (
          Fair-trans loc _ _ _ (phase_b-Fair loc isbn ls _)
            (phase_c-Fair loc isbn ls (wh_to_stores ls) _)))).move

-- The plan of a book takes no more out of a location than the location has above the stock it
-- should hold, and moves no more into it from others than it lacks.
pub plan_book-within_gaps :
    (x : Floats) (snapshot : ℕ) (w : World) (isbn loc : ℕ)
    → let gap = level (initial_gaps x snapshot isbn w) loc in
      let plan = plan_book x snapshot w isbn in
      (outflow loc plan ≤ neg_part gap) × (inflow loc plan ≤ pos_part gap)
unfolding plan_book
plan_book-within_gaps x snapshot w isbn loc =
    plan_from-within isbn (loc_meta w) (initial_gaps x snapshot isbn w) loc
