-- ===== src/Planner/Phases.antt =====
-- The phases of the planner, which fill the gaps of one book: stores of a region from each other, then from
-- their warehouse, warehouses from each other, and what is left from the publisher.
use bookflow_ai_apps.Prelude.{
  ℕ, suc, ◌+◌, ◌-◌, Bool, false, ◌||◌, not, Option, none, some, List, [], ◌∷◌, ◌++◌, ◌==◌, map, min,
  max, ltb, leb, opt_eq, if◌then◌else◌, fetchone, length, ℤ, pos, ◌-ℤ◌, pos_part, neg_part, leb_ℤ,
}
use bookflow_ai_apps.Sql.{rows_where}
use bookflow_ai_apps.Locations.{Location, is_wh}
use bookflow_ai_apps.Orders.{OrderType, rebalance, wh_to_store, wh_transfer, publisher_order, World}
use bookflow_ai_apps.Planner.{Floats, loc_meta, wh_to_stores, wh_body, initial_gaps}

-- A row of the plan, without the figures that explain it.
pub record PlanRow : Type 0 where
  pub order_type : OrderType
  pub isbn : ℕ
  pub src : Option ℕ
  pub tgt : ℕ
  pub qty : ℕ
  pub stage : ℕ

abbrev pub Gaps : Type 0
Gaps = ℕ → Option ℤ

-- The dictionary of gaps and the plan, both of which the phases change.
pub record Planning : Type 0 where
  pub gaps : Gaps
  pub plan : List PlanRow

-- The entry of a location; one that has none is neither short nor in surplus.
abbrev or_level : Option ℤ → ℤ
or_level none = pos 0
or_level (some g) = g

abbrev pub level : Gaps → ℕ → ℤ
level g loc = or_level (g loc)

unfoldable pub set_gap : ℕ → ℤ → Gaps → Gaps
set_gap loc v g l = if l == loc then some v else g l

-- What the rows of a phase have in common.
pub record Leg : Type 0 where
  pub order_type : OrderType
  pub isbn : ℕ
  pub stage : ℕ

abbrev pub leg_row : Leg → ℕ → ℕ → ℕ → PlanRow
leg_row leg src tgt take = record {
  order_type = leg.order_type;
  isbn = leg.isbn;
  src = some src;
  tgt = tgt;
  qty = take;
  stage = leg.stage;
}

-- `take = min(avail, tgt_g["gap"])`: a quantity below 5 gets no row, and closes the gap all the same.
abbrev pub take_of : ℕ → ℕ → Planning → ℕ
take_of avail tgt st = min avail (pos_part (level st.gaps tgt))

unfoldable pub give : Leg → ℕ → ℕ → ℕ → Planning → Planning
give leg src tgt take st = record {
  gaps = set_gap tgt (level st.gaps tgt -ℤ pos take) st.gaps;
  plan = if leb 5 take then st.plan ++ leg_row leg src tgt take ∷ [] else st.plan;
}

-- `src_g["gap"] = -avail`
abbrev pub commit : ℕ → ℕ → Planning → Planning
commit src avail st = record st { gaps = set_gap src (pos 0 -ℤ pos avail) st.gaps }

abbrev pub is_short : Gaps → ℕ → Bool
is_short g loc = ltb 0 (pos_part (level g loc))

abbrev pub is_surplus : Gaps → ℕ → Bool
is_surplus g loc = ltb 0 (neg_part (level g loc))

-- The `while` of one source. `shorts` is the list from `si` on, and the fuel bounds the turns.
pub record Drained : Type 0 where
  pub avail : ℕ
  pub shorts : List ℕ
  pub state : Planning

unfoldable pub drain : ℕ → Leg → (ℕ → Bool) → ℕ → ℕ → List ℕ → Planning → Drained
drain (suc n) leg skips src (suc a) (t ∷ ts) st =
    let next = drain n leg skips src (suc a) ts st in
    let take = take_of (suc a) t st in
    let st' = give leg src t take st in
    let turn =
      drain n leg skips src (suc a - take) (if is_short st'.gaps t then t ∷ ts else ts) st' in
    if skips t || not (is_short st.gaps t) then next else turn
drain _ leg skips src avail shorts st = record { avail = avail; shorts = shorts; state = st }

-- The `for` over the sources, which stops when no short location is left.
unfoldable pub drain_all : Leg → (ℕ → ℕ → Bool) → List ℕ → List ℕ → Planning → Planning
drain_all leg skips [] shorts st = st
drain_all leg skips (src ∷ srcs) [] st = st
drain_all leg skips (src ∷ srcs) (t ∷ ts) st =
    let d =
      drain (length (t ∷ ts)) leg (skips src) src (neg_part (level st.gaps src)) (t ∷ ts) st in
    drain_all leg skips srcs d.shorts (commit src d.avail d.state)

-- `sorted(…, key=…)`, which is stable.
abbrev pub insert_by : (ℕ → ℤ) → ℕ → List ℕ → List ℕ
insert_by key x [] = x ∷ []
insert_by key x (y ∷ ys) = if leb_ℤ (key x) (key y) then x ∷ y ∷ ys else y ∷ insert_by key x ys

unfoldable pub sorted : (ℕ → ℤ) → List ℕ → List ℕ
sorted key [] = []
sorted key (x ∷ xs) = insert_by key x (sorted key xs)

-- The most short first, and the largest surplus first.
abbrev pub shorts_of : List ℕ → Gaps → List ℕ
shorts_of locs g = sorted (λ l. pos 0 -ℤ level g l) (rows_where (is_short g) locs)

abbrev pub surplus_of : List ℕ → Gaps → List ℕ
surplus_of locs g = sorted (level g) (rows_where (is_surplus g) locs)

-- Phase A: a store's surplus goes to the stores of its region.
unfoldable pub phase_a : ℕ → List (ℕ × List ℕ) → Planning → Planning
phase_a isbn [] st = st
phase_a isbn ((wh_id, locs) ∷ rest) st = phase_a isbn rest (
    drain_all (record { order_type = rebalance; isbn = isbn; stage = 0 }) (λ src tgt. false)
      (surplus_of locs st.gaps) (shorts_of locs st.gaps) st)

-- Phase A': a warehouse's surplus goes to its stores. The `for` over the short stores stops when nothing
-- is left to give.
unfoldable pub supply : Leg → ℕ → ℕ → List ℕ → Planning → ℕ × Planning
supply leg src (suc a) (t ∷ ts) st =
    let next = supply leg src (suc a) ts st in
    let take = take_of (suc a) t st in
    let turn = supply leg src (suc a - take) ts (give leg src t take st) in
    if not (is_short st.gaps t) then next else turn
supply leg src avail ts st = (avail, st)

abbrev pub supply_from : Leg → ℕ → List ℕ → Planning → Planning
supply_from leg src ts st =
    let (avail, st') = supply leg src (neg_part (level st.gaps src)) ts st in
    if is_surplus st.gaps src then commit src avail st' else st

abbrev pub supply_region : ℕ → Option ℕ → List ℕ → Planning → Planning
supply_region isbn none locs st = st
supply_region isbn (some wb) locs st =
    supply_from (record { order_type = wh_to_store; isbn = isbn; stage = 1 }) wb
      (shorts_of locs st.gaps) st

unfoldable pub phase_a_fallback : ℕ → List Location → List (ℕ × List ℕ) → Planning → Planning
phase_a_fallback isbn ls [] st = st
phase_a_fallback isbn ls ((wh_id, locs) ∷ rest) st =
    phase_a_fallback isbn ls rest (supply_region isbn (wh_body wh_id ls) locs st)

-- Phase B: a warehouse's surplus goes to the warehouses of other regions.
abbrev wh_of : List Location → ℕ → Option ℕ
wh_of ls loc = elim (fetchone (rows_where (λ l. l.location_id == loc) ls)) [
  | none ↦ none
  | some l ↦ l.wh_id
]

unfoldable pub warehouses : List Location → List ℕ
warehouses ls = map (λ l. l.location_id) (rows_where (λ l. is_wh l.location_type) ls)

unfoldable pub phase_b : ℕ → List Location → Planning → Planning
phase_b isbn ls st =
    drain_all (record { order_type = wh_transfer; isbn = isbn; stage = 2 })
      (λ src tgt. opt_eq (wh_of ls src) (wh_of ls tgt)) (surplus_of (warehouses ls) st.gaps)
      (shorts_of (warehouses ls) st.gaps) st

-- Phase C: what a region is still short of is ordered from the publisher.
unfoldable pub shortages : Gaps → List ℕ → ℕ
shortages g [] = 0
shortages g (l ∷ ls) = pos_part (level g l) + shortages g ls

abbrev pub publisher_row : ℕ → ℕ → ℕ → PlanRow
publisher_row isbn wb residual = record {
  order_type = publisher_order;
  isbn = isbn;
  src = none;
  tgt = wb;
  qty = max residual 10;
  stage = 3;
}

abbrev pub order_residual : ℕ → Option ℕ → List ℕ → Planning → Planning
order_residual isbn none locs st = st
order_residual isbn (some wb) locs st =
    let residual = shortages st.gaps locs + pos_part (level st.gaps wb) in
    if ltb residual 5
    then st
    else record st { plan = st.plan ++ publisher_row isbn wb residual ∷ [] }

unfoldable pub phase_c : ℕ → List Location → List (ℕ × List ℕ) → Planning → Planning
phase_c isbn ls [] st = st
phase_c isbn ls ((wh_id, locs) ∷ rest) st =
    phase_c isbn ls rest (order_residual isbn (wh_body wh_id ls) locs st)

-- The plan of one book, from its gaps.
unfoldable pub plan_from : ℕ → List Location → Gaps → List PlanRow
plan_from isbn ls gaps =
    let st : Planning = record { gaps = gaps; plan = [] } in
    let moved = phase_a_fallback isbn ls (wh_to_stores ls) (phase_a isbn (wh_to_stores ls) st) in
    (phase_c isbn ls (wh_to_stores ls) (phase_b isbn ls moved)).plan

unfoldable pub plan_book : Floats → ℕ → World → ℕ → List PlanRow
plan_book x snapshot w isbn = plan_from isbn (loc_meta w) (initial_gaps x snapshot isbn w)
