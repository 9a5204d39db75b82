-- ===== src/Chained/Sums.antt =====
-- The sum of the quantities of a distribution, against the quantity that arrives.
use bookflow_ai_apps.Prelude.{
  ℕ, suc, ◌+◌, ◌-◌, ◌*◌, ◌/◌, ◌<◌, ◌≡◌, ◌⊎◌, ◌≢◌, refl, Bool, Option, some, inl, inr, List, [], ◌∷◌,
  ◌++◌, arith, min, length, opt_eq, ==_refl, All, ltb, leb, map, Bool-cases, if◌then◌else◌,
}
use bookflow_ai_apps.Sql.{rows_where}
use bookflow_ai_apps.Orders.{Order, Platform, World}
use bookflow_ai_apps.Chained.{
  Share, total, allocate, even_from, even_split, chained_order, insert_chained, insert_all,
  or_today, sort_shares, in_region, store_demands, forecast_split, shortage_split, splits,
}

-- Both proportional splits hand out all that arrives, whatever the float quotients are.
total-allocate :
    (share : ℕ → ℕ) (qty : ℕ) (s : Share) (ss : List Share)
    → total (allocate share qty (s ∷ ss)) ≡ qty
unfolding allocate
total-allocate share qty s [] = ground arith
total-allocate share qty s (t ∷ ss) =
    ground (arith, total-allocate share (qty - min (share s.1) qty) t ss)

abbrev pub IsPositive : Share → Type 0
IsPositive s = 0 < s.1

allocate-IsPositive :
    (share : ℕ → ℕ) (qty : ℕ) (ss : List Share) → All IsPositive (allocate share qty ss)
unfolding allocate
allocate-IsPositive share qty [] = tt
allocate-IsPositive share qty (s ∷ []) = ground arith
allocate-IsPositive share qty (s ∷ t ∷ ss) =
    ground (arith, allocate-IsPositive share (qty - min (share s.1) qty) (t ∷ ss))

total-even_from :
    (i base extra : ℕ) (locs : List ℕ)
    → total (even_from i base extra locs) ≡ base * length locs + min (extra - i) (length locs)
unfolding even_from
total-even_from i base extra [] = omega arith
total-even_from i base extra (loc ∷ locs) = ground (arith, total-even_from (i + 1) base extra locs)

quotient_and_rest : (q n : ℕ) → q / suc n * suc n + min (q - q / suc n * suc n - 0) (suc n) ≡ q
quotient_and_rest q n = omega arith

-- The equal split hands out all that arrives.
pub total-even_split : (qty loc : ℕ) (locs : List ℕ) → total (even_split qty (loc ∷ locs)) ≡ qty
unfolding even_split
total-even_split qty loc locs =
    rw
      (total-even_from 0 (qty / length (loc ∷ locs))
        (qty - qty / length (loc ∷ locs) * length (loc ∷ locs)) (loc ∷ locs))
      (quotient_and_rest qty (length locs))

-- A distribution is empty, or it hands out all that arrives.
abbrev pub IsComplete : ℕ → List Share → Type 0
IsComplete qty ss = (ss ≡ []) ⊎ (total ss ≡ qty)

allocate-IsComplete :
    (share : ℕ → ℕ) (qty : ℕ) (ss : List Share) → IsComplete qty (allocate share qty ss)
unfolding allocate
allocate-IsComplete share qty [] = inl refl
allocate-IsComplete share qty (s ∷ ss) = inr (total-allocate share qty s ss)

even_split-IsComplete : (qty : ℕ) (locs : List ℕ) → IsComplete qty (even_split qty locs)
unfolding even_split even_from
even_split-IsComplete qty [] = inl refl
even_split-IsComplete qty (loc ∷ locs) = inr (total-even_split qty loc locs)

shortage_split-IsComplete :
    (p : Platform) (qty : ℕ) (ss : List Share) → IsComplete qty (shortage_split p qty ss)
unfolding shortage_split
shortage_split-IsComplete p qty ss = elim (Bool-cases (leb (total ss) 0)) [
  | inl t ↦ rw t (even_split-IsComplete qty (map (λ s. s.0) ss))
  | inr f ↦ rw f (allocate-IsComplete _ qty ss)
]

-- The distribution of an arriving quantity over a region is empty, or its quantities add up to
-- exactly what arrives, whichever of the three rules applies and whatever the float quotients are.
pub splits-IsComplete :
    (p : Platform) (wh_id : Option ℕ) (isbn qty : ℕ) (w : World)
    → IsComplete qty (splits p wh_id isbn qty w)
unfolding splits forecast_split
splits-IsComplete p wh_id isbn qty w = elim (Bool-cases (leb (total demands) 0)) [
  | inl t ↦ rw t (shortage_split-IsComplete p qty _)
  | inr f ↦ rw f (allocate-IsComplete _ qty (sort_shares demands))
]
  where
    demands : List Share
    demands =
        store_demands w.today isbn w.forecasts (rows_where (in_region wh_id) w.stock.locations)

-- The quantities of the orders that were chained to a parent.
abbrev is_child : ℕ → Order → Bool
is_child parent_id o = opt_eq o.parent_order_id (some parent_id)

unfoldable pub chained_qty : ℕ → List Order → ℕ
chained_qty parent_id [] = 0
chained_qty parent_id (o ∷ os) =
    let rest = chained_qty parent_id os in if is_child parent_id o then o.qty + rest else rest

chained_qty-append :
    (parent_id : ℕ) (os ps : List Order)
    → chained_qty parent_id (os ++ ps) ≡ chained_qty parent_id os + chained_qty parent_id ps
unfolding chained_qty
chained_qty-append parent_id [] ps = omega arith
chained_qty-append parent_id (o ∷ os) ps = ground (arith, chained_qty-append parent_id os ps)

insert_chained-qty :
    (p : Platform) (parent_id wh_loc isbn arrival : ℕ) (ss : List Share) (w : World)
    → chained_qty parent_id (insert_chained p parent_id wh_loc isbn arrival ss w).1.orders
      ≡ chained_qty parent_id w.orders + total ss
unfolding insert_chained
insert_chained-qty p parent_id wh_loc isbn arrival [] w = omega arith
insert_chained-qty p parent_id wh_loc isbn arrival (s ∷ ss) w = elim (Bool-cases (ltb 0 s.1)) [
  | inl t ↦
      rw
        (
          t,
          insert_chained-qty p parent_id wh_loc isbn arrival ss
              (record w { orders = w.orders ++ o ∷ [] }),
        )
        (unfold chained_qty in
          ground (arith, chained_qty-append parent_id w.orders (o ∷ []), ==_refl parent_id))
  | inr f ↦ rw (f, insert_chained-qty p parent_id wh_loc isbn arrival ss w) (ground arith)
]
  where
    o : Order
    o = chained_order p parent_id wh_loc isbn arrival s w

-- The orders that an approval chains to its parent carry exactly the parent's quantity into the
-- stores, unless the distribution found no store.
pub insert_all-qty :
    (p : Platform) (parent_id wh_loc : ℕ) (wh_id : Option ℕ) (isbn qty : ℕ) (arrival : Option ℕ)
    (w : World)
    → splits p wh_id isbn qty w ≢ []
    → chained_qty parent_id (insert_all p parent_id wh_loc wh_id isbn qty arrival w).1.orders
      ≡ chained_qty parent_id w.orders + qty
insert_all-qty p parent_id wh_loc wh_id isbn qty arrival w some_store =
    elim (splits-IsComplete p wh_id isbn qty w) [
      | inl none_found ↦ absurd (some_store none_found)
      | inr complete ↦ omega (
        arith,
        insert_chained-qty p parent_id wh_loc isbn (or_today p arrival w.today + 1)
            (splits p wh_id isbn qty w) w,
      )
    ]
