-- ===== src/Locations.antt =====
-- The table `locations`, which every service reads and none of these operations writes.
use bookflow_ai_apps.Prelude.{ℕ, Bool, true, false, Option, none, some, List, ◌==◌, fetchone, map}
use bookflow_ai_apps.Sql.{rows_where}

pub data LocationType : Type 0 where
  wh store_offline store_online : LocationType

pub record Location : Type 0 where
  pub location_id : ℕ
  pub location_type : LocationType
  pub wh_id : Option ℕ
  pub active : Bool

abbrev pub is_wh : LocationType → Bool
is_wh wh = true
is_wh _ = false

abbrev pub is_store : LocationType → Bool
is_store store_offline = true
is_store _ = false

-- SELECT wh_id FROM locations WHERE location_id = %s: no row, or a value that may be NULL.
unfoldable pub select_wh_id : List Location → ℕ → Option (Option ℕ)
unfolding rows_where
select_wh_id ls loc = fetchone (map (λ l. l.wh_id) (rows_where (λ l. l.location_id == loc) ls))

-- The same through a LEFT JOIN on a nullable column: a missing row and a NULL both give NULL.
unfoldable pub joined_wh_id : List Location → Option ℕ → Option ℕ
unfolding select_wh_id
joined_wh_id ls none = none
joined_wh_id ls (some loc) = elim (select_wh_id ls loc) [ none ↦ none | some w ↦ w ]
