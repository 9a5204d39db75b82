-- ===== src/Inventory/Totals.antt =====
-- The copies of a book in all locations, and what `adjust` does to their number.
use bookflow_ai_apps.Prelude.{
  ℕ, ◌≡◌, ap, sym, ◌∙◌, true, inl, inr, ◌⊎◌, ◌==◌, if◌then◌else◌, ℤ, pos, ◌+ℤ◌, sum_by, int_laws,
}
use bookflow_ai_apps.Sql.{sum_by-update_one}
use bookflow_ai_apps.Exec.{Fault, ok, err, Result-cases}
use bookflow_ai_apps.Auth.{AuthContext}
use bookflow_ai_apps.Inventory.{
  StockRow, Stock, AdjustRequest, AdjustResponse, is_cell, add_on_hand, adjust,
}
use bookflow_ai_apps.Inventory.Bounds.{
  IsKeyed, Adjusted, adjust-Adjusted, adjust-err_unchanged, cell_row,
}
use bookflow_ai_apps.Sql.{fetchone-where}

abbrev pub copies_in : ℕ → StockRow → ℤ
copies_in isbn r = if r.isbn13 == isbn then r.on_hand else pos 0

unfoldable pub copies : ℕ → Stock → ℤ
copies isbn s = sum_by (copies_in isbn) s.rows

-- The part of a change that concerns the book.
abbrev pub change_of : ℕ → ℕ → ℤ → ℤ
change_of isbn changed d = if changed == isbn then d else pos 0

Adjusted-copies :
    (i : ℕ) (req : AdjustRequest) (ctx : AuthContext) (s s' : Stock) (old : StockRow)
    → IsKeyed s.rows
    → Adjusted req ctx s s' old
    → copies i s' ≡ copies i s +ℤ change_of i req.isbn13 req.delta
unfolding copies
Adjusted-copies i req ctx s s' old keyed a = rw a.rows (
    grind (
      int_laws,
      sum_by-update_one (copies_in i) (is_cell req.isbn13 req.location_id)
          (add_on_hand ctx req.delta) s.rows old
          (cell_row req.isbn13 req.location_id s.rows old keyed a.found),
      fetchone-where (is_cell req.isbn13 req.location_id) s.rows a.found,
    ))

-- With Redis up and distinct cells, adjust moves the number of copies of a book in all locations
-- by the part of its delta that concerns the book, or fails and changes nothing.
pub adjust-copies :
    (i : ℕ) (req : AdjustRequest) (ctx : AuthContext) (s : Stock)
    → IsKeyed s.rows
    → s.redis_up ≡ true
    → ((resp : AdjustResponse) × ((adjust req ctx s).0 ≡ ok resp)
        × (copies i (adjust req ctx s).1 ≡ copies i s +ℤ change_of i req.isbn13 req.delta))
      ⊎ ((e : Fault) × (adjust req ctx s ≡ (err e, s)))
adjust-copies i req ctx s keyed up = elim (Result-cases (adjust req ctx s)) [
  | inl (resp, s', e) ↦
      let (old, a, _, _) = adjust-Adjusted req ctx s s' resp e in
      inl (resp, ap (λ r. r.0) e, rw e (Adjusted-copies i req ctx s s' old keyed a))
  | inr (x, s', e) ↦ inr (x, e ∙ ap (λ t. (err x, t)) (failed x s' e))
]
  where
    failed : (x : Fault) (s' : Stock) → adjust req ctx s ≡ (err x, s') → s' ≡ s
    failed x s' e = sym (ap (λ r. r.1) e) ∙ adjust-err_unchanged req ctx s x up (ap (λ r. r.0) e)
