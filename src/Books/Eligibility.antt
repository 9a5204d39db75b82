-- ===== src/Books/Eligibility.antt =====
-- What a switched book may still be proposed for.
use Prim.Native.String.{String}
use bookflow_ai_apps.Prelude.{
  ℕ, ◌≡◌, Bool, true, false, Option, List, [], ◌∷◌, arith, inl, inr, All, Bool-cases, fetchone,
  Option-cases,
}
use bookflow_ai_apps.Sql.{rows_where, update_where}
use bookflow_ai_apps.Exec.{ok}
use bookflow_ai_apps.Auth.{AuthContext}
use bookflow_ai_apps.Decision.{Book, check_book_decision_eligibility}
use bookflow_ai_apps.Books.{
  Mode, normal, soft_off, BookRow, Catalogue, is_book, set_mode, is_valid, change_rows,
  change_book_status,
}

-- Whether the book may be moved at all, and whether it may be ordered from its publisher.
abbrev pub eligible : Mode → Bool × Bool
eligible normal = (true, true)
eligible soft_off = (true, false)
eligible _ = (false, false)

-- Every row of the book allows what the mode allows.
abbrev pub Allows : ℕ → Bool × Bool → BookRow → Type 0
Allows isbn e r =
    is_book isbn r ≡ true
    → check_book_decision_eligibility r.book.active r.book.discontinue_mode ≡ e

module _ (isbn : ℕ) (mode : Mode) (reason : Option String) (user now : ℕ) where
  set_mode-eligible :
      (r : BookRow)
      → is_valid mode ≡ true
      → let b = (set_mode mode reason user now r).book in
        check_book_decision_eligibility b.active b.discontinue_mode ≡ eligible mode
  unfolding set_mode check_book_decision_eligibility
  set_mode-eligible r valid = ground arith

  update_where-Allows :
      (rs : List BookRow)
      → is_valid mode ≡ true
      → All
          (Allows isbn (eligible mode))
          (update_where (is_book isbn) (set_mode mode reason user now) rs)
  unfolding update_where
  update_where-Allows [] valid = tt
  update_where-Allows (r ∷ rs) valid = elim (Bool-cases (is_book isbn r)) [
    | inl t ↦ rw t ((λ h. set_mode-eligible r valid), update_where-Allows rs valid)
    | inr f ↦ rw f ((λ h. absurd (ground arith)), update_where-Allows rs valid)
  ]

-- After an answered switch, every row of the book allows decisions what the mode says: in normal
-- mode all, in the soft mode transfers but no publisher orders, and switched off nothing.
pub change_book_status-Allows :
    (isbn : ℕ) (mode : Mode) (reason : Option String) (ctx : AuthContext) (c : Catalogue) (b : Book)
    → (change_book_status isbn mode reason ctx c).0 ≡ ok b
    → (check_book_decision_eligibility b.active b.discontinue_mode ≡ eligible mode)
      × All (Allows isbn (eligible mode)) (change_book_status isbn mode reason ctx c).1.books
unfolding change_book_status change_rows
change_book_status-Allows isbn mode reason ctx c b h = elim (Bool-cases (is_valid mode)) [
  | inl valid ↦ elim (Option-cases (fetchone (rows_where (is_book isbn) c.books))) [
    | inl missing ↦ ground (arith, missing)
    | inr (old, row) ↦ (
      ground (arith, row, valid, set_mode-eligible isbn mode reason ctx.user_id c.now old valid),
      ground
          (arith, row, valid, update_where-Allows isbn mode reason ctx.user_id c.now c.books valid),
    )
  ]
  | inr f ↦ ground (arith, f)
]
