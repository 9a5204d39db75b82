-- ===== src/Books.antt =====
-- The switch of a book: POST /books/{isbn13}/status of
-- eks-pods/intervention-svc/src/routes/intervention.py, over the table `books`.
pub mod Eligibility
use Prim.Native.String.{String}
use bookflow_ai_apps.Prelude.{
  ℕ, Bool, true, false, not, Option, none, some, List, [], ◌∷◌, ◌++◌, ◌==◌, if◌then◌else◌, fetchone,
  map,
}
use bookflow_ai_apps.Sql.{rows_where, update_where}
use bookflow_ai_apps.Exec.{
  http, Exec, pure, raise, gets, or_raise, ◌>>=◌, ◌>>◌, modify, raise_if, transaction,
}
use bookflow_ai_apps.Auth.{AuthContext, is_hq}
use bookflow_ai_apps.Decision.{Book, DiscontinueMode, still_sold, inactive, soft_discontinue}

-- The mode that a request names; the last is any other text.
pub data Mode : Type 0 where
  normal soft_off off : Mode
  unknown : Mode

-- A row of `books`: the columns that proposals read, and those that record the switch.
pub record BookRow : Type 0 where
  pub book : Book
  pub discontinue_reason : Option String
  pub discontinue_at : Option ℕ
  pub discontinue_by : Option ℕ
  pub reactivated_at : Option ℕ

pub record Catalogue : Type 0 where
  pub books : List BookRow
  pub audit : List (ℕ × ℕ × Mode)  -- actor, book, mode
  pub now : ℕ

abbrev undo : Catalogue → Catalogue → Catalogue
undo before after = before

abbrev pub is_book : ℕ → BookRow → Bool
is_book isbn r = r.book.isbn13 == isbn

abbrev with_mode : Bool → DiscontinueMode → Book → Book
with_mode active mode b = record b { active = active; discontinue_mode = mode }

-- The SET list of each mode.
abbrev switch_off : Bool → DiscontinueMode → Option String → ℕ → ℕ → BookRow → BookRow
switch_off active mode reason user now r = record {
  book = with_mode active mode r.book;
  discontinue_reason = reason;
  discontinue_at = some now;
  discontinue_by = some user;
  reactivated_at = none;
}

unfoldable pub set_mode : Mode → Option String → ℕ → ℕ → BookRow → BookRow
set_mode normal reason user now r = record {
  book = with_mode true still_sold r.book;
  discontinue_reason = none;
  discontinue_at = none;
  discontinue_by = none;
  reactivated_at = some now;
}
set_mode soft_off reason user now r = switch_off true soft_discontinue reason user now r
set_mode off reason user now r = switch_off false inactive reason user now r
set_mode unknown reason user now r = r

abbrev pub is_valid : Mode → Bool
is_valid unknown = false
is_valid _ = true

unfoldable pub change_rows : ℕ → Mode → Option String → AuthContext → Exec Catalogue Book
change_rows isbn mode reason ctx = do
  row ← gets (λ c. fetchone (rows_where (is_book isbn) c.books))
  modify (λ c. record c {
    books = update_where (is_book isbn) (set_mode mode reason ctx.user_id c.now) c.books;
  })
  old ← or_raise row (http 404)
  new ← gets (λ c. set_mode mode reason ctx.user_id c.now old)
  modify (λ c. record c { audit = c.audit ++ (ctx.user_id, isbn, mode) ∷ [] })
  pure new.book

-- POST /intervention/books/{isbn13}/status
unfoldable pub change_book_status : ℕ → Mode → Option String → AuthContext → Exec Catalogue Book
change_book_status isbn mode reason ctx = do
  raise_if (not (is_hq ctx.role)) (http 403)
  raise_if (not (is_valid mode)) (http 400)
  transaction undo (change_rows isbn mode reason ctx)
