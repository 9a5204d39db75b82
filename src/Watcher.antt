-- ===== src/Watcher.antt =====
-- The job that fetches requests for new books from the publishers: eks-pods/publisher-watcher/src/poll.py,
-- over the tables `books` and `new_book_requests` and the rows of `audit_log` that it writes.
pub mod Once
use Prim.Native.String.{String}
use bookflow_ai_apps.Prelude.{
  ℕ, suc, Bool, true, false, ◌&&◌, Option, none, some, List, [], ◌∷◌, ◌++◌, ◌==◌, if◌then◌else◌,
  any_of, fetchone, length, ℤ, pos, negsuc,
}
use bookflow_ai_apps.Sql.{rows_where, update_where}
use bookflow_ai_apps.Preorders.{RequestStatus, new, fetched}

-- A field of the publisher's answer that should be a number.
pub data Raw : Type 0 where
  missing not_a_number : Raw
  number : ℤ → Raw

-- The fields of an answer that decide what becomes of it. An ISBN that is blank counts as none.
pub record Item : Type 0 where
  pub isbn13 : Option ℕ
  pub publisher_id : Option ℕ
  pub price_sales : Raw
  pub requester_email : Option String

pub record Row : Type 0 where
  pub id : ℕ
  pub isbn13 : ℕ
  pub publisher_id : ℕ
  pub price_sales : ℕ
  pub requester_email : Option String
  pub status : RequestStatus
  pub fetched_at : Option ℕ

pub record CatalogRow : Type 0 where
  pub isbn13 : ℕ
  pub price_sales : ℕ

-- A notice to be sent after the commit: the id and the publisher's address.
abbrev pub Job : Type 0
Job = ℕ × Option String

pub record Feed : Type 0 where
  pub books : List CatalogRow
  pub requests : List Row
  pub audit : List ℕ
  pub jobs : List Job
  pub now : ℕ

-- `_normalize_request`: a price that is not positive is none, and so is a publisher 0, which is false.
abbrev positive : Raw → Option ℕ
positive (number (pos (suc n))) = some (suc n)
positive _ = none

abbrev truthy : Option ℕ → Option ℕ
truthy (some (suc n)) = some (suc n)
truthy _ = none

pub record Normal : Type 0 where
  pub isbn13 : ℕ
  pub publisher_id : ℕ
  pub price_sales : ℕ
  pub requester_email : Option String

abbrev pub normalize : Item → Option Normal
normalize it = filled it.isbn13 (truthy it.publisher_id) (positive it.price_sales)
  where
    filled : Option ℕ → Option ℕ → Option ℕ → Option Normal
    filled (some isbn) (some publisher) (some price) = some (record {
      isbn13 = isbn;
      publisher_id = publisher;
      price_sales = price;
      requester_email = it.requester_email;
    })
    filled _ _ _ = none

-- BOOKS_UPSERT_SQL and NEWREQ_INSERT_SQL, both with ON CONFLICT (isbn13) DO NOTHING. The database gives the
-- id.
unfoldable pub upsert_book : Normal → List CatalogRow → List CatalogRow
upsert_book n bs =
    if any_of (λ b. b.isbn13 == n.isbn13) bs
    then bs
    else bs ++ record { isbn13 = n.isbn13; price_sales = n.price_sales } ∷ []

abbrev pub is_for : ℕ → Row → Bool
is_for isbn r = r.isbn13 == isbn

unfoldable pub insert_request : (ℕ → ℕ) → Normal → List Row → List Row
insert_request serial n rs =
    if any_of (is_for n.isbn13) rs
    then rs
    else rs
      ++ record {
        id = serial (length rs);
        isbn13 = n.isbn13;
        publisher_id = n.publisher_id;
        price_sales = n.price_sales;
        requester_email = n.requester_email;
        status = new;
        fetched_at = none;
      }
        ∷ []

-- UPDATE new_book_requests … WHERE isbn13 = %s AND status = 'NEW' RETURNING id, requester_email
abbrev is_new : RequestStatus → Bool
is_new new = true
is_new _ = false

abbrev pub awaits : ℕ → Row → Bool
awaits isbn r = is_for isbn r && is_new r.status

abbrev pub set_fetched : ℕ → Row → Row
set_fetched now r = record r { status = fetched; fetched_at = some now }

abbrev or_own : Option String → Option String → Option String
or_own none own = own
or_own (some e) own = some e

abbrev pub notify_later : Normal → Option Row → Feed → Feed
notify_later n none w = w
notify_later n (some r) w = record w {
  audit = w.audit ++ r.id ∷ [];
  jobs = w.jobs ++ (r.id, or_own r.requester_email n.requester_email) ∷ [];
}

unfoldable pub take_in : (ℕ → ℕ) → Normal → Feed → Feed
take_in serial n w =
    let rs = insert_request serial n w.requests in
    notify_later n (fetchone (rows_where (awaits n.isbn13) rs)) (record w {
      books = upsert_book n w.books;
      requests = update_where (awaits n.isbn13) (set_fetched w.now) rs;
    })

abbrev pub take_in_if : (ℕ → ℕ) → Option Normal → Feed → Feed
take_in_if serial none w = w
take_in_if serial (some n) w = take_in serial n w

-- The loop of `main`, whose jobs are sent after the commit.
unfoldable pub poll : (ℕ → ℕ) → List Item → Feed → Feed
poll serial [] w = w
poll serial (it ∷ rest) w = poll serial rest (take_in_if serial (normalize it) w)
