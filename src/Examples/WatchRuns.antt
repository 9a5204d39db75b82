-- ===== src/Examples/WatchRuns.antt =====
-- Runs of the job that fetches requests for new books.
use bookflow_ai_apps.Prelude.{◌≡◌, refl, some, [], ◌∷◌, pos}
use bookflow_ai_apps.Sql.{rows_where, update_where}
use bookflow_ai_apps.Watcher.{
  Item, not_a_number, number, Feed, upsert_book, insert_request, take_in, poll,
}
use bookflow_ai_apps.Watcher.Once.{poll_again}

abbrev offered : Item
offered = record {
  isbn13 = some 300;
  publisher_id = some 4;
  price_sales = number (pos 15);
  requester_email = some "desk@p.kr";
}

abbrev unpriced : Item
unpriced = record offered { isbn13 = some 301; price_sales = not_a_number }

abbrev feed : Feed
feed = record { books = []; requests = []; audit = []; jobs = []; now = 40 }

poll_again_example :
    let first = poll (λ i. i) (offered ∷ unpriced ∷ []) feed in
    let second = poll (λ i. i) (offered ∷ unpriced ∷ []) first in
    (second.requests ≡ first.requests) × (second.jobs ≡ first.jobs)
poll_again_example = poll_again (λ i. i) (λ i. i) (offered ∷ unpriced ∷ []) feed

-- The first run notices the request with a price, and no other.
first_run : (poll (λ i. i) (offered ∷ unpriced ∷ []) feed).jobs ≡ (0, some "desk@p.kr") ∷ []
unfolding poll take_in insert_request upsert_book rows_where update_where
first_run = refl
