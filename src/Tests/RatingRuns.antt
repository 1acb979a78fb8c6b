-- ===== src/Tests/RatingRuns.antt =====
-- The theorems on ratings, at a run: customer 7 rates shop 3 after the delivery of order 1.
use apna_mandla.Prelude.{false, ◌≡◌, ◌≢◌, refl, none, some, [], ◌∷◌, length, get_or}
use apna_mandla.Prelude.Int.{pos}
use apna_mandla.Schema.{Db, Order, delivered, cod, Rating, target_shop, target_rider}
use apna_mandla.Session.{ok}
use apna_mandla.Ratings.{create_rating, get_rating_summary, Summary}
use apna_mandla.Ratings.Outcomes.{Rated, create_rating_lem, create_rating_once}
use apna_mandla.Ratings.Totals.{count, sum, get, of_target, get_rating_summary_lem}
use apna_mandla.Tests.State.{empty_db, after}

abbrev delivered_order : Order
delivered_order = record {
  id = 1;
  customer_id = 7;
  shop_id = some 3;
  total_amount = pos 10_000;
  status = delivered;
  payment_mode = cod;
  delivery_otp = none;
  assigned_rider_id = some 5;
  broadcast_deadline = none;
  broadcast_radius = 2;
  transfer_count = 0;
  is_archived = false;
}

abbrev at_door : Db
at_door = record empty_db { tables = record empty_db.tables { orders = delivered_order ∷ [] } }

abbrev five_stars : Rating
five_stars = record {
  id = 1;
  order_id = 1;
  user_id = 7;
  target_id = 3;
  target_type = target_shop;
  rating = pos 5;
}

abbrev rated : Db
rated = after at_door (create_rating 1 7 (pos 5) target_shop 3 at_door)

abbrev both_rated : Db
both_rated = after rated (create_rating 1 7 (pos 2) target_rider 5 rated)

record RatingRuns : Type 0 where
  rated_ok : create_rating 1 7 (pos 5) target_shop 3 at_door ≡ ok (five_stars, rated)
  since :
      both_rated.tables.ratings
      ≡ record five_stars { id = 2; target_id = 5; target_type = target_rider; rating = pos 2 }
        ∷ rated.tables.ratings

runs : RatingRuns
unfolding apna_mandla.Table.find_row apna_mandla.Ratings.create_rating
    apna_mandla.Ratings.insert_rating apna_mandla.Ratings.check_target
runs = record { rated_ok = refl; since = refl }

create_rating_lem_example : Rated 1 7 (pos 5) target_shop 3 five_stars at_door rated
create_rating_lem_example =
    create_rating_lem 1 7 (pos 5) target_shop 3 at_door five_stars rated runs.rated_ok

create_rating_once_example :
    create_rating 1 7 (pos 1) target_shop 4 both_rated ≢ ok (five_stars, rated)
create_rating_once_example =
    create_rating_once 1 7 (pos 5) (pos 1) target_shop 3 4 at_door rated both_rated rated five_stars
      five_stars
      (record five_stars { id = 2; target_id = 5; target_type = target_rider; rating = pos 2 } ∷ [])
      runs.rated_ok runs.since

get_rating_summary_lem_example :
    ((get_rating_summary 3 target_shop both_rated.tables.ratings).total_count
      ≡ length (of_target 3 target_shop both_rated.tables.ratings))
    × ((get_rating_summary 3 target_shop both_rated.tables.ratings).total_sum
        ≡ sum (of_target 3 target_shop both_rated.tables.ratings))
    × (get_or
          (get (pos 5) (get_rating_summary 3 target_shop both_rated.tables.ratings).distribution)
          0
        ≡ count (pos 5) (of_target 3 target_shop both_rated.tables.ratings))
get_rating_summary_lem_example =
    get_rating_summary_lem 3 target_shop both_rated.tables.ratings (pos 5)
