-- ===== src/Tests/Storage.antt =====
-- app/repositories.py at concrete inputs: two stored prices of `btc_usd`, in the database in memory.
use deribit_price_collector.Prelude.{
  List, take, drop, ◌++◌, ◌≡◌, refl, ◌↔◌, [], ◌∷◌, Option, none, some, String,
}
use deribit_price_collector.Prelude.Int.{ℤ, pos, ◌≤ℤ◌, ◌<ℤ◌}
use deribit_price_collector.Prelude.Order.{Ordered, Member}
use deribit_price_collector.Exceptions.{ok}
use deribit_price_collector.Table.{Price, Table, desc}
use deribit_price_collector.Table.Unique.{IsTable, set_price, find}
use deribit_price_collector.Table.Unique.Write.{price_at, put}
use deribit_price_collector.Repository.{
  save_price, get_timestamps_in_range, get_latest_timestamp, get_latest_by_ticker,
  get_by_ticker_and_date_range, latest_stmt, key_stmt,
}
use deribit_price_collector.Repository.Save.{save_price_lem, save_price_idem}
use deribit_price_collector.Repository.Queries.{HasPrice, range_stmt, get_timestamps_in_range_lem}
use deribit_price_collector.Repository.Latest.{IsLatest, time_of, get_latest_timestamp_lem}
use deribit_price_collector.Repository.Paging.{listing, page_of_listing, pages_compose}
use deribit_price_collector.Tests.Memory.{memory, memory-IsEngine}
use deribit_price_collector.Tests.Env.{rows, rows-IsTable}

abbrev first : Price
first = record { id = 1; ticker = "btc_usd"; price = pos 5; timestamp = pos 100; created_at = 0 }

abbrev second : Price
second = record { id = 2; ticker = "btc_usd"; price = pos 7; timestamp = pos 160; created_at = 0 }

-- The second row with another price, and the table with it.
abbrev corrected : Price
corrected = record {
  id = 2;
  ticker = "btc_usd";
  price = pos 9;
  timestamp = pos 160;
  created_at = 0;
}

abbrev updated : Table
updated = first ∷ corrected ∷ []

save_corrected : save_price memory "btc_usd" (pos 9) (pos 160) rows ≡ ok (corrected, updated)
unfolding save_price memory set_price
save_corrected = refl

save_again : save_price memory "btc_usd" (pos 9) (pos 160) updated ≡ ok (corrected, updated)
unfolding save_price memory set_price
save_again = refl

-- A new key: a row with a new id.
save_other :
    save_price memory "eth_usd" (pos 3) (pos 160) rows
    ≡ ok (
      record { id = 6; ticker = "eth_usd"; price = pos 3; timestamp = pos 160; created_at = 0 },
      first
          ∷ second
          ∷ record {
            id = 6;
            ticker = "eth_usd";
            price = pos 3;
            timestamp = pos 160;
            created_at = 0;
          }
          ∷ [],
    )
unfolding save_price memory
save_other = refl

key_run : memory.execute (key_stmt memory "btc_usd" (pos 160)) rows ≡ ok (second ∷ [])
unfolding memory
key_run = refl

save_price_example :
    (out : Price × Table) × (save_price memory "btc_usd" (pos 9) (pos 160) rows ≡ ok out)
    × IsTable out.1
    × (find "btc_usd" (pos 160) out.1 ≡ some out.0)
    × (out.0.price ≡ pos 9)
    × ((a : String) (b : ℤ)
        → price_at out.1 a b ≡ put (price_at rows) "btc_usd" (pos 160) (pos 9) a b)
save_price_example =
    save_price_lem memory memory-IsEngine "btc_usd" (pos 9) (pos 160) rows (second ∷ [])
      rows-IsTable key_run

abbrev outcome : Price × Table
outcome = (corrected, updated)

save_price_idem_example : outcome ≡ outcome
save_price_idem_example =
    save_price_idem memory memory-IsEngine "btc_usd" (pos 9) (pos 160) rows outcome outcome
      rows-IsTable save_corrected save_again

range_run :
    get_timestamps_in_range memory "btc_usd" (pos 90) (pos 200) rows ≡ ok (pos 100 ∷ pos 160 ∷ [])
unfolding get_timestamps_in_range memory
range_run = refl

in_range_run : memory.execute (range_stmt "btc_usd" (pos 90) (pos 200)) rows ≡ ok rows
unfolding memory
in_range_run = refl

get_timestamps_in_range_example :
    (timestamps : List ℤ) × (get_timestamps_in_range memory "btc_usd" (pos 90) (pos 200) rows
      ≡ ok timestamps)
    × Ordered ◌<ℤ◌ timestamps
    × ((n : ℤ) → Member n timestamps ↔ ((pos 90 ≤ℤ n) × (n ≤ℤ pos 200) × HasPrice rows "btc_usd" n))
get_timestamps_in_range_example =
    get_timestamps_in_range_lem memory memory-IsEngine rows rows-IsTable "btc_usd" (pos 90)
      (pos 200) rows in_range_run

newest_run : memory.execute (latest_stmt memory "btc_usd") rows ≡ ok (second ∷ [])
unfolding memory
newest_run = refl

get_latest_timestamp_example :
    (found : Option Price) × (get_latest_timestamp memory "btc_usd" rows ≡ ok (time_of found))
    × IsLatest rows "btc_usd" found
get_latest_timestamp_example =
    get_latest_timestamp_lem memory memory-IsEngine rows "btc_usd" (second ∷ []) newest_run

latest_run : get_latest_by_ticker memory "btc_usd" rows ≡ ok (some second)
unfolding get_latest_by_ticker memory
latest_run = refl

page_run :
    get_by_ticker_and_date_range memory "btc_usd" (some (pos 90)) none 1 1 desc rows
    ≡ ok (first ∷ [])
unfolding get_by_ticker_and_date_range memory
page_run = refl

front_run : get_by_ticker_and_date_range memory "btc_usd" none none 1 0 desc rows ≡ ok (second ∷ [])
unfolding get_by_ticker_and_date_range memory
front_run = refl

back_run : get_by_ticker_and_date_range memory "btc_usd" none none 1 1 desc rows ≡ ok (first ∷ [])
unfolding get_by_ticker_and_date_range memory
back_run = refl

whole_run :
    get_by_ticker_and_date_range memory "btc_usd" none none 2 0 desc rows ≡ ok (second ∷ first ∷ [])
unfolding get_by_ticker_and_date_range memory
whole_run = refl

page_of_listing_example : second ∷ [] ≡ take 1 (drop 0 (listing rows "btc_usd" none none desc))
page_of_listing_example =
    page_of_listing rows rows-IsTable "btc_usd" none none desc memory 1 0 (second ∷ [])
      memory-IsEngine front_run

pages_compose_example : second ∷ first ∷ [] ≡ (second ∷ []) ++ (first ∷ [])
pages_compose_example =
    pages_compose memory rows "btc_usd" none none desc 1 1 0 (second ∷ []) (first ∷ [])
      (second ∷ first ∷ []) memory-IsEngine rows-IsTable front_run back_run whole_run
