-- ===== src/Tests/Env.antt =====
-- A server with one price and one chart for `btc_usd`, unreachable for any other ticker, and a small
-- table of prices.
use deribit_price_collector.Prelude.{String, refl, List, [], ◌∷◌, str_eq, if◌then◌else◌}
use deribit_price_collector.Prelude.Int.{ℤ, pos, ◌*ℤ◌}
use deribit_price_collector.Exceptions.{Result, ok, err, http_error, value_error, other}
use deribit_price_collector.Table.{Table}
use deribit_price_collector.Table.Unique.{IsTable}
use deribit_price_collector.Client.{Http, Response}
use deribit_price_collector.Client.Value.{Json, Items, int, arr, obj, nil, cons, end, field}

-- 65000 at 1 700 000 000.5 seconds
abbrev pub price_answer : Json
price_answer = obj (
    field "result" (obj (field "index_price" (int (pos 65000)) end))
      (field "usIn" (int (pos 1_700_000_000_500_000)) end))

abbrev point : ℤ → ℤ → Json
point timestamp_ms price = arr (cons (int timestamp_ms) (cons (int price) nil))

abbrev pub chart_items : Items
chart_items = cons (point (pos 100_999) (pos 65000)) (cons (point (pos 160_000) (pos 65010)) nil)

abbrev answer_of : String → Json
answer_of endpoint =
    if str_eq endpoint "/public/get_index_price"
    then price_answer
    else obj (field "result" (arr chart_items) end)

abbrev answers : String → Json → Result Response
answers ticker answer =
    if str_eq ticker "btc_usd"
    then ok (record { raise_for_status = ok tt; json = ok answer })
    else err http_error

abbrev respond : String → List (String × String) → Result Response
respond endpoint [] = err other
respond endpoint (p ∷ params) = answers p.1 (answer_of endpoint)

abbrev to_units : Json → Result ℤ
to_units (int n) = ok (n *ℤ pos 100_000_000)
to_units _ = err other

abbrev pub http : Http
http = record { get = λ r. respond r.endpoint r.params; decimal = to_units }

-- A server whose answers are no JSON.
abbrev garbled : Result Response
garbled = ok (record { raise_for_status = ok tt; json = err value_error })

abbrev pub garbled_http : Http
garbled_http = record { get = λ r. garbled; decimal = to_units }

-- Two prices of `btc_usd`.
abbrev pub rows : Table
rows =
    record { id = 1; ticker = "btc_usd"; price = pos 5; timestamp = pos 100; created_at = 0 }
    ∷ record { id = 2; ticker = "btc_usd"; price = pos 7; timestamp = pos 160; created_at = 0 }
    ∷ []

pub rows-IsTable : IsTable rows
rows-IsTable = ((record { id = refl; key = refl }, tt), (tt, tt))
