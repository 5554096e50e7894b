-- ===== src/Tests/Runs.antt =====
-- The service and the routes run on two stored prices of `btc_usd`, and a division that rounds.
use deribit_price_collector.Prelude.{false, [], ◌∷◌, ◌≡◌, refl, some}
use deribit_price_collector.Prelude.Int.{◌*ℤ◌, floor_div, pos, negsuc}
use deribit_price_collector.Exceptions.{ok}
use deribit_price_collector.Config.{default_config, supported_tickers}
use deribit_price_collector.Providers.{in_supported_ticker_set}
use deribit_price_collector.Services.Candles.Grouping.{group, bucket_at}
use deribit_price_collector.Decimal.{times, sum_of, divide, of_units, of_nat}
use deribit_price_collector.Repository.{
  get_by_ticker_and_date_range, get_all_by_ticker, get_latest_by_ticker,
}
use deribit_price_collector.Schemas.{
  seconds, one_minute, validate_ticker, ticker_with_pagination_query,
}
use deribit_price_collector.Services.Candles.{candles_from, candles_of, candle_of, get_candles}
use deribit_price_collector.Services.Summary.{PriceSummaryResponse, summary_of}
use deribit_price_collector.Services.Summary
use deribit_price_collector.Services.Extremes.{max_of, min_of, average_of}
use deribit_price_collector.Api.Replies.{answer, raised, validation_error, http_exception}
use deribit_price_collector.Api.Prices.{get_all_prices, get_latest_price, no_ticker_data}
use deribit_price_collector.Tests.Memory.{memory}
use deribit_price_collector.Tests.Env.{rows}
use deribit_price_collector.Tests.Serving.{first_page}

-- 5 / 3 of a unit, in 28 digits.
third :
    divide (of_units (pos 500_000_000)) (of_nat 3)
    ≡ ok (record {
      negative = false;
      coefficient = 1_666_666_666_666_666_666_666_666_667;
      exponent = negsuc 26;
    })
unfolding divide
third = refl

-- Runs of the routes.
latest_run :
    get_latest_price default_config memory "btc_usd" rows
    ≡ answer (record { ticker = "btc_usd"; price = pos 7; timestamp = pos 160; created_at = 0 })
unfolding get_latest_price validate_ticker in_supported_ticker_set supported_tickers
    get_latest_by_ticker memory
latest_run = refl

unsupported_run : get_latest_price default_config memory "doge_usd" rows ≡ raised validation_error
unfolding get_latest_price validate_ticker in_supported_ticker_set supported_tickers
unsupported_run = refl

empty_run :
    get_all_prices default_config memory first_page rows
    ≡ raised (http_exception 404 no_ticker_data)
unfolding get_all_prices ticker_with_pagination_query validate_ticker in_supported_ticker_set
    supported_tickers get_all_by_ticker memory
empty_run = refl

-- The two prices lie in the minutes from 60 and from 120.
candles_run :
    get_candles memory "btc_usd" one_minute (pos 0) (pos 200) rows
    ≡ ok (
        record {
          ticker = "btc_usd";
          bucket_start = pos 60;
          bucket_end = pos 119;
          open_price = pos 5;
          high_price = pos 5;
          low_price = pos 5;
          close_price = pos 5;
          average_price = record { negative = false; coefficient = 5; exponent = negsuc 7 };
          points = 1;
        }
        ∷ record {
          ticker = "btc_usd";
          bucket_start = pos 120;
          bucket_end = pos 179;
          open_price = pos 7;
          high_price = pos 7;
          low_price = pos 7;
          close_price = pos 7;
          average_price = record { negative = false; coefficient = 7; exponent = negsuc 7 };
          points = 1;
        }
        ∷ [])
unfolding get_candles candles_from candles_of candle_of group bucket_at average_of divide sum_of
    get_by_ticker_and_date_range memory ◌*ℤ◌ floor_div seconds max_of min_of
candles_run = refl

-- 2 / 5 of a unit is 0.4, and that times 100 is 40.0.
summary_run :
    Summary.get_price_summary memory "btc_usd" (pos 0) (pos 200) rows
    ≡ ok (
        some (record {
          ticker = "btc_usd";
          timestamp_from = pos 0;
          timestamp_to = pos 200;
          points = 2;
          min_price = pos 5;
          max_price = pos 7;
          average_price = record { negative = false; coefficient = 6; exponent = negsuc 7 };
          price_change = pos 2;
          price_change_percent = record {
            negative = false;
            coefficient = 400;
            exponent = negsuc 0;
          };
          start_price = pos 5;
          end_price = pos 7;
          trend = "up";
        }))
unfolding Summary.get_price_summary summary_of average_of divide sum_of get_by_ticker_and_date_range
    memory min_of max_of times
summary_run = refl
