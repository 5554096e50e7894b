-- ===== src/Cli/Laws.antt =====
-- The command line tools against the tasks that they call.
use deribit_price_collector.Prelude.{
  String, ◌≡◌, refl, ◌↔◌, ◌⊎◌, inl, inr, false, Bool-cases, Option, none, some, List, [], ◌∷◌, any,
  str_eq, arith,
}
use deribit_price_collector.Prelude.Int.{ℤ, pos, eq_ℤ}
use deribit_price_collector.Exceptions.{err, value_error}
use deribit_price_collector.Config.{Config}
use deribit_price_collector.Providers.{range_value, range_of_value}
use deribit_price_collector.Table.{Table}
use deribit_price_collector.Table.Engine.{Engine}
use deribit_price_collector.Client.{Http}
use deribit_price_collector.Tasks.Backfill.{backfill_price_history}
use deribit_price_collector.Tasks.Reconcile.{
  reconcile_recent_prices, select_tickers, effective_lookback,
}
use deribit_price_collector.Cli.{backfill_main, reconcile_main, tickers_or_all, range_choices}

no_range :
    (s : String)
    → any (λ choice. str_eq s choice) range_choices ≡ false
    → range_of_value s ≡ err value_error
unfolding range_choices range_value range_of_value
no_range s h = ground arith

no_choice :
    (s : String)
    → range_of_value s ≡ err value_error
    → any (λ choice. str_eq s choice) range_choices ≡ false
unfolding range_choices range_value range_of_value
no_choice s h = ground arith

-- The tool for backfills refuses a range exactly if the task would not know it, and for every other range
-- it runs the task, for all configured tickers if none is named.
pub backfill_main_lem :
    (c : Config) (http : Http) (e : Engine) (tickers : Option (List String)) (range_name : String)
    (t : Table)
    → ((backfill_main c http e tickers range_name t ≡ none)
        ↔ (range_of_value range_name ≡ err value_error))
      × ((range_of_value range_name ≡ err value_error)
          ⊎ (backfill_main c http e tickers range_name t
              ≡ some (backfill_price_history c http e (tickers_or_all c tickers) range_name t)))
unfolding backfill_main
backfill_main_lem c http e tickers range_name t =
    elim (Bool-cases (any (λ choice. str_eq range_name choice) range_choices)) [
      | inl p ↦ ((λ h. cc (rw p at h), λ h. cc (p, no_choice range_name h)), inr (rw p))
      | inr p ↦ ((λ h. no_range range_name p, λ h. rw p), inl (no_range range_name p))
    ]

all_tickers :
    (c : Config) (ts : List String) → ts ≡ c.tickers → select_tickers c (some ts) ≡ c.tickers
unfolding select_tickers
all_tickers c [] h = refl
all_tickers c (t ∷ ts) h = h

whole_lookback :
    (c : Config)
    → effective_lookback c (some c.reconciliation_lookback_sec) ≡ c.reconciliation_lookback_sec
unfolding effective_lookback
whole_lookback c = elim (Bool-cases (eq_ℤ c.reconciliation_lookback_sec (pos 0))) [
  | inl e ↦ rw e
  | inr e ↦ rw e
]

-- Without arguments the tool reconciles what the scheduled task does.
pub reconcile_main_default :
    (c : Config) (e : Engine) (now : ℤ) (t : Table)
    → reconcile_main c e now none none t ≡ reconcile_recent_prices c e now none none t
unfolding reconcile_main reconcile_recent_prices tickers_or_all
reconcile_main_default c e now t =
    rw (all_tickers c c.tickers refl, whole_lookback c)
      (unfold reconcile_recent_prices select_tickers effective_lookback in refl)
