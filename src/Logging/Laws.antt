-- ===== src/Logging/Laws.antt =====
-- However often loggers are set up, a record is written once.
use deribit_price_collector.Prelude.{
  ℕ, String, ◌≡◌, refl, ap, ◌⊎◌, inl, inr, true, Bool-cases, [], ◌∷◌, leb, if◌then◌else◌,
}
use deribit_price_collector.Exceptions.{Exn, Result, ok, err}
use deribit_price_collector.Config.{Config}
use deribit_price_collector.Logging.{
  LogRecord, Logger, Logging, initial, level_of, format_json, formatter_of, setup_root, setup_named,
  setup_logger, plain_format, Line, json_line, plain_line, write, emit,
}

-- The states that calls of setup_logger lead to, whether they return or raise.
pub data Reached (c : Config) (upper : String → String) : Logging → Type 0 where
  start : Reached c upper initial
  call :
      (name : String) {s : Logging}
      → Reached c upper s
      → Reached c upper (setup_logger c upper name s).1

-- No handlers, or the one that the settings ask for.
abbrev AtMostOne : Config → Logging → Type 0
AtMostOne c s = (s.handlers ≡ []) ⊎ (s.handlers ≡ record { formatter = formatter_of c } ∷ [])

-- The line that the settings ask for.
abbrev pub line_of : Config → String → String → LogRecord → Line
line_of c now request_id r =
    if c.log_json
    then json_line (format_json now request_id r)
    else plain_line "%(asctime)s - %(name)s - %(levelname)s - %(message)s" now r

module _ (c : Config) (upper : String → String) where
  setup_ok :
      (name : String) (level : ℕ) (s : Logging)
      → level_of (upper c.log_level) ≡ ok level
      → AtMostOne c s
      → (root : ℕ) × (setup_logger c upper name s ≡ (
        ok (record { name = name; level = level; propagate = true }),
        record {
          handlers = record { formatter = formatter_of c } ∷ [];
          root_level = root;
          loggers = record { name = name; level = level; propagate = true } ∷ s.loggers;
        },
      ))
  unfolding setup_logger setup_root setup_named
  setup_ok name level s h (inl e) = (level, rw (e, h, h))
  setup_ok name level s h (inr e) = (s.root_level, rw (e, h))

  setup_err :
      (name : String) (exc : Exn) (s : Logging)
      → level_of (upper c.log_level) ≡ err exc
      → AtMostOne c s
      → ((setup_logger c upper name s).0 ≡ err exc)
        × ((setup_logger c upper name s).1.handlers ≡ record { formatter = formatter_of c } ∷ [])
  unfolding setup_logger setup_root setup_named
  setup_err name exc s h (inl e) = (rw (e, h), rw (e, h))
  setup_err name exc s h (inr e) = (rw (e, h), rw (e, h))

  Reached-AtMostOne : {s : Logging} → Reached c upper s → AtMostOne c s
  Reached-AtMostOne start = inl refl
  Reached-AtMostOne (call name {s = s} r) =
      inr (kept (Reached-AtMostOne r) (level_of (upper c.log_level)) refl)
    where
      kept :
          AtMostOne c s
          → (l : Result ℕ) → level_of (upper c.log_level) ≡ l
          → (setup_logger c upper name s).1.handlers ≡ record { formatter = formatter_of c } ∷ []
      kept b (ok level) h = let (root, p) = setup_ok name level s h b in ap (λ z. z.1.handlers) p
      kept b (err exc) h = (setup_err name exc s h b).1

  line_of-write :
      (now request_id : String) (r : LogRecord)
      → write now request_id r (record { formatter = formatter_of c }) ≡ line_of c now request_id r
  unfolding formatter_of plain_format
  line_of-write now request_id r = elim (Bool-cases c.log_json) [ inl e ↦ rw e | inr e ↦ rw e ]

  -- What a call has to do in a state, by the level that `logging` knows for the settings.
  abbrev pub SetUp : String → Logging → Result ℕ → Type 0
  SetUp name s (err exc) = (setup_logger c upper name s).0 ≡ err exc
  SetUp name s (ok level) =
      let logger : Logger = record { name = name; level = level; propagate = true } in
      ((setup_logger c upper name s).0 ≡ ok logger)
      × ((now request_id : String) (r : LogRecord)
          → emit now request_id logger r (setup_logger c upper name s).1
            ≡ (if leb level r.levelno then line_of c now request_id r ∷ [] else []))

  SetUp-of :
      (name : String) (s : Logging) (l : Result ℕ)
      → AtMostOne c s
      → level_of (upper c.log_level) ≡ l
      → SetUp name s l
  unfolding emit
  SetUp-of name s (err exc) b h = (setup_err name exc s h b).0
  SetUp-of name s (ok level) b h =
      let (root, p) = setup_ok name level s h b in
      (ap (λ z. z.0) p, λ now request_id r. rw (p, line_of-write))

  -- However often loggers were set up before, by calls that returned or raised, a call does this. If
  -- `logging` knows the level of the settings, it returns a logger with that level, and afterwards a record
  -- at that level or above is written exactly once, in the format of the settings, and one below it
  -- not at all. If it does not, the call raises its error.
  pub setup_logger_lem :
      (name : String) (s : Logging)
      → Reached c upper s
      → SetUp name s (level_of (upper c.log_level))
  setup_logger_lem name s r =
      SetUp-of name s (level_of (upper c.log_level)) (Reached-AtMostOne r) refl
