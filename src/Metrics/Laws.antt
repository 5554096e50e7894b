-- ===== src/Metrics/Laws.antt =====
-- What the counters of app/core/metrics.py mean at every moment, whatever requests overlap.
use deribit_price_collector.Prelude.{
  ℕ, ◌+◌, ◌/◌, String, ◌≡◌, refl, ap, ◌↔◌, Bool, true, List, [], ◌∷◌, ◌++◌, str_eq, str_eq_iff,
  length, length-append, arith, ◌==◌, leb, Bool-cases, inl, inr,
}
use deribit_price_collector.Prelude.Int.{pos, eq_of_parts, int_laws, ◌+ℤ◌, ◌-ℤ◌}
use deribit_price_collector.Exceptions.{Result, ok, err}
use deribit_price_collector.Metrics.{
  RuntimeMetrics, Response, new_metrics, on_request_start, on_request_end, leave,
}
use deribit_price_collector.Metrics.Counting.{counted, one_if, counted-increment}
use deribit_price_collector.Metrics.Traces.{Reachable, new, started, ended, Finished, status_of}

-- How many elements pass a test.
abbrev pub count_if : {A : Type 0} → (A → Bool) → List A → ℕ
count_if f [] = 0
count_if f (x ∷ xs) = one_if (f x) + count_if f xs

abbrev pub on_path : String → Finished → Bool
on_path path d = str_eq d.0 path

abbrev pub in_group : ℕ → Finished → Bool
in_group group d = (d.1 / 100) == group

abbrev pub is_failed : Finished → Bool
is_failed d = leb 400 d.1

-- The counters of a server on which the requests on `open_paths` are under way and `done` have ended.
pub record Accounts {F : Type 0} (m : RuntimeMetrics F) (open_paths : List String)
    (done : List Finished) : Type 0 where
  pub in_progress : m.requests_in_progress ≡ pos (length open_paths)
  pub total : m.requests_total ≡ length done
  pub failed : m.requests_failed ≡ count_if is_failed done
  pub paths :
      (path : String)
      → counted str_eq path m.path_counts
        ≡ count_if (λ p. str_eq p path) open_paths + count_if (on_path path) done
  pub statuses : (group : ℕ) → counted ◌==◌ group m.status_counts ≡ count_if (in_group group) done

count_if-middle :
    {A : Type 0} (f : A → Bool) (before : List A) (x : A) (after : List A)
    → count_if f (before ++ x ∷ after) ≡ one_if (f x) + count_if f (before ++ after)
count_if-middle f [] x after = refl
count_if-middle f (y ∷ before) x after = rw (count_if-middle f before x after) (omega arith)

length-middle :
    {A : Type 0} (before : List A) (x : A) (after : List A)
    → length (before ++ x ∷ after) ≡ length (before ++ after) + 1
length-middle before x after =
    omega (arith, length-append before (x ∷ after), length-append before after)

pub same_nat : (a b : ℕ) → ((a == b) ≡ true) ↔ (a ≡ b)
same_nat a b = (λ h. ground arith, λ h. ground arith)

one_more : (n : ℕ) → (pos n +ℤ pos 1) ≡ pos (n + 1)
one_more n = eq_of_parts (pos n +ℤ pos 1) (pos (n + 1)) (omega int_laws)

one_less : (n : ℕ) → (pos (n + 1) -ℤ pos 1) ≡ pos n
one_less n = eq_of_parts (pos (n + 1) -ℤ pos 1) (pos n) (omega int_laws)

module _ {F : Type 0} (zero_ms : F) (add : F → F → F) where
  Accounts-start :
      (m : RuntimeMetrics F) (open_paths : List String) (done : List Finished) (path : String)
      → Accounts m open_paths done
      → Accounts (on_request_start zero_ms add path m) (path ∷ open_paths) done
  unfolding on_request_start
  Accounts-start m open_paths done path a = record {
    in_progress = rw (a.in_progress, one_more (length open_paths)) (ap pos (omega arith));
    total = a.total;
    failed = a.failed;
    paths = λ p. omega (arith, counted-increment str_eq str_eq_iff p path m.path_counts, a.paths p);
    statuses = a.statuses;
  }

  Accounts-end :
      (m : RuntimeMetrics F) (before : List String) (path : String) (after : List String)
      (done : List Finished) (status_code : ℕ) (duration_ms : F)
      → Accounts m (before ++ path ∷ after) done
      → Accounts
          (on_request_end zero_ms add path status_code duration_ms m)
          (before ++ after)
          ((path, status_code) ∷ done)
  unfolding on_request_end
  Accounts-end m before path after done status_code duration_ms a = record {
    in_progress =
        rw (a.in_progress, length-middle before path after, one_less (length (before ++ after)));
    total = omega (arith, a.total);
    failed = elim (Bool-cases (leb 400 status_code)) [
      | inl e ↦ rw (e, a.failed) (omega arith)
      | inr e ↦ rw (e, a.failed) (omega arith)
    ];
    paths = λ p. omega (arith, a.paths p, count_if-middle (λ q. str_eq q p) before path after);
    statuses = λ g. omega (
      arith,
      counted-increment ◌==◌ same_nat g (status_code / 100) m.status_counts,
      a.statuses g,
    );
  }

  Accounts-leave :
      {B : Type 0} (m : RuntimeMetrics F) (before : List String) (path : String)
      (after : List String) (done : List Finished) (request_id : String) (duration_ms : F)
      (outcome : Result (Response B))
      → Accounts m (before ++ path ∷ after) done
      → Accounts
          (leave zero_ms add path request_id duration_ms outcome m).1
          (before ++ after)
          ((path, status_of outcome) ∷ done)
  unfolding leave
  Accounts-leave m before path after done request_id duration_ms (ok response) a =
      Accounts-end m before path after done response.status_code duration_ms a
  Accounts-leave m before path after done request_id duration_ms (err exc) a =
      Accounts-end m before path after done 500 duration_ms a

  -- However requests overlap, `requests_in_progress` is the number under way, and so never negative;
  -- `requests_total` and `requests_failed` are the numbers of those that have ended and of those that
  -- ended with a status of 400 or more, an exception counted as a 500; each path is counted once for
  -- each of its requests, under way or ended, and each group of statuses once for each ended one.
  pub runtime_metrics-Accounts :
      (B : Type 0) (m : RuntimeMetrics F) (open_paths : List String) (done : List Finished)
      → Reachable B zero_ms add m open_paths done
      → Accounts m open_paths done
  unfolding new_metrics
  runtime_metrics-Accounts B _ _ _ new = record {
    in_progress = refl;
    total = refl;
    failed = refl;
    paths = λ p. unfold counted in refl;
    statuses = λ g. unfold counted in refl;
  }
  runtime_metrics-Accounts B _ _ _ (started {m} {open_paths} {done} path r) =
      Accounts-start m open_paths done path (runtime_metrics-Accounts B m open_paths done r)
  runtime_metrics-Accounts B _ _ _
        (ended {m} {done} before path after request_id duration_ms outcome r) =
      Accounts-leave m before path after done request_id duration_ms outcome
        (runtime_metrics-Accounts B m (before ++ path ∷ after) done r)
