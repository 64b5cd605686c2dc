-- ===== src/Db/Metrics.antt =====
-- db.go, DBMetrics. A counter is an int64. The floating-point success rate is left out.
use fluxor_db.Base.{
  ℕ, ◌+◌, ◌≤◌, ◌<◌, ◌/◌, ◌≡◌, Option, none, some, List, [], ◌∷◌, if◌then◌else◌, length, arith,
}
use fluxor_db.Base.Int.{
  ℤ, pos, pos_part, neg_part, is_pos, ltb_ℤ, int64, ◌+ℤ◌, ◌-ℤ◌, int64_up, two63,
}
use fluxor_db.Errors.{Err}
use fluxor_db.Db.Config.{DbAdvancedConfig}

pub record DbMetrics : Type 0 where
  pub total_queries : ℤ
  pub successful_queries : ℤ
  pub failed_queries : ℤ
  pub total_query_time : ℤ
  pub slow_queries : ℤ
  pub slow_query_threshold : ℤ

pub record MetricsStats : Type 0 where
  pub total_queries : ℤ
  pub successful_queries : ℤ
  pub failed_queries : ℤ
  pub average_query_time : ℤ
  pub slow_queries : ℤ

threshold : Option DbAdvancedConfig → ℤ
threshold none = pos 1000000000
threshold (some c) =
    if is_pos c.slow_query_threshold then c.slow_query_threshold else pos 1000000000

unfoldable pub new_db_metrics : Option DbAdvancedConfig → DbMetrics
unfolding threshold
new_db_metrics c = record {
  total_queries = pos 0;
  successful_queries = pos 0;
  failed_queries = pos 0;
  total_query_time = pos 0;
  slow_queries = pos 0;
  slow_query_threshold = threshold c;
}

abbrev up : ℤ → ℤ
up n = int64 (n +ℤ pos 1)

count_result : Option Err → DbMetrics → DbMetrics
count_result none m = record m { successful_queries = up m.successful_queries }
count_result (some e) m = record m { failed_queries = up m.failed_queries }

unfoldable pub record_query : ℤ → Option Err → DbMetrics → DbMetrics
unfolding count_result
record_query duration e m =
    let counted = count_result e (record m {
      total_queries = up m.total_queries;
      total_query_time = int64 (m.total_query_time +ℤ duration);
    }) in
    if ltb_ℤ m.slow_query_threshold duration
    then record counted { slow_queries = up counted.slow_queries }
    else counted

-- Go's division of int64 values, which rounds towards zero; the divisor is positive.
quotient : ℤ → ℕ → ℤ
quotient (pos a) b = pos (a / b)
quotient a b = pos 0 -ℤ pos (neg_part a / b)

unfoldable pub get_stats : DbMetrics → MetricsStats
unfolding quotient
get_stats m = record {
  total_queries = m.total_queries;
  successful_queries = m.successful_queries;
  failed_queries = m.failed_queries;
  average_query_time =
      if is_pos m.total_queries
      then quotient m.total_query_time (pos_part m.total_queries)
      else pos 0;
  slow_queries = m.slow_queries;
}

-- A history of recorded queries: durations and errors.
unfoldable pub record_queries : List (ℤ × Option Err) → DbMetrics → DbMetrics
record_queries [] m = m
record_queries ((duration, e) ∷ more) m = record_queries more (record_query duration e m)

-- How many succeeded and failed, and how many took longer than the limit.
abbrev ok_weight : Option Err → ℕ
ok_weight none = 1
ok_weight (some e) = 0

abbrev err_weight : Option Err → ℕ
err_weight none = 0
err_weight (some e) = 1

unfoldable pub successes : List (ℤ × Option Err) → ℕ
successes [] = 0
successes ((_, e) ∷ more) = ok_weight e + successes more

unfoldable pub failures : List (ℤ × Option Err) → ℕ
failures [] = 0
failures ((_, e) ∷ more) = err_weight e + failures more

abbrev slow_weight : ℤ → ℤ → ℕ
slow_weight limit duration = if ltb_ℤ limit duration then 1 else 0

unfoldable pub slow_ones : ℤ → List (ℤ × Option Err) → ℕ
slow_ones limit [] = 0
slow_ones limit ((duration, _) ∷ more) = slow_weight limit duration + slow_ones limit more

-- The counters stand at these numbers, and add up.
pub record Counts (m : DbMetrics) (t s f l : ℕ) : Type 0 where
  pub total : m.total_queries ≡ pos t
  pub successful : m.successful_queries ≡ pos s
  pub failed : m.failed_queries ≡ pos f
  pub slow : m.slow_queries ≡ pos l
  pub sum : s + f ≡ t
  pub slow_le : l ≤ t

pub new_db_metrics-Counts : (c : Option DbAdvancedConfig) → Counts (new_db_metrics c) 0 0 0 0
unfolding new_db_metrics
new_db_metrics-Counts c = ground arith

record_query-Counts :
    (d : ℤ) (e : Option Err) (m : DbMetrics) (t s f l : ℕ)
    → Counts m t s f l
    → t + 1 < two63
    → Counts
        (record_query d e m)
        (1 + t)
        (ok_weight e + s)
        (err_weight e + f)
        (slow_weight m.slow_query_threshold d + l)
unfolding record_query
record_query-Counts d none m t s f l c fits =
    ground (arith, int64_up t, int64_up s, int64_up f, int64_up l)
record_query-Counts d (some e) m t s f l c fits =
    ground (arith, int64_up t, int64_up s, int64_up f, int64_up l)

record_query-threshold :
    (d : ℤ) (e : Option Err) (m : DbMetrics)
    → (record_query d e m).slow_query_threshold ≡ m.slow_query_threshold
unfolding record_query
record_query-threshold d none m = ground arith
record_query-threshold d (some e) m = ground arith

regroup : (a b c : ℕ) → a + b + c ≡ b + (a + c)
regroup a b c = omega arith

-- From counters that stand at given numbers, any list of recorded queries that an int64 can count
-- leaves them raised by exactly the number of queries, of successes, of failures and of queries
-- above the slow threshold in the list.
pub record_queries-Counts :
    (qs : List (ℤ × Option Err)) (m : DbMetrics) (t s f l : ℕ)
    → Counts m t s f l
    → t + length qs < two63
    → Counts
        (record_queries qs m)
        (t + length qs)
        (s + successes qs)
        (f + failures qs)
        (l + slow_ones m.slow_query_threshold qs)
unfolding record_queries successes failures slow_ones
record_queries-Counts [] m t s f l c fits = ground arith
record_queries-Counts ((d, e) ∷ more) m t s f l c fits =
    let m' = record_query d e m in
    let limit = m.slow_query_threshold in
    let w = slow_weight limit d in
    let step = record_query-Counts d e m t s f l c (omega arith) in
    let rest =
      record_queries-Counts more m' (1 + t) (ok_weight e + s) (err_weight e + f) (w + l) step
        (omega arith) in
    let same = record_query-threshold d e m in ground (arith, rest, same)
