-- ===== src/Driver/Metrics.antt =====
-- driver/metrics.go: counters, gauges and histograms, and the messages that change them. Of a float64 its
-- operations are parameters, and so is the division by the unit of time. The mutex and the channel are
-- left out: one goroutine takes the messages of the channel one after another.
pub mod Buckets
pub mod Handle
use go_hdb.Prelude.{
  ℕ, zero, suc, ◌+◌, ◌%◌, ◌^◌, Bool, true, false, List, [], ◌∷◌, ltb, if◌then◌else◌, length,
  get_elem?, set, replicate, Option, none, some, Outcome, ok, panic, map_ok,
}
use go_hdb.Prelude.Int.{ℤ, ◌+ℤ◌, convert}

abbrev pub num_counter : ℕ
num_counter = 3

abbrev pub num_gauge : ℕ
num_gauge = 3

abbrev pub num_time : ℕ
num_time = 3

abbrev pub num_sql_time : ℕ
num_sql_time = 8

pub record Histogram (F : Type 0) : Type 0 where
  pub count : ℕ
  pub sum : F
  pub upper_bounds : List F
  pub bound_counts : List ℕ
  pub underflow_count : ℕ

-- An increment of a uint64.
abbrev pub inc : ℕ → ℕ
inc n = (n + 1) % 2 ^ 64

-- The loop `for i := idx; i < len(h.upperBounds); i++` over the counts; it panics where a bound has none.
unfoldable pub inc_from {ℓ} : {F : Type ℓ} → ℕ → List F → List ℕ → Outcome (List ℕ)
inc_from idx [] cs = ok cs
inc_from zero (u ∷ us) [] = panic
inc_from zero (u ∷ us) (c ∷ cs) = map_ok (λ (xs : List ℕ). inc c ∷ xs) (inc_from zero us cs)
inc_from (suc idx) (u ∷ us) [] = inc_from idx us []
inc_from (suc idx) (u ∷ us) (c ∷ cs) = map_ok (λ (xs : List ℕ). c ∷ xs) (inc_from idx us cs)

-- The operations on float64 that are used, and slices.BinarySearch.
pub record Floats (F : Type 0) : Type 0 where
  pub zero_f : F
  pub add_f : F → F → F
  pub less_f : F → F → Bool
  pub search : List F → F → ℕ
  pub in_unit : ℤ → F

pub data Msg : Type 0 where
  counter_msg : ℕ → ℕ → Msg
  gauge_msg : ℤ → ℕ → Msg
  time_msg : ℤ → ℕ → Msg
  sql_time_msg : ℤ → ℕ → Msg

pub record Metrics (F : Type 0) : Type 0 where
  pub counters : List ℕ
  pub gauges : List ℤ
  pub times : List (Histogram F)
  pub sql_times : List (Histogram F)

-- A change of an element; an index out of range panics, and so may the change.
abbrev pub change_at : {A : Type 0} → ℕ → (A → Outcome A) → List A → Outcome (List A)
change_at i f [] = panic
change_at zero f (x ∷ xs) = map_ok (λ (y : _). y ∷ xs) (f x)
change_at (suc i) f (x ∷ xs) = map_ok (λ (ys : List _). x ∷ ys) (change_at i f xs)

module _ {F : Type 0} (fl : Floats F) where
  abbrev pub new_histogram : List F → Histogram F
  new_histogram upper_bounds = record {
    count = 0;
    sum = fl.zero_f;
    upper_bounds = upper_bounds;
    bound_counts = replicate (length upper_bounds) 0;
    underflow_count = 0;
  }

  -- A negative value counts as 0.
  abbrev pub clamp : F → F
  clamp v = if fl.less_f v fl.zero_f then fl.zero_f else v

  -- The histogram with a value and its counts.
  abbrev pub added : F → Histogram F → List ℕ → Histogram F
  added v h counts = record h {
    count = inc h.count;
    underflow_count = if fl.less_f v fl.zero_f then inc h.underflow_count else h.underflow_count;
    sum = fl.add_f h.sum (clamp v);
    bound_counts = counts;
  }

  unfoldable pub add : F → Histogram F → Outcome (Histogram F)
  add v h =
      map_ok (added v h)
        (inc_from (fl.search h.upper_bounds (clamp v)) h.upper_bounds h.bound_counts)

  abbrev pub new_metrics : List F → Metrics F
  new_metrics upper_bounds = record {
    counters = replicate num_counter 0;
    gauges = replicate num_gauge (ℤ.pos 0);
    times = replicate num_time (new_histogram upper_bounds);
    sql_times = replicate num_sql_time (new_histogram upper_bounds);
  }

  -- The part of `handleMsg` under the lock.
  unfoldable pub handle_own : Msg → Metrics F → Outcome (Metrics F)
  handle_own (counter_msg v idx) m =
      map_ok (λ (cs : List ℕ). record m { counters = cs })
        (change_at idx (λ (c : ℕ). ok ((c + v) % 2 ^ 64)) m.counters)
  handle_own (gauge_msg v idx) m =
      map_ok (λ (gs : List ℤ). record m { gauges = gs })
        (change_at idx (λ (g : ℤ). ok (convert (2 ^ 63) (g +ℤ v))) m.gauges)
  handle_own (time_msg d idx) m =
      map_ok (λ (hs : List (Histogram F)). record m { times = hs })
        (change_at idx (add (fl.in_unit d)) m.times)
  handle_own (sql_time_msg d idx) m =
      map_ok (λ (hs : List (Histogram F)). record m { sql_times = hs })
        (change_at idx (add (fl.in_unit d)) m.sql_times)

  abbrev pub cons_ok : Outcome (Metrics F) → Outcome (List (Metrics F)) → Outcome (List (Metrics F))
  cons_ok panic r = panic
  cons_ok (ok m) r = map_ok (λ (ms : List (Metrics F)). m ∷ ms) r

  -- `handleMsg` of metrics whose parents follow them, each the parent of the one before.
  unfoldable pub handle_msg : Msg → List (Metrics F) → Outcome (List (Metrics F))
  handle_msg msg [] = ok []
  handle_msg msg (m ∷ parents) = cons_ok (handle_own msg m) (handle_msg msg parents)

  abbrev pub then_msgs :
      Outcome (List (Metrics F))
      → (List (Metrics F) → Outcome (List (Metrics F)))
      → Outcome (List (Metrics F))
  then_msgs panic k = panic
  then_msgs (ok ms) k = k ms

  -- The loop over the messages of the channel.
  unfoldable pub collect : List Msg → List (Metrics F) → Outcome (List (Metrics F))
  collect [] ms = ok ms
  collect (msg ∷ msgs) ms = then_msgs (handle_msg msg ms) (collect msgs)
