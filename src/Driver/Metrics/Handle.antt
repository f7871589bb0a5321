-- ===== src/Driver/Metrics/Handle.antt =====
-- driver/metrics.go: messages with indices in range never panic, and keep the sizes.
use go_hdb.Prelude.{
  ℕ, zero, suc, ◌+◌, ◌%◌, ◌^◌, ◌<◌, ◌≡◌, refl, ap, ◌∙◌, List, [], ◌∷◌, arith, length, All, Outcome,
  ok, map, length-map, length-replicate,
}
use go_hdb.Prelude.Int.{ℤ, ◌+ℤ◌, convert}
use go_hdb.Driver.Metrics.{
  Floats, Histogram, inc, inc_from, new_histogram, clamp, added, new_metrics, Msg, counter_msg,
  gauge_msg, time_msg, sql_time_msg, Metrics, change_at, num_counter, num_gauge, num_time,
  num_sql_time, add, handle_own, handle_msg, collect,
}

-- The index of a message is one of its kind.
abbrev pub IsMsg : Msg → Type 0
IsMsg (counter_msg v idx) = idx < num_counter
IsMsg (gauge_msg v idx) = idx < num_gauge
IsMsg (time_msg d idx) = idx < num_time
IsMsg (sql_time_msg d idx) = idx < num_sql_time

change_at-ok :
    {A : Type 0} (P : A → Type 0) (i : ℕ) (f : A → Outcome A) (xs : List A)
    → ((x : A) → P x → (y : A) × (f x ≡ ok y) × P y)
    → i < length xs
    → All P xs
    → (ys : List A) × (change_at i f xs ≡ ok ys) × (length ys ≡ length xs) × All P ys
change_at-ok P i f [] step h all = absurd (omega arith)
change_at-ok P zero f (x ∷ xs) step h (px, all) =
    let (y, e, py) = step x px in (y ∷ xs, rw e refl, refl, (py, all))
change_at-ok P (suc i) f (x ∷ xs) step h (px, all) =
    let (ys, e, l, k) = change_at-ok P i f xs step (omega arith) all in
    (x ∷ ys, rw e refl, ap suc l, (px, k))

-- Nothing is wanted of a number.
abbrev IsAny : {A : Type 0} → A → Type 0
IsAny x = Unit {0}

All-IsAny : {A : Type 0} (xs : List A) → All (IsAny {A = A}) xs
All-IsAny [] = tt
All-IsAny (x ∷ xs) = (tt, All-IsAny xs)

inc_from-ok :
    {F : Type 0} (i : ℕ) (us : List F) (cs : List ℕ)
    → length cs ≡ length us
    → (xs : List ℕ) × (inc_from i us cs ≡ ok xs) × (length xs ≡ length us)
unfolding inc_from
inc_from-ok i [] cs h = (cs, refl, h)
inc_from-ok i (u ∷ us) [] h = absurd (omega arith)
inc_from-ok zero (u ∷ us) (c ∷ cs) h =
    let (xs, e, l) = inc_from-ok zero us cs (omega arith) in (inc c ∷ xs, rw e refl, ap suc l)
inc_from-ok (suc i) (u ∷ us) (c ∷ cs) h =
    let (xs, e, l) = inc_from-ok i us cs (omega arith) in (c ∷ xs, rw e refl, ap suc l)

-- A count for each bound.
abbrev pub HasCounts : {F : Type 0} → Histogram F → Type 0
HasCounts h = length h.bound_counts ≡ length h.upper_bounds

module _ {F : Type 0} (fl : Floats F) where
  add-ok :
      (v : F) (h : Histogram F)
      → HasCounts h
      → (h' : Histogram F) × (add fl v h ≡ ok h') × HasCounts h'
  unfolding add
  add-ok v h k =
      let (xs, e, l) =
        inc_from-ok (fl.search h.upper_bounds (clamp fl v)) h.upper_bounds h.bound_counts k in
      (added fl v h xs, rw e refl, l)

  -- The numbers of counters, gauges and histograms, which have a count for each bound.
  abbrev pub IsMetrics : Metrics F → Type 0
  IsMetrics m =
      (length m.counters ≡ num_counter)
      × (length m.gauges ≡ num_gauge)
      × ((length m.times ≡ num_time) × All HasCounts m.times)
      × ((length m.sql_times ≡ num_sql_time) × All HasCounts m.sql_times)

  handle_own-ok :
      (msg : Msg) (m : Metrics F)
      → IsMsg msg
      → IsMetrics m
      → (m' : Metrics F) × (handle_own fl msg m ≡ ok m') × IsMetrics m'
  unfolding handle_own
  handle_own-ok (counter_msg v idx) m h (a, b, c, d) =
      let (ys, e, l, _) =
        change_at-ok IsAny idx (λ (c : ℕ). ok ((c + v) % 2 ^ 64)) m.counters (λ x _. (_, refl, tt))
          (omega (arith, a, h)) (All-IsAny m.counters) in
      (record m { counters = ys }, rw e refl, (l ∙ a, b, c, d))
  handle_own-ok (gauge_msg v idx) m h (a, b, c, d) =
      let (ys, e, l, _) =
        change_at-ok IsAny idx (λ (g : ℤ). ok (convert (2 ^ 63) (g +ℤ v))) m.gauges
          (λ x _. (_, refl, tt)) (omega (arith, b, h)) (All-IsAny m.gauges) in
      (record m { gauges = ys }, rw e refl, (a, l ∙ b, c, d))
  handle_own-ok (time_msg t idx) m h (a, b, (c, k), d) =
      let (ys, e, l, ks) =
        change_at-ok HasCounts idx (add fl (fl.in_unit t)) m.times (add-ok (fl.in_unit t))
          (omega (arith, c, h)) k in
      (record m { times = ys }, rw e refl, (a, b, (l ∙ c, ks), d))
  handle_own-ok (sql_time_msg t idx) m h (a, b, c, (d, k)) =
      let (ys, e, l, ks) =
        change_at-ok HasCounts idx (add fl (fl.in_unit t)) m.sql_times (add-ok (fl.in_unit t))
          (omega (arith, d, h)) k in
      (record m { sql_times = ys }, rw e refl, (a, b, c, (l ∙ d, ks)))

  handle_msg-ok :
      (msg : Msg) (ms : List (Metrics F))
      → IsMsg msg
      → All IsMetrics ms
      → (ms' : List (Metrics F)) × (handle_msg fl msg ms ≡ ok ms')
        × All IsMetrics ms'
        × (length ms' ≡ length ms)
  unfolding handle_msg
  handle_msg-ok msg [] h all = ([], refl, tt, refl)
  handle_msg-ok msg (m ∷ ms) h (hm, all) =
      let (m', e, k) = handle_own-ok msg m h hm in
      let (ms', es, ks, l) = handle_msg-ok msg ms h all in
      (m' ∷ ms', rw (e, es) refl, (k, ks), ap suc l)

  collect-IsMetrics :
      (msgs : List Msg) (ms : List (Metrics F))
      → All IsMsg msgs
      → All IsMetrics ms
      → (ms' : List (Metrics F)) × (collect fl msgs ms ≡ ok ms')
        × All IsMetrics ms'
        × (length ms' ≡ length ms)
  unfolding collect
  collect-IsMetrics [] ms h all = (ms, refl, all, refl)
  collect-IsMetrics (msg ∷ msgs) ms (h, hs) all =
      let (ms', e, k, l) = handle_msg-ok msg ms h all in
      let (ms'', es, ks, ls) = collect-IsMetrics msgs ms' hs k in (ms'', rw e es, ks, ls ∙ l)

  new-HasCounts : (us : List F) → HasCounts (new_histogram fl us)
  new-HasCounts us = length-replicate (length us) 0

  new-IsMetrics : (uss : List (List F)) → All IsMetrics (map (new_metrics fl) uss)
  new-IsMetrics [] = tt
  new-IsMetrics (us ∷ uss) =
      let k = new-HasCounts us in
      (
        (refl, refl, (refl, (k, (k, (k, tt)))), (refl, (k, (k, (k, (k, (k, (k, (k, (k, tt)))))))))),
        new-IsMetrics uss,
      )

  -- Messages whose indices are of their kind, in any order, are taken by new metrics and all their new
  -- parents, each with bounds of its own: none panics, and afterwards each has the numbers of counters,
  -- gauges and histograms of its kinds, and each histogram a count for each bound.
  pub collect-ok :
      (msgs : List Msg) (uss : List (List F))
      → All IsMsg msgs
      → (ms : List (Metrics F)) × (collect fl msgs (map (new_metrics fl) uss) ≡ ok ms)
        × All IsMetrics ms
        × (length ms ≡ length uss)
  collect-ok msgs uss h =
      let (ms, e, k, l) = collect-IsMetrics msgs (map (new_metrics fl) uss) h (new-IsMetrics uss) in
      (ms, e, k, l ∙ length-map uss (new_metrics fl))
