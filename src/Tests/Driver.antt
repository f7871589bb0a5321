-- ===== src/Tests/Driver.antt =====
-- Distances, versions and metrics.
use go_hdb.Prelude.{
  ℕ, suc, ◌+◌, ◌≡◌, ◌≤◌, List, [], ◌∷◌, arith, ltb, if◌then◌else◌, length, All, ok, map,
}
use go_hdb.Prelude.Int.{pos, pos_part}
use go_hdb.Levenshtein.{distance}
use go_hdb.Levenshtein.Least.{Edits}
use go_hdb.Levenshtein.Rows.{distance-Edits, distance-le}
use go_hdb.Driver.Version.{compare, number}
use go_hdb.Driver.Version.Order.{IsOrder, compare-IsOrder}
use go_hdb.Driver.Metrics.{Floats, Metrics, Msg, counter_msg, time_msg, new_metrics, collect}
use go_hdb.Driver.Metrics.Handle.{IsMetrics, collect-ok}

distance-Edits_example :
    Edits (97 ∷ 98 ∷ []) (98 ∷ 99 ∷ []) (distance (97 ∷ 98 ∷ []) (98 ∷ 99 ∷ []))
distance-Edits_example = distance-Edits (97 ∷ 98 ∷ []) (98 ∷ 99 ∷ [])

distance-le_example : distance (97 ∷ 98 ∷ []) (98 ∷ 99 ∷ []) ≤ 2
distance-le_example =
    distance-le (97 ∷ 98 ∷ []) (98 ∷ 99 ∷ []) 2
      (Edits.deletion (Edits.keep (Edits.insertion Edits.done)))

compare-IsOrder_example :
    IsOrder (number 2 0 42) (number 2 0 45) (compare (number 2 0 42) (number 2 0 45))
compare-IsOrder_example = compare-IsOrder (number 2 0 42) (number 2 0 45)

-- Natural numbers in place of floats.
abbrev position : List ℕ → ℕ → ℕ
position [] v = 0
position (u ∷ us) v = let n = position us v in if ltb u v then suc n else 0

abbrev numbers : Floats ℕ
numbers = record { zero_f = 0; add_f = ◌+◌; less_f = ltb; search = position; in_unit = pos_part }

abbrev some_msgs : List Msg
some_msgs = counter_msg 9 2 ∷ time_msg (pos 4) 1 ∷ []

collect-ok_example :
    (ms : List (Metrics ℕ)) × (collect numbers some_msgs
        (map (new_metrics numbers) ((1 ∷ 5 ∷ []) ∷ (1 ∷ []) ∷ []))
      ≡ ok ms)
    × All (IsMetrics numbers) ms
    × (length ms ≡ 2)
collect-ok_example =
    collect-ok numbers some_msgs ((1 ∷ 5 ∷ []) ∷ (1 ∷ []) ∷ []) (omega arith, (omega arith, tt))
