-- ===== src/Tests/Later.antt =====
-- libraries/async-later on concrete iterables.
use fula_archived.Prelude.{
  ℕ, not, none, List, [], ◌∷◌, ◌++◌, ◌≡◌, arith, ok, err, message, is_zero, runtime,
}
use fula_archived.AsyncLater.Later.{Event, emit, fail, close, ask, step, iterate_later}
use fula_archived.AsyncLater.Later.Channel.{run, channel_step, empty}
use fula_archived.AsyncLater.Later.Refines.{run-iterate_later}
use fula_archived.AsyncLater.Later.Delivery.{collect}
use fula_archived.AsyncLater.Partition.{partition}
use fula_archived.AsyncLater.Partition.Splits.{partition_split}
use fula_archived.AsyncLater.Values.{last_value, last_value-append}

abbrev mixed : List (Event ℕ)
mixed = ask ∷ emit 1 ∷ emit 2 ∷ ask ∷ fail runtime ∷ ask ∷ ask ∷ close ∷ ask ∷ []

run-iterate_later_example : (run step mixed iterate_later).1 ≡ (run channel_step mixed empty).1
run-iterate_later_example = run-iterate_later mixed

partition_split_example :
    (collect {T = ℕ} 5 (partition 1 (7 ∷ 8 ∷ 9 ∷ [])).first ≡ ok (7 ∷ []))
    × (collect {T = ℕ} 5 (partition 1 (7 ∷ 8 ∷ 9 ∷ [])).second ≡ ok (8 ∷ 9 ∷ []))
partition_split_example = partition_split 1 5 (7 ∷ 8 ∷ 9 ∷ []) (omega arith) (omega arith)

last_value-append_example :
    last_value {T = ℕ}
      (λ n. not (is_zero n))
      (record { items = (7 ∷ []) ++ 0 ∷ []; failure = none })
    ≡ err (message "Cannot get last value of empty iterable")
last_value-append_example = last_value-append (λ n. not (is_zero n)) (7 ∷ []) 0
