-- ===== src/AsyncLater/Values.antt =====
-- libraries/async-later/src/value.ts: single values of an iterable.
use fula_archived.Prelude.{
  ℕ, zero, suc, ◌+◌, Bool, Option, none, some, List, [], ◌∷◌, ◌++◌, get_elem?, ◌≡◌, refl, arith,
  Result, ok, err, Error, message, index_not_found, ◌==◌, if◌then◌else◌,
}

-- What reading an iterable to its end gives: the values, and what it throws behind them, if it does.
pub record Source {ℓ} (T : Type ℓ) : Type ℓ where
  pub items : List T
  pub failure : Option Error

module _ {ℓ} {T : Type ℓ} where
  -- The loop is left by the failure of the iterable, or ends and `missing` is thrown.
  abbrev pub at_end : Option Error → Error → Result T
  at_end none missing = err missing
  at_end (some e) missing = err e

  value_at_from : ℕ → ℕ → List T → Option Error → Result T
  value_at_from index current [] failure = at_end failure (index_not_found index)
  value_at_from index current (v ∷ vs) failure =
      let rest = value_at_from index (suc current) vs failure in
      if current == index then ok v else rest

  unfoldable pub value_at : ℕ → Source T → Result T
  unfolding value_at_from
  value_at index s = value_at_from index 0 s.items s.failure

  unfoldable pub first_value : Source T → Result T
  unfolding value_at
  first_value = value_at 0

  value_at_from-get_elem? :
      (k index current : ℕ) (vs : List T) (failure : Option Error)
      → index ≡ current + k
      → value_at_from index current vs failure
        ≡ (elim (get_elem? vs k) [ some v ↦ ok v | none ↦ at_end failure (index_not_found index) ])
  unfolding value_at_from
  value_at_from-get_elem? k index current [] failure e = refl
  value_at_from-get_elem? zero index current (v ∷ vs) failure e = ground arith
  value_at_from-get_elem? (suc k) index current (v ∷ vs) failure e =
      ground (arith, value_at_from-get_elem? k index (suc current) vs failure)

  -- `valueAt(index, iterable)` is the value at the index, counted from 0; where there is none it
  -- throws what the iterable throws, or that the index is not found. An iterable that throws behind
  -- the index does not matter.
  value_at-get_elem? :
      (index : ℕ) (s : Source T)
      → value_at index s ≡ (elim (get_elem? s.items index) [
        | some v ↦ ok v
        | none ↦ at_end s.failure (index_not_found index)
      ])
  unfolding value_at
  value_at-get_elem? index s = value_at_from-get_elem? index index 0 s.items s.failure (omega arith)

  -- `if (!wasEmpty && value)`: JavaScript's truth of a value is an argument.
  module _ (truthy : T → Bool) where
    abbrev pub last_or_throw : Option T → Result T
    last_or_throw none = err (message "Cannot get last value of empty iterable")
    last_or_throw (some v) =
        if truthy v then ok v else err (message "Cannot get last value of empty iterable")

    last_value_from : Option T → List T → Option Error → Result T
    last_value_from seen [] (some e) = err e
    last_value_from seen [] none = last_or_throw seen
    last_value_from seen (v ∷ vs) failure = last_value_from (some v) vs failure

    unfoldable pub last_value : Source T → Result T
    unfolding last_value_from
    last_value s = last_value_from none s.items s.failure

    last_value_from-append :
        (seen : Option T) (vs : List T) (v : T)
        → last_value_from seen (vs ++ v ∷ []) none ≡ last_or_throw (some v)
    unfolding last_value_from
    last_value_from-append seen [] v = refl
    last_value_from-append seen (w ∷ vs) v = last_value_from-append (some w) vs v

    -- `lastValue` of an iterable that ends after `v` is `v` if JavaScript takes `v` for true; if not,
    -- it throws that the iterable is empty.
    pub last_value-append :
        (vs : List T) (v : T)
        → last_value (record { items = vs ++ v ∷ []; failure = none })
          ≡ (if truthy v then ok v else err (message "Cannot get last value of empty iterable"))
    unfolding last_value
    last_value-append vs v = last_value_from-append none vs v
