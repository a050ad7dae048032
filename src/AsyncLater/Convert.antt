-- ===== src/AsyncLater/Convert.antt =====
-- libraries/async-later/src/to-async-iterable.ts: observables, iterables, promises and plain values
-- as one kind of iterable.
use fula_archived.Prelude.{
  ℕ, ◌<◌, none, some, List, [], ◌∷◌, ◌++◌, map, length, ◌≡◌, refl, ap, Result, ok, err, Error,
  append-nil, append_assoc,
}
use fula_archived.AsyncLater.Values.{Source}
use fula_archived.AsyncLater.Later.{Later, value, rejected, iterate_later, next, complete}
use fula_archived.AsyncLater.Later.Delivery.{collect, closed, collect-closed}
use fula_archived.AsyncLater.Later.Invariant.{Represents, Represents-iterate_later}
use fula_archived.AsyncLater.Partition.Splits.{Represents-push, Represents-close, open_with}

-- What an observable calls its observer with.
pub data Notification {ℓ} (T : Type ℓ) : Type ℓ where
  next_value : T → Notification T
  error : Error → Notification T
  finish : Notification T

-- A value or a promise, as `await` finds it.
pub data Settled {ℓ} (T : Type ℓ) : Type ℓ where
  resolved : T → Settled T
  failed : Error → Settled T

-- What `toAsyncIterable` takes, by the tests of `_toAsyncIterable` in their order; and what it gives, an iterable
-- that is read or one that is filled while it is read.
pub data Convertible {ℓ} (T : Type ℓ) : Type ℓ where
  async_iterable : Source T → Convertible T
  observable : List (Notification T) → Convertible T
  iterable : List (Settled T) → Convertible T
  single : Settled T → Convertible T

pub data Iterable {ℓ} (T : Type ℓ) : Type ℓ where
  source : Source T → Iterable T
  later : Later T → Iterable T

module _ {ℓ} {T : Type ℓ} where
  -- `observable.subscribe(next, error => next(Promise.reject(error)), complete)`
  unfoldable pub observe : Notification T → Later T → Later T
  observe (next_value v) s = next (value v) s
  observe (error e) s = next (rejected e) s
  observe finish s = complete s

  unfoldable pub observe_all : List (Notification T) → Later T → Later T
  observe_all [] s = s
  observe_all (n ∷ ns) s = observe_all ns (observe n s)

  unfoldable pub async_iterable_from_observable : List (Notification T) → Later T
  async_iterable_from_observable ns = observe_all ns iterate_later

  -- `for (const element of value) yield await element`: a rejection ends the iterable.
  unfoldable pub await_each : List (Settled T) → Source T
  await_each [] = record { items = []; failure = none }
  await_each (resolved v ∷ xs) = let s = await_each xs in record s { items = v ∷ s.items }
  await_each (failed e ∷ xs) = record { items = []; failure = some e }

  observe_all-Represents :
      (vs us : List T) (s : Later T)
      → Represents s (open_with us)
      → Represents (observe_all (map next_value vs ++ finish ∷ []) s) (closed (us ++ vs))
  unfolding observe_all observe
  observe_all-Represents [] us s r = rw append-nil (Represents-close s us r)
  observe_all-Represents (v ∷ vs) us s r =
      simp append_assoc at
        (observe_all-Represents vs (us ++ v ∷ []) (next (value v) s) (Represents-push s us v r))

  -- An observable that emits `vs` and completes is read as an iterable of `vs`.
  pub collect-async_iterable :
      (vs : List T) (fuel : ℕ)
      → length vs < fuel
      → collect fuel (async_iterable_from_observable (map next_value vs ++ finish ∷ [])) ≡ ok vs
  unfolding async_iterable_from_observable
  collect-async_iterable vs fuel h =
      collect-closed vs fuel _ (observe_all-Represents vs [] iterate_later Represents-iterate_later)
        h

  -- `_toAsyncIterable(value)`
  unfoldable pub to_async_iterable : Convertible T → Iterable T
  unfolding async_iterable_from_observable await_each
  to_async_iterable (async_iterable s) = source s
  to_async_iterable (observable ns) = later (async_iterable_from_observable ns)
  to_async_iterable (iterable xs) = source (await_each xs)
  to_async_iterable (single x) = source (await_each (x ∷ []))

  -- `for await` to the end.
  abbrev read_all : ℕ → Iterable T → Result (List T)
  read_all fuel (source s) = elim s.failure [ none ↦ ok s.items | some e ↦ err e ]
  read_all fuel (later l) = collect fuel l

  await_each-resolved :
      (vs : List T) (xs : List (Settled T))
      → await_each (map resolved vs ++ xs)
        ≡ record (await_each xs) { items = vs ++ (await_each xs).items }
  unfolding await_each
  await_each-resolved [] xs = refl
  await_each-resolved (v ∷ vs) xs =
      let push : Source T → Source T = λ s. record s { items = v ∷ s.items } in
      ap push (await_each-resolved vs xs)

  -- Values in whichever form `toAsyncIterable` takes them, an asynchronous iterable, an observable that
  -- completes or an iterable of promises, are read in their order; a promise that is rejected
  -- behind them makes the reading throw.
  to_async_iterable_lem :
      (vs : List T) (e : Error) (fuel : ℕ)
      → length vs < fuel
      → (read_all fuel (to_async_iterable (async_iterable (record { items = vs; failure = none })))
          ≡ ok vs)
        × (read_all fuel (to_async_iterable (observable (map next_value vs ++ finish ∷ [])))
            ≡ ok vs)
        × (read_all fuel (to_async_iterable (iterable (map resolved vs ++ []))) ≡ ok vs)
        × (read_all fuel (to_async_iterable (iterable (map resolved vs ++ failed e ∷ []))) ≡ err e)
  unfolding to_async_iterable await_each
  to_async_iterable_lem vs e fuel h = (
    refl,
    collect-async_iterable vs fuel h,
    rw (await_each-resolved vs []) (ap ok (append-nil vs)),
    rw (await_each-resolved vs (failed e ∷ [])) refl,
  )
