-- ===== src/AsyncLater/Later.antt =====
-- libraries/async-later/src/iterate-later.ts and resolve-later.ts.
-- A promise is a number that names a cell of a heap; a cell that holds nothing is pending. The
-- generator that `iterateLater` returns is the pair of `awaiting` and `finished`.
pub mod Channel
pub mod Invariant
pub mod Rounds
pub mod Refines
pub mod Delivery
use fula_archived.Prelude.{
  ℕ, zero, suc, ◌+◌, ◌*◌, Bool, true, false, Option, none, some, List, [], ◌∷◌, length, ◌==◌,
  if◌then◌else◌, Error,
}

-- What a promise of the queue is settled with. `completed` is the marker object of the closure.
pub data Item {ℓ} (T : Type ℓ) : Type ℓ where
  value : T → Item T
  rejected : Error → Item T
  completed : Item T

-- What one request of the consumer comes to: a value, an exception, a wait, or the end.
-- `stuck` says that the model's fuel ran out.
pub data Poll {ℓ} (T : Type ℓ) : Type ℓ where
  yielded : T → Poll T
  thrown : Error → Poll T
  blocked : Poll T
  ended : Poll T
  stuck : Poll T

pub record Later {ℓ} (T : Type ℓ) : Type ℓ where
  pub cells : ℕ → Option (Item T)
  pub fresh : ℕ
  pub queue : List ℕ
  pub next_in_line : ℕ
  pub awaiting : Option ℕ
  pub finished : Bool

-- `queue.pop()` takes the last entry.
unfoldable pub pop : List ℕ → Option (ℕ × List ℕ)
pop [] = none
pop (i ∷ q) = elim (pop q) [ none ↦ some (i, []) | some (j, r) ↦ some (j, i ∷ r) ]

module _ {ℓ} {T : Type ℓ} where
  -- The resolve callback of a promise: only its first call counts.
  abbrev pub settle : Option (Item T) → Item T → Option (Item T)
  settle none x = some x
  settle (some y) x = some y

  abbrev pub resolve : ℕ → Item T → (ℕ → Option (Item T)) → ℕ → Option (Item T)
  resolve i x cells j = if j == i then settle (cells i) x else cells j

  unfoldable pub iterate_later : Later T
  iterate_later = record {
    cells = λ j. none;
    fresh = 1;
    queue = 0 ∷ [];
    next_in_line = 0;
    awaiting = none;
    finished = false;
  }

  -- `next`: settle the promise in line, and put a new one at the front of the queue.
  unfoldable pub next : Item T → Later T → Later T
  next x s = record s {
    cells = resolve s.next_in_line x s.cells;
    fresh = s.fresh + 1;
    queue = s.fresh ∷ s.queue;
    next_in_line = s.fresh;
  }

  unfoldable pub complete : Later T → Later T
  complete s = record s { cells = resolve s.next_in_line completed s.cells }

  -- The `while` loop of the generator, from where it was suspended.
  unfoldable pub advance : ℕ → Later T → Later T × Poll T
  advance zero s = (s, stuck)
  advance (suc fuel) s = elim s.awaiting [
    | none ↦ elim (pop s.queue) [
      | none ↦ (record s { finished = true }, ended)
      | some (i, q) ↦ advance fuel (record s { queue = q; awaiting = some i })
    ]
    | some i ↦ elim (s.cells i) [
      | none ↦ (s, blocked)
      | some (value v) ↦ (record s { awaiting = none }, yielded v)
      | some (rejected e) ↦ (record s { awaiting = none; finished = true }, thrown e)
      | some completed ↦ advance fuel (record s { awaiting = none })
    ]
  ]

  -- Two rounds for each promise that is queued or awaited, and two more, suffice.
  unfoldable pub poll : Later T → Later T × Poll T
  poll s = if s.finished then (s, ended) else advance (2 * length s.queue + 4) s

-- What the two ends of the iterable do, in the order in which it happens.
pub data Event {ℓ} (T : Type ℓ) : Type ℓ where
  emit : T → Event T
  fail : Error → Event T
  close : Event T
  ask : Event T

module _ {ℓ} {T : Type ℓ} where
  unfoldable pub step : Event T → Later T → Later T × List (Poll T)
  step (emit v) s = (next (value v) s, [])
  step (fail e) s = (next (rejected e) s, [])
  step close s = (complete s, [])
  step ask s = let (s', p) = poll s in (s', p ∷ [])
