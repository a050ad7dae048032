-- ===== src/Bridge/Generator.antt =====
-- libraries/rn-fula/src/webview-fula/utils.ts: `defer` and `observableToAsyncGenerator`. A promise is a
-- number that names a cell of a heap. The generator
-- subscribes at its first request; a subscription of rxjs takes nothing behind an error or the end.
pub mod Cell
pub mod StandsFor
pub mod Asks
pub mod Loses
use fula_archived.Prelude.{
  ℕ, suc, ◌+◌, Bool, true, false, Option, none, some, List, [], ◌∷◌, ◌==◌, if◌then◌else◌, Error,
}
use fula_archived.AsyncLater.Later.{
  Poll, yielded, thrown, blocked, ended, Event, emit, fail, close, ask,
}

-- What a deferred promise is settled with; `absent` is `resolve()`.
pub data Settled (T : Type 0) : Type 0 where
  present : T → Settled T
  refused : Error → Settled T
  absent : Settled T

-- `deferred` and `finished`, the promise that the generator awaits, whether it has returned, and whether the
-- subscription has stopped.
pub record Generator (T : Type 0) : Type 0 where
  pub cells : ℕ → Option (Settled T)
  pub deferred : ℕ
  pub finished : Bool
  pub stopped : Bool
  pub awaiting : Option ℕ
  pub over : Bool

-- The promise that the loop awaits: the one that it awaits already, or `deferred` as it is now.
abbrev pub awaited : Option ℕ → ℕ → ℕ
awaited none current = current
awaited (some i) current = i

module _ {T : Type 0} where
  unfoldable pub new_generator : Generator T
  new_generator = record {
    cells = λ j. none;
    deferred = 0;
    finished = false;
    stopped = false;
    awaiting = none;
    over = false;
  }

  abbrev pub settle : ℕ → Settled T → (ℕ → Option (Settled T)) → ℕ → Option (Settled T)
  settle i x cells j = if j == i then some x else cells j

  -- `next`, `error` and `complete` of the observer.
  abbrev pub push : Settled T → Generator T → Generator T
  push x g = record g { cells = settle g.deferred x g.cells; deferred = suc g.deferred }

  unfoldable pub observe_value : T → Generator T → Generator T
  observe_value v g = if g.stopped then g else push (present v) g

  unfoldable pub observe_error : Error → Generator T → Generator T
  observe_error e g = if g.stopped then g else record (push (refused e) g) { stopped = true }

  unfoldable pub observe_complete : Generator T → Generator T
  observe_complete g =
      if g.stopped
      then g
      else record g { cells = settle g.deferred absent g.cells; finished = true; stopped = true }

  -- One round of the loop behind its `await`.
  unfoldable pub resume : Bool → Option (Settled T) → ℕ → Generator T → Generator T × Poll T
  resume finished none i g = (record g { awaiting = some i }, blocked)
  resume finished (some (refused e)) i g = (record g { over = true }, thrown e)
  resume true (some x) i g = (record g { over = true }, ended)
  resume false (some (present v)) i g = (record g { awaiting = none }, yielded v)
  resume false (some absent) i g = (record g { over = true }, Poll.stuck)

  -- A request of the consumer.
  unfoldable pub request : Generator T → Generator T × Poll T
  unfolding resume
  request g =
      let i = awaited g.awaiting g.deferred in
      if g.over then (g, ended) else resume g.finished (g.cells i) i g

  unfoldable pub generator_step : Event T → Generator T → Generator T × List (Poll T)
  unfolding observe_value observe_error observe_complete request
  generator_step (emit v) g = (observe_value v g, [])
  generator_step (fail e) g = (observe_error e g, [])
  generator_step close g = (observe_complete g, [])
  generator_step ask g = let (g', p) = request g in (g', p ∷ [])
