-- ===== src/Bridge/Generator/Cell.antt =====
-- A cell that holds one thing at most, of which its consumer is told: what `observableToAsyncGenerator`
-- comes to.
use fula_archived.Prelude.{Bool, true, false, List, [], ◌∷◌, if◌then◌else◌}
use fula_archived.AsyncLater.Later.{
  Poll, yielded, thrown, blocked, ended, Event, emit, fail, close, ask,
}
use fula_archived.Bridge.Generator.{Settled, present, refused, absent}

-- The generator's consumer: not waiting, waiting, or woken by the first thing that came since.
pub data Hand (T : Type 0) : Type 0 where
  idle : Hand T
  waiting : Hand T
  woken : Settled T → Hand T

-- The cell, with whether it is shut for good, whether by the end, and whether its consumer is done.
pub record Cell (T : Type 0) : Type 0 where
  pub hand : Hand T
  pub is_shut : Bool
  pub is_complete : Bool
  pub is_done : Bool

module _ {T : Type 0} where
  abbrev pub new_cell : Cell T
  new_cell = record { hand = idle; is_shut = false; is_complete = false; is_done = false }

  -- What comes is kept only by a consumer that waits.
  unfoldable pub wake : Settled T → Hand T → Hand T
  wake x idle = idle
  wake x waiting = woken x
  wake x (woken y) = woken y

  unfoldable pub take_from : Bool → Hand T → Cell T → Cell T × Poll T
  take_from true idle c = (record c { is_done = true }, ended)
  take_from false idle c = (record c { hand = waiting }, blocked)
  take_from complete waiting c = (c, blocked)
  take_from complete (woken (refused e)) c = (record c { is_done = true }, thrown e)
  take_from true (woken x) c = (record c { is_done = true }, ended)
  take_from false (woken (present v)) c = (record c { hand = idle }, yielded v)
  take_from false (woken absent) c = (record c { is_done = true }, Poll.stuck)

  unfoldable pub cell_step : Event T → Cell T → Cell T × List (Poll T)
  unfolding wake take_from
  cell_step (emit v) c = (if c.is_shut then c else record c { hand = wake (present v) c.hand }, [])
  cell_step (fail e) c =
      (if c.is_shut then c else record c { hand = wake (refused e) c.hand; is_shut = true }, [])
  cell_step close c = (
    if c.is_shut
        then c
        else record c { hand = wake absent c.hand; is_shut = true; is_complete = true },
    [],
  )
  cell_step ask c =
      let (c', p) = take_from c.is_complete c.hand c in
      (if c.is_done then c else c', (if c.is_done then ended else p) ∷ [])
