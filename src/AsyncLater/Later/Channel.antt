-- ===== src/AsyncLater/Later/Channel.antt =====
-- What `iterateLater` promises: a first-in first-out channel of items, with no promises in it.
use fula_archived.Prelude.{Bool, true, false, List, [], ◌∷◌, ◌++◌, if◌then◌else◌}
use fula_archived.AsyncLater.Later.{
  Item, value, rejected, completed, Poll, yielded, thrown, blocked, ended, Event, emit, fail, close,
  ask,
}

-- `waiting` is what was sent and not yet received. The channel shuts with a `completed`, and the
-- first send after that is lost, and opens it again.
pub record Channel {ℓ} (T : Type ℓ) : Type ℓ where
  pub waiting : List (Item T)
  pub is_open : Bool
  pub is_over : Bool

module _ {ℓ} {T : Type ℓ} where
  abbrev pub empty : Channel T
  empty = record { waiting = []; is_open = true; is_over = false }

  unfoldable pub send : Item T → Channel T → Channel T
  send x c =
      if c.is_open then record c { waiting = c.waiting ++ x ∷ [] } else record c { is_open = true }

  unfoldable pub shut : Channel T → Channel T
  shut c =
      if c.is_open then record c { waiting = c.waiting ++ completed ∷ []; is_open = false } else c

  unfoldable pub receive_from : Bool → List (Item T) → Channel T × Poll T
  receive_from is_open [] =
      if is_open
      then (record { waiting = []; is_open = is_open; is_over = false }, blocked)
      else (record { waiting = []; is_open = is_open; is_over = true }, ended)
  receive_from is_open (value v ∷ r) =
      (record { waiting = r; is_open = is_open; is_over = false }, yielded v)
  receive_from is_open (rejected e ∷ r) =
      (record { waiting = r; is_open = is_open; is_over = true }, thrown e)
  receive_from is_open (completed ∷ r) = receive_from is_open r

  unfoldable pub receive : Channel T → Channel T × Poll T
  receive c = if c.is_over then (c, ended) else receive_from c.is_open c.waiting

  unfoldable pub channel_step : Event T → Channel T → Channel T × List (Poll T)
  channel_step (emit v) c = (send (value v) c, [])
  channel_step (fail e) c = (send (rejected e) c, [])
  channel_step close c = (shut c, [])
  channel_step ask c = let (c', p) = receive c in (c', p ∷ [])

-- The polls that a sequence of events makes, in order, with the state after it.
unfoldable pub run {ℓ κ} :
    {S : Type ℓ} {T : Type κ}
    → (Event T → S → S × List (Poll T))
    → List (Event T)
    → S
    → S × List (Poll T)
run step [] s = (s, [])
run step (e ∷ es) s =
    let (s', out) = step e s in let (s'', more) = run step es s' in (s'', out ++ more)
