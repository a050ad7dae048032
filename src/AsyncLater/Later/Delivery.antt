-- ===== src/AsyncLater/Later/Delivery.antt =====
-- iterate-later.ts: what a consumer gets to see, and the loop `for await` over the iterable.
use fula_archived.Prelude.{
  ℕ, zero, suc, ◌<◌, true, false, List, [], ◌∷◌, ◌++◌, map, length, ◌≡◌, refl, sym, ap, arith,
  Result, ok, err, ◌>>=◌, append-nil, append_assoc,
}
use mathlib.Core.List.{map-append}
use fula_archived.AsyncLater.Later.{
  value, completed, Poll, yielded, thrown, blocked, ended, Later, iterate_later, poll, Event, emit,
  fail, close, ask, step,
}
use fula_archived.AsyncLater.Later.Channel.{Channel, send, receive_from, receive, channel_step, run}
use fula_archived.AsyncLater.Later.Invariant.{Represents}
use fula_archived.AsyncLater.Later.Rounds.{Represents-poll}
use fula_archived.AsyncLater.Later.Refines.{run-iterate_later}

module _ {ℓ} {T : Type ℓ} where
  -- The values that were sent, and those that were received.
  abbrev pub emitted : List (Event T) → List T
  emitted [] = []
  emitted (emit v ∷ es) = v ∷ emitted es
  emitted (e ∷ es) = emitted es

  abbrev pub received : List (Poll T) → List T
  received [] = []
  received (yielded v ∷ ps) = v ∷ received ps
  received (p ∷ ps) = received ps

  -- Only sends and requests: nothing fails, and nothing has been completed yet.
  abbrev pub IsFlowing : List (Event T) → Type 0
  IsFlowing [] = Unit {0}
  IsFlowing (emit v ∷ es) = IsFlowing es
  IsFlowing (ask ∷ es) = IsFlowing es
  IsFlowing (fail e ∷ es) = ⊥
  IsFlowing (close ∷ es) = ⊥

  abbrev flowing : List T → Channel T
  flowing vs = record { waiting = map value vs; is_open = true; is_over = false }

  channel_in_order :
      (es : List (Event T)) (vs : List T)
      → IsFlowing es
      → (rest : List T) × (received (run channel_step es (flowing vs)).1 ++ rest ≡ vs ++ emitted es)
  unfolding run channel_step send receive receive_from
  channel_in_order [] vs h = (vs, sym (append-nil vs))
  channel_in_order (emit v ∷ es) vs h =
      let (rest, e) = channel_in_order es (vs ++ v ∷ []) h in
      (rest, simp (map-append, append_assoc) at e)
  channel_in_order (ask ∷ es) [] h = channel_in_order es [] h
  channel_in_order (ask ∷ es) (v ∷ vs) h =
      let (rest, e) = channel_in_order es vs h in (rest, ap (λ r. v ∷ r) e)
  channel_in_order (fail e ∷ es) vs h = absurd h
  channel_in_order (close ∷ es) vs h = absurd h

  -- While values are sent and asked for, in whatever order, the consumer receives the values that
  -- were sent, each once and in the order of sending; `rest` is what it has not received yet.
  received_in_order :
      (es : List (Event T))
      → IsFlowing es
      → (rest : List T) × (received (run step es iterate_later).1 ++ rest ≡ emitted es)
  received_in_order es h = rw run-iterate_later (channel_in_order es [] h)

  -- `for await (const value of iterable)`, with fuel for its rounds: the values, or the exception.
  -- A request that blocks for good leaves the loop `stuck`.
  unfoldable pub collect : ℕ → Later T → Result (List T)
  collect zero s = Result.stuck
  collect (suc fuel) s =
      let (s', p) = poll s in
      elim p [
        | yielded v ↦ (do vs ← collect fuel s'; ok (v ∷ vs))
        | thrown e ↦ err e
        | ended ↦ ok []
        | blocked ↦ Result.stuck
        | Poll.stuck ↦ Result.stuck
      ]

  module _ {s : Later T} {c : Channel T} (r : Represents s c) where
    collect-poll :
        (fuel : ℕ) (v : T) (c' : Channel T) (vs : List T)
        → receive c ≡ (c', yielded v)
        → collect fuel (poll s).0 ≡ ok vs
        → collect (suc fuel) s ≡ ok (v ∷ vs)
    unfolding collect
    collect-poll fuel v c' vs e h =
        let (_, same) = Represents-poll s c r in ground (arith, same, e, h)

    collect_ended :
        (fuel : ℕ) (c' : Channel T) → receive c ≡ (c', ended) → collect (suc fuel) s ≡ ok []
    unfolding collect
    collect_ended fuel c' e = let (_, same) = Represents-poll s c r in ground (arith, same, e)

  -- The channel that holds values and is shut behind them.
  abbrev pub closed : List T → Channel T
  closed vs = record { waiting = map value vs ++ completed ∷ []; is_open = false; is_over = false }

  -- A consumer of a completed iterable gets all that is in it, and its loop ends.
  pub collect-closed :
      (vs : List T) (fuel : ℕ) (s : Later T)
      → Represents s (closed vs)
      → length vs < fuel
      → collect fuel s ≡ ok vs
  unfolding receive receive_from
  collect-closed vs zero s r h = absurd (omega arith)
  collect-closed [] (suc fuel) s r h = collect_ended r fuel _ refl
  collect-closed (v ∷ vs) (suc fuel) s r h =
      collect-poll r fuel v _ vs refl (
        collect-closed vs fuel (poll s).0 ((Represents-poll s (closed (v ∷ vs)) r).0) (omega arith))
