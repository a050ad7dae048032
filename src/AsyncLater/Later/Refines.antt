-- ===== src/AsyncLater/Later/Refines.antt =====
-- iterate-later.ts: whatever the order of sends and requests, the iterable is a first-in first-out
-- channel.
use fula_archived.Prelude.{List, [], ◌∷◌, ◌≡◌, refl, ap}
use fula_archived.AsyncLater.Later.{
  value, rejected, Later, iterate_later, Event, emit, fail, close, ask, step,
}
use fula_archived.AsyncLater.Later.Channel.{Channel, empty, channel_step, run}
use fula_archived.AsyncLater.Later.Invariant.{
  Represents, Represents-iterate_later, Represents-next, Represents-complete,
}
use fula_archived.AsyncLater.Later.Rounds.{Represents-poll}

module _ {ℓ} {T : Type ℓ} where
  Represents-step :
      (e : Event T) (s : Later T) (c : Channel T)
      → Represents s c
      → Represents (step e s).0 (channel_step e c).0 × ((step e s).1 ≡ (channel_step e c).1)
  unfolding step channel_step
  Represents-step (emit v) s c r = (Represents-next r (value v), refl)
  Represents-step (fail e) s c r = (Represents-next r (rejected e), refl)
  Represents-step close s c r = (Represents-complete r, refl)
  Represents-step ask s c r = let (r', e) = Represents-poll s c r in (r', ap (λ p. p ∷ []) e)

  run_refines :
      (es : List (Event T)) (s : Later T) (c : Channel T)
      → Represents s c
      → (run step es s).1 ≡ (run channel_step es c).1
  unfolding run
  run_refines [] s c r = refl
  run_refines (e ∷ es) s c r =
      let (r', same) = Represents-step e s c r in
      rw (same, run_refines es (step e s).0 (channel_step e c).0 r')

  -- For every interleaving of values, rejections, completions and requests, the requests of the
  -- consumer of `iterateLater` come to what a first-in first-out channel gives them, in order.
  pub run-iterate_later :
      (es : List (Event T)) → (run step es iterate_later).1 ≡ (run channel_step es empty).1
  run-iterate_later es = run_refines es iterate_later empty Represents-iterate_later
