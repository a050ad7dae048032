-- ===== src/Bridge/Generator/Loses.antt =====
-- `observableToAsyncGenerator` as a cell that holds one value at most, and what it loses.
use fula_archived.Prelude.{Bool, true, false, List, [], ◌∷◌, ◌≡◌, refl, ap, ◌∙◌, if◌then◌else◌}
use fula_archived.AsyncLater.Later.{Poll, yielded, blocked, ended, Event, emit, fail, close, ask}
use fula_archived.AsyncLater.Later.Channel.{run}
use fula_archived.Bridge.Generator.{
  present, Generator, new_generator, request, generator_step, observe_value, observe_error,
  observe_complete,
}
use fula_archived.Bridge.Generator.Cell.{woken, Cell, new_cell, wake, take_from, cell_step}
use fula_archived.Bridge.Generator.StandsFor.{
  StandsFor, StandsFor-new, push-StandsFor, shut-StandsFor, refused-StandsFor,
}
use fula_archived.Bridge.Generator.Asks.{over_done, ask_hand}

module _ {T : Type 0} where
  -- One event.
  abbrev Steps : Generator T × List (Poll T) → Cell T × List (Poll T) → Type 0
  Steps (g, ps) (c, qs) = StandsFor g c × (ps ≡ qs)

  both :
      (g g2 : Generator T) (c c2 : Cell T) (a b : Bool)
      → a ≡ b
      → StandsFor g c
      → (b ≡ false → StandsFor g2 c2)
      → StandsFor (if a then g else g2) (if b then c else c2)
  both g g2 c c2 true true e r k = r
  both g g2 c c2 true false e r k = cc
  both g g2 c c2 false true e r k = cc
  both g g2 c c2 false false e r k = k refl

  asked :
      (g : Generator T) (c : Cell T) (b : Bool)
      → g.over ≡ b
      → StandsFor g c
      → Steps
          ((request g).0, (request g).1 ∷ [])
          (
            if b then c else (take_from c.is_complete c.hand c).0,
            (if b then ended else (take_from c.is_complete c.hand c).1) ∷ [],
          )
  asked g c true e r = rw (over_done g e) (r, refl)
  asked g c false e r =
      let (k, same) = ask_hand g c c.hand c.is_complete refl refl r e in (k, ap (λ p. p ∷ []) same)

  steps :
      (e : Event T) (g : Generator T) (c : Cell T)
      → StandsFor g c
      → Steps (generator_step e g) (cell_step e c)
  unfolding generator_step cell_step observe_value observe_error observe_complete
  steps (emit v) g c r =
      (both g _ c _ g.stopped c.is_shut r.stopped r (λ h. push-StandsFor (present v) g c r h), refl)
  steps (fail e) g c r =
      (both g _ c _ g.stopped c.is_shut r.stopped r (λ h. refused-StandsFor e g c r h), refl)
  steps close g c r =
      (both g _ c _ g.stopped c.is_shut r.stopped r (λ h. shut-StandsFor g c r h), refl)
  steps ask g c r = asked g c c.is_done r.over r

  run_same :
      (es : List (Event T)) (g : Generator T) (c : Cell T)
      → StandsFor g c
      → (run generator_step es g).1 ≡ (run cell_step es c).1
  unfolding run
  run_same [] g c r = refl
  run_same (e ∷ es) g c r =
      let (r', same) = steps e g c r in
      rw (same, run_same es (generator_step e g).0 (cell_step e c).0 r')

  -- For every interleaving of an observable's values, errors and end with the requests of a consumer, from
  -- its first request on, the requests to `observableToAsyncGenerator` come to what a cell gives them that keeps the first
  -- thing that comes while its consumer waits, and nothing else.
  pub run-new_generator :
      (es : List (Event T))
      → (run generator_step (ask ∷ es) new_generator).1 ≡ (run cell_step (ask ∷ es) new_cell).1
  run-new_generator es = run_same (ask ∷ es) new_generator new_cell StandsFor-new

  -- Values that come one at a time, while the consumer waits for them.
  abbrev pub paced : List T → List (Event T)
  paced [] = []
  paced (v ∷ vs) = ask ∷ emit v ∷ ask ∷ paced vs

  abbrev pub paced_polls : List T → List (Poll T)
  paced_polls [] = []
  paced_polls (v ∷ vs) = blocked ∷ yielded v ∷ paced_polls vs

  abbrev pub emits : List T → List (Event T) → List (Event T)
  emits [] es = es
  emits (v ∷ vs) es = emit v ∷ emits vs es

  run-paced : (vs : List T) → (run cell_step (paced vs) new_cell).1 ≡ paced_polls vs
  unfolding run cell_step take_from wake
  run-paced [] = refl
  run-paced (v ∷ vs) = ap (λ r. blocked ∷ yielded v ∷ r) (run-paced vs)

  run-woken :
      (x : T) (vs : List T) (es : List (Event T))
      → (run cell_step (emits vs es) (record new_cell { hand = woken (present x) })).1
        ≡ (run cell_step es (record new_cell { hand = woken (present x) })).1
  unfolding run cell_step wake
  run-woken x [] es = refl
  run-woken x (v ∷ vs) es = run-woken x vs es

  -- `observableToAsyncGenerator` yields every value that comes while its consumer waits. Of values that
  -- come before a waiting consumer reads, it yields the first and loses the others; if the observable
  -- completes as well before the consumer reads, it loses all of them and ends.
  pub generator_loses :
      (x : T) (vs : List T)
      → ((run generator_step (paced (x ∷ vs)) new_generator).1 ≡ paced_polls (x ∷ vs))
        × ((run generator_step (ask ∷ emit x ∷ emits vs (ask ∷ ask ∷ [])) new_generator).1
            ≡ blocked ∷ yielded x ∷ blocked ∷ [])
        × ((run generator_step (ask ∷ emit x ∷ emits vs (close ∷ ask ∷ [])) new_generator).1
            ≡ blocked ∷ ended ∷ [])
  unfolding run cell_step take_from wake
  generator_loses x vs = (
    run-new_generator (emit x ∷ ask ∷ paced vs) ∙ run-paced (x ∷ vs),
    run-new_generator (emit x ∷ emits vs (ask ∷ ask ∷ []))
        ∙ ap (λ r. blocked ∷ r) (run-woken x vs (ask ∷ ask ∷ [])),
    run-new_generator (emit x ∷ emits vs (close ∷ ask ∷ []))
        ∙ ap (λ r. blocked ∷ r) (run-woken x vs (close ∷ ask ∷ [])),
  )
