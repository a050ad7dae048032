-- ===== src/Bridge/Generator/StandsFor.antt =====
-- When a state of `observableToAsyncGenerator` stands for a cell, and that what the observer gets keeps it so.
use fula_archived.Prelude.{
  ℕ, suc, ◌+◌, ◌<◌, true, false, Option, none, some, ◌≡◌, refl, sym, ◌∙◌, arith, if◌then◌else◌,
  Error, Bool-cases, inl, inr,
}
use fula_archived.Bridge.Generator.{
  Settled, refused, absent, Generator, new_generator, settle, push,
}
use fula_archived.Bridge.Generator.Cell.{Hand, idle, waiting, woken, Cell, new_cell, wake}

module _ {T : Type 0} where
  -- How the promise that the generator awaits stands for the hand.
  abbrev pub HandOf : Generator T → Hand T → Type 0
  HandOf g idle = (g.awaiting ≡ none) × Unit {0}
  HandOf g waiting = (g.awaiting ≡ some g.deferred) × (g.finished ≡ false)
  HandOf g (woken x) =
      (i : ℕ) × (g.awaiting ≡ some i)
      × (g.cells i ≡ some x)
      × (i < g.deferred + (if g.finished then 1 else 0))

  pub record StandsFor (g : Generator T) (c : Cell T) : Type 0 where
    pub over : g.over ≡ c.is_done
    pub finished : g.finished ≡ c.is_complete
    pub stopped : g.stopped ≡ c.is_shut
    pub shut : c.is_complete ≡ true → c.is_shut ≡ true
    pub current : g.cells g.deferred ≡ (if g.finished then some absent else none)
    pub unused : (j : ℕ) → g.deferred < j → g.cells j ≡ none
    pub hand : HandOf g c.hand

  pub StandsFor-new : StandsFor new_generator new_cell
  unfolding new_generator
  StandsFor-new = record {
    over = refl;
    finished = refl;
    stopped = refl;
    shut = λ h. cc;
    current = refl;
    unused = λ j h. refl;
    hand = (refl, tt);
  }

  pub not_complete :
      {g : Generator T} {c : Cell T} → StandsFor g c → c.is_shut ≡ false → g.finished ≡ false
  not_complete {g} {c} r h = elim (Bool-cases c.is_complete) [
    | inl e ↦ (let bad : true ≡ false = sym (r.shut e) ∙ h in cc)
    | inr e ↦ r.finished ∙ e
  ]

  pub other_cell :
      (i j : ℕ) (x : Settled T) (cells : ℕ → Option (Settled T))
      → i < j
      → settle j x cells i ≡ cells i
  other_cell i j x cells h = ground arith

  pub own_cell :
      (j : ℕ) (x : Settled T) (cells : ℕ → Option (Settled T)) → settle j x cells j ≡ some x
  own_cell j x cells = ground arith

  pub later_cell :
      (i j : ℕ) (x : Settled T) (cells : ℕ → Option (Settled T))
      → j < i
      → settle j x cells i ≡ cells i
  later_cell i j x cells h = ground arith

  -- A push while the subscription goes on.
  pub push_hand :
      (x : Settled T) (g : Generator T) (h : Hand T)
      → g.finished ≡ false
      → HandOf g h
      → HandOf (push x g) (wake x h)
  unfolding wake
  push_hand x g idle f r = r
  push_hand x g waiting f (r, q) =
      (g.deferred, r, own_cell g.deferred x g.cells, rw f (omega arith))
  push_hand x g (woken y) f (i, r, e, lt) =
      let less : i < g.deferred = omega (rw f at lt, arith) in
      (i, r, other_cell i g.deferred x g.cells less ∙ e, rw f (omega arith))

  pub push-StandsFor :
      (x : Settled T) (g : Generator T) (c : Cell T)
      → StandsFor g c
      → c.is_shut ≡ false
      → StandsFor (push x g) (record c { hand = wake x c.hand })
  push-StandsFor x g c r h =
      let f = not_complete r h in
      record {
        over = r.over;
        finished = r.finished;
        stopped = r.stopped;
        shut = r.shut;
        current =
            later_cell (suc g.deferred) g.deferred x g.cells (omega arith)
            ∙ (r.unused (suc g.deferred) (omega arith) ∙ rw f refl);
        unused = λ j k. later_cell j g.deferred x g.cells (omega arith) ∙ r.unused j (omega arith);
        hand = push_hand x g c.hand f r.hand;
      }

  abbrev pub end_of : Generator T → Generator T
  end_of g = record g { cells = settle g.deferred absent g.cells; finished = true; stopped = true }

  pub shut_hand :
      (g : Generator T) (h : Hand T)
      → g.finished ≡ false
      → HandOf g h
      → HandOf (end_of g) (wake absent h)
  unfolding wake
  shut_hand g idle f r = r
  shut_hand g waiting f (r, q) = (g.deferred, r, own_cell g.deferred absent g.cells, omega arith)
  shut_hand g (woken y) f (i, r, e, lt) =
      let less : i < g.deferred = omega (rw f at lt, arith) in
      (i, r, other_cell i g.deferred absent g.cells less ∙ e, omega arith)

  pub shut-StandsFor :
      (g : Generator T) (c : Cell T)
      → StandsFor g c
      → c.is_shut ≡ false
      → StandsFor
          (end_of g)
          (record c { hand = wake absent c.hand; is_shut = true; is_complete = true })
  shut-StandsFor g c r h = record {
    over = r.over;
    finished = refl;
    stopped = refl;
    shut = λ _. refl;
    current = own_cell g.deferred absent g.cells;
    unused = λ j k. later_cell j g.deferred absent g.cells (omega arith) ∙ r.unused j (omega arith);
    hand = shut_hand g c.hand (not_complete r h) r.hand;
  }

  pub refused-StandsFor :
      (e : Error) (g : Generator T) (c : Cell T)
      → StandsFor g c
      → c.is_shut ≡ false
      → StandsFor
          (record (push (refused e) g) { stopped = true })
          (record c { hand = wake (refused e) c.hand; is_shut = true })
  refused-StandsFor e g c r h =
      let s = push-StandsFor (refused e) g c r h in
      record {
        over = s.over;
        finished = s.finished;
        stopped = refl;
        shut = λ _. refl;
        current = s.current;
        unused = s.unused;
        hand = s.hand;
      }
