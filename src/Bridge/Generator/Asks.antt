-- ===== src/Bridge/Generator/Asks.antt =====
-- The requests to `observableToAsyncGenerator`, with each state of the promise that it awaits.
use fula_archived.Prelude.{
  ℕ, Bool, true, false, Option, none, some, ◌≡◌, refl, sym, ap, ◌∙◌, if◌then◌else◌, subst,
}
use fula_archived.AsyncLater.Later.{Poll, blocked, ended}
use fula_archived.Bridge.Generator.{
  Settled, present, refused, absent, Generator, resume, request, awaited,
}
use fula_archived.Bridge.Generator.Cell.{Hand, idle, waiting, woken, Cell, take_from}
use fula_archived.Bridge.Generator.StandsFor.{HandOf, StandsFor}

module _ {T : Type 0} where
  pub request_as :
      (g : Generator T) (a : Option ℕ) (b : Bool) (x : Option (Settled T))
      → g.over ≡ false
      → g.awaiting ≡ a
      → g.finished ≡ b
      → g.cells (awaited a g.deferred) ≡ x
      → request g ≡ resume b x (awaited a g.deferred) g
  unfolding request
  request_as g a b x o e f y = simp (o, e, f, y)

  -- The answer to a request, and what stands for what behind it.
  abbrev pub Answers : Generator T × Poll T → Cell T × Poll T → Type 0
  Answers (g, p) (c, q) = StandsFor g c × (p ≡ q)

  pub over_done : (g : Generator T) → g.over ≡ true → request g ≡ (g, ended)
  unfolding request
  over_done g o = simp o

  pub done :
      (g : Generator T) (c : Cell T)
      → StandsFor g c
      → StandsFor (record g { over = true }) (record c { is_done = true })
  done g c r = record {
    over = refl;
    finished = r.finished;
    stopped = r.stopped;
    shut = r.shut;
    current = r.current;
    unused = r.unused;
    hand = r.hand;
  }

  pub handed :
      (g : Generator T) (c : Cell T) (h : Hand T) (a : Option ℕ)
      → StandsFor g c
      → HandOf (record g { awaiting = a }) h
      → StandsFor (record g { awaiting = a }) (record c { hand = h })
  handed g c h a r k = record {
    over = r.over;
    finished = r.finished;
    stopped = r.stopped;
    shut = r.shut;
    current = r.current;
    unused = r.unused;
    hand = k;
  }

  pub current_shut :
      (g : Generator T) (c : Cell T) (b : Bool)
      → StandsFor g c
      → g.finished ≡ b
      → g.cells g.deferred ≡ (if b then some absent else none)
  current_shut g c b r e = r.current ∙ ap (λ q. if q then some absent else none) e

  pub ask_waiting :
      (g : Generator T) (c : Cell T) (k : Bool)
      → c.hand ≡ waiting
      → StandsFor g c
      → g.over ≡ false
      → Answers (request g) (c, blocked)
  unfolding resume
  ask_waiting g c k eh r o =
      let (aw, f) = subst (HandOf g) eh r.hand in
      rw (request_as g (some g.deferred) false none o aw f (current_shut g c false r f)) (
        subst (λ h. StandsFor (record g { awaiting = some g.deferred }) (record c { hand = h }))
            (sym eh) (handed g c waiting (some g.deferred) r (refl, f)),
        refl,
      )

  pub ask_woken :
      (g : Generator T) (c : Cell T) (x : Settled T) (k : Bool)
      → c.hand ≡ woken x
      → c.is_complete ≡ k
      → StandsFor g c
      → g.over ≡ false
      → Answers (request g) (take_from k (woken x) c)
  unfolding take_from resume
  ask_woken g c (refused e) k eh ek r o =
      let (i, aw, cell, lt) = subst (HandOf g) eh r.hand in
      rw (request_as g (some i) k (some (refused e)) o aw (r.finished ∙ ek) cell) (done g c r, refl)
  ask_woken g c (present v) true eh ek r o =
      let (i, aw, cell, lt) = subst (HandOf g) eh r.hand in
      rw (request_as g (some i) true (some (present v)) o aw (r.finished ∙ ek) cell)
        (done g c r, refl)
  ask_woken g c (present v) false eh ek r o =
      let (i, aw, cell, lt) = subst (HandOf g) eh r.hand in
      rw (request_as g (some i) false (some (present v)) o aw (r.finished ∙ ek) cell)
        (handed g c idle none r (refl, tt), refl)
  ask_woken g c absent true eh ek r o =
      let (i, aw, cell, lt) = subst (HandOf g) eh r.hand in
      rw (request_as g (some i) true (some absent) o aw (r.finished ∙ ek) cell) (done g c r, refl)
  ask_woken g c absent false eh ek r o =
      let (i, aw, cell, lt) = subst (HandOf g) eh r.hand in
      rw (request_as g (some i) false (some absent) o aw (r.finished ∙ ek) cell) (done g c r, refl)

  pub ask_hand :
      (g : Generator T) (c : Cell T) (h : Hand T) (k : Bool)
      → c.hand ≡ h
      → c.is_complete ≡ k
      → StandsFor g c
      → g.over ≡ false
      → Answers (request g) (take_from k h c)
  unfolding take_from resume
  ask_hand g c idle true eh ek r o =
      let aw = (subst (HandOf g) eh r.hand).0 in
      rw
        (request_as g none true (some absent) o aw (r.finished ∙ ek)
          (current_shut g c true r (r.finished ∙ ek)))
        (done g c r, refl)
  ask_hand g c idle false eh ek r o =
      let aw = (subst (HandOf g) eh r.hand).0 in
      let f = r.finished ∙ ek in
      rw (request_as g none false none o aw f (current_shut g c false r f))
        (handed g c waiting (some g.deferred) r (refl, f), refl)
  ask_hand g c waiting true eh ek r o = ask_waiting g c true eh r o
  ask_hand g c waiting false eh ek r o = ask_waiting g c false eh r o
  ask_hand g c (woken x) k eh ek r o = ask_woken g c x k eh ek r o
