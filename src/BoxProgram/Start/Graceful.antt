-- ===== src/BoxProgram/Start/Graceful.antt =====
-- apps/box/src/app.ts: when `graceful` stops a box.
use fula_archived.Prelude.{
  Bool, true, false, ◌&&◌, Option, none, some, List, [], ◌∷◌, ◌++◌, Result, ok, err, runtime, stuck,
  ◌≡◌, refl,
}
use fula_archived.BoxProgram.Start.{
  Action, libp2p_starts, handles_files, handles_graph, serves_graph, orbit_stops, libp2p_stops, Box,
  Parts, register_graph, run_app, app, graceful,
}

abbrev pub works : Option (Unit {0}) → Bool
works none = false
works (some x) = true

-- The steps up to the first that fails, each with whether it works.
abbrev pub taken : List (Bool × Action) → List Action
taken [] = []
taken ((true, a) ∷ rest) = a ∷ taken rest
taken ((false, a) ∷ rest) = []

abbrev pub all_work : List (Bool × Action) → Bool
all_work [] = true
all_work ((w, a) ∷ rest) = w && all_work rest

-- What a start comes to whose steps all work, or do not.
abbrev pub come_to : Bool → Result (Unit {0})
come_to true = ok tt
come_to false = err runtime

module _ {Libp2p Orbit Ipfs : Type 0} (p : Parts Libp2p Orbit) (n : Libp2p) (i : Ipfs) where
  abbrev pub stopped : Bool → Box Libp2p Orbit → Result (Box Libp2p Orbit)
  stopped true b = ok (record b { actions = b.actions ++ orbit_stops ∷ libp2p_stops ∷ [] })
  stopped false b = stuck

  -- The steps of a start in their order, each with whether its part works.
  abbrev pub start_steps : List (Bool × Action)
  start_steps =
      (works (p.start n), libp2p_starts)
      ∷ (works p.handle_files, handles_files)
      ∷ (works p.handle_graph, handles_graph)
      ∷ (works p.serve_graph, serves_graph)
      ∷ []

  -- What becomes of a start whose parts work up to some step.
  abbrev Stops : (s hf hg sg : Option (Unit {0})) → Type 0
  Stops s hf hg sg =
      ((app p (ok (some n)) (ok i)).1.actions
        ≡ taken (
            (works s, libp2p_starts)
            ∷ (works hf, handles_files)
            ∷ (works hg, handles_graph)
            ∷ (works sg, serves_graph)
            ∷ []))
      × ((app p (ok (some n)) (ok i)).0
          ≡ come_to (works s && (works hf && (works hg && (works sg && true)))))
      × (graceful p (app p (ok (some n)) (ok i)).1
          ≡ stopped (works s && (works hf && works hg)) (app p (ok (some n)) (ok i)).1)

  by_parts :
      (o : Orbit) (s hf hg sg : Option (Unit {0}))
      → p.create_orbit ≡ ok o
      → p.stop_orbit o ≡ some tt
      → p.stop_libp2p n ≡ some tt
      → p.start n ≡ s
      → p.handle_files ≡ hf
      → p.handle_graph ≡ hg
      → p.serve_graph ≡ sg
      → Stops s hf hg sg
  unfolding app run_app register_graph graceful
  by_parts o none hf hg sg c so sl es ef eg eq = rw (es, app) (refl, refl, refl)
  by_parts o (some x) none hg sg c so sl es ef eg eq = rw (es, ef) (refl, refl, refl)
  by_parts o (some x) (some y) none sg c so sl es ef eg eq = rw (es, ef, eg) (refl, refl, refl)
  by_parts o (some x) (some y) (some z) none c so sl es ef eg eq =
      rw (es, ef, eg, c, eq, so, sl) (refl, refl, refl)
  by_parts o (some x) (some y) (some z) (some u) c so sl es ef eg eq =
      rw (es, ef, eg, c, eq, so, sl) (refl, refl, refl)

  -- The start of a box whose libp2p node and IPFS node are there, whose OrbitDB can be created, and whose OrbitDB
  -- and libp2p can be stopped. It starts the node, registers the handler of files, then that of
  -- queries, and then serves queries, up to the first of these steps that fails, and throws exactly
  -- where one fails. `graceful` then stops OrbitDB and after it libp2p, if the first three steps
  -- have worked, even where the fourth has not; otherwise it waits for ever, since the promise of OrbitDB is
  -- never resolved.
  pub graceful-app :
      (o : Orbit)
      → p.create_orbit ≡ ok o
      → p.stop_orbit o ≡ some tt
      → p.stop_libp2p n ≡ some tt
      → ((app p (ok (some n)) (ok i)).1.actions ≡ taken start_steps)
        × ((app p (ok (some n)) (ok i)).0 ≡ come_to (all_work start_steps))
        × (graceful p (app p (ok (some n)) (ok i)).1
            ≡ stopped
                (works (p.start n) && (works p.handle_files && works p.handle_graph))
                (app p (ok (some n)) (ok i)).1)
  graceful-app o c so sl =
      by_parts o (p.start n) p.handle_files p.handle_graph p.serve_graph c so sl refl refl refl refl
