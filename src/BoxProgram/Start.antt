-- ===== src/BoxProgram/Start.antt =====
-- apps/box/src/app.ts: `app` and `graceful`, with the promises that they share.
pub mod Graceful
use fula_archived.Prelude.{
  ℕ, Bool, true, false, Option, none, some, List, [], ◌∷◌, ◌++◌, is_empty, Text, Result, ok, err,
  stuck, Error, message, runtime, ◌>>=◌, call, if◌then◌else◌,
}
use fula_archived.BoxProgram.{connect_with_back_off}

-- What happens to the node, in its order. The last part of `registerGraph` is behind the promise of OrbitDB.
pub data Action : Type 0 where
  libp2p_starts handles_files handles_graph serves_graph orbit_stops libp2p_stops : Action

-- A promise that `resolveLater` gives: nothing, or what the promise that it was resolved with comes to.
abbrev pub Promised : Type 0 → Type 0
Promised A = Option (Result A)

abbrev pub await : {A : Type 0} → Promised A → Result A
await none = stuck
await (some r) = r

-- `createLibp2p(conf)`: what `libConfig` throws is caught, and there is no node then.
unfoldable pub create_libp2p :
    {Cfg Libp2p : Type 0} → Result Cfg → (Cfg → Result Libp2p) → Result (Option Libp2p)
create_libp2p (ok cfg) create_node = do n ← create_node cfg; ok (some n)
create_libp2p (err e) create_node = ok none
create_libp2p stuck create_node = stuck

-- `createIPFSClusterProxy()`, with the configured address.
unfoldable pub create_ipfs_cluster_proxy : {Ipfs : Type 0} → Text → (ℕ → Option Ipfs) → Result Ipfs
create_ipfs_cluster_proxy proxy attempt =
    let connected = (connect_with_back_off attempt).0 in
    if is_empty proxy then err (message "No IPFS cluster provided") else connected

-- `libp2pPromise`, the promise of OrbitDB in graph/index.ts, and what has happened.
pub record Box (Libp2p Orbit : Type 0) : Type 0 where
  pub libp2p : Promised (Option Libp2p)
  pub orbit : Promised Orbit
  pub actions : List Action

-- What the parts that are called come to: whether a node starts, whether the handlers can be registered,
-- the instance of OrbitDB, and whether the two can be stopped.
pub record Parts (Libp2p Orbit : Type 0) : Type 0 where
  pub start : Libp2p → Option (Unit {0})
  pub handle_files : Option (Unit {0})
  pub handle_graph : Option (Unit {0})
  pub create_orbit : Result Orbit
  pub serve_graph : Option (Unit {0})
  pub stop_orbit : Orbit → Option (Unit {0})
  pub stop_libp2p : Libp2p → Option (Unit {0})

module _ {Libp2p Orbit : Type 0} where
  abbrev pub new_box : Box Libp2p Orbit
  new_box = record { libp2p = none; orbit = none; actions = [] }

  -- A step that may throw, and what is left of the box where it does; behind it goes on what follows.
  abbrev pub step :
      Option (Unit {0})
      → Action
      → Box Libp2p Orbit
      → (Box Libp2p Orbit → Result (Unit {0}) × Box Libp2p Orbit)
      → Result (Unit {0}) × Box Libp2p Orbit
  step none a b next = (err runtime, b)
  step (some _) a b next = next (record b { actions = b.actions ++ a ∷ [] })

  -- `registerGraph`: the promise of OrbitDB is resolved between its two parts.
  unfoldable pub register_graph :
      Parts Libp2p Orbit → Result Orbit → Box Libp2p Orbit → Result (Unit {0}) × Box Libp2p Orbit
  register_graph p (ok o) b =
      step p.serve_graph serves_graph (record b { orbit = some (ok o) }) (λ b'. (ok tt, b'))
  register_graph p (err e) b = (err e, b)
  register_graph p stuck b = (stuck, b)

  -- `app` behind its two `await`.
  unfoldable pub run_app :
      Parts Libp2p Orbit
      → Result (Option Libp2p)
      → Box Libp2p Orbit
      → Result (Unit {0}) × Box Libp2p Orbit
  unfolding register_graph
  run_app p (ok (some n)) b = step (p.start n) libp2p_starts b (λ b1.
      step p.handle_files handles_files b1
        (λ b2. step p.handle_graph handles_graph b2 (register_graph p p.create_orbit)))
  run_app p (ok none) b = (err runtime, b)
  run_app p (err e) b = (err e, b)
  run_app p stuck b = (stuck, b)

  -- `app(config)`, from what `createLibp2p` and `createIPFSClusterProxy` come to.
  unfoldable pub app :
      {Ipfs : Type 0}
      → Parts Libp2p Orbit
      → Result (Option Libp2p)
      → Result Ipfs
      → Result (Unit {0}) × Box Libp2p Orbit
  unfolding run_app
  app p libp2p (ok i) = run_app p libp2p (record new_box { libp2p = some libp2p })
  app p libp2p (err e) = ((do _ ← libp2p; err e), record new_box { libp2p = some libp2p })
  app p libp2p stuck = (stuck, record new_box { libp2p = some libp2p })

  -- `graceful()`; without a node `libp2p.stop()` throws.
  unfoldable pub graceful : Parts Libp2p Orbit → Box Libp2p Orbit → Result (Box Libp2p Orbit)
  graceful p b = do
    libp2p ← await b.libp2p
    orbit ← await b.orbit
    _ ← call (p.stop_orbit orbit)
    node ← call libp2p
    _ ← call (p.stop_libp2p node)
    ok (record b { actions = b.actions ++ (orbit_stops ∷ libp2p_stops ∷ []) })
