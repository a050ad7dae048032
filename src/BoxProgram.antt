-- ===== src/BoxProgram.antt =====
-- apps/box/src/utils.ts (`connectWithBackOff`) and config.ts (`getPeerId`, `getIPFS`, `getBootstrapNodes`): how a
-- box comes to its IPFS node and its identity. A node of IPFS is an object, so the guard of
-- `getBootstrapNodes` never finds it missing.
pub mod Waiting
pub mod Start
pub mod Config
use fula_archived.Prelude.{
  ℕ, zero, suc, ◌+◌, Option, none, some, List, [], ◌∷◌, ◌++◌, Text, Bytes, ◌≡◌, refl, Result, ok,
  err, stuck, message, ◌>>=◌, call, ltb, runtime, Option-cases, inl, inr, if◌then◌else◌,
}

abbrev pub limit : ℕ
limit = 100

-- The loop of `connectWithBackOff`: `attempt` gives the node of the n-th try, or nothing where it throws. The
-- seconds that were slept are counted.
abbrev pub found_or : {Node : Type 0} → Option Node → ℕ → Result Node × ℕ → Result Node × ℕ
found_or (some n) slept again = (ok n, slept)
found_or none slept again = again

module _ {Node : Type 0} (attempt : ℕ → Option Node) where
  unfoldable pub try_from : ℕ → ℕ → ℕ → ℕ → Result Node × ℕ
  try_from zero try_count sleep slept = (stuck, slept)
  try_from (suc fuel) try_count sleep slept =
      let again = try_from fuel (try_count + 1) (sleep + 5) (slept + sleep) in
      if ltb try_count limit
      then found_or (attempt try_count) slept again
      else (err (message "Can Not Connect to IPFS"), slept)

  unfoldable pub connect_with_back_off : Result Node × ℕ
  unfolding try_from
  connect_with_back_off = try_from (limit + 1) 0 5 0

  -- `getIPFS`, with the variable `_ipfs`.
  unfoldable pub get_ipfs : Option Node → Result (Node × Option Node)
  get_ipfs (some n) = ok (n, some n)
  get_ipfs none = do n ← connect_with_back_off.0; ok (n, some n)

-- What `@libp2p/peer-id-factory` does: an identity that was written can be read back.
pub record PeerIds : Type 1 where
  pub PeerId : Type 0
  pub created : PeerId
  pub export_to_protobuf : PeerId → Bytes
  pub create_from_protobuf : Bytes → Option PeerId
  pub create-export : (i : PeerId) → create_from_protobuf (export_to_protobuf i) ≡ some i

-- `getPeerId`, on what the file `identity` of the repository holds, if it is there.
unfoldable pub get_peer_id : (p : PeerIds) → Option Bytes → Result (p.PeerId × Option Bytes)
get_peer_id p (some identity) = do i ← call (p.create_from_protobuf identity); ok (i, some identity)
get_peer_id p none = ok (p.created, some (p.export_to_protobuf p.created))

-- Every later start of the box has the identity of the start before it, however that one came to it.
get_peer_id_again :
    (p : PeerIds) (identity later : Option Bytes) (i : p.PeerId)
    → get_peer_id p identity ≡ ok (i, later)
    → get_peer_id p later ≡ ok (i, later)
unfolding get_peer_id
get_peer_id_again p none later i e =
    let file : some (p.export_to_protobuf p.created) ≡ later = cc in
    let id : p.created ≡ i = cc in rw (← file, ← id) (rw (p.create-export p.created) refl)
get_peer_id_again p (some identity) later i e =
    elim (Option-cases (p.create_from_protobuf identity)) [
      | inl f ↦
          (let bad : ◌≡◌ {A = Result (p.PeerId × Option Bytes)} (err runtime) (ok (i, later)) =
              (rw f at e) in
            cc)
      | inr (j, f) ↦
          (let same : ◌≡◌ {A = Result (p.PeerId × Option Bytes)} (ok (j, some identity))
                (ok (i, later)) =
              rw f at e in
            let file : some identity ≡ later = cc in
            let id : j ≡ i = cc in rw (← file, ← id) (rw f refl))
    ]

-- An address of the swarm: a peer's id and its multiaddresses, as texts.
pub record SwarmPeer : Type 0 where
  pub id : Text
  pub addrs : List Text

-- `${_ma.toString()}/p2p/${ma.id}`
abbrev pub p2p_address : Text → Text → Text
p2p_address addr id = addr ++ (47 ∷ 112 ∷ 50 ∷ 112 ∷ 47 ∷ id)

unfoldable pub addresses_of : Text → List Text → List Text → List Text
addresses_of id adder [] = adder
addresses_of id adder (a ∷ as') = addresses_of id (adder ++ p2p_address a id ∷ []) as'

unfoldable pub swarm_addresses : List Text → List SwarmPeer → List Text
unfolding addresses_of
swarm_addresses adder [] = adder
swarm_addresses adder (p ∷ ps) = swarm_addresses (addresses_of p.id adder p.addrs) ps

-- `getBootstrapNodes`, with the configured nodes.
unfoldable pub get_bootstrap_nodes :
    {Node : Type 0}
    → List Text
    → Result Node
    → (Node → Result (List SwarmPeer))
    → Result (List Text)
unfolding swarm_addresses
get_bootstrap_nodes fula_nodes ipfs addrs = do
  node ← ipfs
  peers ← addrs node
  ok (fula_nodes ++ swarm_addresses [] peers)
