-- ===== src/FulaClient/Streams.antt =====
-- index.ts of libraries/fula-client: `connect`, `disconnect`, `close` and `_getStreamConnection`.
use fula_archived.Prelude.{
  String, Bool, true, false, Option, none, some, List, [], ◌∷◌, length, is_empty, Text, Result, ok,
  err, message, ◌≡◌, refl, ◌>>=◌, call, ltb, ltb→lt, subst, stuck, if◌then◌else◌, arith,
}
use fula_archived.FulaClient.{Status, offline, FulaConnection, new_connection, start, stop}

-- What the client has of libp2p: its connections, their streams by protocol, and the ids of peers.
pub record Libp2p : Type 1 where
  pub Conn : Type 0
  pub Stream : Type 0
  pub connections : List (List Conn)
  pub new_stream : Conn → String → Option Stream
  pub create_from_b58 : Text → Option Text

module _ (p : Libp2p) where
  -- `getConnection`: the first connection of the first peer.
  unfoldable pub get_connection : List (List p.Conn) → Option p.Conn
  get_connection [] = none
  get_connection ([] ∷ rest) = none
  get_connection ((c ∷ cs) ∷ rest) = some c

  abbrev pub is_offline : Status → Bool
  is_offline offline = true
  is_offline s = false

  -- `_getStreamConnection(protocol)` on the client's variable `connection`.
  unfoldable pub get_stream_connection : Option FulaConnection → String → Result p.Stream
  unfolding get_connection
  get_stream_connection none protocol = err (message "Peer id of th Box not set")
  get_stream_connection (some c) protocol =
      if is_empty c.box_peer_ids
      then err (message "Peer id of th Box not set")
      else if is_offline c.status
      then err (message "Server not Available, connection status: 1")
      else elim (get_connection p.connections) [
        | none ↦ err (message "No Available Connection")
        | some conn ↦ call (p.new_stream conn protocol)
      ]

  -- `peers.map((peer) => PeerId.createFromB58String(peer))`
  unfoldable pub peer_ids : List Text → Result (List Text)
  peer_ids [] = ok []
  peer_ids (x ∷ xs) = do i ← call (p.create_from_b58 x); is ← peer_ids xs; ok (i ∷ is)

  -- `connect`, on an array of peers, makes the client's connection.
  unfoldable pub connect : List Text → Result FulaConnection
  unfolding peer_ids
  connect peers = do
    ids ← peer_ids peers
    if ltb 0 (length ids)
        then ok (start (new_connection ids))
        else err (message "Please insert a valid a Box address")

-- `disconnect`, and `close` before it stops the node.
unfoldable pub disconnect : Option FulaConnection → Option FulaConnection
disconnect none = none
disconnect (some c) = some (stop c)

module _ (p : Libp2p) where
  abbrev IsFresh : FulaConnection → Type 0
  IsFresh c = (ids : List Text) × (ltb 0 (length ids) ≡ true) × (start (new_connection ids) ≡ c)

  with_ids :
      (b : Bool) (c d : FulaConnection)
      → (if b then ok c else err (message "Please insert a valid a Box address")) ≡ ok d
      → (b ≡ true) × (c ≡ d)
  with_ids true c d e = (refl, cc)
  with_ids false c d e = cc

  from_ids :
      (r : Result (List Text)) (c : FulaConnection)
      → (r >>= λ ids.
          if ltb 0 (length ids)
          then ok (start (new_connection ids))
          else err (message "Please insert a valid a Box address"))
        ≡ ok c
      → IsFresh c
  from_ids (ok ids) c e =
      let (b, same) = with_ids (ltb 0 (length ids)) (start (new_connection ids)) c e in
      (ids, b, same)
  from_ids (err x) c e = cc
  from_ids stuck c e = cc

  connect-IsFresh : (peers : List Text) (c : FulaConnection) → connect p peers ≡ ok c → IsFresh c
  unfolding connect
  connect-IsFresh peers c e = from_ids (peer_ids p peers) c e

  not_empty : (ids : List Text) → ltb 0 (length ids) ≡ true → is_empty ids ≡ false
  not_empty [] h = absurd (omega (arith, ltb→lt 0 0 h))
  not_empty (i ∷ ids) h = refl

  -- The stream that libp2p gives.
  abbrev pub of_libp2p : String → Result p.Stream
  of_libp2p protocol = elim (get_connection p p.connections) [
    | none ↦ err (message "No Available Connection")
    | some conn ↦ call (p.new_stream conn protocol)
  ]

  -- When `connect` has returned, `_getStreamConnection` opens a stream on libp2p's first connection, or throws
  -- that there is none; the client's own guards do not stop it. After `disconnect` it
  -- throws that the server is not available, whatever libp2p has.
  stream_after_connect :
      (peers : List Text) (c : FulaConnection) (protocol : String)
      → connect p peers ≡ ok c
      → (get_stream_connection p (some c) protocol ≡ of_libp2p protocol)
        × (get_stream_connection p (disconnect (some c)) protocol
            ≡ err (message "Server not Available, connection status: 1"))
  unfolding get_stream_connection disconnect start stop new_connection
  stream_after_connect peers c protocol e =
      let (ids, h, same) = connect-IsFresh peers c e in
      subst
        (λ d.
          (get_stream_connection p (some d) protocol ≡ of_libp2p protocol)
          × (get_stream_connection p (disconnect (some d)) protocol
              ≡ err (message "Server not Available, connection status: 1")))
        same (rw (not_empty ids h) refl, rw (not_empty ids h) refl)
