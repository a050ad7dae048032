-- ===== src/FulaClient.antt =====
-- libraries/fula-client/src/connection.ts (`FulaConnection`) and index.ts (`createClient`): the
-- client's connection to its box.
pub mod History
pub mod Streams
pub mod Peers
pub mod Running
pub mod Files
pub mod Queries
pub mod Config
use fula_archived.Prelude.{
  ℕ, zero, suc, ◌+◌, ◌-◌, String, Bool, true, false, Option, none, some, List, [], ◌∷◌, ◌++◌,
  length, is_empty, Text, Result, ok, err, Error, message, ◌>>=◌, call, ltb, ◌==◌, if◌then◌else◌,
}

pub data Status : Type 0 where
  online offline connecting : Status

-- What `emit` is called with.
pub data Emitted : Type 0 where
  connected : Emitted
  status : Status → Emitted

-- `FulaConnection`: the timers that `setTimeout` has started and that have not fired are counted, for
-- peers that connect and for those that disconnect.
pub record FulaConnection : Type 0 where
  pub status : Status
  pub box_peer_ids : List Text
  pub ready : Bool
  pub listening : Bool
  pub started : Bool
  pub peer_store : List Text
  pub connect_timers : ℕ
  pub disconnect_timers : ℕ
  pub emitted : List Emitted

-- The constructor.
unfoldable pub new_connection : List Text → FulaConnection
new_connection ids = record {
  status = offline;
  box_peer_ids = ids;
  ready = false;
  listening = true;
  started = false;
  peer_store = [];
  connect_timers = 0;
  disconnect_timers = 0;
  emitted = [];
}

-- `this.status = s; this.emit('status', this.status)`
abbrev pub set_status : Status → FulaConnection → FulaConnection
set_status s c = record c { status = s; emitted = c.emitted ++ Emitted.status s ∷ [] }

unfoldable pub start : FulaConnection → FulaConnection
start c =
    let c' =
      set_status connecting
        (record c { peer_store = c.box_peer_ids ++ c.peer_store; started = true }) in
    record c' { ready = true }

-- `stop`; with it the peers leave the peer store, in which nothing else is put here.
unfoldable pub stop : FulaConnection → FulaConnection
stop c =
    let c' = set_status offline (record c { listening = false; peer_store = [] }) in
    record c' { started = false }

-- What happens to a connection. A timer looks at the number of the connections when it fires.
pub data Happening : Type 0 where
  started_by_client : Happening
  stopped_by_client : Happening
  peer_connect : Happening
  peer_disconnect : Happening
  connect_timer : ℕ → Happening
  disconnect_timer : ℕ → Happening

-- The timer of 'peer:connect', with `size` connections.
unfoldable pub connect_fires : ℕ → FulaConnection → FulaConnection
connect_fires size c =
    if ltb 0 size then set_status online (record c { emitted = c.emitted ++ connected ∷ [] }) else c

-- The timer of 'peer:disconnect'.
unfoldable pub disconnect_fires : ℕ → FulaConnection → FulaConnection
disconnect_fires size c = if size == 0 then set_status connecting c else c

unfoldable pub happen : Happening → FulaConnection → FulaConnection
happen started_by_client c = start c
happen stopped_by_client c = stop c
happen peer_connect c =
    if c.listening then record c { connect_timers = suc c.connect_timers } else c
happen peer_disconnect c =
    if c.listening then record c { disconnect_timers = suc c.disconnect_timers } else c
happen (connect_timer size) c =
    if c.connect_timers == 0
    then c
    else connect_fires size (record c { connect_timers = c.connect_timers - 1 })
happen (disconnect_timer size) c =
    if c.disconnect_timers == 0
    then c
    else disconnect_fires size (record c { disconnect_timers = c.disconnect_timers - 1 })

unfoldable pub happen_all : List Happening → FulaConnection → FulaConnection
happen_all [] c = c
happen_all (h ∷ hs) c = happen_all hs (happen h c)
