-- ===== src/BoxProgram/Config.antt =====
-- apps/box/src/config.ts: the repository of the box, its network secret and the parts of its configuration that are
-- made from addresses.
use fula_archived.Prelude.{
  ℕ, Bool, Option, none, some, List, [], ◌∷◌, ◌++◌, is_empty, ◌*◌, true, Text, Bytes, Result, ok,
  err, stuck, ◌>>=◌, call, if◌then◌else◌,
}

-- `createRepo()`, on the directories that exist.
unfoldable pub create_repo : Bool → Text → List Text → List Text
create_repo exists repo_path dirs = if exists then dirs else dirs ++ repo_path ∷ []

-- `getNetSecret()`, with the path of the key and what is read there.
unfoldable pub get_net_secret : Text → Option Bytes → Result (Option Bytes)
get_net_secret pkey_path file =
    let secret = (do key ← call file; ok (some key)) in
    if is_empty pkey_path then ok none else secret

-- `/ip4/`, `/tcp/4002/p2p/` and `/tcp/4003/ws/p2p/`
abbrev pub ip4 : Text
ip4 = b'/' ∷ b'i' ∷ b'p' ∷ 52 ∷ b'/' ∷ []

abbrev pub tcp_part : Text
tcp_part =
    b'/' ∷ b't' ∷ b'c' ∷ b'p' ∷ b'/' ∷ 52 ∷ 48 ∷ 48 ∷ 50 ∷ b'/' ∷ b'p' ∷ 50 ∷ b'p' ∷ b'/' ∷ []

abbrev pub ws_part : Text
ws_part =
    b'/' ∷ b't' ∷ b'c' ∷ b'p' ∷ b'/' ∷ 52 ∷ 48 ∷ 48 ∷ 51 ∷ b'/' ∷ b'w' ∷ b's' ∷ b'/' ∷ b'p' ∷ 50
    ∷ b'p' ∷ b'/' ∷ []

-- `getAnnounceAddr(identity)`, from what `getPublicIP` comes to.
unfoldable pub get_announce_addr : Result Text → Text → Result (List Text)
get_announce_addr (ok public_ip) identity = ok (
    (ip4 ++ (public_ip ++ (tcp_part ++ identity)))
    ∷ (ip4 ++ (public_ip ++ (ws_part ++ identity)))
    ∷ [])
get_announce_addr (err e) identity = ok []
get_announce_addr stuck identity = stuck

-- `getPeerRouting()`, which is `undefined` where there is no IPFS.
unfoldable pub get_peer_routing :
    {Ipfs Routing : Type 0} → (Ipfs → Routing) → Result Ipfs → Result (Option (List Routing))
get_peer_routing routing (ok i) = ok (some (routing i ∷ []))
get_peer_routing routing (err e) = ok none
get_peer_routing routing stuck = stuck

-- `new Bootstrap({list, interval})`
pub record Bootstrap : Type 0 where
  pub list : List Text
  pub interval : ℕ

-- `getPeerDiscovery()`
unfoldable pub get_peer_discovery : Result (List Text) → Result (List Bootstrap)
get_peer_discovery nodes = do
  list ← nodes
  ok (if is_empty list then [] else record { list = list; interval = 2000 } ∷ [])

-- The configuration of libp2p that `libConfig` makes, with times in milliseconds. The transports
-- are WebRTCStar, TCP and WebSockets, in this order.
pub data Transport : Type 0 where
  web_rtc_star tcp web_sockets : Transport

pub record Dialer : Type 0 where
  pub max_parallel_dials : ℕ
  pub max_addrs_to_dial : ℕ
  pub max_dials_per_peer : ℕ
  pub dial_timeout : ℕ

pub record ConnectionManager : Type 0 where
  pub auto_dial : Bool
  pub max_connections : ℕ
  pub min_connections : ℕ
  pub poll_interval : ℕ

pub record Relay : Type 0 where
  pub enabled : Bool
  pub hop_enabled : Bool
  pub hop_active : Bool
  pub advertise_boot_delay : ℕ
  pub advertise_enabled : Bool
  pub advertise_ttl : ℕ
  pub auto_relay_enabled : Bool
  pub auto_relay_max_listeners : ℕ

pub record LibConfig (PeerId : Type 0) : Type 0 where
  pub peer_id : PeerId
  pub connection_protector : Option Bytes
  pub is_fault_tolerant : Bool
  pub dialer : Dialer
  pub connection_manager : ConnectionManager
  pub transports : List Transport
  pub listen : List Text
  pub relay : Relay

-- `libConfig(fula_options)`: the repository is there before the identity is looked for in it. Its argument
-- is not read.
unfoldable pub lib_config :
    {PeerId : Type 0}
    → Bool
    → Text
    → List Text
    → Result PeerId
    → Option Bytes
    → List Text
    → Result (LibConfig PeerId) × List Text
unfolding create_repo
lib_config exists repo_path dirs peer_id net_secret listening = (
  (do
    i ← peer_id
    ok (record {
      peer_id = i;
      connection_protector = net_secret;
      is_fault_tolerant = true;
      dialer = record {
        max_parallel_dials = 10;
        max_addrs_to_dial = 5;
        max_dials_per_peer = 2;
        dial_timeout = 10000;
      };
      connection_manager = record {
        auto_dial = true;
        max_connections = 50;
        min_connections = 0;
        poll_interval = 2000;
      };
      transports = web_rtc_star ∷ tcp ∷ web_sockets ∷ [];
      listen = listening;
      relay = record {
        enabled = true;
        hop_enabled = true;
        hop_active = true;
        advertise_boot_delay = 15 * 60 * 1000;
        advertise_enabled = true;
        advertise_ttl = 30 * 60 * 1000;
        auto_relay_enabled = true;
        auto_relay_max_listeners = 2;
      };
    })),
  create_repo exists repo_path dirs,
)
