-- ===== src/FulaClient/Config.antt =====
-- libraries/fula-client/src/config.ts: the configuration of libp2p that the client starts with.
use fula_archived.Prelude.{ℕ, Bool, true, false, Option, none, some, List, [], ◌∷◌, Text, Bytes}

pub data Transport : Type 0 where
  web_rtc_star web_sockets : Transport

-- The limits that are `Infinity` are left out as `none`.
pub record ConnectionManager : Type 0 where
  pub auto_dial : Bool
  pub max_connections : ℕ
  pub min_connections : ℕ
  pub poll_interval : ℕ
  pub default_peer_value : ℕ
  pub max_data : Option ℕ
  pub max_sent_data : Option ℕ
  pub max_received_data : Option ℕ
  pub max_event_loop_delay : Option ℕ
  pub moving_average_interval : ℕ

-- `Options`, with the implementation of WebRTC, and what is made of them.
pub record ClientOptions (Wrtc : Type 0) : Type 0 where
  pub net_secret : Option Bytes
  pub wrtc : Option Wrtc

pub record ClientConfig (Wrtc : Type 0) : Type 0 where
  pub listen : List Text
  pub transport : List Transport
  pub conn_protector : Option Bytes
  pub connection_manager : ConnectionManager
  pub wrtc : Option Wrtc
  pub discovery_auto_dial : Bool
  pub discovery_web_rtc_star : Bool
  pub deny_inbound_connection : Bool

abbrev pub option_field : {A B : Type 0} → (A → Option B) → Option A → Option B
option_field f none = none
option_field f (some o) = f o

unfoldable pub configure :
    {Wrtc : Type 0} → List Text → Option (ClientOptions Wrtc) → ClientConfig Wrtc
configure sig_server option = record {
  listen = sig_server;
  transport = web_rtc_star ∷ web_sockets ∷ [];
  conn_protector = option_field (λ o. o.net_secret) option;
  connection_manager = record {
    auto_dial = true;
    max_connections = 1;
    min_connections = 1;
    poll_interval = 2000;
    default_peer_value = 1;
    max_data = none;
    max_sent_data = none;
    max_received_data = none;
    max_event_loop_delay = none;
    moving_average_interval = 60000;
  };
  wrtc = option_field (λ o. o.wrtc) option;
  discovery_auto_dial = true;
  discovery_web_rtc_star = false;
  deny_inbound_connection = true;
}
