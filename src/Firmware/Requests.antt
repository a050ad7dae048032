-- ===== src/Firmware/Requests.antt =====
-- apps/firmware: the requests that the device answers. src/helpers/connect.js and error.js, src/controllers,
-- src/services/properties-file, `scan` of src/services/wifi, and the counter of server.js. What Koa
-- makes of an empty body is left to Koa.
pub mod Exits
use fula_archived.Prelude.{
  ℕ, suc, ◌+◌, ◌-◌, Bool, true, false, ◌||◌, not, Option, none, some, List, [], ◌∷◌, ◌++◌, is_empty,
  Text, text_eq, ◌==◌, if◌then◌else◌,
}

-- What is thrown: the message of an error, with the status that `genError` puts on it.
pub record Thrown : Type 0 where
  pub message : Text
  pub status : Option ℕ

pub data Outcome (A : Type 0) : Type 0 where
  returned : A → Outcome A
  thrown : Thrown → Outcome A

-- `genError(code, status)`
abbrev pub gen_error : Text → ℕ → Thrown
gen_error code status = record { message = code; status = some status }

-- `{error: true, message, errorCode}`, or what the controller returned.
pub data Body (A : Type 0) : Type 0 where
  result : A → Body A
  failure : Text → Option Text → Body A

-- The fields of Koa's context that the handlers set.
pub record Context (A : Type 0) : Type 0 where
  pub status : ℕ
  pub is_connected : Bool
  pub body : Option (Body A)

-- `messages[err.message]`, from the messages by their codes.
unfoldable pub message_of : Text → List (Text × Text) → Option Text
message_of code [] = none
message_of code ((k, m) ∷ r) =
    let rest = message_of code r in if text_eq k code then some m else rest

-- `err.status || 500`
abbrev pub status_or_500 : Option ℕ → ℕ
status_or_500 none = 500
status_or_500 (some s) = if s == 0 then 500 else s

module _ {A : Type 0} where
  -- The function that `connect(controller, {status})` returns, for what the controller comes to.
  unfoldable pub connect : List (Text × Text) → ℕ → Outcome A → Context A → Context A
  unfolding message_of
  connect messages status (returned a) c = record {
    status = status;
    is_connected = true;
    body = some (result a);
  }
  connect messages status (thrown e) c = record c {
    status = status_or_500 e.status;
    body = some (elim (message_of e.message messages) [
      | none ↦ failure e.message none
      | some m ↦ failure m (some e.message)
    ]);
  }

  -- The last handler of server.js.
  unfoldable pub or_not_found : Text → Text → Context A → Context A
  or_not_found not_found code c = elim c.body [
    | some b ↦ c
    | none ↦
        (if c.is_connected
          then c
          else record c { status = 404; body = some (failure not_found (some code)) })
  ]

-- `read()` of the properties' file: an object without fields where it cannot be read.
unfoldable pub read_properties : {P : Type 0} → P → Option P → P
read_properties empty none = empty
read_properties empty (some p) = p

-- The guard of `postWifiConnect`; a text that is empty or absent is false.
abbrev pub is_missing : Option Text → Bool
is_missing none = true
is_missing (some s) = is_empty s

unfoldable pub post_wifi_connect :
    {D : Type 0} → Text → Option Text → Option Text → (D → D) → D → Outcome (Unit {0}) × D
post_wifi_connect invalid_params ssid country_code connect d =
    if is_missing ssid || is_missing country_code
    then (thrown (record { message = invalid_params; status = none }), d)
    else (returned tt, connect d)

-- `_scan()` and `scan()`, with the variable `scanned`, on what `iw.scan` gives if it does not fail. Where some networks are
-- known they are returned, and the scan goes on behind.
module _ {N : Type 0} where
  unfoldable pub rescan : Option (List N) → List N → Option (List N) × List N
  rescan none scanned = (none, scanned)
  rescan (some found) scanned =
      let kept = if is_empty found then scanned else found in (some kept, kept)

  unfoldable pub scan : Option (List N) → List N → Option (List N) × List N
  unfolding rescan
  scan found [] = rescan found []
  scan found (n ∷ ns) = (some (n ∷ ns), (rescan found (n ∷ ns)).1)

-- `getWifiList`: the rejection of `scan` comes behind its `catch`.
unfoldable pub get_wifi_list :
    {N : Type 0} → Thrown → Option (List N) → List N → Outcome (List N) × List N
unfolding scan
get_wifi_list e found scanned =
    let (networks, kept) = scan found scanned in
    (elim networks [ none ↦ thrown e | some ns ↦ returned ns ], kept)

-- `getWifiStatus`, `connected` or `disconnected`.
abbrev pub wifi_status : {A : Type 0} → A → A → Bool → A
wifi_status connected disconnected b = if b then connected else disconnected

-- `requestsCount` of server.js, whether the listener of SIGINT waits for it, and whether the process has
-- ended; with the requests that are being answered and those that threw.
pub record Server : Type 0 where
  pub count : ℕ
  pub waits : Bool
  pub exited : Bool
  pub in_flight : ℕ
  pub broken : ℕ

pub data ServerEvent : Type 0 where
  arrived answered broke interrupted : ServerEvent

abbrev pub new_server : Server
new_server = record { count = 0; waits = false; exited = false; in_flight = 0; broken = 0 }

-- The listener of SIGINT.
abbrev pub interrupt : Server → Server
interrupt s = record s { waits = true; exited = s.count == 0 }

-- The handler that counts: behind `next()`, unless that throws, the count goes down, and at zero the
-- process ends if it is waited for. Nothing happens to a process that has ended.
unfoldable pub server_step : ServerEvent → Server → Server
server_step arrived s =
    if s.exited then s else record s { count = s.count + 1; in_flight = s.in_flight + 1 }
server_step answered s = if s.exited || s.in_flight == 0 then s else record s {
  count = s.count - 1;
  in_flight = s.in_flight - 1;
  exited = if s.count - 1 == 0 then s.waits else false;
}
server_step broke s =
    if s.exited || s.in_flight == 0
    then s
    else record s { in_flight = s.in_flight - 1; broken = s.broken + 1 }
server_step interrupted s = if s.exited then s else interrupt s

unfoldable pub server_run : List ServerEvent → Server → Server
unfolding server_step
server_run [] s = s
server_run (e ∷ es) s = server_run es (server_step e s)
