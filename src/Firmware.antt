-- ===== src/Firmware.antt =====
-- apps/firmware: the device that brings a box into a wireless network. the service of
-- src/services/wifi/index.js and its start by services.js; the chains' ends are in `Chains`.
pub mod Chains
pub mod Requests
use fula_archived.Prelude.{
  ℕ, suc, Bool, true, false, ◌&&◌, Option, none, some, List, [], ◌∷◌, ◌++◌, ◌==◌, if◌then◌else◌,
}

-- The commands, each a line for the shell.
pub data Command : Type 0 where
  stop_dnsmasq stop_hostapd disable_hostapd delete_interface restart_dhcpd : Command
  add_interface start_dhcpcd enable_hostapd unmask_hostapd start_hostapd start_dnsmasq : Command
  kill_wpa_supplicant run_wpa_supplicant reconfigure interface_up : Command

abbrev pub code : Command → ℕ
code stop_dnsmasq = 0
code stop_hostapd = 1
code disable_hostapd = 2
code delete_interface = 3
code restart_dhcpd = 4
code add_interface = 5
code start_dhcpcd = 6
code enable_hostapd = 7
code unmask_hostapd = 8
code start_hostapd = 9
code start_dnsmasq = 10
code kill_wpa_supplicant = 11
code run_wpa_supplicant = 12
code reconfigure = 13
code interface_up = 14

-- The files that are written: wpa_supplicant.conf, and three of a template for a client or for an access point.
pub data Mode : Type 0 where
  client ap : Mode

pub data Files : Type 0 where
  wpa_supplicant : Files
  dhcpcd dnsmasq hostapd : Mode → Files

-- What is still to be done: nested callbacks, with what the last one is called with, if anything, or with
-- what `checkIfIsConnected` finds then.
pub data Script : Type 0 where
  call_back : Option Bool → Script
  call_back_connected : Script
  write : Files → Script → Script
  exec : Command → Script → Script
  if_connected : Script → Script → Script

-- `writeAccessPointFiles(type)`
unfoldable pub write_access_point_files : Mode → Script → Script
write_access_point_files mode next =
    write (dhcpcd mode) (write (dnsmasq mode) (write (hostapd mode) next))

-- `disableAccessPoint(callback)`, `enableAccessPoint(callback)` and `connect(..., callback)`
unfoldable pub disable_access_point : Script → Script
unfolding write_access_point_files
disable_access_point callback = write_access_point_files client (
    exec stop_dnsmasq (
      exec stop_hostapd
        (exec disable_hostapd (exec delete_interface (exec restart_dhcpd callback)))))

unfoldable pub enable_access_point : Script → Script
unfolding disable_access_point write_access_point_files
enable_access_point callback = disable_access_point (
    write_access_point_files ap (
      exec add_interface (
        exec start_dhcpcd (
          exec enable_hostapd
            (exec unmask_hostapd (exec start_hostapd (exec start_dnsmasq callback)))))))

unfoldable pub connect : Script
connect = write wpa_supplicant (
    exec kill_wpa_supplicant (
      exec run_wpa_supplicant (
        if_connected (call_back (some true))
          (exec reconfigure (exec interface_up call_back_connected)))))

-- The listeners of `eventEmitter` in their order, the commands that were given to the shell, the files written,
-- and what callbacks were called with.
pub record Device : Type 0 where
  pub listeners : List (Command × Script)
  pub ran : List Command
  pub written : List Files
  pub results : List (Option Bool)

-- `linked` tells whether `iw` finds a connection when some commands have run.
module _ (linked : List Command → Bool) where
  abbrev pub check_if_is_connected : Device → Bool
  check_if_is_connected d = linked d.ran

  abbrev pub called : Option Bool → Device → Device
  called r d = record d { results = d.results ++ r ∷ [] }

  -- A script runs up to its next command; `execWithJournalctlCallback` registers the rest and runs the command.
  unfoldable pub start : Script → Device → Device
  start (call_back r) d = called r d
  start call_back_connected d = called (some (check_if_is_connected d)) d
  start (write f s) d = start s (record d { written = d.written ++ f ∷ [] })
  start (exec c s) d = record d { listeners = d.listeners ++ (c, s) ∷ []; ran = d.ran ++ c ∷ [] }
  start (if_connected s t) d =
      let yes_s = start s d in
      let no_t = start t d in if check_if_is_connected d then yes_s else no_t

abbrev pub waiting_for : Command → List (Command × Script) → List Script
waiting_for c [] = []
waiting_for c ((k, s) ∷ r) =
    let rest = waiting_for c r in if code k == code c then s ∷ rest else rest

abbrev pub waiting_other : Command → List (Command × Script) → List (Command × Script)
waiting_other c [] = []
waiting_other c ((k, s) ∷ r) =
    let rest = waiting_other c r in if code k == code c then rest else (k, s) ∷ rest

-- An event of journalctl; `commands` are the messages that conclude a command, of which the service sets none.
pub data JournalEvent : Type 0 where
  session_closed : Command → JournalEvent
  said : ℕ → JournalEvent

unfoldable pub lookup_message : ℕ → List (ℕ × Command) → Option Command
lookup_message m [] = none
lookup_message m ((k, c) ∷ r) = let rest = lookup_message m r in if k == m then some c else rest

abbrev pub concludes : Command → List (ℕ × Command) → Bool
concludes c [] = false
concludes c ((k, e) ∷ r) = let rest = concludes c r in if code e == code c then true else rest

module _ (linked : List Command → Bool) where
  unfoldable pub start_all : List Script → Device → Device
  unfolding start
  start_all [] d = d
  start_all (s ∷ ss) d = start_all ss (start linked s d)

  -- `emit('command-finished ' + command)`: the listeners are taken off before they are called.
  unfoldable pub finished : Command → Device → Device
  unfolding start_all
  finished c d =
      start_all (waiting_for c d.listeners) (record d { listeners = waiting_other c d.listeners })

  unfoldable pub finished_all : List Command → Device → Device
  unfolding finished
  finished_all [] d = d
  finished_all (c ∷ cs) d = finished_all cs (finished c d)

  unfoldable pub on_journal_event : List (ℕ × Command) → JournalEvent → Device → Device
  unfolding finished lookup_message
  on_journal_event messages (session_closed c) d = if concludes c messages then d else finished c d
  on_journal_event messages (said m) d = elim (lookup_message m messages) [
    | none ↦ d
    | some c ↦ finished c d
  ]

  -- `wifiService()` of services.js
  unfoldable pub wifi_service : Device → Device
  unfolding start enable_access_point disable_access_point
  wifi_service d =
      if check_if_is_connected linked d
      then start linked (disable_access_point (call_back none)) d
      else start linked (enable_access_point (call_back none)) d
