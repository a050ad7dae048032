-- ===== src/Tests/Boxes.antt =====
-- A box that opens its collections, starts its IPFS node and has its identity; and a device in a network.
use fula_archived.Prelude.{
  ltb, if◌then◌else◌, ℕ, suc, Bool, true, false, ◌||◌, Option, none, some, List, [], ◌∷◌, Text, ◌≡◌,
  refl, ok, err, runtime, ◌>>=◌,
}
use fula_archived.BoxGraph.Collections.{
  Shared, array_above_zero, find, put, open_db, request, response, announcement, load_all, load_db,
  finish_load, handle_db_name_received,
}
use fula_archived.BoxGraph.Collections.Opened.{
  IsOnce, opened_as, load_all-IsOnce, finish_load_overlap,
}
use fula_archived.BoxGraph.Collections.Told.{handle_db_name_received_lem}
use fula_archived.BoxProgram.Start.{
  Parts, libp2p_starts, handles_files, handles_graph, app, graceful,
}
use fula_archived.BoxProgram.Start.Graceful.{stopped, graceful-app}
use fula_archived.BoxProgram.Waiting.{first_success, connect_with_back_off-first_success}
use fula_archived.BoxProgram.{connect_with_back_off, PeerIds}
use fula_archived.Firmware.{
  Command, kill_wpa_supplicant, run_wpa_supplicant, reconfigure, interface_up, wpa_supplicant,
  Device, start, finished_all, connect,
}
use fula_archived.Firmware.Requests.{
  arrived, answered, broke, interrupted, new_server, server_step, server_run,
}
use fula_archived.Firmware.Requests.Exits.{interrupted_lem}
use fula_archived.Firmware.Chains.{commands, files, outcome, run_to_end_lem}

abbrev docs : Text → ℕ → Option ℕ
docs name k = some (suc k)

abbrev peers : List ℕ
peers = 4 ∷ []

abbrev empty : Shared ℕ
empty = record { collections = []; asked = []; published = [] }

empty-IsOnce : IsOnce empty
empty-IsOnce = record { all_listed = refl; distinct = tt }

abbrev profile : Text
profile = 112 ∷ []

abbrev posts : Text
posts = 113 ∷ []

abbrev both : Shared ℕ
both = record {
  collections = (profile, 1) ∷ (posts, 2) ∷ [];
  asked = profile ∷ posts ∷ [];
  published = [];
}

load_all-IsOnce_example : IsOnce both × (both.published ≡ [])
unfolding load_all load_db finish_load open_db find put array_above_zero
load_all-IsOnce_example =
    load_all-IsOnce docs peers (λ t. true) (profile ∷ posts ∷ profile ∷ []) empty both empty-IsOnce
      refl

finish_load_overlap_example :
    (load_db docs peers (λ t. true) profile empty
      ≡ ok (1, opened_as docs peers (λ t. true) profile 1 empty))
    × (finish_load docs peers (λ t. true) profile (opened_as docs peers (λ t. true) profile 1 empty)
        ≡ ok (
          2,
          opened_as docs peers
              (λ t. true)
              profile
              2
              (opened_as docs peers (λ t. true) profile 1 empty),
        ))
    × (find profile
          (opened_as docs peers
            (λ t. true)
            profile
            2
            (opened_as docs peers (λ t. true) profile 1 empty)).collections
        ≡ some 2)
unfolding find
finish_load_overlap_example =
    finish_load_overlap docs peers (λ t. true) profile empty 1 2 refl refl refl

abbrev first : Shared ℕ
first = record { collections = (profile, 1) ∷ []; asked = profile ∷ []; published = [] }

abbrev after : List Text → Shared ℕ
after ns = record { collections = (profile, 1) ∷ []; asked = profile ∷ ns; published = [] }

handle_db_name_received_lem_example :
    (handle_db_name_received docs true request first
      ≡ ok (record first { published = response (profile ∷ []) ∷ [] }))
    × (handle_db_name_received docs true (announcement (posts ∷ profile ∷ [])) first
        ≡ ok (after (posts ∷ [])))
    × ((handle_db_name_received docs true (response (posts ∷ profile ∷ [])) first >>= λ t.
          handle_db_name_received docs true (response (posts ∷ profile ∷ [])) t)
        ≡ ok (after (posts ∷ posts ∷ [])))
unfolding find
handle_db_name_received_lem_example =
    handle_db_name_received_lem docs (λ name k. (suc k, refl)) (posts ∷ profile ∷ []) first

abbrev ids : PeerIds
ids = record {
  PeerId = ℕ;
  created = 7;
  export_to_protobuf = λ i. i ∷ [];
  create_from_protobuf = λ b. elim b [ [] ↦ none | i ∷ r ↦ some i ];
  create-export = λ i. refl;
}

-- A device that is connected once its interface is up again.
abbrev is_up : Command → Bool
is_up interface_up = true
is_up c = false

abbrev linked : List Command → Bool
linked [] = false
linked (c ∷ cs) = is_up c || linked cs

abbrev idle : Device
idle = record { listeners = []; ran = []; written = []; results = [] }

run_to_end_lem_example :
    finished_all linked
      (kill_wpa_supplicant ∷ run_wpa_supplicant ∷ reconfigure ∷ interface_up ∷ [])
      (start linked connect idle)
    ≡ record {
      listeners = [];
      ran = kill_wpa_supplicant ∷ run_wpa_supplicant ∷ reconfigure ∷ interface_up ∷ [];
      written = wpa_supplicant ∷ [];
      results = some true ∷ [];
    }
unfolding connect commands files outcome
run_to_end_lem_example = run_to_end_lem linked connect idle refl

interrupted_lem_example :
    (server_run
      (interrupted ∷ answered ∷ [])
      (server_run (arrived ∷ arrived ∷ broke ∷ []) new_server)).exited
    ≡ false
unfolding server_run server_step
interrupted_lem_example = interrupted_lem (arrived ∷ arrived ∷ broke ∷ []) refl

-- The fourth try succeeds.
abbrev attempts : ℕ → Option ℕ
attempts k = if ltb k 3 then none else some k

connect_with_back_off-first_success_example : connect_with_back_off attempts ≡ (ok 3, 30)
unfolding first_success
connect_with_back_off-first_success_example = connect_with_back_off-first_success attempts

-- A box whose queries cannot be served.
abbrev parts : Parts ℕ ℕ
parts = record {
  start = λ n. some tt;
  handle_files = some tt;
  handle_graph = some tt;
  create_orbit = ok 6;
  serve_graph = none;
  stop_orbit = λ o. some tt;
  stop_libp2p = λ n. some tt;
}

graceful-app_example :
    ((app {Ipfs = ℕ} parts (ok (some 5)) (ok 4)).1.actions
      ≡ libp2p_starts ∷ handles_files ∷ handles_graph ∷ [])
    × ((app {Ipfs = ℕ} parts (ok (some 5)) (ok 4)).0 ≡ err runtime)
    × (graceful parts (app {Ipfs = ℕ} parts (ok (some 5)) (ok 4)).1
        ≡ stopped {Ipfs = ℕ} parts 5 4 true (app {Ipfs = ℕ} parts (ok (some 5)) (ok 4)).1)
graceful-app_example = graceful-app parts 5 4 6 refl refl refl
