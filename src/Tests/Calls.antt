-- ===== src/Tests/Calls.antt =====
-- Calls through the web view, files that are read in slices, lists of peers, and the hooks.
use fula_archived.Prelude.{
  pos, ℕ, ◌≤◌, true, none, some, List, [], ◌∷◌, ◌++◌, map, Text, ◌≡◌, refl, arith, ok, All, concat,
  length, Result, stuck,
}
use fula_archived.AsyncLater.Later.{blocked, yielded, ended, Event, emit, close, ask}
use fula_archived.AsyncLater.Later.Channel.{run}
use fula_archived.Bridge.{StreamChunk}
use fula_archived.Bridge.Generator.{new_generator, generator_step}
use fula_archived.Bridge.Generator.Cell.{cell_step, new_cell}
use fula_archived.Bridge.Generator.Loses.{run-new_generator, generator_loses}
use fula_archived.Bridge.Calls.{
  RpcResponse, RpcRequest, Reply, text, done, responds, streams, Adaptor, App, unknown, abandoned,
  settled, rpc, on_request, handle_all, logged, function_of,
}
use fula_archived.Bridge.Calls.Unsettled.{rpc_lem}
use fula_archived.Bridge.Receiver.{Slot}
use fula_archived.FileSchema.Meta.{Meta}
use fula_archived.Bridge.Delivery.{decoded}
use fula_archived.Bridge.Component.{call_receive_file, received_file, data_url, name_receive_file}
use fula_archived.Bridge.Component.Receives.{receive_file_lem}
use fula_archived.Bridge.Sender.{start_message, chunk_message, send_each, client_stream_send}
use fula_archived.Bridge.WebReceiver.{
  vacant, open_with, completed, await_stream, told, subscribed, web_run,
}
use fula_archived.Bridge.WebReceiver.Decodes.{parsed, web_delivery}
use fula_archived.Bridge.Reader.{file_slices, file_slices-Slices}
use fula_archived.FulaClient.Peers.{
  connect_peers, listed, written, comma, is_space, connect_peers-joined,
}
use fula_archived.ReactHooks.{
  LazyEvent, requested, came, SubscriptionEvent, partial, unmounted, subscription_run,
}
use fula_archived.ReactHooks.Loading.{first_mounted, subscription_shows}
use fula_archived.Tests.StandIns.{base64, libp2p}

abbrev asked : List (Event ℕ)
asked = emit 1 ∷ emit 2 ∷ ask ∷ close ∷ ask ∷ []

run-new_generator_example :
    (run generator_step (ask ∷ asked) new_generator).1 ≡ (run cell_step (ask ∷ asked) new_cell).1
run-new_generator_example = run-new_generator asked

generator_loses_example :
    ((run {T = ℕ} generator_step (ask ∷ emit 1 ∷ ask ∷ ask ∷ emit 2 ∷ ask ∷ []) new_generator).1
      ≡ blocked ∷ yielded 1 ∷ blocked ∷ yielded 2 ∷ [])
    × ((run {T = ℕ} generator_step (ask ∷ emit 1 ∷ emit 2 ∷ ask ∷ ask ∷ []) new_generator).1
        ≡ blocked ∷ yielded 1 ∷ blocked ∷ [])
    × ((run {T = ℕ} generator_step (ask ∷ emit 1 ∷ emit 2 ∷ close ∷ ask ∷ []) new_generator).1
        ≡ blocked ∷ ended ∷ [])
generator_loses_example = generator_loses 1 (2 ∷ [])

abbrev start_name : Text
start_name = b's' ∷ []

abbrev ready : RpcResponse
ready = record { id = 9 ∷ []; payload = text []; status = done }

abbrev starts : RpcRequest → Result Reply
starts r = ok (responds (record { id = r.id; payload = text []; status = done }))

abbrev starter : Adaptor
starter = (start_name, starts) ∷ []

abbrev app : App
app = record { calls = λ i. unknown; slots = λ i. Slot.vacant }

abbrev call_of : RpcRequest
call_of = (rpc (9 ∷ []) start_name [] app).0

rpc_lem_example :
    ((handle_all (on_request base64 starter call_of) (rpc (9 ∷ []) start_name [] app).1).calls
        (9 ∷ [])
      ≡ abandoned)
    × ((handle_all (logged ∷ []) (
            handle_all
              (on_request base64 starter call_of)
              (rpc (9 ∷ []) start_name [] app).1)).calls
          (9 ∷ [])
        ≡ abandoned)
    × ((handle_all (logged ∷ []) (
            handle_all
              (on_request base64 starter (record call_of { func = some start_name }))
              (rpc (9 ∷ []) start_name [] app).1)).calls
          (9 ∷ [])
        ≡ settled ready)
unfolding function_of rpc
rpc_lem_example =
    rpc_lem base64 starter (9 ∷ []) start_name [] app (logged ∷ []) starts ready refl refl refl refl
      refl

file_slices-Slices_example :
    (ss : List Text) × (file_slices (1 ∷ 2 ∷ 3 ∷ []) 2 ≡ ok ss)
    × (concat ss ≡ 1 ∷ 2 ∷ 3 ∷ [])
    × All (λ s. length s ≤ 2) ss
file_slices-Slices_example = file_slices-Slices (1 ∷ 2 ∷ 3 ∷ []) 2 (omega arith)

connect_peers-joined_example :
    connect_peers libp2p (written (80 ∷ comma ∷ 81 ∷ []))
    ≡ connect_peers libp2p (listed ((80 ∷ []) ∷ (81 ∷ []) ∷ []))
unfolding is_space
connect_peers-joined_example =
    connect_peers-joined libp2p (80 ∷ []) ((81 ∷ []) ∷ []) ((refl, refl), tt)
      (((refl, refl), tt), tt)

abbrev life : List (LazyEvent ℕ ℕ)
life = requested true ∷ requested true ∷ came (some 1) ∷ requested true ∷ []

abbrev late : List (SubscriptionEvent ℕ ℕ)
late = partial (some 8) ∷ []

subscription_shows_example :
    ((subscription_run {Data = ℕ} {E = ℕ} 0
        (map partial (some 3 ∷ none ∷ some 5 ∷ []))
        first_mounted).shown.current
      ≡ some 5)
    × ((subscription_run 0
          (map partial (some 3 ∷ none ∷ some 5 ∷ []) ++ unmounted ∷ late)
          first_mounted).shown.current
        ≡ some 5)
subscription_shows_example = subscription_shows 0 (some 3 ∷ none ∷ some 5 ∷ []) late

abbrev stored : Meta
stored = record {
  name = [];
  type = 98 ∷ [];
  size = 3;
  last_modified = pos 0;
  preview = none;
  unknown = [];
}

abbrev gives_file : RpcRequest → Result Reply
gives_file r = ok (streams (record { items = (1 ∷ []) ∷ (2 ∷ 3 ∷ []) ∷ []; failure = none }) stored)

abbrev files : Adaptor
files = (name_receive_file, gives_file) ∷ []

abbrev asking_file : RpcRequest × App
asking_file = call_receive_file (9 ∷ []) (7 ∷ []) app

receive_file_lem_example :
    (ds : List Text) × (received_file stored (
        (handle_all
            (on_request base64 files (record asking_file.0 { func = some name_receive_file }))
            asking_file.1).slots
          (9 ∷ []))
      ≡ ok (data_url (98 ∷ []) (concat ds)))
    × (decoded (9 ∷ []) stored base64 ds ≡ some (1 ∷ 2 ∷ 3 ∷ []))
    × (received_file stored
          ((handle_all (on_request base64 files asking_file.0) asking_file.1).slots (9 ∷ []))
        ≡ stuck)
unfolding function_of call_receive_file
receive_file_lem_example =
    receive_file_lem base64 (9 ∷ []) stored files (7 ∷ []) ((1 ∷ []) ∷ (2 ∷ 3 ∷ []) ∷ []) app
      gives_file refl refl refl

abbrev early_messages : List StreamChunk
early_messages =
    start_message (9 ∷ []) stored
    ∷ start_message (8 ∷ []) stored
    ∷ chunk_message (9 ∷ []) stored (1 ∷ [])
    ∷ []

web_delivery_example :
    (web_run base64
        (map told early_messages
          ++ subscribed (9 ∷ []) ∷ map told (send_each (9 ∷ []) stored ((2 ∷ []) ∷ [])))
        (await_stream (9 ∷ []) (λ k. vacant))
        (9 ∷ [])
      ≡ completed (parsed base64 ((2 ∷ []) ∷ [])))
    × (web_run base64
          (map told early_messages
            ++ subscribed (9 ∷ [])
              ∷ map told (send_each (9 ∷ []) stored ((3 ∷ []) ∷ (4 ∷ []) ∷ [])))
          (await_stream (9 ∷ []) (λ k. vacant))
          (9 ∷ [])
        ≡ completed ((3 ∷ []) ∷ (4 ∷ []) ∷ []))
    × (web_run base64
          (map told (client_stream_send (9 ∷ []) stored ((1 ∷ []) ∷ []))
            ++ subscribed (9 ∷ []) ∷ [])
          (await_stream (9 ∷ []) (λ k. vacant))
          (9 ∷ [])
        ≡ open_with [])
unfolding client_stream_send send_each
web_delivery_example =
    web_delivery base64 (9 ∷ []) stored ((1 ∷ []) ∷ []) ((2 ∷ []) ∷ []) ((3 ∷ []) ∷ (4 ∷ []) ∷ [])
      early_messages (send_each (9 ∷ []) stored ((2 ∷ []) ∷ []))
      (send_each (9 ∷ []) stored ((3 ∷ []) ∷ (4 ∷ []) ∷ []))
      (client_stream_send (9 ∷ []) stored ((1 ∷ []) ∷ [])) [] (λ k. vacant) refl refl refl refl refl
