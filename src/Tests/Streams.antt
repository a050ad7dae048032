-- ===== src/Tests/Streams.antt =====
-- The streams of rn-fula among each other's messages, and the client's connection.
use fula_archived.Prelude.{true, none, some, List, [], ◌∷◌, Text, pos, ◌≡◌, refl}
use fula_archived.FileSchema.Meta.{Meta}
use fula_archived.Bridge.{StreamChunk}
use fula_archived.Bridge.Buffers.{set_at, concat_array_buffers}
use fula_archived.Bridge.Sender.{
  start_message, chunk_message, end_message, webview_stream_send, send_buffered,
}
use fula_archived.Bridge.Receiver.{Slots, awaited, completed, listen_all}
use fula_archived.Bridge.Delivery.{webview_delivery, decoded}
use fula_archived.FulaClient.{
  online, offline, new_connection, start, stop, Happening, started_by_client, peer_connect,
  peer_disconnect, connect_timer, happen_all,
}
use fula_archived.FulaClient.History.{stopped_for_good, status_told, last_status, has_connected}
use fula_archived.Tests.StandIns.{base64}

abbrev about : Meta
about = record {
  name = [];
  type = [];
  size = 0;
  last_modified = pos 0;
  preview = none;
  unknown = [];
}

abbrev waiting : Slots
waiting key = awaited

-- Two transfers, 7 and 8, in one another.
abbrev two_transfers : List StreamChunk
two_transfers =
    start_message (7 ∷ []) about
    ∷ start_message (8 ∷ []) about
    ∷ chunk_message (7 ∷ []) about (1 ∷ [])
    ∷ end_message (8 ∷ []) about
    ∷ chunk_message (7 ∷ []) about (2 ∷ [])
    ∷ end_message (7 ∷ []) about
    ∷ []

webview_delivery_example :
    (ds : List Text) × (listen_all
        (start_message (8 ∷ []) about
          ∷ start_message (7 ∷ []) about
          ∷ chunk_message (7 ∷ []) about (1 ∷ 2 ∷ 3 ∷ [])
          ∷ chunk_message (7 ∷ []) about (4 ∷ [])
          ∷ end_message (7 ∷ []) about
          ∷ [])
        waiting
        (7 ∷ [])
      ≡ completed ds)
    × (decoded (7 ∷ []) about base64 ds ≡ some (1 ∷ 2 ∷ 3 ∷ 4 ∷ []))
    × ((webview_stream_send
          (7 ∷ [])
          about
          base64
          (record { items = (1 ∷ []) ∷ (2 ∷ []) ∷ (3 ∷ []) ∷ (4 ∷ []) ∷ []; failure = none })).1
        ≡ true)
unfolding webview_stream_send send_buffered concat_array_buffers set_at
webview_delivery_example =
    webview_delivery (7 ∷ []) about base64 ((1 ∷ []) ∷ (2 ∷ []) ∷ (3 ∷ []) ∷ (4 ∷ []) ∷ [])
      (start_message (8 ∷ []) about
        ∷ start_message (7 ∷ []) about
        ∷ chunk_message (7 ∷ []) about (1 ∷ 2 ∷ 3 ∷ [])
        ∷ chunk_message (7 ∷ []) about (4 ∷ [])
        ∷ end_message (7 ∷ []) about
        ∷ [])
      waiting refl refl

abbrev life : List Happening
life = started_by_client ∷ peer_connect ∷ connect_timer 1 ∷ peer_disconnect ∷ []

status_told_example :
    (last_status offline (happen_all life (new_connection [])).emitted
      ≡ (happen_all life (new_connection [])).status)
    × ((happen_all life (new_connection [])).status ≡ online
        → has_connected (happen_all life (new_connection [])).emitted ≡ true)
status_told_example = status_told life []

stopped_for_good_example :
    (happen_all
      (peer_connect ∷ connect_timer 1 ∷ [])
      (stop (start (new_connection ((1 ∷ []) ∷ []))))).status
    ≡ offline
unfolding start new_connection
stopped_for_good_example =
    stopped_for_good (peer_connect ∷ connect_timer 1 ∷ []) (start (new_connection ((1 ∷ []) ∷ [])))
      ((λ h. h), ((λ h. h), tt)) refl refl
