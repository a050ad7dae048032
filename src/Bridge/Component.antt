-- ===== src/Bridge/Component.antt =====
-- libraries/rn-fula/src/rn-client/FulaClient.tsx: what the component `Fula` offers an app, over the
-- promises of its calls.
pub mod Receives
use fula_archived.Prelude.{
  Bool, true, false, List, [], ◌∷◌, ◌++◌, concat, is_empty, not, Text, Result, ok, err, stuck,
  message, String, if◌then◌else◌,
}
use fula_archived.FileSchema.Meta.{Meta}
use fula_archived.Bridge.Receiver.{Slot, vacant, awaited, open_with, completed}
use fula_archived.Bridge.Calls.{
  RpcRequest, RpcResponse, RpcStatusType, Payload, text, about_meta, failure, done, failed, Call,
  unknown, pending, settled, abandoned, App, rpc, rpc_stream_response,
}

abbrev pub name_start : Text
name_start = b's' ∷ b't' ∷ b'a' ∷ b'r' ∷ b't' ∷ []

abbrev pub name_connect : Text
name_connect = b'c' ∷ b'o' ∷ b'n' ∷ b'n' ∷ b'e' ∷ b'c' ∷ b't' ∷ []

abbrev pub name_receive_meta : Text
name_receive_meta = b'r' ∷ b'e' ∷ b'c' ∷ b'e' ∷ b'i' ∷ b'v' ∷ b'e' ∷ b'M' ∷ b'e' ∷ b't' ∷ b'a' ∷ []

abbrev pub name_receive_file : Text
name_receive_file = b'r' ∷ b'e' ∷ b'c' ∷ b'e' ∷ b'i' ∷ b'v' ∷ b'e' ∷ b'F' ∷ b'i' ∷ b'l' ∷ b'e' ∷ []

-- The calls of `start`, `connect`, `receiveMeta` and `receiveFile`, with the ids that `generateUUID` made.
unfoldable pub call_start : Text → App → RpcRequest × App
unfolding rpc
call_start id = rpc id name_start []

unfoldable pub call_connect : Text → Text → App → RpcRequest × App
unfolding rpc
call_connect id peer_id = rpc id name_connect (peer_id ∷ [])

unfoldable pub call_receive_meta : Text → Text → App → RpcRequest × App
unfolding rpc
call_receive_meta id file_id = rpc id name_receive_meta (file_id ∷ [])

unfoldable pub call_receive_file : Text → Text → App → RpcRequest × App
unfolding rpc_stream_response
call_receive_file id file_id = rpc_stream_response id name_receive_file (file_id ∷ [])

-- `response.payload` of a call, which waits for its promise.
unfoldable pub payload_of : Call → Result Payload
payload_of (settled x) = ok x.payload
payload_of pending = stuck
payload_of abandoned = stuck
payload_of unknown = stuck

-- What `sendFile` comes to: it resolves with a payload, rejects with one, or waits.
pub data Sent : Type 0 where
  resolves : Payload → Sent
  rejects : Payload → Sent
  waits : Sent

abbrev pub is_true_payload : Payload → Bool
is_true_payload (text s) = not (is_empty s)
is_true_payload (about_meta m) = true
is_true_payload (failure id function e) = true

abbrev pub is_done : RpcStatusType → Bool
is_done done = true
is_done failed = false

unfoldable pub sent_file : Call → Sent
sent_file (settled x) =
    if is_done x.status
    then (if is_true_payload x.payload then resolves x.payload else rejects x.payload)
    else rejects x.payload
sent_file pending = waits
sent_file abandoned = waits
sent_file unknown = waits

-- `data:${meta.type};base64,${result}`
abbrev pub data_url : Text → Text → Text
data_url type result =
    (b'd' ∷ b'a' ∷ b't' ∷ b'a' ∷ 58 ∷ [])
    ++ (type ++ ((59 ∷ b'b' ∷ b'a' ∷ b's' ∷ b'e' ∷ 54 ∷ 52 ∷ 44 ∷ []) ++ result))

-- `receiveFile`, on what its stream has come to: `result += value` at each value.
unfoldable pub received_file : Meta → Slot → Result Text
received_file m (completed ds) = ok (data_url m.type (concat ds))
received_file m (open_with ds) = stuck
received_file m awaited = stuck
received_file m vacant = stuck
