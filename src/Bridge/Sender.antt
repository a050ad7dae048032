-- ===== src/Bridge/Sender.antt =====
-- webview-fula/bridge.ts (`streamSend`) and rn-client/bridge.ts (`streamSend`): the senders.
use fula_archived.Prelude.{
  Bool, true, false, Option, none, some, List, [], ◌∷◌, ◌++◌, length, is_empty, Text, Bytes, ◌≡◌,
  Error, ltb, if◌then◌else◌,
}
use fula_archived.AsyncLater.Values.{Source}
use fula_archived.FileSchema.Meta.{Meta}
use fula_archived.Bridge.{StreamChunk, start, chunk, end}
use fula_archived.Bridge.Buffers.{concat_array_buffers}

-- `base64` of rfc4648: what was encoded can be decoded.
pub record Base64 : Type 0 where
  pub stringify : Bytes → Text
  pub parse : Text → Option Bytes
  pub parse-stringify : (b : Bytes) → parse (stringify b) ≡ some b

module _ (transfer_id : Text) (meta : Meta) where
  abbrev pub start_message : StreamChunk
  start_message = record { id = transfer_id; meta = meta; status = start; data_text = [] }

  abbrev pub chunk_message : Text → StreamChunk
  chunk_message s = record { id = transfer_id; meta = meta; status = chunk; data_text = s }

  abbrev pub end_message : StreamChunk
  end_message = record { id = transfer_id; meta = meta; status = end; data_text = [] }

  module _ (b64 : Base64) where
    abbrev pub buffer_message : List Bytes → StreamChunk
    buffer_message buffer = chunk_message (b64.stringify (concat_array_buffers buffer))

    -- The loop of the web view's `streamSend` from a buffer on: the messages, and whether the
    -- promise resolves. Where the iterator throws, what is buffered is lost and no end is sent.
    unfoldable pub send_buffered : List Bytes → List Bytes → Option Error → List StreamChunk × Bool
    send_buffered buffer [] (some e) = ([], false)
    send_buffered buffer [] none =
        ((if is_empty buffer then [] else buffer_message buffer ∷ []) ++ end_message ∷ [], true)
    send_buffered buffer (c ∷ cs) failure =
        let more = send_buffered (buffer ++ c ∷ []) cs failure in
        let (ms, resolved) = send_buffered (c ∷ []) cs failure in
        if ltb (length buffer) 3 then more else (buffer_message buffer ∷ ms, resolved)

    -- `streamSend` of the web view
    unfoldable pub webview_stream_send : Source Bytes → List StreamChunk × Bool
    unfolding send_buffered
    webview_stream_send s =
        let (ms, resolved) = send_buffered [] s.items s.failure in (start_message ∷ ms, resolved)

  -- `streamSend` of the app: a message for each value of the iterator.
  unfoldable pub send_each : List Text → List StreamChunk
  send_each [] = end_message ∷ []
  send_each (v ∷ vs) = chunk_message v ∷ send_each vs

  unfoldable pub client_stream_send : List Text → List StreamChunk
  unfolding send_each
  client_stream_send vs = start_message ∷ send_each vs
