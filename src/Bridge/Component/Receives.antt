-- ===== src/Bridge/Component/Receives.antt =====
-- libraries/rn-fula/src: a file that an app receives through the web view.
use fula_archived.Prelude.{
  true, none, some, List, [], ◌∷◌, ◌++◌, length, concat, Text, Bytes, text_eq, text_eq_refl, ◌≡◌,
  refl, ap, ◌∙◌, Result, ok, stuck, ltb, Bool-cases, inl, inr,
}
use fula_archived.FileSchema.Meta.{Meta}
use fula_archived.Bridge.{StreamChunk}
use fula_archived.Bridge.Sender.{Base64, send_buffered, webview_stream_send}
use fula_archived.Bridge.Receiver.{
  awaited, stream_listener, listen_all, event_base_stream_to_promise,
}
use fula_archived.Bridge.Delivery.{of, decoded, webview_delivery}
use fula_archived.Bridge.Calls.{
  RpcRequest, Reply, streams, Adaptor, undefined_name, function_of, answer, chunks, on_request, App,
  logged, handle_all, message_handler, rpc_stream_response,
}
use fula_archived.Bridge.Component.{call_receive_file, received_file, data_url, name_receive_file}

-- The messages of a stream reach the listeners of streams.
handle_all-chunks :
    (ms : List StreamChunk) (b64 : Base64) (a : App)
    → (handle_all (chunks b64 ms) a).slots ≡ listen_all ms a.slots
unfolding handle_all message_handler listen_all
handle_all-chunks [] b64 a = refl
handle_all-chunks (m ∷ ms) b64 a =
    handle_all-chunks ms b64 (record a { slots = stream_listener m a.slots })

of_own :
    (key : Text) (m : StreamChunk) (ms : List StreamChunk)
    → m.id ≡ key
    → of key ms ≡ ms
    → of key (m ∷ ms) ≡ m ∷ ms
of_own key m ms e same =
    let own : text_eq key m.id ≡ true = ap (text_eq key) e ∙ text_eq_refl key in
    rw own (ap (λ r. m ∷ r) same)

module _ (b64 : Base64) (key : Text) (meta : Meta) where
  -- All messages of `streamSend` are of its transfer.
  of-send_buffered :
      (cs buffer : List Bytes)
      → of key (send_buffered key meta b64 buffer cs none).0
        ≡ (send_buffered key meta b64 buffer cs none).0
  unfolding send_buffered
  of-send_buffered [] [] = of_own key _ [] refl refl
  of-send_buffered [] (b ∷ buffer) = of_own key _ _ refl (of_own key _ [] refl refl)
  of-send_buffered (c ∷ cs) buffer = elim (Bool-cases (ltb (length buffer) 3)) [
    | inl h ↦ rw h (of-send_buffered cs (buffer ++ c ∷ []))
    | inr h ↦ rw h (of_own key _ _ refl (of-send_buffered cs (c ∷ [])))
  ]

  of-webview_stream_send :
      (cs : List Bytes)
      → of key (webview_stream_send key meta b64 (record { items = cs; failure = none })).0
        ≡ (webview_stream_send key meta b64 (record { items = cs; failure = none })).0
  unfolding webview_stream_send
  of-webview_stream_send cs = of_own key _ _ refl (of-send_buffered cs [])

  delivered :
      (cs : List Bytes) (a : App)
      → a.slots key ≡ awaited
      → (ds : List Text) × (received_file meta (
            (handle_all
                (logged
                  ∷ chunks b64
                      (webview_stream_send key meta b64 (record { items = cs; failure = none })).0)
                a).slots
              key)
          ≡ ok (data_url meta.type (concat ds)))
        × (decoded key meta b64 ds ≡ some (concat cs))
  unfolding received_file handle_all message_handler
  delivered cs a h =
      let ms = (webview_stream_send key meta b64 (record { items = cs; failure = none })).0 in
      let (ds, run, back, resolved) =
        webview_delivery key meta b64 cs ms a.slots h (of-webview_stream_send cs) in
      (ds, ap (received_file meta) (ap (λ s. s key) (handle_all-chunks ms b64 a) ∙ run), back)

  is_awaited : (a : App) → event_base_stream_to_promise key a.slots key ≡ awaited
  unfolding event_base_stream_to_promise
  is_awaited a = rw (text_eq_refl key) refl

  -- The app receives a file. If the web view had the function's name in the field that it reads and its function gives
  -- the chunks of a file, `receiveFile` resolves with a data URL of the file's type, whose texts
  -- decode one by one to the bytes of the chunks. As the web view reads another field, and has no function named
  -- "undefined", `receiveFile` waits for ever.
  pub receive_file_lem :
      (adaptor : Adaptor) (file_id : Text) (cs : List Bytes) (a : App)
      (f : RpcRequest → Result Reply)
      → function_of undefined_name adaptor ≡ none
      → function_of name_receive_file adaptor ≡ some f
      → f (record (call_receive_file key file_id a).0 { func = some name_receive_file })
        ≡ ok (streams (record { items = cs; failure = none }) meta)
      → (ds : List Text) × (received_file meta (
            (handle_all
                (on_request b64 adaptor
                  (record (call_receive_file key file_id a).0 { func = some name_receive_file }))
                (call_receive_file key file_id a).1).slots
              key)
          ≡ ok (data_url meta.type (concat ds)))
        × (decoded key meta b64 ds ≡ some (concat cs))
        × (received_file meta (
              (handle_all
                  (on_request b64 adaptor (call_receive_file key file_id a).0)
                  (call_receive_file key file_id a).1).slots
                key)
            ≡ stuck)
  unfolding call_receive_file rpc_stream_response on_request answer received_file handle_all
      message_handler
  receive_file_lem adaptor file_id cs a f missing found gives =
      let waits = is_awaited a in
      let (ds, run, back) = delivered cs (call_receive_file key file_id a).1 waits in
      (ds, rw (found, gives) run, back, rw missing (ap (received_file meta) waits))
