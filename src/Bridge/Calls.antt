-- ===== src/Bridge/Calls.antt =====
-- libraries/rn-fula/src: the calls that an app makes of the client in the web view. rn-client/bridge.ts
-- (`messageHandler`, `bridge`), webview-fula/bridge.ts (the listener, `register`) and
-- webview-fula/index.ts (`main`). Messages pass as the values that they are the JSON of.
pub mod Unsettled
use fula_archived.Prelude.{
  Bool, true, false, Option, none, some, List, [], ◌∷◌, ◌++◌, Text, Bytes, text_eq, Result, ok, err,
  stuck, Error, message, runtime, ◌>>=◌, call, if◌then◌else◌,
}
use fula_archived.AsyncLater.Values.{Source}
use fula_archived.FileSchema.Meta.{Meta}
use fula_archived.Bridge.{StreamChunk, start}
use fula_archived.Bridge.Receiver.{
  Slots, update, react, stream_listener, event_base_stream_to_promise,
}
use fula_archived.Bridge.Sender.{Base64, webview_stream_send, client_stream_send}

pub data MessageType : Type 0 where
  rpc_request_stream rpc_request rpc_response stream_chunk log : MessageType

pub data RpcStatusType : Type 0 where
  done failed : RpcStatusType

-- `{id, function, args, type}`, as the app writes it; `func` is the field that the web view reads, of which
-- the app writes none.
pub record RpcRequest : Type 0 where
  pub id : Text
  pub function : Text
  pub func : Option Text
  pub args : List Text
  pub is_stream : Bool

-- `RPCResponse`; the payload is what the client returned, or the text of a failure.
pub data Payload : Type 0 where
  text : Text → Payload
  about_meta : Meta → Payload
  failure : Text → Text → Error → Payload

pub record RpcResponse : Type 0 where
  pub id : Text
  pub payload : Payload
  pub status : RpcStatusType

-- `bare_start` begins a stream that has no meta, and `untyped` is an object without a type.
pub data Message : Type 0 where
  logged : Message
  request : RpcRequest → Message
  response : RpcResponse → Message
  chunk : StreamChunk → Message
  bare_start : Text → Message
  untyped : Message

-- What a function of the adaptor gives for a request: a response, or a stream that is sent back.
pub data Reply : Type 0 where
  responds : RpcResponse → Reply
  streams : Source Bytes → Meta → Reply

-- The functions by their names.
abbrev pub Adaptor : Type 0
Adaptor = List (Text × (RpcRequest → Result Reply))

abbrev pub undefined_name : Text
undefined_name = b'u' ∷ b'n' ∷ b'd' ∷ b'e' ∷ b'f' ∷ b'i' ∷ b'n' ∷ b'e' ∷ b'd' ∷ []

-- `adaptor[data.func]`: the name of a missing field is "undefined".
abbrev pub name_of : Option Text → Text
name_of none = undefined_name
name_of (some s) = s

unfoldable pub function_of : Text → Adaptor → Option (RpcRequest → Result Reply)
function_of name [] = none
function_of name ((k, f) ∷ a) =
    let rest = function_of name a in if text_eq k name then some f else rest

-- `register(obj)`: `{...adaptor, ...obj}`, as later entries come first here.
abbrev pub register : Adaptor → Adaptor → Adaptor
register obj adaptor = obj ++ adaptor

-- `postOnSuccess` and `postOnError`, with the entry that each logs.
abbrev pub post_on_success : RpcResponse → List Message
post_on_success r = logged ∷ response r ∷ []

abbrev pub post_on_error : Error → RpcRequest → List Message
post_on_error e r =
    logged
    ∷ response (record { id = r.id; payload = failure r.id r.function e; status = failed })
    ∷ []

-- The listener of the web view on a request: the messages that it posts. A response that is asked for
-- and turns out to be a stream is posted as it is; where a stream is asked for and there is none, `streamSend`
-- begins and then throws, which nobody catches.
module _ (b64 : Base64) where
  abbrev pub chunks : List StreamChunk → List Message
  chunks [] = []
  chunks (m ∷ ms) = chunk m ∷ chunks ms

  abbrev pub as_response : Reply → List Message
  as_response (responds x) = post_on_success x
  as_response (streams source meta) = logged ∷ untyped ∷ []

  abbrev pub as_stream : Text → Reply → List Message
  as_stream id (responds x) = bare_start id ∷ []
  as_stream id (streams source meta) = chunks (webview_stream_send id meta b64 source).0

  unfoldable pub answer : Result Reply → RpcRequest → List Message
  unfolding webview_stream_send
  answer (ok x) r = if r.is_stream then as_stream r.id x else as_response x
  answer (err e) r = post_on_error e r
  answer stuck r = []

  unfoldable pub on_request : Adaptor → RpcRequest → List Message
  unfolding function_of answer
  on_request adaptor r = logged ∷ answer (do f ← call (function_of (name_of r.func) adaptor); f r) r

-- The promise of a call: nobody waits, it waits for the response's event, it has its value, or the event
-- came and the promise was left as it is.
pub data Call : Type 0 where
  unknown : Call
  pending : Call
  settled : RpcResponse → Call
  abandoned : Call

-- The app's emitter: the promises of calls by the ids of their events, and the streams.
pub record App : Type 0 where
  pub calls : Text → Call
  pub slots : Slots

-- The listener of `RPC` and of `RPCStreamArgs`: for a failure it returns the function `reject`.
abbrev pub by_status : RpcStatusType → RpcResponse → Call
by_status done r = settled r
by_status failed r = abandoned

unfoldable pub on_response : RpcResponse → Call → Call
on_response r pending = by_status r.status r
on_response r c = c

abbrev pub set_call : Text → (Call → Call) → App → App
set_call id f a = record a {
  calls = λ key. if text_eq key id then f (a.calls key) else a.calls key;
}

-- `RPC(func, args)`, with the id that `generateUUID` made: the message, and the listener.
unfoldable pub rpc : Text → Text → List Text → App → RpcRequest × App
rpc id func args a = (
  record { id = id; function = func; func = none; args = args; is_stream = false },
  set_call id (λ c. pending) a,
)

-- `RPCStreamResponse(func, args)`: the message, and the promise of a stream.
unfoldable pub rpc_stream_response : Text → Text → List Text → App → RpcRequest × App
rpc_stream_response id func args a = (
  record { id = id; function = func; func = none; args = args; is_stream = true },
  record a { slots = event_base_stream_to_promise id a.slots },
)

-- `RPCStreamArgs(func, args, {iterator, meta})`: the messages, and then the listener.
unfoldable pub rpc_stream_args :
    Text → Text → List Text → List Text → Meta → App → (RpcRequest × List StreamChunk) × App
rpc_stream_args id func args values meta a = (
  (
    record { id = id; function = func; func = none; args = args; is_stream = false },
    client_stream_send id meta values,
  ),
  set_call id (λ c. pending) a,
)

-- `messageHandler`
unfoldable pub message_handler : Message → App → Result App
unfolding on_response
message_handler logged a = ok a
message_handler (response r) a = ok (set_call r.id (on_response r) a)
message_handler (chunk m) a = ok (record a { slots = stream_listener m a.slots })
message_handler (bare_start id) a = ok (record a { slots = update id (react start []) a.slots })
message_handler untyped a = err (message "Cant handle this type of message")
message_handler (request r) a = err (message "Cant handle this type of message")

-- The handler on messages in their order; what it throws on one does not stop the next.
unfoldable pub handle_all : List Message → App → App
unfolding message_handler
handle_all [] a = a
handle_all (m ∷ ms) a =
    handle_all ms (elim (message_handler m a) [ ok a' ↦ a' | err e ↦ a | stuck ↦ a ])

-- The functions of `main` in webview-fula/index.ts, over the client of libraries/fula.
pub record WebClient : Type 0 where
  pub connect : Option Text → Result Payload
  pub receive_meta : Option Text → Result Payload
  pub receive_stream_file : Option Text → Result (Source Bytes × Meta)
  pub send_stream_file : RpcRequest → Result Payload

abbrev pub first_arg : List Text → Option Text
first_arg [] = none
first_arg (a ∷ r) = some a

abbrev pub done_response : RpcRequest → Payload → RpcResponse
done_response r p = record { id = r.id; payload = p; status = done }

-- `fulaClient` is undefined until `start`; the streams of `sendFile` are those that the web view receives.
abbrev pub main_adaptor : Option WebClient → Adaptor
main_adaptor client =
    (
      b'c' ∷ b'o' ∷ b'n' ∷ b'n' ∷ b'e' ∷ b'c' ∷ b't' ∷ [],
      λ r. (do
        c ← call client
        p ← c.connect (first_arg r.args)
        ok (responds (done_response r p))),
    )
    ∷ (
      b'r' ∷ b'e' ∷ b'c' ∷ b'e' ∷ b'i' ∷ b'v' ∷ b'e' ∷ b'M' ∷ b'e' ∷ b't' ∷ b'a' ∷ [],
      λ r. (do
        c ← call client
        p ← c.receive_meta (first_arg r.args)
        ok (responds (done_response r p))),
    )
    ∷ (
      b's' ∷ b'e' ∷ b'n' ∷ b'd' ∷ b'F' ∷ b'i' ∷ b'l' ∷ b'e' ∷ [],
      λ r. (do c ← call client; p ← c.send_stream_file r; ok (responds (done_response r p))),
    )
    ∷ (
      b'r' ∷ b'e' ∷ b'c' ∷ b'e' ∷ b'i' ∷ b'v' ∷ b'e' ∷ b'F' ∷ b'i' ∷ b'l' ∷ b'e' ∷ [],
      λ r. (do
        c ← call client
        (source, m) ← c.receive_stream_file (first_arg r.args)
        ok (streams source m)),
    )
    ∷ (
      b's' ∷ b't' ∷ b'a' ∷ b'r' ∷ b't' ∷ [],
      λ r. ok (responds (done_response r (text (b'R' ∷ b'e' ∷ b'a' ∷ b'd' ∷ b'y' ∷ [])))),
    )
    ∷ []
