-- ===== src/FileProtocol/Node.antt =====
-- handlers/index.ts (`handler`), save.ts (`save`), retrieve.ts and meta.ts: the box's side.
use fula_archived.Prelude.{
  suc, String, Option, none, some, List, [], ◌∷◌, ◌++◌, map, length, concat, Text, Bytes, Result,
  ok, err, stuck, message, ◌>>=◌,
}
use fula_archived.Wire.{Wire}
use fula_archived.AsyncLater.Values.{Source, first_value}
use fula_archived.AsyncLater.Later.{Later}
use fula_archived.AsyncLater.Later.Delivery.{collect}
use fula_archived.AsyncLater.Partition.{partition}
use fula_archived.AsyncLater.Convert.{next_value, finish, async_iterable_from_observable}
use fula_archived.FileSchema.Meta
use fula_archived.FileSchema.Meta.{Meta}
use fula_archived.FileSchema.Chunk.{Chunk}
use fula_archived.FileSchema.Request.{RequestType, meta, receive, send, absent, from_binary}
use fula_archived.FileProtocol.{Utf8, Connection, protocol_name}

-- What a box writes on a stream: bytes, or the text of `Response.EMPTY`.
pub data Message : Type 0 where
  binary : Bytes → Message
  words : String → Message

abbrev pub Response : Type 0
Response = Result (Option (Source Message))

-- The variables `retrieve` and `getMeta` of the module, and the subscriber of `incomingFiles`: the
-- id that it declares for a file, once the file's content has come, or none.
pub record Node : Type 0 where
  pub retrieve : Chunk → Response
  pub get_meta : Text → Response
  pub incoming : Meta → Later Bytes → Option Text

abbrev pub one : Message → Source Message
one m = record { items = m ∷ []; failure = none }

-- `Response.EMPTY`
abbrev pub empty_response : Source Message
empty_response = one (words "Empty response")

-- `retrieveNotSupported` and `getMetaNotSupported`, the variables' first values.
abbrev pub retrieve_not_supported : Chunk → Response
retrieve_not_supported c = err (message "This node does not support file content retrieval")

abbrev pub get_meta_not_supported : Text → Response
get_meta_not_supported id = err (message "This node does not support file meta retrieval")

abbrev pub fresh_node : (Meta → Later Bytes → Option Text) → Node
fresh_node f = record {
  retrieve = retrieve_not_supported;
  get_meta = get_meta_not_supported;
  incoming = f;
}

-- `setContentRetrievalMethod(method)`
unfoldable pub set_content_retrieval_method : (Chunk → Response) → Node → Node
set_content_retrieval_method method n = record n { retrieve = method }

-- `getMeta`, as `setMetaRetrievalMethod` makes it from a method.
unfoldable pub get_meta_by : Wire → (Text → Result (Option Meta)) → Text → Response
get_meta_by w method id = do
  found ← method id
  ok (elim found [ none ↦ none | some m ↦ some (one (binary (Meta.to_binary w m))) ])

-- `setMetaRetrievalMethod(method)`
unfoldable pub set_meta_retrieval_method : Wire → (Text → Result (Option Meta)) → Node → Node
unfolding get_meta_by
set_meta_retrieval_method w method n = record n { get_meta = get_meta_by w method }

-- `save`: the subscriber is told, each message goes to `content`, which then completes, and the
-- answer is the id. Where none is declared the box waits for good.
unfoldable pub save : Utf8 → Node → Meta → List Bytes → Response
save u n m bytes =
    elim (n.incoming m (async_iterable_from_observable (map next_value bytes ++ finish ∷ []))) [
      | none ↦ stuck
      | some id ↦ ok (some (one (binary (u.encode id))))
    ]

module _ (w : Wire) (u : Utf8) (n : Node) where
  -- The `switch` on the request's kind.
  unfoldable pub dispatch : RequestType → List Bytes → Response
  dispatch (send m) rest = save u n m rest
  dispatch (receive c) rest = n.retrieve c
  dispatch (meta id) rest = n.get_meta id
  dispatch absent rest = ok (some empty_response)

  -- `(await response) || Response.EMPTY`
  abbrev pub or_empty : Option (Source Message) → Source Message
  or_empty none = empty_response
  or_empty (some s) = s

  -- `handler`, on the messages of a stream that has ended; the loops of the readers have a round for
  -- each message and one more.
  unfoldable pub handler : List Bytes → Result (Source Message)
  unfolding dispatch
  handler messages = do
    head ← collect (suc (length messages)) (partition 1 messages).first
    first ← first_value (record { items = head; failure = none })
    request ← from_binary w first
    tail ← collect (suc (length messages)) (partition 1 messages).second
    response ← dispatch request.type tail
    ok (or_empty response)

  -- The stream's bytes for a message of text are the peer's matter.
  module _ (as_bytes : String → Bytes) where
    abbrev pub written : Message → Bytes
    written (binary b) = b
    written (words s) = as_bytes s

    -- A connection to this box. Where the handler throws it has written nothing and has not closed
    -- the stream: the client waits.
    abbrev pub answer : Result (Source Message) → Result (Source Bytes)
    answer (ok s) = ok (record { items = map written s.items; failure = s.failure })
    answer (err e) = stuck
    answer stuck = stuck

    abbrev pub connect : Connection
    connect = record { protocol = protocol_name; exchange = λ ms. answer (handler ms) }

-- A subscriber of `incomingFiles` that reads all of a file and then declares an id for it.
unfoldable pub listener : (Meta → Bytes → Text) → Meta → Later Bytes → Option Text
listener id_of m s = elim (collect (suc (length s.queue)) s) [
  | ok vs ↦ some (id_of m (concat vs))
  | err e ↦ none
  | stuck ↦ none
]
