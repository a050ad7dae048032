-- ===== src/FulaClient/Files/Stores.antt =====
-- index.ts of libraries/fula-client: what a file needs to come to a box, and what the client's streams then give of it.
use fula_archived.Prelude.{
  ℕ, suc, ◌<◌, String, true, Option, none, some, List, [], ◌∷◌, ◌++◌, map, length, concat, Text,
  Bytes, ◌≡◌, refl, ok,
}
use fula_archived.Wire.{Wire}
use fula_archived.AsyncLater.Values.{Source}
use fula_archived.AsyncLater.Later.{Later}
use fula_archived.AsyncLater.Convert.{next_value, finish, async_iterable_from_observable}
use fula_archived.FileSchema.Meta
use fula_archived.FileSchema.Meta.{Meta}
use fula_archived.FileSchema.Request.{meta, receive, send}
use fula_archived.FileProtocol.{Utf8, Connection, last_or_error, last_message, protocol_name}
use fula_archived.FileProtocol.Client.{LocalFile, meta_of, send_messages}
use fula_archived.FileProtocol.Node.{
  binary, one, dispatch, connect, save, set_meta_retrieval_method, set_content_retrieval_method,
}
use fula_archived.FileProtocol.Dispatch.{IsSendable, handler-request}
use fula_archived.FileProtocol.Session.{receive_meta-found, receive_content-retrieved}
use fula_archived.BoxFiles.{Ipfs, stored_meta, stored_content, store_file, register_file}
use fula_archived.BoxFiles.Keeping.{FitsChunk, entry_of, stored_file_comes_back}
use fula_archived.FulaClient.{FulaConnection}
use fula_archived.FulaClient.Streams.{Libp2p, get_stream_connection}
use fula_archived.FulaClient.Running.{open_stream}
use fula_archived.FulaClient.Files.{receive_parts}

module _ (w : Wire) (u : Utf8) (as_bytes : String → Bytes) (ipfs : Ipfs) (p : Libp2p)
    (c : Option FulaConnection) where
  -- All streams lead to the box, which has the store `s`.
  abbrev pub box : ipfs.Store → p.Stream → Connection
  box s st = connect w u (register_file w ipfs s) as_bytes

  abbrev pub content_of : List Bytes → Later Bytes
  content_of chunks = async_iterable_from_observable (map next_value chunks ++ finish ∷ [])

  -- What the client and the box need of a file, of the messages that carry its content, and of the id
  -- under which the box stores it: the file is not empty, its meta and the requests for it fit the wire
  -- format, IPFS takes it, the entry that the box writes fits a chunk of IPFS, and the id is text.
  pub record Stores (s s2 : ipfs.Store) (f : LocalFile) (chunks : List Bytes) (id : Text)
      : Type 0 where
    pub sendable : IsSendable w u (register_file w ipfs s) (send (meta_of f))
    pub valid_meta : Meta.RoundTrip.IsValid w (meta_of f)
    pub stored : store_file w ipfs s (meta_of f) (content_of chunks) ≡ some (id, s2)
    pub not_empty : 0 < length (concat chunks)
    pub fits :
        (path : Text) (s1 : ipfs.Store)
        → ipfs.add chunks s ≡ some (path, s1)
        → FitsChunk w ipfs (entry_of w ipfs (meta_of f) path)
    pub is_text : u.is_text id ≡ true
    pub meta_sendable : IsSendable w u (register_file w ipfs s2) (meta id)
    pub content_sendable :
        IsSendable w u
          (register_file w ipfs s2)
          (receive (record { id = id; skip = none; limit = none; unknown = [] }))

  saved :
      (s s2 : ipfs.Store) (m : Meta) (chunks : List Bytes) (id : Text)
      → store_file w ipfs s m (content_of chunks) ≡ some (id, s2)
      → dispatch w u (register_file w ipfs s) (send m) chunks
        ≡ ok (some (one (binary (u.encode id))))
  unfolding dispatch save register_file
  saved s s2 m chunks id e = rw (e, save) refl

  pub delivered :
      (s s2 : ipfs.Store) (m : Meta) (chunks : List Bytes) (id : Text)
      → IsSendable w u (register_file w ipfs s) (send m)
      → store_file w ipfs s m (content_of chunks) ≡ some (id, s2)
      → u.is_text id ≡ true
      → (st : p.Stream) → send_messages w u (box s st) m (ok chunks) ≡ ok id
  unfolding send_messages last_or_error last_message
  delivered s s2 m chunks id v e t st = rw (
    handler-request w u (register_file w ipfs s) (send m) chunks v,
    saved s s2 m chunks id e,
    u.decode-encode id t,
  )

  pub opened_box :
      (s : ipfs.Store) (st : p.Stream) (n : ℕ)
      → get_stream_connection p c protocol_name ≡ ok st
      → open_stream p (box s) c protocol_name n ≡ (ok (box s st), suc n)
  unfolding open_stream
  opened_box s st n e = rw e refl

  -- The two streams give the meta and the chunks that the box has stored.
  parts_received :
      (s : ipfs.Store) (st : p.Stream) (id : Text) (m : Meta) (content : Source Bytes) (n : ℕ)
      → get_stream_connection p c protocol_name ≡ ok st
      → IsSendable w u (register_file w ipfs s) (meta id)
      → IsSendable w u
          (register_file w ipfs s)
          (receive (record { id = id; skip = none; limit = none; unknown = [] }))
      → Meta.RoundTrip.IsValid w m
      → stored_meta w ipfs s id ≡ ok (some m)
      → stored_content w ipfs s (record { id = id; skip = none; limit = none; unknown = [] })
        ≡ ok (some (record { items = map binary content.items; failure = none }))
      → receive_parts w u p (box s) c id n ≡ (ok (m, content.items), suc (suc n))
  unfolding receive_parts register_file set_meta_retrieval_method set_content_retrieval_method
  parts_received s st id m content n o v v2 k e e2 = rw (
    opened_box s st n o,
    receive_meta-found w u as_bytes (register_file w ipfs s) (stored_meta w ipfs s) id m v k e,
    opened_box s st (suc n) o,
    receive_content-retrieved w u as_bytes (register_file w ipfs s) (stored_content w ipfs s) id
        none none (record { items = content.items; failure = none }) v2 e2,
  )

  -- What the box keeps of a file is what the client's two streams give.
  pub parts_stored :
      (s s2 : ipfs.Store) (st : p.Stream) (f : LocalFile) (chunks : List Bytes) (id : Text) (n : ℕ)
      → get_stream_connection p c protocol_name ≡ ok st
      → Stores s s2 f chunks id
      → (content : Source Bytes) × (receive_parts w u p (box s2) c id n
          ≡ (ok (meta_of f, content.items), suc (suc n)))
        × (concat content.items ≡ concat chunks)
  parts_stored s s2 st f chunks id n o k =
      let (found, content, kept, same) =
        stored_file_comes_back w ipfs s s2 (meta_of f) chunks id none none k.stored k.not_empty
          k.fits in
      (
        content,
        parts_received s2 st id (meta_of f) content n o k.meta_sendable k.content_sendable
            k.valid_meta found kept,
        same,
      )
