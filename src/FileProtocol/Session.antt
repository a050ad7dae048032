-- ===== src/FileProtocol/Session.antt =====
-- Exchanges between the client and a box over the file protocol.
use fula_archived.Prelude.{
  ℕ, ◌%◌, ◌<◌, String, true, Option, none, some, List, [], ◌∷◌, map, length, concat, Text, Bytes,
  ◌≡◌, refl, ap, ◌∙◌, Result, ok, err, Error,
}
use fula_archived.Wire.{Wire}
use fula_archived.AsyncLater.Values.{Source}
use fula_archived.Blocks.Cipher.{Cipher, decrypt_content}
use fula_archived.Blocks.Whole.{decrypt_content-send_blocks}
use fula_archived.Blocks.Unsealed.{concat-send_blocks}
use fula_archived.FileSchema.Meta
use fula_archived.FileSchema.Meta.{Meta}
use fula_archived.FileSchema.Chunk.{Chunk}
use fula_archived.FileSchema.Request.{meta, receive, send}
use fula_archived.FileProtocol.{Utf8, Connection, on_protocol, last_or_error, last_message}
use fula_archived.FileProtocol.Client.{
  LocalFile, meta_of, plain_meta, send_messages, send_file, stream_file, receive_content,
  receive_meta, decode_last,
}
use fula_archived.FileProtocol.Node.{
  Message, binary, one, Node, Response, dispatch, connect, written, save, listener,
  set_meta_retrieval_method, set_content_retrieval_method, get_meta_by,
}
use fula_archived.FileProtocol.Dispatch.{IsSendable, handler-request, listener-async_iterable}

module _ (w : Wire) (u : Utf8) (as_bytes : String → Bytes) where
  -- A connection to a box whose subscriber reads each file to its end and declares an id for it.
  abbrev pub storing : (Meta → Bytes → Text) → Node → Connection
  storing id_of n = connect w u (record n { incoming = listener id_of }) as_bytes

  saved :
      (id_of : Meta → Bytes → Text) (n : Node) (m : Meta) (messages : List Bytes)
      → dispatch w u (record n { incoming = listener id_of }) (send m) messages
        ≡ ok (some (one (binary (u.encode (id_of m (concat messages))))))
  unfolding dispatch save
  saved id_of n m messages = rw (listener-async_iterable id_of m messages, save) refl

  on_file_protocol :
      {A : Type 0} (id_of : Meta → Bytes → Text) (n : Node) (r : Result A)
      → on_protocol (storing id_of n) r ≡ r
  unfolding on_protocol
  on_file_protocol id_of n r = refl

  sent :
      (id_of : Meta → Bytes → Text) (n : Node) (m : Meta) (messages : List Bytes)
      → IsSendable w u n (send m)
      → u.is_text (id_of m (concat messages)) ≡ true
      → send_messages w u (storing id_of n) m (ok messages) ≡ ok (id_of m (concat messages))
  unfolding send_messages last_or_error last_message
  sent id_of n m messages v t = rw (
    handler-request w u (record n { incoming = listener id_of }) (send m) messages v,
    saved id_of n m messages,
    u.decode-encode (id_of m (concat messages)) t,
  )

  -- A client sends a file without a key to a box. If the file's meta can be written and the id that the
  -- box's subscriber computes from the meta and the content is text, then `sendFile` returns
  -- this id, of the meta that the client had and of exactly the file's content.
  send_file-plain :
      (id_of : Meta → Bytes → Text) (n : Node) (f : LocalFile)
      → IsSendable w u n (send (meta_of f))
      → u.is_text (id_of (meta_of f) f.content) ≡ true
      → send_file w u (storing id_of n) f none ≡ ok (id_of (meta_of f) f.content)
  unfolding send_file
  send_file-plain id_of n f v t =
      let (ys, e, same) = concat-send_blocks f.content in
      on_file_protocol id_of n _ ∙ rw (e, sent id_of n (meta_of f) ys v (rw same t), same)

  -- A client sends a file with a key to a box, which stores the bytes that it gets. If the file's size
  -- modulo 16384 is below 16368, the meta can be written and each id is text, then `sendFile`
  -- returns the id of some bytes that `receiveDecryptedFile` turns back to exactly the file's content.
  send_file-sealed :
      (id_of : Meta → Bytes → Text) (n : Node) (f : LocalFile) (c : Cipher)
      → IsSendable w u n (send (meta_of f))
      → ((stored : Bytes) → u.is_text (id_of (meta_of f) stored) ≡ true)
      → length f.content % 16384 < 16368
      → (stored : Bytes) × (send_file w u (storing id_of n) f (some c)
          ≡ ok (id_of (meta_of f) stored))
        × (decrypt_content c stored ≡ ok f.content)
  unfolding send_file
  send_file-sealed id_of n f c v t h =
      let (ys, e, back) = decrypt_content-send_blocks c f.content h in
      (
        concat ys,
        on_file_protocol id_of n _ ∙ rw (e, sent id_of n (meta_of f) ys v (t (concat ys))),
        back,
      )

  -- `streamFile` sends what its source yields: with the conditions of a file that is sent, it returns
  -- the id of the meta without its preview and of the source's chunks joined; a source that
  -- throws makes it throw the same.
  pub stream_file_lem :
      (id_of : Meta → Bytes → Text) (n : Node) (m : Meta) (chunks : List Bytes) (e : Error)
      → IsSendable w u n (send (plain_meta m))
      → u.is_text (id_of (plain_meta m) (concat chunks)) ≡ true
      → (stream_file w u (storing id_of n) (record { items = chunks; failure = none }) m
          ≡ ok (id_of (plain_meta m) (concat chunks)))
        × (stream_file w u (storing id_of n) (record { items = chunks; failure = some e }) m
            ≡ err e)
  unfolding stream_file send_messages
  stream_file_lem id_of n m chunks e v t = (
    on_file_protocol id_of n _ ∙ sent id_of n (plain_meta m) chunks v t,
    on_file_protocol id_of n _,
  )

  asked :
      (n : Node) (method : Text → Result (Option Meta)) (id : Text) (m : Meta)
      → method id ≡ ok (some m)
      → dispatch w u (set_meta_retrieval_method w method n) (meta id) []
        ≡ ok (some (one (binary (Meta.to_binary w m))))
  unfolding dispatch set_meta_retrieval_method get_meta_by
  asked n method id m e = rw e refl

  retrieved :
      (n : Node) (method : Chunk → Response) (k : Chunk) (s : Source Message)
      → method k ≡ ok (some s)
      → dispatch w u (set_content_retrieval_method method n) (receive k) [] ≡ ok (some s)
  unfolding dispatch set_content_retrieval_method
  retrieved n method k s e = e

  written-binary :
      (n : Node) (bs : List Bytes)
      → map (written w u (set_content_retrieval_method (λ k. ok none) n) as_bytes) (map binary bs)
        ≡ bs
  written-binary n [] = refl
  written-binary n (b ∷ bs) = ap (λ r. b ∷ r) (written-binary n bs)

  -- Let a box have a method for metas, set by `setMetaRetrievalMethod`, whose metas can be
  -- written. A client that asks for an id that can be written gets from `receiveMeta` exactly the meta
  -- that the method finds, unknown fields included.
  pub receive_meta-found :
      (n : Node) (method : Text → Result (Option Meta)) (id : Text) (m : Meta)
      → IsSendable w u n (meta id)
      → Meta.RoundTrip.IsValid w m
      → method id ≡ ok (some m)
      → receive_meta w (connect w u (set_meta_retrieval_method w method n) as_bytes) id ≡ ok m
  unfolding receive_meta on_protocol decode_last
  receive_meta-found n method id m v k e =
      rw
        (
          handler-request w u (set_meta_retrieval_method w method n) (meta id) [] v,
          asked n method id m e,
        )
        (unfold decode_last in rw (Meta.RoundTrip.meta_from_binary-to_binary w m k) refl)

  -- Let a box have a method for contents, set by `setContentRetrievalMethod`. A client that asks
  -- `receiveContent` for a chunk that can be written makes the method see this very id, skip and limit, and yields
  -- what the method yields, with what it throws behind that.
  pub receive_content-retrieved :
      (n : Node) (method : Chunk → Response) (id : Text) (skip limit : Option ℕ) (s : Source Bytes)
      → IsSendable w u n (receive (record { id = id; skip = skip; limit = limit; unknown = [] }))
      → method (record { id = id; skip = skip; limit = limit; unknown = [] })
        ≡ ok (some (record { items = map binary s.items; failure = s.failure }))
      → receive_content w
          (connect w u (set_content_retrieval_method method n) as_bytes)
          id
          skip
          limit
        ≡ ok s
  unfolding receive_content on_protocol
  receive_content-retrieved n method id skip limit s v e =
      rw
        (
          handler-request w u (set_content_retrieval_method method n) _ [] v,
          retrieved n method _ _ e,
          written-binary n s.items,
        )
        refl
