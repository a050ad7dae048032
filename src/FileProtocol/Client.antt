-- ===== src/FileProtocol/Client.antt =====
-- handlers/save.ts (`sendFile`, `streamFile`), retrieve.ts (`receiveContent`) and meta.ts
-- (`receiveMeta`): the client's side.
use fula_archived.Prelude.{
  ℕ, Option, none, some, List, [], ◌∷◌, length, Text, Bytes, ℤ, Result, ok, err, ◌>>=◌, Error,
  message,
}
use fula_archived.Wire.{Wire}
use fula_archived.AsyncLater.Values.{Source}
use fula_archived.Blocks.Cipher.{Cipher, send_blocks}
use fula_archived.FileSchema.Meta
use fula_archived.FileSchema.Meta.{Meta}
use fula_archived.FileSchema.Request.{Request, RequestType, meta, receive, send, to_binary}
use fula_archived.FileProtocol.{Utf8, Connection, on_protocol, last_or_error}

-- A `File` of the browser.
pub record LocalFile : Type 0 where
  pub name : Text
  pub type : Text
  pub last_modified : ℤ
  pub content : Bytes

-- `{name, type, size, lastModified}` of a file, and of the meta that `streamFile` is given.
abbrev pub meta_of : LocalFile → Meta
meta_of f = record {
  name = f.name;
  type = f.type;
  size = length f.content;
  last_modified = f.last_modified;
  preview = none;
  unknown = [];
}

abbrev pub plain_meta : Meta → Meta
plain_meta m = record m { preview = none; unknown = [] }

-- `Request.toBinary({type: ...})`
abbrev pub request_of : RequestType → Request
request_of t = record { type = t; unknown = [] }

module _ (w : Wire) where
  module _ (u : Utf8) where
    -- What `sendFile` and `streamFile` do with the messages behind the request: they wait for the
    -- last message of the peer, which is the id.
    unfoldable pub send_messages : Connection → Meta → Result (List Bytes) → Result Text
    send_messages c m messages = do
      ms ← messages
      answer ← c.exchange (to_binary w (request_of (send m)) ∷ ms)
      response ← last_or_error answer
      ok (u.decode response)

    -- `sendFile`; a key of length 0 is no key.
    unfoldable pub send_file : Connection → LocalFile → Option Cipher → Result Text
    unfolding send_messages
    send_file c f key = on_protocol c (send_messages c (meta_of f) (send_blocks key f.content))

    -- `for await (const value of source) yield value`
    abbrev pub values : Source Bytes → Result (List Bytes)
    values s = elim s.failure [ none ↦ ok s.items | some e ↦ err e ]

    -- `streamFile`
    unfoldable pub stream_file : Connection → Source Bytes → Meta → Result Text
    unfolding send_messages
    stream_file c source m = on_protocol c (send_messages c (plain_meta m) (values source))

  -- `receiveContent`
  unfoldable pub receive_content : Connection → Text → Option ℕ → Option ℕ → Result (Source Bytes)
  receive_content c id skip limit = on_protocol c (
      c.exchange (
        to_binary w
          (request_of (receive (record { id = id; skip = skip; limit = limit; unknown = [] })))
        ∷ []))

  -- The loop of `receiveMeta`: each message is decoded, and the last one is the answer.
  unfoldable pub decode_last : Option Meta → List Bytes → Option Error → Result Meta
  decode_last seen [] (some e) = err e
  decode_last none [] none = err (message "")
  decode_last (some m) [] none = ok m
  decode_last seen (b ∷ bs) failure = do m ← Meta.from_binary w b; decode_last (some m) bs failure

  -- `receiveMeta`
  unfoldable pub receive_meta : Connection → Text → Result Meta
  unfolding decode_last
  receive_meta c id = on_protocol c (do
    answer ← c.exchange (to_binary w (request_of (meta id)) ∷ [])
    decode_last none answer.items answer.failure)
