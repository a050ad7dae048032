-- ===== src/FulaClient/Files.antt =====
-- index.ts of libraries/fula-client: `createClient`'s operations on files. Where they throw they
-- throw an error with the message of what they caught, which is the same error here.
pub mod Stores
pub mod Trips
use fula_archived.Prelude.{
  ℕ, zero, suc, ◌+◌, ◌<◌, Option, none, some, List, [], ◌∷◌, concat, Text, Bytes, ℤ, Result, ok,
  err,
}
use fula_archived.Wire.{Wire}
use fula_archived.AsyncLater.Values.{Source}
use fula_archived.Blocks.Cipher.{Cipher, decrypt_content}
use fula_archived.FileSchema.Meta.{Meta}
use fula_archived.FileProtocol.{Utf8, Connection, protocol_name}
use fula_archived.FileProtocol.Client.{LocalFile, values}
use fula_archived.FileProtocol.Client
use fula_archived.FulaClient.{FulaConnection}
use fula_archived.FulaClient.Streams.{Libp2p}
use fula_archived.FulaClient.Running.{Run, ◌>>=◌, ◌>>◌, give, close_stream, open_stream}

-- `Math.floor(Math.random() * n)` for each draw, a number below `n`.
pub record Random : Type 1 where
  pub Draw : Type 0
  pub floor_times : Draw → ℕ → ℕ
  pub in_range : (d : Draw) (n : ℕ) → 0 < n → floor_times d n < n

-- `randomKey(len)`, from the draws that `Math.random` makes.
unfoldable pub random_key : (r : Random) → (ℕ → r.Draw) → ℕ → Bytes
random_key r draws zero = []
random_key r draws (suc len) = r.floor_times (draws 0) 255 ∷ random_key r (λ i. draws (suc i)) len

-- `{cid, key: {symKey, iv}}`
pub record Sealed : Type 0 where
  pub cid : Text
  pub sym_key : Bytes
  pub iv : Bytes

-- `{source, meta}`; the source is read later, and may throw then.
pub record Received : Type 0 where
  pub source : Result (Source Bytes)
  pub meta : Meta

-- `new File(parts, name, {type, lastModified})`, which writes the type in lower case.
abbrev pub new_file : (Text → Text) → Bytes → Meta → LocalFile
new_file lower content m = record {
  name = m.name;
  type = lower m.type;
  last_modified = m.last_modified;
  content = content;
}

module _ (w : Wire) (u : Utf8) (p : Libp2p) (side : p.Stream → Connection)
    (c : Option FulaConnection) where
  abbrev file_stream : Run Connection
  file_stream = open_stream p side c protocol_name

  unfoldable pub send_file : LocalFile → Run Text
  unfolding open_stream
  send_file f = do
    s ← file_stream
    id ← give (Client.send_file w u s f none)
    close_stream
    give (ok id)

  unfoldable pub send_encrypted_file :
      (Bytes → Bytes → Cipher) → (r : Random) → (ℕ → r.Draw) → LocalFile → Run Sealed
  unfolding open_stream random_key
  send_encrypted_file cipher r draws f = do
    s ← file_stream
    let sym_key = random_key r draws 32
    let iv = random_key r (λ i. draws (32 + i)) 16
    id ← give (Client.send_file w u s f (some (cipher sym_key iv)))
    close_stream
    give (ok (record { cid = id; sym_key = sym_key; iv = iv }))

  unfoldable pub send_stream_file : Source Bytes → Meta → Run Text
  unfolding open_stream
  send_stream_file source m = do
    s ← file_stream
    id ← give (Client.stream_file w u s source m)
    close_stream
    give (ok id)

  -- The two streams of a file that is received: its meta, and the chunks of its content.
  unfoldable pub receive_parts : Text → Run (Meta × List Bytes)
  unfolding open_stream
  receive_parts id = do
    s ← file_stream
    m ← give (Client.receive_meta w s id)
    s2 ← file_stream
    source ← give (Client.receive_content w s2 id none none)
    chunks ← give (values w u source)
    give (ok (m, chunks))

  unfoldable pub receive_file : (Text → Text) → Text → Run LocalFile
  unfolding receive_parts
  receive_file lower id = do
    parts ← receive_parts id
    close_stream
    close_stream
    give (ok (new_file lower (concat parts.1) parts.0))

  unfoldable pub receive_decrypted_file :
      (Text → Text) → (Bytes → Bytes → Cipher) → Text → Bytes → Bytes → Run LocalFile
  unfolding receive_parts
  receive_decrypted_file lower cipher id sym_key iv = do
    parts ← receive_parts id
    content ← give (decrypt_content (cipher sym_key iv) (concat parts.1))
    close_stream
    close_stream
    give (ok (new_file lower content parts.0))

  unfoldable pub receive_stream_file : Text → Run Received
  unfolding open_stream
  receive_stream_file id = do
    s ← file_stream
    m ← give (Client.receive_meta w s id)
    s2 ← file_stream
    give (ok (record { source = Client.receive_content w s2 id none none; meta = m }))

  unfoldable pub receive_meta : Text → Run Meta
  unfolding open_stream
  receive_meta id = do
    s ← file_stream
    m ← give (Client.receive_meta w s id)
    close_stream
    give (ok m)
