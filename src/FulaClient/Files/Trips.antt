-- ===== src/FulaClient/Files/Trips.antt =====
-- index.ts of libraries/fula-client: a file that a client sends to a box and receives again.
use fula_archived.Prelude.{
  ℕ, zero, suc, All, ◌+◌, ◌-◌, ◌%◌, ◌<◌, String, Option, none, some, List, length, concat, Text,
  Bytes, ◌≡◌, refl, ap, ◌∙◌, arith, ok,
}
use fula_archived.Wire.{Wire}
use fula_archived.AsyncLater.Values.{Source}
use fula_archived.Blocks.Cipher.{Cipher, send_blocks, decrypt_content}
use fula_archived.Blocks.Whole.{decrypt_content-send_blocks}
use fula_archived.Blocks.Unsealed.{concat-send_blocks}
use fula_archived.FileProtocol.{Utf8, on_protocol, protocol_name}
use fula_archived.FileProtocol.Client
use fula_archived.FileProtocol.Client.{LocalFile, meta_of, send_messages}
use fula_archived.BoxFiles.{Ipfs}
use fula_archived.FulaClient.{FulaConnection}
use fula_archived.FulaClient.Streams.{Libp2p, get_stream_connection}
use fula_archived.FulaClient.Files.{
  Random, random_key, send_file, send_encrypted_file, receive_parts, receive_file,
  receive_decrypted_file,
}
use fula_archived.FulaClient.Files.Stores.{box, Stores, delivered, opened_box, parts_stored}

module _ (w : Wire) (u : Utf8) (as_bytes : String → Bytes) (ipfs : Ipfs) (p : Libp2p)
    (c : Option FulaConnection) where
  closed : (n : ℕ) → suc n - 1 ≡ n
  closed n = omega arith

  closed_twice : (n : ℕ) → suc (suc n) - 1 - 1 ≡ n
  closed_twice n = omega arith

  file_sent :
      (s s2 : ipfs.Store) (st : p.Stream) (f : LocalFile) (chunks : List Bytes) (id : Text) (n : ℕ)
      → get_stream_connection p c protocol_name ≡ ok st
      → Stores w u as_bytes ipfs p c s s2 f chunks id
      → send_blocks none f.content ≡ ok chunks
      → send_file w u p (box w u as_bytes ipfs p c s) c f n ≡ (ok id, n)
  unfolding send_file Client.send_file on_protocol
  file_sent s s2 st f chunks id n o k e = rw (
    opened_box w u as_bytes ipfs p c s st n o,
    e,
    delivered w u as_bytes ipfs p c s s2 (meta_of f) chunks id k.sendable k.stored k.is_text st,
    closed n,
  )

  file_received :
      (lower : Text → Text) (s : ipfs.Store) (st : p.Stream) (id : Text) (f : LocalFile)
      (content : Source Bytes) (n : ℕ)
      → receive_parts w u p (box w u as_bytes ipfs p c s) c id n
        ≡ (ok (meta_of f, content.items), suc (suc n))
      → concat content.items ≡ f.content
      → lower f.type ≡ f.type
      → receive_file w u p (box w u as_bytes ipfs p c s) c lower id n ≡ (ok f, n)
  unfolding receive_file
  file_received lower s st id f content n e same h = rw (e, same, h, closed_twice n) refl

  blocks_joined :
      (f : LocalFile) (chunks : List Bytes)
      → send_blocks none f.content ≡ ok chunks
      → concat chunks ≡ f.content
  blocks_joined f chunks e =
      let (ys, e2, same) = concat-send_blocks f.content in
      let ys_chunks : ys ≡ chunks = cc in rw (← ys_chunks) same

  -- A client sends a file to a box that keeps files in IPFS, and later receives the id that it was
  -- given. If the file is not empty, the client has a stream to the box, the messages fit the wire
  -- format, IPFS takes the file, the id that it gives can be encoded in UTF-8, the entry that the box
  -- writes fits a chunk of IPFS and the file's type is in lower case, then `receiveFile` gives a file with the name, type, date and content of the file that was sent, and
  -- both operations have closed the streams that they opened.
  pub receive_file-send_file :
      (lower : Text → Text) (s s2 : ipfs.Store) (st : p.Stream) (f : LocalFile)
      (chunks : List Bytes) (id : Text) (n : ℕ)
      → get_stream_connection p c protocol_name ≡ ok st
      → Stores w u as_bytes ipfs p c s s2 f chunks id
      → send_blocks none f.content ≡ ok chunks
      → lower f.type ≡ f.type
      → (send_file w u p (box w u as_bytes ipfs p c s) c f n ≡ (ok id, n))
        × (receive_file w u p (box w u as_bytes ipfs p c s2) c lower id n ≡ (ok f, n))
  receive_file-send_file lower s s2 st f chunks id n o k e h =
      let (content, parts, same) = parts_stored w u as_bytes ipfs p c s s2 st f chunks id n o k in
      (
        file_sent s s2 st f chunks id n o k e,
        file_received lower s2 st id f content n parts (same ∙ blocks_joined f chunks e) h,
      )

  sealed_sent :
      (cipher : Bytes → Bytes → Cipher) (r : Random) (draws : ℕ → r.Draw) (s s2 : ipfs.Store)
      (st : p.Stream) (f : LocalFile) (chunks : List Bytes) (id : Text) (n : ℕ)
      → get_stream_connection p c protocol_name ≡ ok st
      → Stores w u as_bytes ipfs p c s s2 f chunks id
      → send_blocks
          (some (cipher (random_key r draws 32) (random_key r (λ i. draws (32 + i)) 16)))
          f.content
        ≡ ok chunks
      → send_encrypted_file w u p (box w u as_bytes ipfs p c s) c cipher r draws f n ≡ (
        ok (record {
          cid = id;
          sym_key = random_key r draws 32;
          iv = random_key r (λ i. draws (32 + i)) 16;
        }),
        n,
      )
  unfolding send_encrypted_file Client.send_file on_protocol
  sealed_sent cipher r draws s s2 st f chunks id n o k e = rw (
    opened_box w u as_bytes ipfs p c s st n o,
    e,
    delivered w u as_bytes ipfs p c s s2 (meta_of f) chunks id k.sendable k.stored k.is_text st,
    closed n,
  )

  sealed_received :
      (lower : Text → Text) (cipher : Bytes → Bytes → Cipher) (key iv : Bytes) (s : ipfs.Store)
      (id : Text) (f : LocalFile) (content : Source Bytes) (n : ℕ)
      → receive_parts w u p (box w u as_bytes ipfs p c s) c id n
        ≡ (ok (meta_of f, content.items), suc (suc n))
      → decrypt_content (cipher key iv) (concat content.items) ≡ ok f.content
      → lower f.type ≡ f.type
      → receive_decrypted_file w u p (box w u as_bytes ipfs p c s) c lower cipher id key iv n
        ≡ (ok f, n)
  unfolding receive_decrypted_file
  sealed_received lower cipher key iv s id f content n e back h =
      rw (e, back, h, closed_twice n) refl

  blocks_decrypted :
      (k : Cipher) (f : LocalFile) (chunks : List Bytes)
      → send_blocks (some k) f.content ≡ ok chunks
      → length f.content % 16384 < 16368
      → decrypt_content k (concat chunks) ≡ ok f.content
  blocks_decrypted k f chunks e h =
      let (ys, e2, back) = decrypt_content-send_blocks k f.content h in
      let ys_chunks : ys ≡ chunks = cc in rw (← ys_chunks) back

  -- A client sends a file with `sendEncryptedFile`, which draws a key and an initial vector, to a box
  -- that keeps files in IPFS, and later receives its id with this key and this vector. With the conditions of a file that
  -- is sent in the clear, and a size that is below 16368 modulo 16384, `receiveDecryptedFile`
  -- gives the file that was sent, and both operations have closed the streams that they opened.
  pub receive_decrypted_file-send_encrypted_file :
      (lower : Text → Text) (cipher : Bytes → Bytes → Cipher) (r : Random) (draws : ℕ → r.Draw)
      (s s2 : ipfs.Store) (st : p.Stream) (f : LocalFile) (chunks : List Bytes) (id : Text) (n : ℕ)
      → get_stream_connection p c protocol_name ≡ ok st
      → Stores w u as_bytes ipfs p c s s2 f chunks id
      → send_blocks
          (some (cipher (random_key r draws 32) (random_key r (λ i. draws (32 + i)) 16)))
          f.content
        ≡ ok chunks
      → length f.content % 16384 < 16368
      → lower f.type ≡ f.type
      → (key : Bytes) × (iv : Bytes) × (send_encrypted_file w u p
            (box w u as_bytes ipfs p c s)
            c
            cipher
            r
            draws
            f
            n
          ≡ (ok (record { cid = id; sym_key = key; iv = iv }), n))
        × (receive_decrypted_file w u p (box w u as_bytes ipfs p c s2) c lower cipher id key iv n
            ≡ (ok f, n))
  receive_decrypted_file-send_encrypted_file lower cipher r draws s s2 st f chunks id n o k e small
        h =
      let (content, parts, same) = parts_stored w u as_bytes ipfs p c s s2 st f chunks id n o k in
      (
        random_key r draws 32,
        random_key r (λ i. draws (32 + i)) 16,
        sealed_sent cipher r draws s s2 st f chunks id n o k e,
        sealed_received lower cipher _ _ s2 id f content n parts
            (ap
                (decrypt_content
                  (cipher (random_key r draws 32) (random_key r (λ i. draws (32 + i)) 16)))
                same
              ∙ blocks_decrypted _ f chunks e small)
            h,
      )

-- `randomKey(len)` has `len` bytes, and none of them is 255.
pub random_key_bounds :
    (r : Random) (draws : ℕ → r.Draw) (len : ℕ)
    → (length (random_key r draws len) ≡ len) × All (λ b. b < 255) (random_key r draws len)
unfolding random_key
random_key_bounds r draws zero = (refl, tt)
random_key_bounds r draws (suc len) =
    let (size, rest) = random_key_bounds r (λ i. draws (suc i)) len in
    (ap suc size, (r.in_range (draws 0) 255 (omega arith), rest))
