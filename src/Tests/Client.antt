-- ===== src/Tests/Client.antt =====
-- A file that a client sends to a box that keeps files, in the clear and encrypted, and receives again.
use fula_archived.Prelude.{
  ℕ, Option, none, some, List, [], ◌∷◌, ◌++◌, map, Text, Bytes, ◌≡◌, refl, arith, ok, subst,
}
use fula_archived.Wire.Plain.{plain}
use fula_archived.Wire.Loop.{write_unknown}
use fula_archived.AsyncLater.Convert.{next_value, finish, async_iterable_from_observable}
use fula_archived.FileSchema.Meta
use fula_archived.FileSchema.Chunk
use fula_archived.FileSchema.File
use fula_archived.FileSchema.Request
use fula_archived.FileSchema.Request.{meta, receive, send}
use fula_archived.FileProtocol.{protocol_name}
use fula_archived.FileProtocol.Client.{meta_of, request_of}
use fula_archived.FileProtocol.Dispatch.{content_collected}
use fula_archived.Blocks.{slice, each_block}
use fula_archived.Blocks.Cipher.{send_blocks, plain_block, seal}
use fula_archived.BoxFiles.{store_file}
use fula_archived.BoxFiles.Keeping.{entry_of, FitsChunk}
use fula_archived.FulaClient.{FulaConnection, new_connection, start}
use fula_archived.FulaClient.Streams.{get_stream_connection, get_connection}
use fula_archived.FulaClient.Files.{
  send_file, send_encrypted_file, receive_file, receive_decrypted_file,
}
use fula_archived.FulaClient.Files.Stores.{box, Stores}
use fula_archived.FulaClient.Files.Trips.{
  receive_file-send_file, receive_decrypted_file-send_encrypted_file,
}
use fula_archived.Tests.StandIns.{bare, pad, utf8, ipfs, libp2p, dice}
use fula_archived.Tests.Protocol.{no_bytes, note, note_meta-IsValid, note_entry-FitsChunk}

abbrev pub connection : Option FulaConnection
connection = some (start (new_connection ((1 ∷ []) ∷ [])))

connection-opens : get_stream_connection libp2p connection protocol_name ≡ ok protocol_name
unfolding get_stream_connection get_connection start new_connection
connection-opens = refl

first_path :
    (cs : List Bytes) (path : Text) (s1 : List Bytes)
    → ipfs.add cs [] ≡ some (path, s1)
    → 0 ∷ [] ≡ path
first_path cs path s1 e = cc

-- The store behind a file with some content.
abbrev kept : Bytes → List Bytes
kept content =
    content ∷ (File.to_binary plain (entry_of plain ipfs (meta_of note) (0 ∷ [])) ++ []) ∷ []

stored_note :
    (bytes : Bytes)
    → store_file plain ipfs []
        (meta_of note)
        (async_iterable_from_observable (map next_value (bytes ∷ []) ++ finish ∷ []))
      ≡ some (1 ∷ [], kept (bytes ++ []))
unfolding store_file
stored_note bytes = rw (content_collected (bytes ∷ []), store_file) refl

sent-IsValid : Request.RoundTrip.IsValid plain (request_of (send (meta_of note)))
unfolding plain Meta.write write_unknown
sent-IsValid = record { type = (note_meta-IsValid, omega arith); unknown = tt }

asked-IsValid : Request.RoundTrip.IsValid plain (request_of (meta (1 ∷ [])))
unfolding plain
asked-IsValid = record { type = refl; unknown = tt }

wanted-IsValid :
    Request.RoundTrip.IsValid plain
      (request_of (receive (record { id = 1 ∷ []; skip = none; limit = none; unknown = [] })))
unfolding plain Chunk.write write_unknown
wanted-IsValid = record {
  type = (record { id = refl; skip = tt; limit = tt; unknown = tt }, omega arith);
  unknown = tt;
}

note-Stores :
    (b : ℕ) (bytes : Bytes)
    → Stores plain utf8 no_bytes ipfs libp2p connection []
        (kept ((b ∷ bytes) ++ []))
        note
        ((b ∷ bytes) ∷ [])
        (1 ∷ [])
note-Stores b bytes = record {
  sendable = sent-IsValid;
  valid_meta = note_meta-IsValid;
  stored = stored_note (b ∷ bytes);
  not_empty = omega arith;
  fits = λ path s1 e.
      subst (λ p. FitsChunk plain ipfs (entry_of plain ipfs (meta_of note) p))
        (first_path ((b ∷ bytes) ∷ []) path s1 e) note_entry-FitsChunk;
  is_text = refl;
  meta_sendable = asked-IsValid;
  content_sendable = wanted-IsValid;
}

receive_file-send_file_example :
    (send_file plain utf8 libp2p
        (box plain utf8 no_bytes ipfs libp2p connection [])
        connection
        note
        0
      ≡ (ok (1 ∷ []), 0))
    × (receive_file plain utf8 libp2p
          (box plain utf8 no_bytes ipfs libp2p connection (kept (5 ∷ 6 ∷ 7 ∷ [])))
          connection
          (λ t. t)
          (1 ∷ [])
          0
        ≡ (ok note, 0))
unfolding send_blocks each_block plain_block slice
receive_file-send_file_example =
    receive_file-send_file plain utf8 no_bytes ipfs libp2p connection (λ t. t) [] _ protocol_name
      note ((5 ∷ 6 ∷ 7 ∷ []) ∷ []) (1 ∷ []) 0 connection-opens (note-Stores 5 (6 ∷ 7 ∷ [])) refl
      refl

receive_decrypted_file-send_encrypted_file_example :
    (key : Bytes) × (iv : Bytes) × (send_encrypted_file plain utf8 libp2p
        (box plain utf8 no_bytes ipfs libp2p connection [])
        connection
        (λ k v. bare)
        dice
        (λ i. i)
        note
        0
      ≡ (ok (record { cid = 1 ∷ []; sym_key = key; iv = iv }), 0))
    × (receive_decrypted_file plain utf8 libp2p
          (box plain utf8 no_bytes ipfs libp2p connection (kept (pad (5 ∷ 6 ∷ 7 ∷ []) ++ [])))
          connection
          (λ t. t)
          (λ k v. bare)
          (1 ∷ [])
          key
          iv
          0
        ≡ (ok note, 0))
unfolding pad send_blocks each_block seal slice
receive_decrypted_file-send_encrypted_file_example =
    receive_decrypted_file-send_encrypted_file plain utf8 no_bytes ipfs libp2p connection (λ t. t)
      (λ k v. bare) dice (λ i. i) [] _ protocol_name note (pad (5 ∷ 6 ∷ 7 ∷ []) ∷ []) (1 ∷ []) 0
      connection-opens (note-Stores 5 _) refl (omega arith) refl
