-- ===== src/Tests/Files.antt =====
-- The messages of protocols/file and the blocks of encrypted files, on concrete values.
use fula_archived.Prelude.{
  ◌++◌, drop, take, ℕ, ◌+◌, ◌*◌, ◌/◌, ◌<◌, some, List, [], ◌∷◌, length, concat, replicate, Bytes,
  pos, ◌≡◌, ◌≢◌, refl, arith, ok, stuck, length-replicate,
}
use fula_archived.Wire.{length_delimited, Unknown}
use fula_archived.Wire.Plain.{plain}
use fula_archived.Wire.Loop.{write_unknown}
use fula_archived.FileSchema.Meta
use fula_archived.FileSchema.Meta.{Meta}
use fula_archived.FileSchema.Meta.RoundTrip.{meta_read-write}
use fula_archived.FileSchema.Request
use fula_archived.FileSchema.Request.{Request, send}
use fula_archived.FileSchema.Request.RoundTrip.{from_binary-to_binary}
use fula_archived.FileSchema.File
use fula_archived.FileSchema.File.{File}
use fula_archived.FileSchema.Ends.{from_binary_ends}
use fula_archived.Blocks.Cipher.{send_blocks, decrypt_content}
use fula_archived.Blocks.Whole.{decrypt_content-send_blocks, decrypt_content_padded}
use fula_archived.Tests.StandIns.{bare}

abbrev strange : Unknown
strange = record { field_no = 9; wire_type = length_delimited; payload = 1 ∷ 5 ∷ [] }

abbrev picture : Meta
picture = record {
  name = 97 ∷ 98 ∷ [];
  type = [];
  size = 70000;
  last_modified = pos 5;
  preview = some (1 ∷ 2 ∷ []);
  unknown = strange ∷ [];
}

picture-IsValid : Meta.RoundTrip.IsValid plain picture
unfolding plain
picture-IsValid = record {
  name = refl;
  type = refl;
  size = omega arith;
  last_modified = omega arith;
  unknown = (((omega arith, omega arith), omega arith, refl), tt);
}

abbrev sending : Request
sending = record { type = send picture; unknown = [] }

sending-IsValid : Request.RoundTrip.IsValid plain sending
unfolding plain Meta.write write_unknown
sending-IsValid = record { type = (picture-IsValid, omega arith); unknown = tt }

from_binary-to_binary_example :
    Request.from_binary plain (Request.to_binary plain sending) ≡ ok sending
from_binary-to_binary_example = from_binary-to_binary plain sending sending-IsValid

from_binary_ends_example :
    (Request.from_binary plain (8 ∷ 2 ∷ 99 ∷ []) ≢ stuck)
    × (File.from_binary plain (8 ∷ 2 ∷ 99 ∷ []) ≢ stuck)
from_binary_ends_example = from_binary_ends plain (8 ∷ 2 ∷ 99 ∷ [])

abbrev ragged : Bytes
ragged = 1 ∷ 2 ∷ 3 ∷ []

decrypt_content-send_blocks_example :
    (ys : List Bytes) × (send_blocks (some bare) ragged ≡ ok ys)
    × (decrypt_content bare (concat ys) ≡ ok ragged)
decrypt_content-send_blocks_example = decrypt_content-send_blocks bare ragged (omega arith)

decrypt_content_padded_example :
    (ys : List Bytes) × (out : Bytes) × (send_blocks (some bare) (replicate 16380 7) ≡ ok ys)
    × (decrypt_content bare (concat ys) ≡ ok out)
    × (out
        ≡ take (length (replicate {A = ℕ} 16380 7) / 16384 * 16384) (replicate 16380 7)
          ++ bare.pad
              (drop (length (replicate {A = ℕ} 16380 7) / 16384 * 16384) (replicate 16380 7)))
    × (length (replicate {A = ℕ} 16380 7) < length out)
    × (length out ≡ (length (replicate {A = ℕ} 16380 7) / 16384 + 1) * 16384)
decrypt_content_padded_example =
    decrypt_content_padded bare (replicate 16380 7)
      (omega (arith, length-replicate {A = ℕ} 16380 7))
