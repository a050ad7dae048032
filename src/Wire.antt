-- ===== src/Wire.antt =====
-- The runtime of the generated codecs, `@protobuf-ts/runtime`: what protocols/*/src/schema relies on
-- of its `IBinaryWriter` and `IBinaryReader`, as an interface. It is not part of the repository.
pub mod Loop
pub mod Chain
pub mod Settles
pub mod Plain
use fula_archived.Prelude.{
  ℕ, ◌+◌, ◌^◌, ◌≤◌, ◌<◌, Bool, true, false, Option, some, List, ◌++◌, length, Text, Bytes, ◌≡◌, ℤ,
  pos, negsuc,
}

pub data WireType : Type 0 where
  varint bit64 length_delimited start_group end_group bit32 : WireType

-- A read gives a value and the bytes behind it, or throws.
abbrev pub Reader : Type 0 → Type 0
Reader A = Bytes → Option (A × Bytes)

-- A reader never moves backwards.
abbrev pub MovesOn : {A : Type 0} → Reader A → Type 0
MovesOn {A} read =
    (bs : Bytes) (a : A) (rest : Bytes) → read bs ≡ some (a, rest) → length rest ≤ length bs

-- The integers that a JavaScript number holds exactly.
abbrev pub IsSafe : ℕ → Type 0
IsSafe n = n < 2 ^ 53

abbrev pub IsSafeInt : ℤ → Type 0
IsSafeInt (pos n) = IsSafe n
IsSafeInt (negsuc n) = n + 1 < 2 ^ 53

abbrev pub IsInt32 : ℤ → Type 0
IsInt32 (pos n) = n < 2 ^ 31
IsInt32 (negsuc n) = n < 2 ^ 31

abbrev pub IsFieldNo : ℕ → Type 0
IsFieldNo n = (0 < n) × (n < 2 ^ 29)

-- A call of the writer is the bytes that it appends; a double is its 64 bits. `uint64` and `int64` of the reader include the
-- `toNumber()` that the codecs call on them. `is_text` holds of the strings that UTF-8 keeps, and
-- `is_payload` of the bytes that may follow a tag of a wire type.
pub record Wire : Type 0 where
  pub tag : ℕ → WireType → Bytes
  pub string : Text → Bytes
  pub bytes : Bytes → Bytes
  pub uint32 : ℕ → Bytes
  pub uint64 : ℕ → Bytes
  pub int64 : ℤ → Bytes
  pub bool : Bool → Bytes
  pub int32 : ℤ → Bytes
  pub double : ℕ → Bytes
  pub read_tag : Reader (ℕ × WireType)
  pub read_string : Reader Text
  pub read_bytes : Reader Bytes
  pub read_uint32 : Reader ℕ
  pub read_uint64 : Reader ℕ
  pub read_int64 : Reader ℤ
  pub read_bool : Reader Bool
  pub read_int32 : Reader ℤ
  pub read_double : Reader ℕ
  pub skip : WireType → Reader Bytes
  pub is_text : Text → Bool
  pub is_payload : WireType → Bytes → Bool
  -- What was written is read back, whatever follows it.
  pub tag_back :
      (n : ℕ) (t : WireType) (rest : Bytes)
      → IsFieldNo n
      → read_tag (tag n t ++ rest) ≡ some ((n, t), rest)
  pub string_back :
      (s rest : Bytes) → is_text s ≡ true → read_string (string s ++ rest) ≡ some (s, rest)
  pub bytes_back : (s rest : Bytes) → read_bytes (bytes s ++ rest) ≡ some (s, rest)
  pub uint32_back :
      (n : ℕ) (rest : Bytes) → n < 2 ^ 32 → read_uint32 (uint32 n ++ rest) ≡ some (n, rest)
  pub uint64_back :
      (n : ℕ) (rest : Bytes) → IsSafe n → read_uint64 (uint64 n ++ rest) ≡ some (n, rest)
  pub int64_back :
      (z : ℤ) (rest : Bytes) → IsSafeInt z → read_int64 (int64 z ++ rest) ≡ some (z, rest)
  pub bool_back : (b : Bool) (rest : Bytes) → read_bool (bool b ++ rest) ≡ some (b, rest)
  pub int32_back :
      (z : ℤ) (rest : Bytes) → IsInt32 z → read_int32 (int32 z ++ rest) ≡ some (z, rest)
  pub double_back :
      (n : ℕ) (rest : Bytes) → n < 2 ^ 64 → read_double (double n ++ rest) ≡ some (n, rest)
  pub skip_back :
      (t : WireType) (d rest : Bytes) → is_payload t d ≡ true → skip t (d ++ rest) ≡ some (d, rest)
  -- A tag takes a byte at least.
  pub tag_moves :
      (bs : Bytes) (x : ℕ × WireType) (rest : Bytes)
      → read_tag bs ≡ some (x, rest)
      → length rest < length bs
  pub tag_pos : (n : ℕ) (t : WireType) → 0 < length (tag n t)
  pub string_moves : MovesOn read_string
  pub bytes_moves : MovesOn read_bytes
  pub uint32_moves : MovesOn read_uint32
  pub uint64_moves : MovesOn read_uint64
  pub int64_moves : MovesOn read_int64
  pub bool_moves : MovesOn read_bool
  pub int32_moves : MovesOn read_int32
  pub double_moves : MovesOn read_double
  pub skip_moves : (t : WireType) → MovesOn (skip t)

-- The option `readUnknownField`, without the case of a handler of the caller's own.
pub data OnUnknown : Type 0 where
  throw_unknown discard_unknown keep_unknown : OnUnknown

-- A field that the reader does not know, as `UnknownFieldHandler` stores it in the message.
pub record Unknown : Type 0 where
  pub field_no : ℕ
  pub wire_type : WireType
  pub payload : Bytes
