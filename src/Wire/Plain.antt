-- ===== src/Wire/Plain.antt =====
-- A runtime that meets the interface, for the tests: a number is one cell, a string or a byte array
-- its length and its cells. Its bytes are not protobuf's.
use fula_archived.Prelude.{
  ℕ, zero, suc, ◌<◌, Bool, true, false, none, some, [], ◌∷◌, ◌++◌, length, take, drop, Bytes, ℤ,
  pos, negsuc, ◌≡◌, refl, arith, leb, ◌==◌, if◌then◌else◌, length-append, length-drop,
}
use fula_archived.Wire.{
  Wire, WireType, varint, bit64, length_delimited, start_group, end_group, bit32, Reader, MovesOn,
}

pub wire_code : WireType → ℕ
wire_code varint = 0
wire_code bit64 = 1
wire_code length_delimited = 2
wire_code start_group = 3
wire_code end_group = 4
wire_code bit32 = 5

pub wire_type_of : ℕ → WireType
wire_type_of zero = varint
wire_type_of (suc zero) = bit64
wire_type_of (suc (suc zero)) = length_delimited
wire_type_of (suc (suc (suc zero))) = start_group
wire_type_of (suc (suc (suc (suc zero)))) = end_group
wire_type_of (suc (suc (suc (suc (suc n))))) = bit32

of-code : (t : WireType) → wire_type_of (wire_code t) ≡ t
unfolding wire_code wire_type_of
of-code varint = refl
of-code bit64 = refl
of-code length_delimited = refl
of-code start_group = refl
of-code end_group = refl
of-code bit32 = refl

pub read_number : Reader ℕ
read_number [] = none
read_number (n ∷ r) = some (n, r)

pub read_pair : Reader (ℕ × WireType)
unfolding wire_type_of
read_pair (n ∷ c ∷ r) = some ((n, wire_type_of c), r)
read_pair _ = none

pub put_array : Bytes → Bytes
put_array s = length s ∷ s

pub read_array : Reader Bytes
read_array [] = none
read_array (n ∷ r) = if leb n (length r) then some (take n r, drop n r) else none

pub put_int : ℤ → Bytes
put_int (pos n) = 0 ∷ n ∷ []
put_int (negsuc n) = 1 ∷ n ∷ []

pub read_int : Reader ℤ
read_int (zero ∷ n ∷ r) = some (pos n, r)
read_int (suc k ∷ n ∷ r) = some (negsuc n, r)
read_int _ = none

pub put_bool : Bool → Bytes
put_bool true = 1 ∷ []
put_bool false = 0 ∷ []

pub read_bit : Reader Bool
read_bit [] = none
read_bit (zero ∷ r) = some (false, r)
read_bit (suc n ∷ r) = some (true, r)

pub is_array : Bytes → Bool
is_array [] = false
is_array (n ∷ r) = n == length r

-- An unknown field's payload is kept with its length.
pub skip_array : Reader Bytes
skip_array [] = none
skip_array (n ∷ r) = if leb n (length r) then some (n ∷ take n r, drop n r) else none

take-length : (s rest : Bytes) → take (length s) (s ++ rest) ≡ s
take-length [] rest = refl
take-length (x ∷ s) rest = ground (arith, take-length s rest)

drop-length : (s rest : Bytes) → drop (length s) (s ++ rest) ≡ rest
drop-length [] rest = refl
drop-length (x ∷ s) rest = drop-length s rest

pub array_back : (s rest : Bytes) → read_array (put_array s ++ rest) ≡ some (s, rest)
unfolding read_array put_array
array_back s rest = ground (arith, length-append s rest, take-length s rest, drop-length s rest)

pub skip_back : (d rest : Bytes) → is_array d ≡ true → skip_array (d ++ rest) ≡ some (d, rest)
unfolding skip_array is_array
skip_back [] rest h = cc
skip_back (n ∷ s) rest h =
    ground (arith, length-append s rest, take-length s rest, drop-length s rest)

pub array_moves : MovesOn read_array
unfolding read_array
array_moves [] a rest e = cc
array_moves (n ∷ r) a rest e = ground (arith, length-drop n r)

pub skip_moves : MovesOn skip_array
unfolding skip_array
skip_moves [] a rest e = cc
skip_moves (n ∷ r) a rest e = ground (arith, length-drop n r)

pub number_moves : MovesOn read_number
unfolding read_number
number_moves [] a rest e = cc
number_moves (n ∷ r) a rest e = ground arith

pub int_moves : MovesOn read_int
unfolding read_int
int_moves [] a rest e = cc
int_moves (n ∷ []) a rest e = ground arith
int_moves (zero ∷ n ∷ r) a rest e = ground arith
int_moves (suc k ∷ n ∷ r) a rest e = ground arith

pub bit_moves : MovesOn read_bit
unfolding read_bit
bit_moves [] a rest e = cc
bit_moves (zero ∷ r) a rest e = ground arith
bit_moves (suc n ∷ r) a rest e = ground arith

pub tag_back :
    (n : ℕ) (t : WireType) (rest : Bytes) → read_pair (n ∷ wire_code t ∷ rest) ≡ some ((n, t), rest)
unfolding read_pair
tag_back n t rest = rw of-code

pub tag_moves :
    (bs : Bytes) (x : ℕ × WireType) (rest : Bytes)
    → read_pair bs ≡ some (x, rest)
    → length rest < length bs
unfolding read_pair
tag_moves [] x rest e = cc
tag_moves (n ∷ []) x rest e = cc
tag_moves (n ∷ c ∷ r) x rest e = ground arith

pub int_back : (z : ℤ) (rest : Bytes) → read_int (put_int z ++ rest) ≡ some (z, rest)
unfolding read_int put_int
int_back (pos n) rest = refl
int_back (negsuc n) rest = refl

pub bool_back : (b : Bool) (rest : Bytes) → read_bit (put_bool b ++ rest) ≡ some (b, rest)
unfolding read_bit put_bool
bool_back true rest = refl
bool_back false rest = refl

unfoldable pub plain : Wire
unfolding wire_code put_array put_int put_bool read_pair read_array read_number read_int read_bit
    skip_array is_array
plain = record {
  tag = λ n t. n ∷ wire_code t ∷ [];
  string = put_array;
  bytes = put_array;
  uint32 = λ n. n ∷ [];
  uint64 = λ n. n ∷ [];
  int64 = put_int;
  bool = put_bool;
  int32 = put_int;
  double = λ n. n ∷ [];
  read_tag = read_pair;
  read_string = read_array;
  read_bytes = read_array;
  read_uint32 = read_number;
  read_uint64 = read_number;
  read_int64 = read_int;
  read_bool = read_bit;
  read_int32 = read_int;
  read_double = read_number;
  skip = λ t. skip_array;
  is_text = λ s. true;
  is_payload = λ t d. is_array d;
  tag_back = λ n t rest h. tag_back n t rest;
  string_back = λ s rest h. array_back s rest;
  bytes_back = array_back;
  uint32_back = λ n rest h. refl;
  uint64_back = λ n rest h. refl;
  int64_back = λ z rest h. int_back z rest;
  bool_back = bool_back;
  int32_back = λ z rest h. int_back z rest;
  double_back = λ n rest h. refl;
  skip_back = λ t d rest h. skip_back d rest h;
  tag_moves = tag_moves;
  tag_pos = λ n t. omega arith;
  string_moves = array_moves;
  bytes_moves = array_moves;
  uint32_moves = number_moves;
  uint64_moves = number_moves;
  int64_moves = int_moves;
  bool_moves = bit_moves;
  int32_moves = int_moves;
  double_moves = number_moves;
  skip_moves = λ t. skip_moves;
}
