-- ===== src/Tests/StandIns.antt =====
-- Small stand-ins for the libraries: they meet the interfaces' laws.
use fula_archived.Prelude.{
  ℕ, zero, suc, ◌+◌, ◌-◌, ◌*◌, ◌/◌, ◌%◌, ◌<◌, String, true, Option, none, some, List, [], ◌∷◌, ◌++◌,
  length, take, replicate, concat, get_elem?, Text, Bytes, ◌≡◌, refl, ap, arith, ltb, ◌==◌, is_zero,
  length-append, length-replicate, append-nil, runtime,
}
use fula_archived.AsyncLater.Values.{Source}
use fula_archived.Blocks.Cipher.{Cipher}
use fula_archived.FileProtocol.{Utf8}
use fula_archived.BoxFiles.{Ipfs}
use fula_archived.Graph.Values.{Numbers, Doc}
use fula_archived.Graph.Resolvers.{DocStore, filter_docs}
use fula_archived.Bridge.Sender.{Base64}
use fula_archived.FulaClient.Streams.{Libp2p}
use fula_archived.FulaClient.Files.{Random}

-- A cipher that leaves the bytes as they are, with the padding of PKCS 7.
last_or_zero : Bytes → ℕ
last_or_zero [] = 0
last_or_zero (x ∷ []) = x
last_or_zero (x ∷ y ∷ xs) = last_or_zero (y ∷ xs)

last-replicate : (k v : ℕ) → last_or_zero (replicate (suc k) v) ≡ v
unfolding last_or_zero
last-replicate zero v = refl
last-replicate (suc k) v = last-replicate k v

last-append : (x : Bytes) (k v : ℕ) → last_or_zero (x ++ replicate (suc k) v) ≡ v
unfolding last_or_zero
last-append [] k v = last-replicate k v
last-append (x ∷ []) k v = last-replicate k v
last-append (x ∷ y ∷ xs) k v = last-append (y ∷ xs) k v

unfoldable pub pad : Bytes → Bytes
pad x = x ++ replicate (16 - length x % 16) (16 - length x % 16)

unfoldable pub strip : Bytes → Option Bytes
unfolding last_or_zero
strip x = some (take (length x - last_or_zero x) x)

pub length-pad : (x : Bytes) → length (pad x) ≡ (length x / 16 + 1) * 16
unfolding pad
length-pad x = omega (
  arith,
  length-append x (replicate (16 - length x % 16) (16 - length x % 16)),
  length-replicate (16 - length x % 16) (16 - length x % 16),
)

take-length-append : (x y : Bytes) (k : ℕ) → k ≡ length x → take k (x ++ y) ≡ x
take-length-append [] y zero e = refl
take-length-append [] y (suc k) e = absurd (omega (arith, e))
take-length-append (a ∷ x) y zero e = absurd (omega (arith, e))
take-length-append (a ∷ x) y (suc k) e =
    ap (λ r. a ∷ r) (take-length-append x y k (omega (arith, e)))

strip_padded : (x : Bytes) (k : ℕ) → strip (x ++ replicate (suc k) (suc k)) ≡ some x
unfolding strip
strip_padded x k = ap some (
    take-length-append x (replicate (suc k) (suc k)) _ (
      omega (
        arith,
        last-append x k (suc k),
        length-append x (replicate (suc k) (suc k)),
        length-replicate (suc k) (suc k),
      )))

pub strip-pad : (x : Bytes) → strip (pad x) ≡ some x
unfolding pad
strip-pad x =
    let e : 16 - length x % 16 ≡ suc (15 - length x % 16) = omega arith in
    rw e (strip_padded x (15 - length x % 16))

abbrev pub bare : Cipher
bare = record {
  encrypt = some;
  decrypt = some;
  pad = pad;
  strip = strip;
  encrypted = λ x h. (x, refl, refl, refl);
  length-pad = length-pad;
  strip-pad = strip-pad;
}

abbrev pub utf8 : Utf8
utf8 = record { encode = λ s. s; decode = λ s. s; is_text = λ s. true; decode-encode = λ s h. refl }

abbrev pub base64 : Base64
base64 = record { stringify = λ b. b; parse = some; parse-stringify = λ b. refl }

abbrev pub numbers : Numbers
numbers = record {
  Num = ℕ;
  eq = ◌==◌;
  lt = ltb;
  is_falsy = is_zero;
  of_text = length;
  to_text = λ n. n ∷ [];
}

abbrev pub doc_store : DocStore numbers
doc_store = record {
  Db = List (Doc numbers);
  all = λ db. db;
  query = filter_docs numbers;
  put = λ d db. some (d ∷ db);
  del = λ i db. some db;
  query-filter = λ f db. refl;
}

abbrev pub libp2p : Libp2p
libp2p = record {
  Conn = ℕ;
  Stream = String;
  connections = (4 ∷ []) ∷ [];
  new_stream = λ c s. some s;
  create_from_b58 = some;
}

pub below : (d n : ℕ) → 0 < n → d % n < n
below d zero h = absurd (omega (arith, h))
below d (suc n) h = omega arith

abbrev pub dice : Random
dice = record { Draw = ℕ; floor_times = λ d n. d % n; in_range = λ d n h. below d n h }

-- A store that numbers its files; a file that is not empty is read in one chunk.
abbrev Files : Type 0
Files = List Bytes

abbrev file_at : Option Bytes → Source Bytes
file_at none = record { items = []; failure = some runtime }
file_at (some []) = record { items = []; failure = none }
file_at (some (x ∷ xs)) = record { items = (x ∷ xs) ∷ []; failure = none }

abbrev number_of : Text → ℕ
number_of [] = 0
number_of (n ∷ r) = n

get-length : (s : Files) (x : Bytes) → get_elem? (s ++ x ∷ []) (length s) ≡ some x
get-length [] x = refl
get-length (y ∷ s) x = get-length s x

pub get-append :
    (s : Files) (x : Bytes) (i : ℕ) (v : Bytes)
    → get_elem? s i ≡ some v
    → get_elem? (s ++ x ∷ []) i ≡ some v
get-append [] x i v e = cc
get-append (y ∷ s) x zero v e = e
get-append (y ∷ s) x (suc i) v e = get-append s x i v e

pub file_at-fine :
    (x : Bytes) → ((file_at (some x)).failure ≡ none) × (concat (file_at (some x)).items ≡ x)
file_at-fine [] = (refl, refl)
file_at-fine (x ∷ xs) = (refl, append-nil (x ∷ xs))

pub file_at-short : (x : Bytes) → 0 < length x → (file_at (some x)).items ≡ x ∷ []
file_at-short [] h = absurd (omega arith)
file_at-short (x ∷ xs) h = refl

pub file_at-kept :
    (o p : Option Bytes)
    → ((v : Bytes) → o ≡ some v → p ≡ some v)
    → (file_at o).failure ≡ none
    → file_at p ≡ file_at o
file_at-kept none p h e = cc
file_at-kept (some v) p h e = ap file_at (h v refl)

abbrev add_file : List Bytes → Files → Option (Text × Files)
add_file cs s = some (length s ∷ [], s ++ concat cs ∷ [])

abbrev cat_file : Files → Text → Source Bytes
cat_file s id = file_at (get_elem? s (number_of id))

pub new_file :
    (cs : List Bytes) (s s' : Files) (id : Text)
    → add_file cs s ≡ some (id, s')
    → cat_file s' id ≡ file_at (some (concat cs))
new_file cs s s' id e =
    let same_id : length s ∷ [] ≡ id = cc in
    let same_store : s ++ concat cs ∷ [] ≡ s' = cc in
    rw (← same_id, ← same_store) (ap file_at (get-length s (concat cs)))

pub kept_file :
    (cs : List Bytes) (s s' : Files) (id old : Text)
    → add_file cs s ≡ some (id, s')
    → (cat_file s old).failure ≡ none
    → cat_file s' old ≡ cat_file s old
kept_file cs s s' id old e f =
    let same_store : s ++ concat cs ∷ [] ≡ s' = cc in
    rw (← same_store) (
      file_at-kept (get_elem? s (number_of old)) (get_elem? (s ++ concat cs ∷ []) (number_of old))
        (get-append s (concat cs) (number_of old)) f)

abbrev pub ipfs : Ipfs
ipfs = record {
  Store = Files;
  add = add_file;
  cat = cat_file;
  chunk_size = 262144;
  added = λ cs s s' id e. rw (new_file cs s s' id e) (file_at-fine (concat cs));
  short = λ cs s s' id e h k. rw (new_file cs s s' id e) (file_at-short (concat cs) h);
  kept = λ cs s s' id old e f h. kept_file cs s s' id old e f;
}
