-- ===== src/Wire/Chain.antt =====
-- Protobuf messages as sequences of fields: what the loop of a reader makes of them.
use fula_archived.Prelude.{
  ℕ, zero, suc, ◌+◌, ◌^◌, ◌<◌, Bool, true, false, some, List, [], ◌∷◌, ◌++◌, length, All, String,
  Bytes, ◌≡◌, refl, sym, ap, ◌∙◌, subst, arith, Result, ok, if◌then◌else◌, length-append,
  append_assoc, append-nil,
}
use fula_archived.Wire.{Wire, WireType, length_delimited, Reader, IsFieldNo, Unknown, keep_unknown}
use fula_archived.Wire.Loop.{
  Step, read_loop, read_loop_round, read_loop_stop, read_message, read_field, read_nested,
  read_unknown, write_nested, write_unknown,
}

module _ (w : Wire) {M : Type 0} (step : Step M) where
  -- One round of the loop takes the bytes and makes `m'` of `m`, whatever follows.
  pub record Reads (m : M) (bs : Bytes) (m' : M) : Type 0 where
    pub field_no : ℕ
    pub wire_type : WireType
    pub body : Bytes → Bytes
    pub is_pos : 0 < length bs
    pub tag : (rest : Bytes) → w.read_tag (bs ++ rest) ≡ some ((field_no, wire_type), body rest)
    pub field : (rest : Bytes) → step field_no wire_type m (body rest) ≡ ok (m', rest)

  -- A sequence of such fields.
  pub data Chain : M → Bytes → M → Type 0 where
    done : {m : M} → Chain m [] m
    more :
        {m m' m'' : M} {bs : Bytes} (front back : Bytes)
        → bs ≡ front ++ back
        → Reads m front m'
        → Chain m' back m''
        → Chain m bs m''

  pub Chain-append :
      {m m' m'' : M} {bs : Bytes} (cs : Bytes)
      → Chain m bs m'
      → Chain m' cs m''
      → Chain m (bs ++ cs) m''
  Chain-append cs done d = d
  Chain-append cs (more front back e r c) d =
      more front (back ++ cs) (rw (e, append_assoc)) r (Chain-append cs c d)

  pub Chain-one : {m m' : M} {bs : Bytes} → Reads m bs m' → Chain m bs m'
  Chain-one {bs} r = more bs [] (sym (append-nil bs)) r done

  -- A field that is left out when it has its default.
  pub Chain-unless :
      {m m' : M} {bs : Bytes} (b : Bool)
      → (b ≡ true → m ≡ m')
      → (b ≡ false → Reads m bs m')
      → Chain m (if b then [] else bs) m'
  Chain-unless {m} true same r = subst (λ x. Chain m [] x) (same refl) done
  Chain-unless false same r = Chain-one (r refl)

  read_round :
      (start len fuel : ℕ) {m m' : M} {bs : Bytes} (rest : Bytes)
      → Reads m bs m'
      → start < len + length (bs ++ rest)
      → read_loop w step start len (suc fuel) m (bs ++ rest)
        ≡ read_loop w step start len fuel m' rest
  read_round start len fuel {m} {m'} {bs} rest r h =
      read_loop_round w step start len fuel m (bs ++ rest) r.field_no r.wire_type (r.body rest) m'
        rest h (r.tag rest) (r.field rest)

  read_loop-Chain :
      (start len fuel : ℕ) {m m' : M} {bs : Bytes} (rest : Bytes)
      → Chain m bs m'
      → start ≡ len + length rest
      → length bs < fuel
      → read_loop w step start len fuel m (bs ++ rest) ≡ ok (m', rest)
  read_loop-Chain start len zero rest c e f = absurd (omega arith)
  read_loop-Chain start len (suc fuel) {m} rest done e f =
      read_loop_stop w step start len fuel m rest (omega arith)
  read_loop-Chain start len (suc fuel) rest (more front back same r c) e f =
      rw (same, append_assoc)
        (read_round start len fuel (back ++ rest) r (
            omega (arith, e, r.is_pos, length-append front (back ++ rest), length-append back rest))
          ∙ read_loop-Chain start len fuel rest c e
              (omega (arith, ap length same, r.is_pos, length-append front back)))

  -- A reader gets from a sequence of fields the message that they make, and leaves what follows.
  pub read_message-Chain :
      {m m' : M} {bs : Bytes} (rest : Bytes)
      → Chain m bs m'
      → read_message w step (length bs) m (bs ++ rest) ≡ ok (m', rest)
  unfolding read_message
  read_message-Chain {bs} rest c =
      read_loop-Chain (length (bs ++ rest)) (length bs) _ rest c (length-append bs rest)
        (omega (arith, length-append bs rest))

pub read_field_back :
    {A M : Type 0} (read : Reader A) (put : A → M) (a : A) (bs rest : Bytes)
    → read bs ≡ some (a, rest)
    → read_field read put bs ≡ ok (put a, rest)
unfolding read_field
read_field_back read put a bs rest h = rw h

pub read_nested_back :
    (w : Wire) {A M : Type 0} (read : ℕ → Bytes → Result (A × Bytes)) (put : A → M) (a : A)
    (inner rest : Bytes)
    → length inner < 2 ^ 32
    → read (length inner) (inner ++ rest) ≡ ok (a, rest)
    → read_nested w read put (w.uint32 (length inner) ++ (inner ++ rest)) ≡ ok (put a, rest)
unfolding read_nested
read_nested_back w read put a inner rest h e =
    rw (w.uint32_back (length inner) (inner ++ rest) h, e)

-- A field that no case of the switch takes: the numbers up to `known` are taken.
abbrev pub IsStrange : Wire → ℕ → Unknown → Type 0
IsStrange w known u =
    IsFieldNo u.field_no × (known < u.field_no) × (w.is_payload u.wire_type u.payload ≡ true)

module _ (w : Wire) {M : Type 0} (step : Step M) where
  -- A field behind its tag.
  pub Reads-tag :
      {m m' : M} (n : ℕ) (t : WireType) (v : Bytes)
      → IsFieldNo n
      → ((rest : Bytes) → step n t m (v ++ rest) ≡ ok (m', rest))
      → Reads w step m (w.tag n t ++ v) m'
  Reads-tag n t v h f = record {
    field_no = n;
    wire_type = t;
    body = λ rest. v ++ rest;
    is_pos = omega (arith, length-append (w.tag n t) v, w.tag_pos n t);
    tag = λ rest. rw append_assoc (w.tag_back n t (v ++ rest) h);
    field = f;
  }

  -- `message.field = reader.read()` behind its tag.
  pub Reads-field :
      {A : Type 0} (m : M) (n : ℕ) (t : WireType) (read : Reader A) (put : A → M) (a : A)
      (v : Bytes)
      → IsFieldNo n
      → ((bs : Bytes) → step n t m bs ≡ read_field read put bs)
      → ((rest : Bytes) → read (v ++ rest) ≡ some (a, rest))
      → Reads w step m (w.tag n t ++ v) (put a)
  Reads-field m n t read put a v h e back =
      Reads-tag n t v h
        (λ rest. e (v ++ rest) ∙ read_field_back read put a (v ++ rest) rest (back rest))

  -- A message within the message.
  pub Reads-nested :
      {A : Type 0} (m : M) (n : ℕ) (read : ℕ → Bytes → Result (A × Bytes)) (put : A → M) (a : A)
      (inner : Bytes)
      → IsFieldNo n
      → length inner < 2 ^ 32
      → ((bs : Bytes) → step n length_delimited m bs ≡ read_nested w read put bs)
      → ((rest : Bytes) → read (length inner) (inner ++ rest) ≡ ok (a, rest))
      → Reads w step m (write_nested w n inner) (put a)
  unfolding write_nested
  Reads-nested m n read put a inner h small e back =
      Reads-tag n length_delimited (w.uint32 (length inner) ++ inner) h
        (λ rest. e _ ∙ rw append_assoc (read_nested_back w read put a inner rest small (back rest)))

  -- The fields that were kept, behind those that `put` already holds.
  pub Chain-unknown :
      (known : ℕ) (name : String) (add : Unknown → M → M) (put : List Unknown → M)
      → ((n : ℕ) (t : WireType) (m : M) (bs : Bytes)
          → known < n
          → step n t m bs ≡ read_unknown w keep_unknown name add n t m bs)
      → ((u : Unknown) (us : List Unknown) → add u (put us) ≡ put (us ++ u ∷ []))
      → (us kept : List Unknown) → All (IsStrange w known) us
      → Chain w step (put kept) (write_unknown w true us) (put (kept ++ us))
  unfolding write_unknown read_unknown
  Chain-unknown known name add put other added [] kept h = rw append-nil done
  Chain-unknown known name add put other added (u ∷ us) kept ((pos, far, fits), hs) =
      more _ _ refl
        (Reads-tag u.field_no u.wire_type u.payload pos (λ rest.
          other u.field_no u.wire_type (put kept) (u.payload ++ rest) far
          ∙ rw (w.skip_back u.wire_type u.payload rest fits, added u kept)))
        (simp append_assoc at (Chain-unknown known name add put other added us (kept ++ u ∷ []) hs))
