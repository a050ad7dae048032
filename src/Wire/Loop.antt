-- ===== src/Wire/Loop.antt =====
-- The `while (reader.pos < end)` loop that each `internalBinaryRead` of protocols/*/src/schema has,
-- its default case, and the fields of `fork` and `join`.
use fula_archived.Prelude.{
  ℕ, zero, suc, ◌+◌, ◌≤◌, ◌<◌, Bool, true, false, some, List, [], ◌∷◌, ◌++◌, length, Bytes, ◌≡◌,
  arith, String, Result, ok, err, stuck, unknown_field, ◌>>=◌, call, ltb,
}
use fula_archived.Wire.{
  Wire, WireType, length_delimited, Reader, OnUnknown, throw_unknown, discard_unknown, keep_unknown,
  Unknown,
}

-- A case of the switch: the message and the bytes behind the field.
abbrev pub Step : Type 0 → Type 0
Step M = ℕ → WireType → M → Bytes → Result (M × Bytes)

-- `message.field = reader.read()`
unfoldable pub read_field : {A M : Type 0} → Reader A → (A → M) → Bytes → Result (M × Bytes)
read_field read put bs = do (a, r) ← call (read bs); ok (put a, r)

module _ (w : Wire) where
  module _ {M : Type 0} where
    -- `start` bytes were left when the message began, and the message has `len`. The bytes that are
    -- left stand for the reader's position.
    unfoldable pub read_loop : Step M → ℕ → ℕ → ℕ → M → Bytes → Result (M × Bytes)
    read_loop step start len zero m bs = stuck
    read_loop step start len (suc fuel) m bs = elim (ltb start (len + length bs)) [
      | false ↦ ok (m, bs)
      | true ↦ do
        ((field_no, t), r) ← call (w.read_tag bs)
        (m', r') ← step field_no t m r
        read_loop step start len fuel m' r'
    ]

    pub read_loop_round :
        (step : Step M) (start len fuel : ℕ) (m : M) (bs : Bytes) (n : ℕ) (t : WireType) (r : Bytes)
        (m' : M) (r' : Bytes)
        → start < len + length bs
        → w.read_tag bs ≡ some ((n, t), r)
        → step n t m r ≡ ok (m', r')
        → read_loop step start len (suc fuel) m bs ≡ read_loop step start len fuel m' r'
    unfolding read_loop
    read_loop_round step start len fuel m bs n t r m' r' h e f = ground arith

    pub read_loop_stop :
        (step : Step M) (start len fuel : ℕ) (m : M) (bs : Bytes)
        → len + length bs ≤ start
        → read_loop step start len (suc fuel) m bs ≡ ok (m, bs)
    unfolding read_loop
    read_loop_stop step start len fuel m bs h = ground arith

    -- A round takes a byte at least, so one more round than bytes is enough.
    unfoldable pub read_message : Step M → ℕ → M → Bytes → Result (M × Bytes)
    read_message step len target bs = read_loop step (length bs) len (suc (length bs)) target bs

    -- `message.field = Other.internalBinaryRead(reader, reader.uint32(), options, target)`
    unfoldable pub read_nested :
        {A : Type 0} → (ℕ → Bytes → Result (A × Bytes)) → (A → M) → Bytes → Result (M × Bytes)
    read_nested read put bs = do
      (len, r) ← call (w.read_uint32 bs)
      (a, r') ← read len r
      ok (put a, r')

    -- The default case.
    unfoldable pub read_unknown : OnUnknown → String → (Unknown → M → M) → Step M
    read_unknown throw_unknown name add field_no t m bs = err (unknown_field name field_no)
    read_unknown discard_unknown name add field_no t m bs = do
      (d, r) ← call (w.skip t bs)
      ok (m, r)
    read_unknown keep_unknown name add field_no t m bs = do
      (d, r) ← call (w.skip t bs)
      ok (add (record { field_no = field_no; wire_type = t; payload = d }) m, r)

  -- `Other.internalBinaryWrite(message, writer.tag(field_no, WireType.LengthDelimited).fork()).join()`
  unfoldable pub write_nested : ℕ → Bytes → Bytes
  write_nested field_no inner =
      w.tag field_no length_delimited ++ (w.uint32 (length inner) ++ inner)

  -- `UnknownFieldHandler.onWrite`, under the option `writeUnknownFields`.
  unfoldable pub write_unknown : Bool → List Unknown → Bytes
  write_unknown false us = []
  write_unknown true [] = []
  write_unknown true (u ∷ us) = (w.tag u.field_no u.wire_type ++ u.payload) ++ write_unknown true us
