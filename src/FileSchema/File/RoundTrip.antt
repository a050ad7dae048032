-- ===== src/FileSchema/File/RoundTrip.antt =====
-- schema/index.ts: `File.fromBinary` after `File.toBinary`.
use fula_archived.Prelude.{
  ◌<◌, ◌^◌, true, Option, none, some, List, [], ◌++◌, length, Text, Bytes, All, is_empty, ◌≡◌, refl,
  ap, arith, ok, append-nil,
}
use fula_archived.Wire.{Wire, length_delimited, keep_unknown, Unknown}
use fula_archived.Wire.Loop.{write_nested}
use fula_archived.Wire.Chain.{
  Chain, done, Chain-append, Chain-one, Chain-unless, Chain-unknown, Reads-field, Reads-nested,
  IsStrange, read_message-Chain,
}
use fula_archived.FileSchema.Meta
use fula_archived.FileSchema.Meta.{Meta}
use fula_archived.FileSchema.Meta.RoundTrip.{eq-nil_of_is_empty}
use fula_archived.FileSchema.File.{
  File, create, keep, read_case, read, write, to_binary, from_binary,
}

module _ (w : Wire) where
  abbrev pub IsValidMeta : Option Meta → Type 0
  IsValidMeta none = Unit {0}
  IsValidMeta (some m) = Meta.RoundTrip.IsValid w m × (length (Meta.write w true m) < 2 ^ 32)

  pub record IsValid (m : File) : Type 0 where
    pub meta : IsValidMeta m.meta
    pub content_path : w.is_text m.content_path ≡ true
    pub unknown : All (IsStrange w 2) m.unknown

  abbrev partial : Option Meta → Text → List Unknown → File
  partial a b f = record { meta = a; content_path = b; unknown = f }

  meta_field :
      (o : Option Meta)
      → IsValidMeta o
      → Chain w
          (read_case w keep_unknown)
          create
          (elim o [ none ↦ [] | some x ↦ write_nested w 1 (Meta.write w true x) ])
          (partial o [] [])
  unfolding read_case
  meta_field none h = done
  meta_field (some m) (h, small) = Chain-one w _ (
      Reads-nested w _ create 1 (λ len r. Meta.read w keep_unknown len none r)
        (λ a. partial (some a) [] []) m (Meta.write w true m) (omega arith) small (λ bs. refl)
        (λ rest. Meta.RoundTrip.meta_read-write w m rest h))

  read-write :
      (m : File) (rest : Bytes)
      → IsValid m
      → read w keep_unknown (length (write w true m)) none (write w true m ++ rest) ≡ ok (m, rest)
  unfolding read read_case write
  read-write m rest v = read_message-Chain w (read_case w keep_unknown) rest (
      Chain-append w _ _ (meta_field m.meta v.meta) (
        Chain-append w _ _
          (Chain-unless w _ (is_empty m.content_path)
            (λ h. ap (λ b. partial m.meta b []) (eq-nil_of_is_empty m.content_path h))
            (λ _.
              Reads-field w _ _ 2 length_delimited w.read_string (λ b. partial m.meta b [])
                m.content_path (w.string m.content_path) (omega arith) (λ bs. refl)
                (λ rest. w.string_back m.content_path rest v.content_path)))
          (Chain-unknown w _ 2 "File" keep (partial m.meta m.content_path)
            (λ n t k bs h. ground arith) (λ u us. refl) m.unknown [] v.unknown)))

  -- The record that the box stores for a file is read back as it was stored: its meta, if it has
  -- one, and the path of its content.
  pub file_from_binary-to_binary : (m : File) → IsValid m → from_binary w (to_binary w m) ≡ ok m
  unfolding from_binary to_binary
  file_from_binary-to_binary m v =
      let back : read w keep_unknown (length (write w true m)) none (write w true m) ≡ ok (m, []) =
        rw append-nil at (read-write m [] v) in
      rw back
