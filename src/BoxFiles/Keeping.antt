-- ===== src/BoxFiles/Keeping.antt =====
-- apps/box/src/file/index.ts: what was stored comes back.
use fula_archived.Prelude.{
  ℕ, suc, ◌≤◌, ◌<◌, Option, none, some, List, [], ◌∷◌, ◌++◌, map, length, concat, Text, Bytes, ◌≡◌,
  refl, ap, ◌∙◌, ok, append-nil, Option-cases, inl, inr,
}
use mathlib.Core.Option.{none-ne-some}
use fula_archived.Wire.{Wire}
use fula_archived.AsyncLater.Values.{Source}
use fula_archived.AsyncLater.Later.{Later}
use fula_archived.AsyncLater.Later.Delivery.{collect}
use fula_archived.AsyncLater.Convert.{next_value, finish, async_iterable_from_observable}
use fula_archived.FileSchema.Meta.{Meta}
use fula_archived.FileSchema.Chunk.{Chunk}
use fula_archived.FileSchema.File
use fula_archived.FileSchema.File.{File}
use fula_archived.FileSchema.File.RoundTrip.{file_from_binary-to_binary}
use fula_archived.FileProtocol.Node.{binary}
use fula_archived.FileProtocol.Dispatch.{content_collected}
use fula_archived.BoxFiles.{Ipfs, first_file, stored_meta, stored_content, store_file}

module _ (w : Wire) (ipfs : Ipfs) where
  abbrev pub entry_of : Meta → Text → File
  entry_of meta path = record { meta = some meta; content_path = path; unknown = [] }

  -- An entry that can be written, and that IPFS keeps in one chunk.
  pub record FitsChunk (f : File) : Type 0 where
    pub valid : File.RoundTrip.IsValid w f
    pub not_empty : 0 < length (File.to_binary w f)
    pub in_chunk : length (File.to_binary w f) ≤ ipfs.chunk_size

  -- The two additions of `store_file`.
  stored_twice :
      (s s2 : ipfs.Store) (meta : Meta) (content : Later Bytes) (chunks : List Bytes) (id : Text)
      → collect (suc (length content.queue)) content ≡ ok chunks
      → store_file w ipfs s meta content ≡ some (id, s2)
      → (file : Text) × (s1 : ipfs.Store) × (ipfs.add chunks s ≡ some (file, s1))
        × (ipfs.add (File.to_binary w (entry_of meta file) ∷ []) s1 ≡ some (id, s2))
  unfolding store_file
  stored_twice s s2 meta content chunks id h e = elim (Option-cases (ipfs.add chunks s)) [
    | inl none_added ↦ absurd (none-ne-some _ (rw (h, none_added, store_file) at e))
    | inr ((file, s1), first) ↦ (file, s1, first, rw (h, first, store_file) at e)
  ]

  -- What is found under an id whose first chunk is the entry.
  found_meta :
      (s : ipfs.Store) (id : Text) (f : File)
      → File.RoundTrip.IsValid w f
      → (ipfs.cat s id).items ≡ File.to_binary w f ∷ []
      → stored_meta w ipfs s id ≡ ok f.meta
  unfolding stored_meta first_file
  found_meta s id f v e = rw (e, file_from_binary-to_binary w f v) refl

  found_content :
      (s : ipfs.Store) (c : Chunk) (f : File)
      → File.RoundTrip.IsValid w f
      → (ipfs.cat s c.id).items ≡ File.to_binary w f ∷ []
      → stored_content w ipfs s c
        ≡ ok (
            some (record {
              items = map binary (ipfs.cat s f.content_path).items;
              failure = (ipfs.cat s f.content_path).failure;
            }))
  unfolding stored_content first_file
  found_content s c f v e = rw (e, file_from_binary-to_binary w f v) refl

  -- A box stores a file that is sent to it, and declares an id. If the entry that it writes for the file
  -- can be written and is no longer than a chunk of IPFS, and the file is not empty, then for
  -- this id it finds exactly the meta that it was sent, and a content that is read without a failure and
  -- is exactly the bytes that it was sent, whatever `skip` and `limit` say.
  pub stored_file_comes_back :
      (s s2 : ipfs.Store) (meta : Meta) (chunks : List Bytes) (id : Text) (skip limit : Option ℕ)
      → store_file w ipfs s meta
          (async_iterable_from_observable (map next_value chunks ++ finish ∷ []))
        ≡ some (id, s2)
      → 0 < length (concat chunks)
      → ((path : Text) (s1 : ipfs.Store)
          → ipfs.add chunks s ≡ some (path, s1)
          → FitsChunk (entry_of meta path))
      → (stored_meta w ipfs s2 id ≡ ok (some meta))
        × (content : Source Bytes) × (stored_content w ipfs s2
              (record { id = id; skip = skip; limit = limit; unknown = [] })
            ≡ ok (some (record { items = map binary content.items; failure = none })))
        × (concat content.items ≡ concat chunks)
  stored_file_comes_back s s2 meta chunks id skip limit e h fits =
      let (file, s1, first, second) =
        stored_twice s s2 meta _ chunks id (content_collected chunks) e in
      let v = fits file s1 first in
      let (fine, whole) = ipfs.added chunks s s1 file first in
      let same = ipfs.kept _ s1 s2 id file second fine (rw whole h) in
      let (none_fails, entry) = ipfs.added _ s1 s2 id second in
      let one_chunk : (ipfs.cat s2 id).items ≡ File.to_binary w (entry_of meta file) ∷ [] =
        ipfs.short _ s1 s2 id second
          (rw (append-nil (File.to_binary w (entry_of meta file))) v.not_empty)
          (rw (append-nil (File.to_binary w (entry_of meta file))) v.in_chunk)
        ∙ ap (λ x. x ∷ []) (append-nil (File.to_binary w (entry_of meta file))) in
      (
        found_meta s2 id (entry_of meta file) v.valid one_chunk,
        ipfs.cat s1 file,
        found_content s2 _ (entry_of meta file) v.valid one_chunk ∙ rw (same, fine) refl,
        whole,
      )
