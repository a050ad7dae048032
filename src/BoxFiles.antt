-- ===== src/BoxFiles.antt =====
-- apps/box/src/file/index.ts: the box keeps files in IPFS.
pub mod Keeping
use fula_archived.Prelude.{
  ℕ, suc, ◌≤◌, ◌<◌, Option, none, some, List, [], ◌∷◌, map, length, concat, Text, Bytes, ◌≡◌,
  Result, ok, err, stuck,
}
use fula_archived.Wire.{Wire}
use fula_archived.AsyncLater.Values.{Source}
use fula_archived.AsyncLater.Later.{Later}
use fula_archived.AsyncLater.Later.Delivery.{collect}
use fula_archived.FileSchema.Meta.{Meta}
use fula_archived.FileSchema.Chunk.{Chunk}
use fula_archived.FileSchema.File
use fula_archived.FileSchema.File.{File}
use fula_archived.FileProtocol.Node.{
  Message, binary, Response, Node, fresh_node, set_meta_retrieval_method,
  set_content_retrieval_method,
}

-- The IPFS node. `add` makes a file of chunks, under an id that `toString` writes; `cat` reads a file.
-- A file that was added is read whole, in one chunk if it is short, and other files stay as they are.
pub record Ipfs : Type 1 where
  pub Store : Type 0
  pub add : List Bytes → Store → Option (Text × Store)
  pub cat : Store → Text → Source Bytes
  pub chunk_size : ℕ
  pub added :
      (cs : List Bytes) (s s' : Store) (id : Text)
      → add cs s ≡ some (id, s')
      → ((cat s' id).failure ≡ none) × (concat (cat s' id).items ≡ concat cs)
  pub short :
      (cs : List Bytes) (s s' : Store) (id : Text)
      → add cs s ≡ some (id, s')
      → 0 < length (concat cs)
      → length (concat cs) ≤ chunk_size
      → (cat s' id).items ≡ concat cs ∷ []
  pub kept :
      (cs : List Bytes) (s s' : Store) (id old : Text)
      → add cs s ≡ some (id, s')
      → (cat s old).failure ≡ none
      → 0 < length (concat (cat s old).items)
      → cat s' old ≡ cat s old

module _ (w : Wire) (ipfs : Ipfs) where
  -- `for await (const file of ipfsNode.cat(id)) { ...File.fromBinary(file); return ... }`, with the
  -- `catch` around it: only the first chunk is looked at, and where it throws nothing is returned.
  unfoldable pub first_file : List Bytes → Option File
  first_file [] = none
  first_file (file ∷ rest) = elim (File.from_binary w file) [
    | ok f ↦ some f
    | err e ↦ none
    | stuck ↦ none
  ]

  -- The method given to `setMetaRetrievalMethod`.
  unfoldable pub stored_meta : ipfs.Store → Text → Result (Option Meta)
  unfolding first_file
  stored_meta s id = ok (elim (first_file (ipfs.cat s id).items) [ none ↦ none | some f ↦ f.meta ])

  -- The method given to `setContentRetrievalMethod`; it does not look at `skip` and `limit`.
  unfoldable pub stored_content : ipfs.Store → Chunk → Response
  unfolding first_file
  stored_content s c = ok (elim (first_file (ipfs.cat s c.id).items) [
    | none ↦ none
    | some f ↦
        (let content = ipfs.cat s f.content_path in
          some (record { items = map binary content.items; failure = content.failure }))
  ])

  -- The subscriber of `incomingFiles`: the id that it declares and the store then, or none where
  -- it throws, which it logs.
  unfoldable pub store_file : ipfs.Store → Meta → Later Bytes → Option (Text × ipfs.Store)
  store_file s meta content = elim (collect (suc (length content.queue)) content) [
    | ok chunks ↦ elim (ipfs.add chunks s) [
      | none ↦ none
      | some (file, s') ↦
          ipfs.add
            (File.to_binary w (record { meta = some meta; content_path = file; unknown = [] }) ∷ [])
            s'
    ]
    | err e ↦ none
    | stuck ↦ none
  ]

  -- `declareId(id)`, or nothing where the subscriber has thrown.
  abbrev pub declared : Option (Text × ipfs.Store) → Option Text
  declared none = none
  declared (some (id, s')) = some id

  -- `registerFile`: the box's methods and its subscriber, while IPFS has the store `s`.
  unfoldable pub register_file : ipfs.Store → Node
  unfolding set_meta_retrieval_method set_content_retrieval_method
  register_file s = set_content_retrieval_method (stored_content s) (
      set_meta_retrieval_method w (stored_meta s)
        (fresh_node (λ m content. declared (store_file s m content))))
