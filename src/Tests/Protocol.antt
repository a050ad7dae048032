-- ===== src/Tests/Protocol.antt =====
-- Whole exchanges of the file protocol with a box, and what the box keeps.
use fula_archived.Prelude.{
  String, none, some, List, [], ◌∷◌, ◌++◌, map, concat, Text, Bytes, pos, ◌≡◌, refl, arith, ok, err,
  runtime, index_not_found, subst,
}
use fula_archived.Wire.Plain.{plain}
use fula_archived.Wire.Loop.{write_unknown, write_nested}
use fula_archived.AsyncLater.Values.{Source}
use fula_archived.AsyncLater.Convert.{next_value, finish, async_iterable_from_observable}
use fula_archived.FileSchema.Meta
use fula_archived.FileSchema.Meta.{Meta}
use fula_archived.FileSchema.File
use fula_archived.FileSchema.Request
use fula_archived.FileSchema.Request.{meta, receive, send}
use fula_archived.FileProtocol.Client.{LocalFile, meta_of, request_of, stream_file}
use fula_archived.FileProtocol.Node.{binary, Node, fresh_node, handler}
use fula_archived.FileProtocol.Dispatch.{handler_lem, content_collected}
use fula_archived.FileProtocol.Session.{storing, stream_file_lem}
use fula_archived.BoxFiles.{stored_meta, stored_content, store_file}
use fula_archived.BoxFiles.Keeping.{stored_file_comes_back, entry_of, FitsChunk}
use fula_archived.Tests.StandIns.{utf8, ipfs}

abbrev node : Node
node = fresh_node (λ m content. none)

abbrev pub no_bytes : String → Bytes
no_bytes s = []

-- An id made of a file's name and its content.
abbrev id_of : Meta → Bytes → Text
id_of m content = m.name ++ content

abbrev pub note : LocalFile
note = record { name = 97 ∷ []; type = 98 ∷ []; last_modified = pos 1; content = 5 ∷ 6 ∷ 7 ∷ [] }

note-IsSendable : Request.RoundTrip.IsValid plain (request_of (send (meta_of note)))
unfolding plain Meta.write write_unknown
note-IsSendable = record {
  type = (
    record {
      name = refl;
      type = refl;
      size = omega arith;
      last_modified = omega arith;
      unknown = tt;
    },
    omega arith,
  );
  unknown = tt;
}

handler_lem_example : handler plain utf8 node [] ≡ err (index_not_found 0)
handler_lem_example = handler_lem plain utf8 node []

stream_file_lem_example :
    (stream_file plain utf8
        (storing plain utf8 no_bytes id_of node)
        (record { items = (5 ∷ []) ∷ (6 ∷ []) ∷ []; failure = none })
        (meta_of note)
      ≡ ok (97 ∷ 5 ∷ 6 ∷ []))
    × (stream_file plain utf8
          (storing plain utf8 no_bytes id_of node)
          (record { items = (5 ∷ []) ∷ (6 ∷ []) ∷ []; failure = some runtime })
          (meta_of note)
        ≡ err runtime)
stream_file_lem_example =
    stream_file_lem plain utf8 no_bytes id_of node (meta_of note) ((5 ∷ []) ∷ (6 ∷ []) ∷ []) runtime
      note-IsSendable refl

pub note_meta-IsValid : Meta.RoundTrip.IsValid plain (meta_of note)
unfolding plain
note_meta-IsValid = record {
  name = refl;
  type = refl;
  size = omega arith;
  last_modified = omega arith;
  unknown = tt;
}

abbrev box_meta : Meta
box_meta = meta_of note

first_path :
    (path : Text) (s1 : List Bytes)
    → ipfs.add ((5 ∷ []) ∷ (6 ∷ 7 ∷ []) ∷ []) [] ≡ some (path, s1)
    → 0 ∷ [] ≡ path
first_path path s1 e = cc

stored_note :
    store_file plain ipfs [] box_meta (
      async_iterable_from_observable (map next_value ((5 ∷ []) ∷ (6 ∷ 7 ∷ []) ∷ []) ++ finish ∷ []))
    ≡ some (
      1 ∷ [],
      (5 ∷ 6 ∷ 7 ∷ []) ∷ (File.to_binary plain (entry_of plain ipfs box_meta (0 ∷ [])) ++ []) ∷ [],
    )
unfolding store_file
stored_note = rw (content_collected ((5 ∷ []) ∷ (6 ∷ 7 ∷ []) ∷ []), store_file) refl

pub note_entry-FitsChunk : FitsChunk plain ipfs (entry_of plain ipfs box_meta (0 ∷ []))
unfolding plain Meta.write write_unknown File.to_binary File.write write_nested
note_entry-FitsChunk = record {
  valid = record { meta = (note_meta-IsValid, omega arith); content_path = refl; unknown = tt };
  not_empty = omega arith;
  in_chunk = omega arith;
}

stored_file_comes_back_example :
    (stored_meta plain ipfs
        ((5 ∷ 6 ∷ 7 ∷ [])
          ∷ (File.to_binary plain (entry_of plain ipfs box_meta (0 ∷ [])) ++ [])
          ∷ [])
        (1 ∷ [])
      ≡ ok (some box_meta))
    × (content : Source Bytes) × (stored_content plain ipfs
          ((5 ∷ 6 ∷ 7 ∷ [])
            ∷ (File.to_binary plain (entry_of plain ipfs box_meta (0 ∷ [])) ++ [])
            ∷ [])
          (record { id = 1 ∷ []; skip = some 1; limit = none; unknown = [] })
        ≡ ok (some (record { items = map binary content.items; failure = none })))
    × (concat content.items ≡ 5 ∷ 6 ∷ 7 ∷ [])
stored_file_comes_back_example =
    stored_file_comes_back plain ipfs [] _ box_meta ((5 ∷ []) ∷ (6 ∷ 7 ∷ []) ∷ []) (1 ∷ []) (some 1)
      none stored_note (omega arith)
      (λ path s1 e.
        subst (λ p. FitsChunk plain ipfs (entry_of plain ipfs box_meta p)) (first_path path s1 e)
          note_entry-FitsChunk)
