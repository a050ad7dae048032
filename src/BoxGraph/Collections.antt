-- ===== src/BoxGraph/Collections.antt =====
-- apps/box/src/graph/index.ts: `loadDB`, `sendDBName` and `handleDBNameReceived`. A message on the
-- channel passes as the value that it is the JSON of.
pub mod Opened
pub mod Told
use fula_archived.Prelude.{
  ℕ, Bool, true, false, Option, none, some, List, [], ◌∷◌, ◌++◌, length, map, Text, text_eq, Result,
  ok, err, ◌>>=◌, call, if◌then◌else◌, ◌&&◌, ◌||◌, ◌==◌, leb,
}

-- `{ROI: 'req'}`, `{list, ROI: 'res'}` and `{list}`.
pub data OpenDbs : Type 0 where
  request : OpenDbs
  response : List Text → OpenDbs
  announcement : List Text → OpenDbs

-- `dbCollections` in the order of its keys; the names that OrbitDB was asked to open, in order; and
-- the messages that were published.
pub record Shared (Db : Type 0) : Type 0 where
  pub collections : List (Text × Db)
  pub asked : List Text
  pub published : List OpenDbs

-- The text of an object that has no text of its own, `[object Object]`.
abbrev pub object_text : Text
object_text = 91 ∷ 111 ∷ 98 ∷ 106 ∷ 101 ∷ 99 ∷ 116 ∷ 32 ∷ 79 ∷ 98 ∷ 106 ∷ 101 ∷ 99 ∷ 116 ∷ 93 ∷ []

-- The text of an array of such objects, whose texts are joined by commas.
abbrev pub array_text : {A : Type 0} → List A → Text
array_text [] = []
array_text (x ∷ []) = object_text
array_text (x ∷ y ∷ ys) = object_text ++ 44 ∷ array_text (y ∷ ys)

-- May the text of a number start with this code unit? A digit, a sign, a point, the `I` of `Infinity` or
-- white space, with all code units behind those of ASCII.
abbrev pub starts_number : ℕ → Bool
starts_number c =
    (leb 48 c && leb c 57)
    || (c == 43)
    || (c == 45)
    || (c == 46)
    || (c == 73)
    || leb c 32
    || leb 128 c

-- Is a text above 0 as a number? The empty text is 0, and a text that starts like no number is none, which is
-- above nothing; `literal` tells it of the others.
abbrev pub text_above_zero : (Text → Bool) → Text → Bool
text_above_zero literal [] = false
text_above_zero literal (c ∷ t) = if starts_number c then literal (c ∷ t) else false

-- `await ipfsNode.swarm.peers() > 0` compares an array of objects with a number: the language takes the
-- array's text as a number.
unfoldable pub array_above_zero : {A : Type 0} → (Text → Bool) → List A → Bool
array_above_zero literal xs = text_above_zero literal (array_text xs)

module _ {Db : Type 0} where
  unfoldable pub find : Text → List (Text × Db) → Option Db
  find name [] = none
  find name ((k, db) ∷ r) = let rest = find name r in if text_eq k name then some db else rest

  -- `dbCollections[dbName] = db`
  unfoldable pub put : Text → Db → List (Text × Db) → List (Text × Db)
  put name db [] = (name, db) ∷ []
  put name db ((k, old) ∷ r) =
      let rest = put name db r in if text_eq k name then (k, db) ∷ r else (k, old) ∷ rest

  abbrev pub names : List (Text × Db) → List Text
  names [] = []
  names ((k, db) ∷ r) = k ∷ names r

  -- `sendDBName(message)`
  abbrev pub send_db_name : OpenDbs → Shared Db → Shared Db
  send_db_name m s = record s { published = s.published ++ m ∷ [] }

  -- `orbitDBNode.docs(dbName, options)` and `db.load()`, by the name and the number of the call.
  module _ (docs : Text → ℕ → Option Db) where
    unfoldable pub open_db : Text → Shared Db → Result (Db × Shared Db)
    open_db name s = do
      db ← call (docs name (length s.asked))
      ok (db, record s { asked = s.asked ++ name ∷ [] })

    module _ {Peer : Type 0} (peers : List Peer) (literal : Text → Bool) where
      -- `loadDB` behind its test: between the two other calls of it may run. The wait for a replica
      -- ends by itself and changes nothing.
      unfoldable pub finish_load : Text → Shared Db → Result (Db × Shared Db)
      unfolding open_db put array_above_zero
      finish_load name s = do
        (db, s1) ← open_db name s
        let s2 = record s1 { collections = put name db s1.collections }
        ok (
          db,
          (if array_above_zero literal peers
              then send_db_name (announcement (names s2.collections)) s2
              else s2),
        )

      unfoldable pub load_db : Text → Shared Db → Result (Db × Shared Db)
      unfolding finish_load find
      load_db name s = elim (find name s.collections) [
        | some db ↦ ok (db, s)
        | none ↦ finish_load name s
      ]

      unfoldable pub load_all : List Text → Shared Db → Result (Shared Db)
      unfolding load_db
      load_all [] s = ok s
      load_all (n ∷ ns) s = do (db, s1) ← load_db n s; load_all ns s1

    -- The loop over `data.list`: what is opened is not put into `dbCollections`.
    unfoldable pub open_listed : List Text → Shared Db → Result (Shared Db)
    unfolding open_db find
    open_listed [] s = ok s
    open_listed (n ∷ ns) s =
        let opened = (do (db, s1) ← open_db n s; open_listed ns s1) in
        let skipped = open_listed ns s in
        elim (find n s.collections) [ some db ↦ skipped | none ↦ opened ]

    -- `handleDBNameReceived`, with whether the message is on the channel.
    unfoldable pub handle_db_name_received : Bool → OpenDbs → Shared Db → Result (Shared Db)
    unfolding open_listed
    handle_db_name_received false m s = ok s
    handle_db_name_received true request s = ok (send_db_name (response (names s.collections)) s)
    handle_db_name_received true (response ns) s = open_listed ns s
    handle_db_name_received true (announcement ns) s = open_listed ns s
