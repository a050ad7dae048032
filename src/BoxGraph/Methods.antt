-- ===== src/BoxGraph/Methods.antt =====
-- apps/box/src/graph/index.ts: the methods given to `setQueryResolutionMethod` and
-- `setSubscriptionQueryResolutionMethod`. GraphQL's `parse` and `execute` are an interface; `execute` is
-- looked at for one state of the collections.
use fula_archived.Prelude.{
  ℕ, zero, suc, ◌<◌, true, Option, none, some, List, [], ◌∷◌, ◌++◌, append-nil, append_assoc, map,
  length, Text, Bytes, ◌≡◌, refl, ap, arith, Result, ok, err, stuck, ◌>>=◌, call,
}
use fula_archived.Wire.{Wire}
use fula_archived.AsyncLater.Values.{Source}
use fula_archived.AsyncLater.Later.{
  Later, Poll, value, yielded, thrown, blocked, ended, iterate_later, next, poll,
}
use fula_archived.AsyncLater.Later.Channel.{receive, receive_from}
use fula_archived.AsyncLater.Later.Invariant.{Represents, Represents-iterate_later}
use fula_archived.AsyncLater.Later.Rounds.{Represents-poll}
use fula_archived.AsyncLater.Partition.Splits.{open_with, Represents-push}
use fula_archived.Graph.Engine.{
  Document, Entry, plain, nothing, document, Data, Executed, Selected, error_of, data_of,
  execute_and_select, next_selected, AreSelected, no_change, change_selected, change_throws,
}
use fula_archived.GraphProtocol.Json.{
  Json, null, array, object, Items, no_items, item, Members, no_members, put_member,
}
use fula_archived.GraphProtocol.JsonForm.{JsonForm, ResultJson, data_json, error_json}
use fula_archived.GraphProtocol.Messages.{Request, write_answer}

-- GraphQL, with the box's resolvers. `error_as_json` is what `Value.fromJson` reads an error of GraphQL as; it throws
-- where there is nothing.
pub record GraphQl : Type 1 where
  pub Fault : Type 0
  pub parse : Text → Option Document
  pub execute : Document → Option Json → Text → Result (Executed Fault)
  pub error_as_json : Fault → Option Json

-- The JSON of a result.
abbrev pub entry_json : Entry → Json
entry_json (plain j) = j
entry_json nothing = null
entry_json (document ms) = object ms

abbrev pub entries_json : List Entry → Items
entries_json [] = no_items
entries_json (e ∷ es) = item (entry_json e) (entries_json es)

unfoldable pub data_members : Members → Data → Members
data_members acc [] = acc
data_members acc ((key, es) ∷ rest) =
    data_members (put_member key (array (entries_json es)) acc) rest

unfoldable pub selected_json : (g : GraphQl) → Selected g.Fault → Result ResultJson
unfolding data_members
selected_json g (data_of x) = ok (data_json (object (data_members no_members x)))
selected_json g (error_of e) = do j ← call (g.error_as_json e); ok (error_json j)

module _ {T : Type 0} where
  -- `next`, called with values one after the other.
  unfoldable pub emit_all : List T → Later T → Later T
  emit_all [] s = s
  emit_all (v ∷ vs) s = emit_all vs (next (value v) s)

  -- `for await` over an iterable that is not completed, up to where the loop waits.
  unfoldable pub drain : ℕ → Later T → List T
  drain zero s = []
  drain (suc fuel) s =
      let (s', p) = poll s in
      elim p [
        | yielded v ↦ v ∷ drain fuel s'
        | thrown e ↦ []
        | ended ↦ []
        | blocked ↦ []
        | Poll.stuck ↦ []
      ]

  Represents-emit_all :
      (vs us : List T) (s : Later T)
      → Represents s (open_with us)
      → Represents (emit_all vs s) (open_with (us ++ vs))
  unfolding emit_all
  Represents-emit_all [] us s r = rw append-nil r
  Represents-emit_all (v ∷ vs) us s r =
      simp append_assoc at
        (Represents-emit_all vs (us ++ v ∷ []) (next (value v) s) (Represents-push s us v r))

  drain_open :
      (us : List T) (fuel : ℕ) (s : Later T)
      → Represents s (open_with us)
      → length us < fuel
      → drain fuel s ≡ us
  unfolding drain receive receive_from
  drain_open us zero s r h = absurd (omega arith)
  drain_open [] (suc fuel) s r h = let (_, same) = Represents-poll s _ r in ground (arith, same)
  drain_open (v ∷ us) (suc fuel) s r h =
      let (r', same) = Represents-poll s _ r in
      ground (arith, same, drain_open us fuel (poll s).0 r' (omega arith))

  pub drain-emit_all : (vs : List T) → drain (suc (length vs)) (emit_all vs iterate_later) ≡ vs
  drain-emit_all vs =
      drain_open vs (suc (length vs)) _
        (Represents-emit_all vs [] iterate_later Represents-iterate_later) (omega arith)

module _ (w : Wire) (f : JsonForm) (g : GraphQl) where
  -- What `executeAndSelect` gives for a request.
  unfoldable pub run_request : Text × Option Json × Text → Result (Document × Selected g.Fault)
  unfolding execute_and_select
  run_request (query, variables, operation) = do
    d ← call (g.parse query)
    s ← execute_and_select d (g.execute d variables operation)
    ok (d, s)

  -- `Result.toBinary(Result.fromJson(data))`
  unfoldable pub answer_bytes : Selected g.Fault → Result Bytes
  unfolding selected_json
  answer_bytes s = do j ← selected_json g s; ok (write_answer w true (f.result_from_json j))

  -- The `catch`, which logs and returns nothing.
  abbrev pub caught : Result Bytes → Result (Option (Source Bytes))
  caught (ok b) = ok (some (record { items = b ∷ []; failure = none }))
  caught (err e) = ok none
  caught stuck = stuck

  -- The method that resolves queries. `Request.toJson` is called for the log first.
  unfoldable pub resolve_query : Request → Result (Option (Source Bytes))
  unfolding run_request answer_bytes
  resolve_query r = do
    fields ← f.request_to_json r
    caught (do (d, s) ← run_request fields; answer_bytes s)

  -- The bytes of results, up to one that cannot be written.
  abbrev pub written_until : List (Selected g.Fault) → List Bytes
  written_until [] = []
  written_until (s ∷ ss) = elim (answer_bytes s) [
    | ok b ↦ b ∷ written_until ss
    | err e ↦ []
    | stuck ↦ []
  ]

  -- The selected data, as `{data}`, that `next` is called with, for the data of each change; one that cannot be
  -- selected throws in the resolver's listener.
  unfoldable pub selected_changes : Document → List Data → List Data
  unfolding next_selected
  selected_changes d [] = []
  selected_changes d (x ∷ xs) =
      let rest = selected_changes d xs in
      elim (next_selected true d x) [
        | ok (some y) ↦ y ∷ rest
        | ok none ↦ rest
        | err e ↦ rest
        | stuck ↦ rest
      ]

  pub selected_changes-AreSelected :
      (d : Document) {xs ys : List Data} → AreSelected d xs ys → selected_changes d xs ≡ ys
  unfolding selected_changes
  selected_changes-AreSelected d no_change = refl
  selected_changes-AreSelected d (change_selected {y} e rest) =
      rw (selected_changes, next_selected, e)
        (ap (λ r. y ∷ r) (selected_changes-AreSelected d rest))
  selected_changes-AreSelected d (change_throws e rest) =
      rw (selected_changes, next_selected, e) (selected_changes-AreSelected d rest)

  abbrev pub quiet : Result (List Bytes) → Result (Source Bytes)
  quiet (ok bs) = ok (record { items = bs; failure = none })
  quiet (err e) = ok (record { items = []; failure = none })
  quiet stuck = stuck

  -- The method that answers subscriptions, up to where it waits, while the collection changes and the
  -- resolver reads this data at each change.
  unfoldable pub resolve_subscription : List Data → Request → Result (Source Bytes)
  unfolding run_request answer_bytes selected_changes emit_all drain
  resolve_subscription changes r = do
    fields ← f.request_to_json r
    quiet (do
      (d, s) ← run_request fields
      first ← answer_bytes s
      let later = map data_of (selected_changes d changes)
      ok (first ∷ written_until (drain (suc (length later)) (emit_all later iterate_later))))
