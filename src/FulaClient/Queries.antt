-- ===== src/FulaClient/Queries.antt =====
-- index.ts of libraries/fula-client: `graphql` and `graphqlSubscribe`.
pub mod Trips
use fula_archived.Prelude.{
  ℕ, Bool, true, false, Option, none, some, List, [], ◌∷◌, is_empty, not, Text, Result, ok, err,
  stuck, runtime, Error, if◌then◌else◌,
}
use fula_archived.Wire.{Wire}
use fula_archived.AsyncLater.Values.{Source}
use fula_archived.FileProtocol.{Connection}
use fula_archived.GraphProtocol.Json.{Json, null, number, string, boolean, array, object}
use fula_archived.GraphProtocol.JsonForm.{JsonForm, ResultJson}
use fula_archived.GraphProtocol.Messages.{Answer, Request}
use fula_archived.GraphProtocol.Queries.{
  graph_protocol_name, submit_query, submit_subscription_query,
}
use fula_archived.FulaClient.{FulaConnection}
use fula_archived.FulaClient.Streams.{Libp2p}
use fula_archived.FulaClient.Running.{Run, ◌>>=◌, ◌>>◌, give, close_stream, open_stream}

-- JavaScript's truth of a value; that of a number's bits is an argument.
abbrev pub is_true_json : (ℕ → Bool) → Json → Bool
is_true_json true_number null = false
is_true_json true_number (number n) = true_number n
is_true_json true_number (string s) = not (is_empty s)
is_true_json true_number (boolean b) = b
is_true_json true_number (array items) = true
is_true_json true_number (object ms) = true

-- `_variableValues ? _variableValues : null` and `_operationName ? _operationName : null`
abbrev pub or_null : (ℕ → Bool) → Option Json → Json
or_null true_number none = null
or_null true_number (some j) = if is_true_json true_number j then j else null

abbrev pub or_none : Option Text → Option Text
or_none none = none
or_none (some s) = if is_empty s then none else some s

module _ (f : JsonForm) where
  -- The request of a query; `subscribe` is left out of one that is no subscription.
  abbrev pub request_for : (ℕ → Bool) → Text → Option Json → Option Text → Bool → Request
  request_for true_number query variables operation subscribe =
      f.request_from_json query (or_null true_number variables) (or_none operation) subscribe

  -- `Result.toJson(<Result>res)`, which throws where there is no result.
  abbrev pub answer_json : Option Answer → Result ResultJson
  answer_json none = err runtime
  answer_json (some a) = f.result_to_json a

  -- A result that is yielded, before those that follow it.
  abbrev pub yield_json : Result ResultJson → Source ResultJson → Source ResultJson
  yield_json (ok j) rest = record rest { items = j ∷ rest.items }
  yield_json (err e) rest = record { items = []; failure = some e }
  yield_json stuck rest = record { items = []; failure = none }

  -- `for await (const newRes of res) yield Result.toJson(<Result>newRes)`
  unfoldable pub each_json : List Answer → Option Error → Source ResultJson
  each_json [] failure = record { items = []; failure = failure }
  each_json (a ∷ xs) failure = yield_json (f.result_to_json a) (each_json xs failure)

  module _ (w : Wire) (true_number : ℕ → Bool) (p : Libp2p) (side : p.Stream → Connection)
      (c : Option FulaConnection) where
    unfoldable pub graphql : Text → Option Json → Option Text → Run ResultJson
    unfolding open_stream
    graphql query variables operation = do
      s ← open_stream p side c graph_protocol_name
      res ← give (submit_query w s (request_for true_number query variables operation false))
      close_stream
      give (answer_json res)

    -- `graphqlSubscribe`, read to its end: it does not close its stream.
    unfoldable pub graphql_subscribe : Text → Option Json → Option Text → Run (Source ResultJson)
    unfolding open_stream each_json
    graphql_subscribe query variables operation = do
      s ← open_stream p side c graph_protocol_name
      res ←
          give
            (submit_subscription_query w s (request_for true_number query variables operation true))
      give (ok (each_json res.items res.failure))
