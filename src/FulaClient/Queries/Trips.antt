-- ===== src/FulaClient/Queries/Trips.antt =====
-- index.ts of libraries/fula-client: queries that the box's methods of apps/box/src/graph/index.ts answer.
use fula_archived.Prelude.{
  ℕ, suc, ◌-◌, Bool, false, Option, none, some, List, [], ◌∷◌, Text, Bytes, ◌≡◌, refl, ap, ◌∙◌,
  arith, ok,
}
use fula_archived.Wire.{Wire}
use fula_archived.AsyncLater.Values.{Source}
use fula_archived.FileProtocol.{Connection}
use fula_archived.Graph.Engine.{Document, Data, Selected}
use fula_archived.GraphProtocol.Json.{Json, object, no_members, from_json}
use fula_archived.GraphProtocol.Json.RoundTrip.{IsProper, to_json-from_json}
use fula_archived.GraphProtocol.JsonForm.{
  JsonForm, ResultJson, data_json, error_json, text_or_empty,
}
use fula_archived.GraphProtocol.Messages.{Answer}
use fula_archived.GraphProtocol.Messages.RoundTrip.{IsValidRequest, IsValidAnswer}
use fula_archived.GraphProtocol.Queries.{
  GraphNode, graph_protocol_name, graph_connect, set_query_resolution_method,
  set_subscription_query_resolution_method, written_answers, submit_query_lem,
}
use fula_archived.BoxGraph.Methods.{
  GraphQl, data_members, selected_json, run_request, answer_bytes, resolve_query,
  resolve_subscription,
}
use fula_archived.FulaClient.{FulaConnection}
use fula_archived.FulaClient.Streams.{Libp2p, get_stream_connection}
use fula_archived.FulaClient.Running.{open_stream}
use fula_archived.FulaClient.Queries.{or_null, or_none, request_for, graphql}

module _ (w : Wire) (f : JsonForm) (g : GraphQl) where
  abbrev pub IsProperResult : ResultJson → Type 0
  IsProperResult (data_json j) = IsProper j
  IsProperResult (error_json j) = IsProper j

  result_back : (r : ResultJson) → IsProperResult r → f.result_to_json (f.result_from_json r) ≡ ok r
  result_back (data_json j) v =
      rw (f.data_read j) (f.data_written (from_json j) j (to_json-from_json j v))
  result_back (error_json j) v =
      rw (f.error_read j) (f.error_written (from_json j) j (to_json-from_json j v))

  fields_back :
      (q : Text) (j : Json) (o : Option Text) (b : Bool)
      → IsProper j
      → f.request_to_json (f.request_from_json q j o b) ≡ ok (q, some j, text_or_empty o)
  fields_back q j o b v =
      f.request_written (f.request_from_json q j o b) (from_json j) j
        (ap (λ r. r.variable_values) (f.request_read q j o b)) (to_json-from_json j v)
      ∙ ap (λ r. ok (r.query, some j, r.operation_name)) (f.request_read q j o b)

  resolved :
      (q : Text) (j : Json) (o : Option Text) (b : Bool) (d : Document) (s : Selected g.Fault)
      (r : ResultJson)
      → IsProper j
      → run_request w f g (q, some j, text_or_empty o) ≡ ok (d, s)
      → selected_json g s ≡ ok r
      → resolve_query w f g (f.request_from_json q j o b)
        ≡ ok (
            some (record { items = written_answers w (f.result_from_json r ∷ []); failure = none }))
  unfolding resolve_query answer_bytes
  resolved q j o b d s r v run e = rw (fields_back q j o b v, run, e) refl

  -- What `next` is given for selected data.
  abbrev pub data_result : Data → ResultJson
  data_result x = data_json (object (data_members no_members x))

  abbrev data_answers : List Data → List Answer
  data_answers [] = []
  data_answers (x ∷ xs) = f.result_from_json (data_result x) ∷ data_answers xs

  abbrev pub data_results : List Data → List ResultJson
  data_results [] = []
  data_results (x ∷ xs) = data_result x ∷ data_results xs

  module _ (true_number : ℕ → Bool) (p : Libp2p) (c : Option FulaConnection) (n : GraphNode w)
      (empty_response : Source Bytes) where
    -- All streams lead to the box, with the method that answers queries, or the one for subscriptions.
    abbrev pub query_box : p.Stream → Connection
    query_box st =
        graph_connect w (set_query_resolution_method w (resolve_query w f g) n) empty_response

    abbrev pub subscription_box : List Data → p.Stream → Connection
    subscription_box changes st =
        graph_connect w
          (set_subscription_query_resolution_method w (resolve_subscription w f g changes) n)
          empty_response

    opened :
        (side : p.Stream → Connection) (st : p.Stream) (k : ℕ)
        → get_stream_connection p c graph_protocol_name ≡ ok st
        → open_stream p side c graph_protocol_name k ≡ (ok (side st), suc k)
    unfolding open_stream
    opened side st k e = rw e refl

    closed : (k : ℕ) → suc k - 1 ≡ k
    closed k = omega arith

    -- A client sends a query with `graphql` to a box. If there is a stream to the box, the box's GraphQL
    -- engine comes to a result, data or an error, that can be read as JSON, the query and the result
    -- fit the wire format, and no object in them has a key twice or the key `__proto__`, then the client gets exactly the JSON
    -- of what `executeAndSelect` returned on the box, and the stream is closed.
    pub graphql-resolve_query :
        (q : Text) (vs : Option Json) (o : Option Text) (d : Document) (s : Selected g.Fault)
        (r : ResultJson) (st : p.Stream) (k : ℕ)
        → get_stream_connection p c graph_protocol_name ≡ ok st
        → run_request w f g (q, some (or_null true_number vs), text_or_empty (or_none o))
          ≡ ok (d, s)
        → selected_json g s ≡ ok r
        → IsProper (or_null true_number vs)
        → IsProperResult r
        → IsValidRequest w (request_for f true_number q vs o false)
        → IsValidAnswer w (f.result_from_json r)
        → graphql f w true_number p query_box c q vs o k ≡ (ok r, k)
    unfolding graphql
    graphql-resolve_query q vs o d s r st k o_st run e proper proper_result valid valid_answer =
        rw
          (
            opened query_box st k o_st,
            submit_query_lem w n empty_response (request_for f true_number q vs o false)
                (f.result_from_json r) [] (resolve_query w f g) none valid valid_answer
                (ap (λ m. m.subscribe) (f.request_read q _ _ false))
                (resolved q (or_null true_number vs) (or_none o) false d s r proper run e),
            closed k,
            result_back r proper_result,
          )
          refl
