-- ===== src/Tests/Graphs.antt =====
-- Queries and subscriptions of a client, on a box with a small engine.
use fula_archived.Prelude.{
  ℕ, true, false, none, some, [], ◌∷◌, Text, ◌≡◌, refl, arith, Result, ok, ◌>>=◌,
}
use fula_archived.Wire.Plain.{plain}
use fula_archived.Wire.Loop.{write_unknown, write_nested}
use fula_archived.Graph.Engine.{
  Document, Entry, Data, data_of, executed, execute_and_select, select_data, select_entries,
  select_entry, select_members, get_fields, member_at,
}
use fula_archived.GraphProtocol.Json.{
  Json, null, number, boolean, array, object, no_items, item, no_members, member, put_member,
  put_field, to_json, from_json, Value,
}
use fula_archived.GraphProtocol.Json.RoundTrip.{IsProper}
use fula_archived.GraphProtocol.JsonForm.{
  JsonForm, ResultJson, data_json, error_json, text_or_empty, value_answer, fault_answer,
}
use fula_archived.GraphProtocol.Binary.{write_value, write_kind, write_fields, write_values}
use fula_archived.GraphProtocol.Binary.Valid
use fula_archived.GraphProtocol.Messages.{data_value, error_value, no_result}
use fula_archived.GraphProtocol.Messages.RoundTrip.{IsValidRequest, IsValidAnswer}
use fula_archived.GraphProtocol.Queries.{unsupported_node, graph_protocol_name}
use fula_archived.BoxGraph.Methods.{GraphQl, run_request, selected_json, data_members}
use fula_archived.FulaClient.Streams.{get_stream_connection, get_connection}
use fula_archived.FulaClient.{new_connection, start}
use fula_archived.FulaClient.Queries.{graphql, request_for}
use fula_archived.FulaClient.Queries.Trips.{query_box, graphql-resolve_query}
use fula_archived.Tests.Client.{connection}
use fula_archived.Tests.Messages.{no_response}
use fula_archived.Tests.StandIns.{libp2p}

abbrev json_of : Value → (Json → ResultJson) → Result ResultJson
json_of v f = do j ← to_json v; ok (f j)

abbrev json_form : JsonForm
json_form = record {
  request_from_json = λ q v o b. record {
    query = q;
    variable_values = some (from_json v);
    operation_name = text_or_empty o;
    subscribe = b;
    unknown = [];
  };
  request_to_json = λ r. elim r.variable_values [
    | none ↦ ok (r.query, none, r.operation_name)
    | some v ↦ (do j ← to_json v; ok (r.query, some j, r.operation_name))
  ];
  result_from_json = λ r. elim r [
    | data_json j ↦ value_answer (from_json j)
    | error_json j ↦ fault_answer (from_json j)
  ];
  result_to_json = λ a. elim a.data_or_error [
    | data_value v ↦ json_of v data_json
    | error_value v ↦ json_of v error_json
    | no_result ↦ ok (data_json null)
  ];
  request_read = λ q v o b. refl;
  request_written = λ r v j e f. rw (e, f) refl;
  data_read = λ j. refl;
  error_read = λ j. refl;
  data_written = λ v j e. rw e refl;
  error_written = λ v j e. rw e refl;
}

abbrev key : Text
key = 97 ∷ []

abbrev read : Data
read =
    (key, Entry.document (member key (boolean true) (member (98 ∷ []) null no_members)) ∷ []) ∷ []

-- The selection names one member of a document.
abbrev engine : GraphQl
engine = record {
  Fault = ℕ;
  parse = λ q. some (record { name = key; selections = some (key ∷ []) } ∷ []);
  execute = λ d vs o. ok (executed read);
  error_as_json = λ e. some (number e);
}

abbrev query : Document
query = record { name = key; selections = some (key ∷ []) } ∷ []

abbrev selected : Data
selected = (key, Entry.document (member key (boolean true) no_members) ∷ []) ∷ []

abbrev answer : ResultJson
answer = data_json (
    object (
      member key (array (item (object (member key (boolean true) no_members)) no_items))
        no_members))

query-runs : run_request plain json_form engine (key, some null, []) ≡ ok (query, data_of selected)
unfolding run_request execute_and_select select_data select_entries select_entry select_members
    get_fields member_at put_member
query-runs = refl

answer-comes : selected_json engine (data_of selected) ≡ ok answer
unfolding selected_json data_members put_member
answer-comes = refl

asked-IsValid : IsValidRequest plain (request_for json_form (λ n. true) key none none false)
unfolding plain from_json put_field Valid.IsValid Valid.IsValidKind Valid.AreValidFields
    Valid.AreValid write_value write_kind write_fields write_values write_unknown write_nested
asked-IsValid = record {
  query = refl;
  variable_values = ((omega arith, tt), omega arith);
  operation_name = refl;
  unknown = tt;
}

answer-IsValid : IsValidAnswer plain (json_form.result_from_json answer)
unfolding plain from_json put_field Valid.IsValid Valid.IsValidKind Valid.AreValidFields
    Valid.AreValid write_value write_kind write_fields write_values write_unknown write_nested
answer-IsValid = record {
  data_or_error = (
    (
      (
        (
          refl,
          (
            (
              (
                (
                  (
                    (refl, (tt, tt), omega arith, omega arith, tt),
                    (refl, refl, tt),
                    tt,
                    omega arith,
                  ),
                  tt,
                ),
                omega arith,
                tt,
              ),
              tt,
              omega arith,
            ),
            tt,
          ),
          omega arith,
          omega arith,
          tt,
        ),
        (refl, refl, tt),
        tt,
        omega arith,
      ),
      tt,
    ),
    omega arith,
  );
  unknown = tt;
}

connection-opens :
    get_stream_connection libp2p connection graph_protocol_name ≡ ok graph_protocol_name
unfolding get_stream_connection get_connection start new_connection
connection-opens = refl

graphql-resolve_query_example :
    graphql json_form plain
      (λ n. true)
      libp2p
      (query_box plain json_form engine
        (λ n. true)
        libp2p
        connection
        (unsupported_node plain)
        no_response)
      connection
      key
      none
      none
      0
    ≡ (ok answer, 0)
unfolding IsProper
graphql-resolve_query_example =
    graphql-resolve_query plain json_form engine (λ n. true) libp2p connection
      (unsupported_node plain) no_response key none none query (data_of selected) answer
      graph_protocol_name 0 connection-opens query-runs answer-comes tt
      (refl, refl, ((refl, refl, tt, tt), tt), tt) asked-IsValid answer-IsValid

-- The collection changes three times: it is emptied, then what is read cannot be selected, then it has the
-- document again.
abbrev emptied : Data
emptied = (key, []) ∷ []

abbrev unselectable : Data
unselectable = (key, Entry.nothing ∷ []) ∷ []

abbrev emptied_answer : ResultJson
emptied_answer = data_json (object (member key (array no_items) no_members))
