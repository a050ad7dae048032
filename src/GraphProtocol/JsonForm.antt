-- ===== src/GraphProtocol/JsonForm.antt =====
-- What `@protobuf-ts/runtime` makes of the messages of schema/graph.ts as JSON: an interface. A `Value` in
-- them is translated by its own `internalJsonRead` and `internalJsonWrite`.
use fula_archived.Prelude.{Bool, Option, none, some, [], Text, ◌≡◌, Result, ok}
use fula_archived.GraphProtocol.Json.{Json, Value, to_json, from_json}
use fula_archived.GraphProtocol.Messages.{Request, data_value, error_value, Answer}

-- `{data: ...}` and `{error: ...}`.
pub data ResultJson : Type 0 where
  data_json : Json → ResultJson
  error_json : Json → ResultJson

-- A text field that is `null` is left at its first value.
abbrev pub text_or_empty : Option Text → Text
text_or_empty none = []
text_or_empty (some s) = s

abbrev pub value_answer : Value → Answer
value_answer v = record { data_or_error = data_value v; unknown = [] }

abbrev pub fault_answer : Value → Answer
fault_answer v = record { data_or_error = error_value v; unknown = [] }

-- `Request.fromJson({query, variableValues, operationName, subscribe})`, the three fields of
-- `Request.toJson(req)`, `Result.fromJson` and `Result.toJson`.
pub record JsonForm : Type 0 where
  pub request_from_json : Text → Json → Option Text → Bool → Request
  pub request_to_json : Request → Result (Text × Option Json × Text)
  pub result_from_json : ResultJson → Answer
  pub result_to_json : Answer → Result ResultJson
  pub request_read :
      (query : Text) (variables : Json) (operation : Option Text) (subscribe : Bool)
      → request_from_json query variables operation subscribe ≡ record {
        query = query;
        variable_values = some (from_json variables);
        operation_name = text_or_empty operation;
        subscribe = subscribe;
        unknown = [];
      }
  pub request_written :
      (r : Request) (v : Value) (j : Json)
      → r.variable_values ≡ some v
      → to_json v ≡ ok j
      → request_to_json r ≡ ok (r.query, some j, r.operation_name)
  pub data_read : (j : Json) → result_from_json (data_json j) ≡ value_answer (from_json j)
  pub error_read : (j : Json) → result_from_json (error_json j) ≡ fault_answer (from_json j)
  pub data_written :
      (v : Value) (j : Json) → to_json v ≡ ok j → result_to_json (value_answer v) ≡ ok (data_json j)
  pub error_written :
      (v : Value) (j : Json)
      → to_json v ≡ ok j
      → result_to_json (fault_answer v) ≡ ok (error_json j)
