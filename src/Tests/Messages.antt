-- ===== src/Tests/Messages.antt =====
-- Messages of the graph protocol, and a query that a box answers.
use fula_archived.Prelude.{
  true, false, Option, none, some, [], ◌∷◌, ◌++◌, length, ◌<◌, Bytes, ◌≡◌, refl, arith, Result, ok,
  runtime,
}
use fula_archived.Wire.{keep_unknown}
use fula_archived.Wire.Plain.{plain}
use fula_archived.Wire.Loop.{write_unknown, write_nested}
use fula_archived.AsyncLater.Values.{Source}
use fula_archived.GraphProtocol.Json.{
  Json, null, number, string, array, object, no_items, item, no_members, member, to_json, from_json,
  Value, value, bool_value, list_value, struct_value, no_values, one_more, no_fields, field,
}
use fula_archived.GraphProtocol.Json.RoundTrip.{IsProper, to_json-from_json}
use fula_archived.GraphProtocol.Binary.{
  create_value, read_value, write_value, write_fields, write_values,
}
use fula_archived.GraphProtocol.Binary.Valid
use fula_archived.GraphProtocol.Binary.RoundTrip.{read_value-write_value}
use fula_archived.GraphProtocol.Messages.{Request, Answer, error_value, no_result}
use fula_archived.GraphProtocol.Messages.RoundTrip.{IsValidRequest, IsValidAnswer}
use fula_archived.GraphProtocol.Queries.{
  unsupported_node, graph_connect, set_query_resolution_method, submit_query, submit_query_lem,
  written_answers,
}

abbrev variables : Json
variables = object (
    member (97 ∷ []) (array (item null (item (number 7) no_items)))
      (member (98 ∷ []) (string []) no_members))

variables-IsProper : IsProper variables
unfolding IsProper
variables-IsProper = (refl, refl, (tt, (tt, tt)), (refl, refl, tt, tt))

to_json-from_json_example : to_json (from_json variables) ≡ ok variables
to_json-from_json_example = to_json-from_json variables variables-IsProper

-- `{a: [true]}`
abbrev filter : Value
filter =
    value
      (struct_value
        (field (97 ∷ [])
          (value (list_value (one_more (value (bool_value true) []) no_values) []) []) no_fields)
        [])
      []

filter-IsValid : Valid.IsValid plain filter
unfolding plain Valid.IsValid Valid.IsValidKind Valid.AreValidFields Valid.AreValid write_value
    write_fields write_values write_unknown write_nested
filter-IsValid = (
  (
    (refl, ((((tt, tt), omega arith, tt), tt, omega arith), tt), omega arith, omega arith, tt),
    (refl, refl, tt),
    tt,
    omega arith,
  ),
  tt,
)

filter-small : length (write_value plain true filter) < 40
unfolding plain write_value write_unknown write_nested
filter-small = omega arith

read_value-write_value_example :
    read_value plain keep_unknown 40
      (length (write_value plain true filter))
      create_value
      (write_value plain true filter ++ 1 ∷ [])
    ≡ ok (filter, 1 ∷ [])
read_value-write_value_example =
    read_value-write_value plain filter 40 (1 ∷ []) filter-IsValid filter-small

abbrev asked : Request
asked = record {
  query = 113 ∷ [];
  variable_values = some filter;
  operation_name = [];
  subscribe = false;
  unknown = [];
}

asked-IsValid : IsValidRequest plain asked
unfolding plain
asked-IsValid = record {
  query = refl;
  variable_values = (filter-IsValid, omega (arith, filter-small));
  operation_name = refl;
  unknown = tt;
}

abbrev refused : Answer
refused = record { data_or_error = error_value filter; unknown = [] }

refused-IsValid : IsValidAnswer plain refused
refused-IsValid = record {
  data_or_error = (filter-IsValid, omega (arith, filter-small));
  unknown = tt;
}

abbrev found : Answer
found = record { data_or_error = no_result; unknown = [] }

found-IsValid : IsValidAnswer plain found
found-IsValid = record { data_or_error = tt; unknown = tt }

abbrev pub no_response : Source Bytes
no_response = record { items = []; failure = none }

-- Answers any query with an error, and any subscription with two results and an exception.
abbrev refuse : Request → Result (Option (Source Bytes))
refuse r =
    ok (some (record { items = written_answers plain (refused ∷ found ∷ []); failure = none }))

abbrev follow : Request → Result (Source Bytes)
follow r =
    ok (record { items = written_answers plain (found ∷ refused ∷ []); failure = some runtime })

submit_query_lem_example :
    submit_query plain
      (graph_connect plain
        (set_query_resolution_method plain refuse (unsupported_node plain))
        no_response)
      asked
    ≡ ok (some refused)
submit_query_lem_example =
    submit_query_lem plain (unsupported_node plain) no_response asked refused (found ∷ []) refuse
      none asked-IsValid refused-IsValid refl refl

abbrev subscribed : Request
subscribed = record asked { subscribe = true }

subscribed-IsValid : IsValidRequest plain subscribed
unfolding plain
subscribed-IsValid = record {
  query = refl;
  variable_values = (filter-IsValid, omega (arith, filter-small));
  operation_name = refl;
  unknown = tt;
}
