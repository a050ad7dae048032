-- ===== src/GraphProtocol/Messages.antt =====
-- protocols/graph/src/schema/graph.ts: the messages `Request` and `Result`, with their binary codecs.
pub mod RoundTrip
use fula_archived.Prelude.{
  ℕ, suc, Bool, true, false, not, Option, none, some, List, [], ◌∷◌, ◌++◌, length, is_empty, Text,
  Bytes, Result, ok, ◌>>=◌, ◌==◌, if◌then◌else◌,
}
use fula_archived.Wire.{Wire, varint, length_delimited, OnUnknown, keep_unknown, Unknown}
use fula_archived.Wire.Loop.{
  Step, read_message, read_field, read_nested, read_unknown, write_nested, write_unknown,
}
use fula_archived.GraphProtocol.Json.{Value}
use fula_archived.GraphProtocol.Binary.{create_value, read_value, write_value}

pub record Request : Type 0 where
  pub query : Text
  pub variable_values : Option Value
  pub operation_name : Text
  pub subscribe : Bool
  pub unknown : List Unknown

-- The `oneof` of a `Result`; `no_result` is `oneofKind: undefined`.
pub data DataOrError : Type 0 where
  data_value : Value → DataOrError
  error_value : Value → DataOrError
  no_result : DataOrError

-- `Result`
pub record Answer : Type 0 where
  pub data_or_error : DataOrError
  pub unknown : List Unknown

abbrev pub create_request : Request
create_request = record {
  query = [];
  variable_values = none;
  operation_name = [];
  subscribe = false;
  unknown = [];
}

abbrev pub create_answer : Answer
create_answer = record { data_or_error = no_result; unknown = [] }

abbrev pub keep_in_request : Unknown → Request → Request
keep_in_request u m = record m { unknown = m.unknown ++ u ∷ [] }

abbrev pub keep_in_answer : Unknown → Answer → Answer
keep_in_answer u m = record m { unknown = m.unknown ++ u ∷ [] }

-- The target that a second occurrence of a field is merged into, or a new message.
abbrev pub or_created : Option Value → Value
or_created none = create_value
or_created (some v) = v

abbrev pub data_target : DataOrError → Value
data_target (data_value v) = v
data_target d = create_value

abbrev pub error_target : DataOrError → Value
error_target (error_value v) = v
error_target d = create_value

module _ (w : Wire) (options : OnUnknown) (depth : ℕ) where
  -- The switch of `Request$Type.internalBinaryRead`.
  unfoldable pub request_case : Step Request
  request_case n t m bs =
      if n == 1
      then read_field w.read_string (λ s. record m { query = s }) bs
      else if n == 2
      then read_nested w (λ len r. read_value w options depth len (or_created m.variable_values) r)
          (λ v. record m { variable_values = some v }) bs
      else if n == 3
      then read_field w.read_string (λ s. record m { operation_name = s }) bs
      else if n == 4
      then read_field w.read_bool (λ b. record m { subscribe = b }) bs
      else read_unknown w options "graph.Request" keep_in_request n t m bs

  -- The switch of `Result$Type.internalBinaryRead`.
  unfoldable pub answer_case : Step Answer
  answer_case n t m bs =
      if n == 1
      then read_nested w (λ len r. read_value w options depth len (data_target m.data_or_error) r)
          (λ v. record m { data_or_error = data_value v }) bs
      else if n == 2
      then read_nested w (λ len r. read_value w options depth len (error_target m.data_or_error) r)
          (λ v. record m { data_or_error = error_value v }) bs
      else read_unknown w options "graph.Result" keep_in_answer n t m bs

module _ (w : Wire) where
  -- `internalBinaryWrite` of the two: what is appended to the writer.
  unfoldable pub write_request : Bool → Request → Bytes
  write_request keep_fields m =
      (if is_empty m.query then [] else w.tag 1 length_delimited ++ w.string m.query)
      ++ ((elim m.variable_values [
        | none ↦ []
        | some v ↦ write_nested w 2 (write_value w keep_fields v)
      ])
          ++ ((if is_empty m.operation_name
                then []
                else w.tag 3 length_delimited ++ w.string m.operation_name)
              ++ ((if not m.subscribe then [] else w.tag 4 varint ++ w.bool m.subscribe)
                  ++ write_unknown w keep_fields m.unknown)))

  unfoldable pub write_data : Bool → DataOrError → Bytes
  write_data keep_fields (data_value v) = write_nested w 1 (write_value w keep_fields v)
  write_data keep_fields (error_value v) = write_nested w 2 (write_value w keep_fields v)
  write_data keep_fields no_result = []

  unfoldable pub write_answer : Bool → Answer → Bytes
  unfolding write_data
  write_answer keep_fields m =
      write_data keep_fields m.data_or_error ++ write_unknown w keep_fields m.unknown

  -- `Request.fromBinary` and `Result.fromBinary`. A message within takes bytes, so messages are not
  -- deeper in one another than the bytes are many.
  unfoldable pub request_from_binary : Bytes → Result Request
  unfolding request_case
  request_from_binary bs = do
    (m, r) ←
        read_message w (request_case w keep_unknown (suc (length bs))) (length bs) create_request bs
    ok m

  unfoldable pub answer_from_binary : Bytes → Result Answer
  unfolding answer_case
  answer_from_binary bs = do
    (m, r) ←
        read_message w (answer_case w keep_unknown (suc (length bs))) (length bs) create_answer bs
    ok m
