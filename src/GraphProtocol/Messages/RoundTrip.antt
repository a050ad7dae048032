-- ===== src/GraphProtocol/Messages/RoundTrip.antt =====
-- schema/graph.ts: `fromBinary` after `toBinary`.
use fula_archived.Prelude.{
  ℕ, suc, ◌<◌, ◌≤◌, ◌^◌, Bool, true, false, not, Option, none, some, List, [], ◌++◌, length,
  is_empty, Bytes, Text, All, ◌≡◌, refl, ap, arith, ok, length-append, append-nil,
}
use fula_archived.Wire.{Wire, varint, length_delimited, keep_unknown, Unknown}
use fula_archived.Wire.Loop.{read_message, write_nested, write_unknown}
use fula_archived.Wire.Chain.{
  Chain, done, Chain-append, Chain-one, Chain-unless, Chain-unknown, Reads-field, Reads-nested,
  IsStrange, read_message-Chain,
}
use fula_archived.FileSchema.Meta.RoundTrip.{eq-nil_of_is_empty}
use fula_archived.GraphProtocol.Json.{Value}
use fula_archived.GraphProtocol.Binary.{create_value, read_value, write_value}
use fula_archived.GraphProtocol.Binary.Valid
use fula_archived.GraphProtocol.Binary.RoundTrip.{nested_longer, read_value-write_value}
use fula_archived.GraphProtocol.Messages.{
  Request, DataOrError, data_value, error_value, no_result, Answer, create_request, create_answer,
  keep_in_request, keep_in_answer, request_case, answer_case, write_request, write_data,
  write_answer, request_from_binary, answer_from_binary,
}

false_of_not : (b : Bool) → not b ≡ true → false ≡ b
false_of_not true h = cc
false_of_not false h = refl

middle_part : (a b c : Bytes) (d : ℕ) → length (a ++ (b ++ c)) ≤ d → length b ≤ d
middle_part a b c d h = omega (arith, h, length-append a (b ++ c), length-append b c)

module _ (w : Wire) where
  -- A value within a message.
  abbrev pub IsValidField : Value → Type 0
  IsValidField v = Valid.IsValid w v × (length (write_value w true v) < 2 ^ 32)

  abbrev pub IsValidOption : Option Value → Type 0
  IsValidOption none = Unit {0}
  IsValidOption (some v) = IsValidField v

  -- What the wire format can hold.
  pub record IsValidRequest (m : Request) : Type 0 where
    pub query : w.is_text m.query ≡ true
    pub variable_values : IsValidOption m.variable_values
    pub operation_name : w.is_text m.operation_name ≡ true
    pub unknown : All (IsStrange w 4) m.unknown

  abbrev pub IsValidData : DataOrError → Type 0
  IsValidData (data_value v) = IsValidField v
  IsValidData (error_value v) = IsValidField v
  IsValidData no_result = Unit {0}

  pub record IsValidAnswer (m : Answer) : Type 0 where
    pub data_or_error : IsValidData m.data_or_error
    pub unknown : All (IsStrange w 2) m.unknown

  abbrev partial : Text → Option Value → Text → Bool → List Unknown → Request
  partial q v o s us = record {
    query = q;
    variable_values = v;
    operation_name = o;
    subscribe = s;
    unknown = us;
  }

  module _ (m : Request) (v : IsValidRequest m) (d : ℕ) where
    variables_field :
        (o : Option Value)
        → IsValidOption o
        → length (elim o [ none ↦ [] | some x ↦ write_nested w 2 (write_value w true x) ]) ≤ d
        → Chain w
            (request_case w keep_unknown d)
            (partial m.query none [] false [])
            (elim o [ none ↦ [] | some x ↦ write_nested w 2 (write_value w true x) ])
            (partial m.query o [] false [])
    unfolding request_case
    variables_field none h k = done
    variables_field (some x) (h, small) k = Chain-one w _ (
        Reads-nested w _ _ 2 (λ len r. read_value w keep_unknown d len create_value r)
          (λ a. partial m.query (some a) [] false []) x (write_value w true x)
          (omega arith, omega arith) small (λ bs. refl)
          (λ rest.
            read_value-write_value w x d rest h
              (omega (arith, k, nested_longer w 2 (write_value w true x)))))

    request-Chain :
        length (write_request w true m) ≤ d
        → Chain w (request_case w keep_unknown d) create_request (write_request w true m) m
    unfolding request_case write_request
    request-Chain k =
        Chain-append w _ _
          (Chain-unless w _ (is_empty m.query)
            (λ h. ap (λ a. partial a none [] false []) (eq-nil_of_is_empty m.query h))
            (λ _.
              Reads-field w _ create_request 1 length_delimited w.read_string
                (λ a. partial a none [] false []) m.query (w.string m.query)
                (omega arith, omega arith) (λ bs. refl)
                (λ rest. w.string_back m.query rest v.query)))
          (Chain-append w _ _
            (variables_field m.variable_values v.variable_values (middle_part _ _ _ d k))
            (Chain-append w _ _
              (Chain-unless w _ (is_empty m.operation_name)
                (λ h.
                  ap (λ a. partial m.query m.variable_values a false [])
                    (eq-nil_of_is_empty m.operation_name h))
                (λ _.
                  Reads-field w _ _ 3 length_delimited w.read_string
                    (λ a. partial m.query m.variable_values a false []) m.operation_name
                    (w.string m.operation_name) (omega arith, omega arith) (λ bs. refl)
                    (λ rest. w.string_back m.operation_name rest v.operation_name)))
              (Chain-append w _ _
                (Chain-unless w _ (not m.subscribe)
                  (λ h.
                    ap (λ b. partial m.query m.variable_values m.operation_name b [])
                      (false_of_not m.subscribe h))
                  (λ _.
                    Reads-field w _ _ 4 varint w.read_bool
                      (λ b. partial m.query m.variable_values m.operation_name b []) m.subscribe
                      (w.bool m.subscribe) (omega arith, omega arith) (λ bs. refl)
                      (λ rest. w.bool_back m.subscribe rest)))
                (Chain-unknown w _ 4 "graph.Request" keep_in_request
                  (partial m.query m.variable_values m.operation_name m.subscribe)
                  (λ n t k bs far. ground arith) (λ u us. refl) m.unknown [] v.unknown))))

  -- The box reads from the bytes of a query the query that the client wrote: its text, its variables,
  -- the name of the operation and whether it subscribes.
  pub request_from_binary-write_request :
      (m : Request) → IsValidRequest m → request_from_binary w (write_request w true m) ≡ ok m
  unfolding request_from_binary
  request_from_binary-write_request m v =
      let d = suc (length (write_request w true m)) in
      let back : read_message w (request_case w keep_unknown d) (length (write_request w true m))
            create_request (write_request w true m)
          ≡ ok (m, []) =
        rw append-nil at (
          read_message-Chain w (request_case w keep_unknown d) []
            (request-Chain m v d (omega arith))) in
      rw back

  data-Chain :
      (x : DataOrError) (d : ℕ)
      → IsValidData x
      → length (write_data w true x) ≤ d
      → Chain w
          (answer_case w keep_unknown d)
          create_answer
          (write_data w true x)
          (record { data_or_error = x; unknown = [] })
  unfolding answer_case write_data
  data-Chain (data_value x) d (h, small) k = Chain-one w _ (
      Reads-nested w _ create_answer 1 (λ len r. read_value w keep_unknown d len create_value r)
        (λ a. record { data_or_error = data_value a; unknown = [] }) x (write_value w true x)
        (omega arith, omega arith) small (λ bs. refl)
        (λ rest.
          read_value-write_value w x d rest h
            (omega (arith, k, nested_longer w 1 (write_value w true x)))))
  data-Chain (error_value x) d (h, small) k = Chain-one w _ (
      Reads-nested w _ create_answer 2 (λ len r. read_value w keep_unknown d len create_value r)
        (λ a. record { data_or_error = error_value a; unknown = [] }) x (write_value w true x)
        (omega arith, omega arith) small (λ bs. refl)
        (λ rest.
          read_value-write_value w x d rest h
            (omega (arith, k, nested_longer w 2 (write_value w true x)))))
  data-Chain no_result d h k = done

  answer-Chain :
      (m : Answer) (d : ℕ)
      → IsValidAnswer m
      → length (write_answer w true m) ≤ d
      → Chain w (answer_case w keep_unknown d) create_answer (write_answer w true m) m
  unfolding answer_case write_answer
  answer-Chain m d v k =
      Chain-append w _ _
        (data-Chain m.data_or_error d v.data_or_error (
          omega (
            arith,
            k,
            length-append (write_data w true m.data_or_error) (write_unknown w true m.unknown),
          )))
        (Chain-unknown w _ 2 "graph.Result" keep_in_answer
          (λ us. record { data_or_error = m.data_or_error; unknown = us })
          (λ n t k bs far. ground arith) (λ u us. refl) m.unknown [] v.unknown)

  -- The client reads from the bytes of a result the result that the box wrote: its data, its
  -- error, or neither.
  pub answer_from_binary-write_answer :
      (m : Answer) → IsValidAnswer m → answer_from_binary w (write_answer w true m) ≡ ok m
  unfolding answer_from_binary
  answer_from_binary-write_answer m v =
      let d = suc (length (write_answer w true m)) in
      let back : read_message w (answer_case w keep_unknown d) (length (write_answer w true m))
            create_answer (write_answer w true m)
          ≡ ok (m, []) =
        rw append-nil at (
          read_message-Chain w (answer_case w keep_unknown d) []
            (answer-Chain m d v (omega arith))) in
      rw back
