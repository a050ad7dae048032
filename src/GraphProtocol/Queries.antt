-- ===== src/GraphProtocol/Queries.antt =====
-- protocols/graph/src/handlers: queries and subscriptions, between a client and a box.
use fula_archived.Prelude.{
  suc, String, Bool, true, false, Option, none, some, List, [], ◌∷◌, length, Bytes, ◌≡◌, refl,
  arith, Result, ok, err, stuck, Error, message, All, ◌>>=◌, equal, if◌then◌else◌,
}
use fula_archived.Wire.{Wire}
use fula_archived.GraphProtocol.Messages.{
  Request, Answer, write_request, write_answer, request_from_binary, answer_from_binary,
}
use fula_archived.GraphProtocol.Messages.RoundTrip.{
  IsValidRequest, IsValidAnswer, request_from_binary-write_request, answer_from_binary-write_answer,
}
use fula_archived.AsyncLater.Values.{Source, first_value}
use fula_archived.AsyncLater.Later.Delivery.{collect}
use fula_archived.AsyncLater.Partition.{partition}
use fula_archived.AsyncLater.Partition.Splits.{partition_split}
use fula_archived.FileProtocol.{Connection}

abbrev pub graph_protocol_name : String
graph_protocol_name = "fx/graph/1"

abbrev pub written_or_waits : Result (Source Bytes) → Result (Source Bytes)
written_or_waits (ok s) = ok s
written_or_waits (err e) = stuck
written_or_waits stuck = stuck

abbrev pub or_empty_response : Source Bytes → Option (Source Bytes) → Source Bytes
or_empty_response empty_response none = empty_response
or_empty_response empty_response (some s) = s

if_true : {A : Type 0} {b : Bool} (x y : A) → b ≡ true → (if b then x else y) ≡ x
if_true x y h = rw h refl

if_false : {A : Type 0} {b : Bool} (x y : A) → b ≡ false → (if b then x else y) ≡ y
if_false x y h = rw h refl

module _ (w : Wire) where
  -- The variables `resolve` and `subscriptionResolve`. `resolve` may find nothing.
  pub record GraphNode : Type 0 where
    pub resolve : Request → Result (Option (Source Bytes))
    pub subscription_resolve : Request → Result (Source Bytes)

  abbrev pub unsupported_node : GraphNode
  unsupported_node = record {
    resolve = λ r. err (message "This node does not support graphql");
    subscription_resolve =
        λ r. err (message "This node does not support subscription over graphql");
  }

  unfoldable pub set_query_resolution_method :
      (Request → Result (Option (Source Bytes))) → GraphNode → GraphNode
  set_query_resolution_method method n = record n { resolve = method }

  unfoldable pub set_subscription_query_resolution_method :
      (Request → Result (Source Bytes)) → GraphNode → GraphNode
  set_subscription_query_resolution_method method n = record n { subscription_resolve = method }

  module _ (n : GraphNode) (empty_response : Source Bytes) where
    -- What `(await response) || Response.EMPTY` is for a request.
    unfoldable pub answer_request : Request → Result (Source Bytes)
    answer_request r =
        if r.subscribe
        then n.subscription_resolve r
        else (do found ← n.resolve r; ok (or_empty_response empty_response found))

    -- `handler`, on the messages of a stream that has ended.
    unfoldable pub graph_handler : List Bytes → Result (Source Bytes)
    unfolding answer_request
    graph_handler messages = do
      head ← collect (suc (length messages)) (partition 1 messages).first
      first ← first_value (record { items = head; failure = none })
      request ← request_from_binary w first
      answer_request request

    -- A connection to the box; where its handler throws it writes nothing and does not close the stream.
    abbrev pub graph_connect : Connection
    graph_connect = record {
      protocol = graph_protocol_name;
      exchange = λ ms. written_or_waits (graph_handler ms);
    }

  abbrev pub on_graph_protocol : {A : Type 0} → Connection → Result A → Result A
  on_graph_protocol c r =
      if equal c.protocol graph_protocol_name then r else err (message "Protocol mismatched")

  -- `for await (const result of queryResult) return Result.fromBinary(result)`
  unfoldable pub first_answer : List Bytes → Option Error → Result (Option Answer)
  first_answer [] none = ok none
  first_answer [] (some e) = err e
  first_answer (b ∷ bs) failure = do a ← answer_from_binary w b; ok (some a)

  -- `submitQuery`
  unfoldable pub submit_query : Connection → Request → Result (Option Answer)
  unfolding first_answer
  submit_query c r =
      on_graph_protocol c
        (do s ← c.exchange (write_request w true r ∷ []); first_answer s.items s.failure)

  -- A result that was read, before those that follow it.
  abbrev pub yield_answer : Result Answer → Source Answer → Source Answer
  yield_answer (ok a) rest = record rest { items = a ∷ rest.items }
  yield_answer (err e) rest = record { items = []; failure = some e }
  yield_answer stuck rest = record { items = []; failure = none }

  -- `for await (const result of queryResult) yield Result.fromBinary(result)`
  unfoldable pub each_answer : List Bytes → Option Error → Source Answer
  each_answer [] failure = record { items = []; failure = failure }
  each_answer (b ∷ bs) failure = yield_answer (answer_from_binary w b) (each_answer bs failure)

  -- `submitSubscriptionQuery`
  unfoldable pub submit_subscription_query : Connection → Request → Result (Source Answer)
  unfolding each_answer
  submit_subscription_query c r =
      on_graph_protocol c
        (do s ← c.exchange (write_request w true r ∷ []); ok (each_answer s.items s.failure))

  -- The results that a box writes.
  abbrev pub written_answers : List Answer → List Bytes
  written_answers [] = []
  written_answers (a ∷ xs) = write_answer w true a ∷ written_answers xs

  handler_of_request :
      (n : GraphNode) (empty_response : Source Bytes) (r : Request)
      → IsValidRequest w r
      → graph_handler n empty_response (write_request w true r ∷ [])
        ≡ answer_request n empty_response r
  unfolding graph_handler first_value
  handler_of_request n empty_response r v =
      let (h, t) = partition_split 1 2 (write_request w true r ∷ []) (omega arith) (omega arith) in
      rw (h, request_from_binary-write_request w r v) refl

  each_answer-written :
      (xs : List Answer) (failure : Option Error)
      → All (IsValidAnswer w) xs
      → each_answer (written_answers xs) failure ≡ record { items = xs; failure = failure }
  unfolding each_answer
  each_answer-written [] failure vs = refl
  each_answer-written (a ∷ xs) failure (v, vs) =
      rw (answer_from_binary-write_answer w a v, each_answer-written xs failure vs) refl

  answer_plain :
      (n : GraphNode) (empty_response : Source Bytes) (r : Request)
      → r.subscribe ≡ false
      → answer_request n empty_response r
        ≡ (do found ← n.resolve r; ok (or_empty_response empty_response found))
  unfolding answer_request
  answer_plain n empty_response r h = if_false _ _ h

  answer_subscribed :
      (n : GraphNode) (empty_response : Source Bytes) (r : Request)
      → r.subscribe ≡ true
      → answer_request n empty_response r ≡ n.subscription_resolve r
  unfolding answer_request
  answer_subscribed n empty_response r h = if_true _ _ h

  -- A client submits a query that is no subscription to a box whose resolution method answers it with
  -- one result or more. If the query and the first result can be written, `submitQuery` returns
  -- exactly this first result.
  pub submit_query_lem :
      (n : GraphNode) (empty_response : Source Bytes) (r : Request) (a : Answer) (xs : List Answer)
      (method : Request → Result (Option (Source Bytes))) (failure : Option Error)
      → IsValidRequest w r
      → IsValidAnswer w a
      → r.subscribe ≡ false
      → method r ≡ ok (some (record { items = written_answers (a ∷ xs); failure = failure }))
      → submit_query (graph_connect (set_query_resolution_method method n) empty_response) r
        ≡ ok (some a)
  unfolding submit_query answer_request set_query_resolution_method first_answer
  submit_query_lem n empty_response r a xs method failure u v h e =
      rw
        (
          handler_of_request (set_query_resolution_method method n) empty_response r u,
          answer_plain (set_query_resolution_method method n) empty_response r h,
          e,
          answer_from_binary-write_answer w a v,
        )
        refl

  -- A client subscribes at a box whose subscription method answers. If the query and the results can be
  -- written, `submitSubscriptionQuery` yields all the results that the method writes, in their order, and then throws what
  -- the method throws, if it does.
  pub submit_subscription_query_lem :
      (n : GraphNode) (empty_response : Source Bytes) (r : Request) (xs : List Answer)
      (method : Request → Result (Source Bytes)) (failure : Option Error)
      → IsValidRequest w r
      → All (IsValidAnswer w) xs
      → r.subscribe ≡ true
      → method r ≡ ok (record { items = written_answers xs; failure = failure })
      → submit_subscription_query
          (graph_connect (set_subscription_query_resolution_method method n) empty_response)
          r
        ≡ ok (record { items = xs; failure = failure })
  unfolding submit_subscription_query answer_request set_subscription_query_resolution_method
  submit_subscription_query_lem n empty_response r xs method failure v vs h e =
      rw
        (
          handler_of_request (set_subscription_query_resolution_method method n) empty_response r v,
          answer_subscribed (set_subscription_query_resolution_method method n) empty_response r h,
          e,
          each_answer-written xs failure vs,
        )
        refl
