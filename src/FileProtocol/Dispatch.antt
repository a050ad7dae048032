-- ===== src/FileProtocol/Dispatch.antt =====
-- handlers/index.ts: what the box does with the messages of a stream.
use fula_archived.Prelude.{
  suc, ◌+◌, some, List, [], ◌∷◌, ◌++◌, map, length, concat, Text, Bytes, ◌≡◌, refl, ◌∙◌, arith, ok,
  err, stuck, index_not_found, Result, Option, none, ap, ◌>>=◌,
}
use fula_archived.Wire.{Wire}
use fula_archived.AsyncLater.Values.{Source, first_value}
use fula_archived.AsyncLater.Later.{Later, iterate_later, next, complete}
use fula_archived.AsyncLater.Later.Delivery.{collect}
use fula_archived.AsyncLater.Partition.Splits.{partition_split}
use fula_archived.AsyncLater.Convert.{
  next_value, finish, observe, observe_all, async_iterable_from_observable, collect-async_iterable,
}
use fula_archived.FileSchema.Meta.{Meta}
use fula_archived.FileSchema.Request.{
  Request, RequestType, send, receive, meta, absent, from_binary, to_binary,
}
use fula_archived.FileSchema.Request.RoundTrip.{IsValid, from_binary-to_binary}
use fula_archived.FileProtocol.{Utf8}
use fula_archived.FileProtocol.Client.{request_of}
use fula_archived.FileProtocol.Node.{
  Node, Message, binary, words, one, save, handler, dispatch, or_empty, listener,
}

length-observe_all :
    {T : Type 0} (ns : List T) (s : Later T)
    → length (observe_all (map next_value ns ++ finish ∷ []) s).queue ≡ length ns + length s.queue
unfolding observe_all observe next complete
length-observe_all [] s = omega arith
length-observe_all (n ∷ ns) s = omega (arith, length-observe_all ns (observe (next_value n) s))

listener_of :
    (id_of : Meta → Bytes → Text) (m : Meta) (s : Later Bytes) (vs : List Bytes)
    → collect (suc (length s.queue)) s ≡ ok vs
    → listener id_of m s ≡ some (id_of m (concat vs))
unfolding listener
listener_of id_of m s vs h = rw (h, listener) refl

queue_of_content :
    (vs : List Bytes)
    → length (async_iterable_from_observable (map next_value vs ++ finish ∷ [])).queue
      ≡ length vs + 1
unfolding async_iterable_from_observable iterate_later
queue_of_content vs = length-observe_all vs iterate_later

-- Reading all of the content that `save` hands on.
pub content_collected :
    (vs : List Bytes)
    → collect
        (suc (length (async_iterable_from_observable (map next_value vs ++ finish ∷ [])).queue))
        (async_iterable_from_observable (map next_value vs ++ finish ∷ []))
      ≡ ok vs
content_collected vs = collect-async_iterable vs _ (omega (arith, queue_of_content vs))

-- The listener gets all of the content.
pub listener-async_iterable :
    (id_of : Meta → Bytes → Text) (m : Meta) (vs : List Bytes)
    → listener id_of m (async_iterable_from_observable (map next_value vs ++ finish ∷ []))
      ≡ some (id_of m (concat vs))
listener-async_iterable id_of m vs = listener_of id_of m _ vs (content_collected vs)

module _ (w : Wire) (u : Utf8) (n : Node) where
  handler-dispatch :
      (messages : List Bytes)
      → handler w u n messages ≡ (elim messages [
        | [] ↦ err (index_not_found 0)
        | first ∷ rest ↦
            (from_binary w first >>= λ r. dispatch w u n r.type rest >>= λ s. ok (or_empty w u n s))
      ])
  unfolding handler first_value
  handler-dispatch [] =
      let (h, t) = partition_split {T = Bytes} 1 1 [] (omega arith) (omega arith) in rw h refl
  handler-dispatch (first ∷ rest) =
      let (h, t) =
        partition_split 1 (suc (suc (length rest))) (first ∷ rest) (omega arith) (omega arith) in
      rw (h, t) refl

  -- What a method gives, or the text `Empty response` in place of nothing.
  abbrev pub or_no_content : Option (Source Message) → Source Message
  or_no_content none = record { items = words "Empty response" ∷ []; failure = none }
  or_no_content (some s) = s

  -- The answer to a request of each kind, with the messages behind it.
  abbrev pub answered : RequestType → List Bytes → Result (Source Message)
  answered (send m) rest =
      elim (n.incoming m (async_iterable_from_observable (map next_value rest ++ finish ∷ []))) [
        | none ↦ stuck
        | some id ↦ ok (record { items = binary (u.encode id) ∷ []; failure = none })
      ]
  answered (receive c) rest = do s ← n.retrieve c; ok (or_no_content s)
  answered (meta id) rest = do s ← n.get_meta id; ok (or_no_content s)
  answered absent rest = ok (record { items = words "Empty response" ∷ []; failure = none })

  or_empty-or_no_content : (s : Option (Source Message)) → or_empty w u n s ≡ or_no_content s
  or_empty-or_no_content none = refl
  or_empty-or_no_content (some s) = refl

  with_empty :
      (r : Result (Option (Source Message)))
      → (r >>= λ s. ok (or_empty w u n s)) ≡ (r >>= λ s. ok (or_no_content s))
  with_empty (ok s) = ap ok (or_empty-or_no_content s)
  with_empty (err e) = refl
  with_empty stuck = refl

  with_id :
      (x : Option Text)
      → ((elim x [ none ↦ stuck | some id ↦ ok (some (one (binary (u.encode id)))) ]) >>= λ s.
          ok (or_empty w u n s))
        ≡ (elim x [
          | none ↦ stuck
          | some id ↦ ok (record { items = binary (u.encode id) ∷ []; failure = none })
        ])
  with_id none = refl
  with_id (some id) = refl

  dispatch-answered :
      (t : RequestType) (rest : List Bytes)
      → (dispatch w u n t rest >>= λ s. ok (or_empty w u n s)) ≡ answered t rest
  unfolding dispatch save
  dispatch-answered (send m) rest =
      with_id (n.incoming m (async_iterable_from_observable (map next_value rest ++ finish ∷ [])))
  dispatch-answered (receive c) rest = with_empty (n.retrieve c)
  dispatch-answered (meta id) rest = with_empty (n.get_meta id)
  dispatch-answered absent rest = refl

  decoded_then :
      (r : Result Request) (rest : List Bytes)
      → (r >>= λ q. dispatch w u n q.type rest >>= λ s. ok (or_empty w u n s))
        ≡ (r >>= λ q. answered q.type rest)
  decoded_then (ok q) rest = dispatch-answered q.type rest
  decoded_then (err e) rest = refl
  decoded_then stuck rest = refl

  -- The box's `handler` throws that there is no value at index 0 on a stream without a message. Else
  -- it decodes the first message as a `Request` and throws what decoding it throws. On a send
  -- request it hands the meta and an iterable of all messages behind the first to the subscriber
  -- of `incomingFiles`, and answers with the id that is declared, as its one message, or waits for
  -- good where none is. A receive request is answered by what the content method gives for its
  -- chunk, and a meta request by what the meta method gives for its id: their errors are thrown,
  -- and where they give nothing the answer is the text `Empty response`. That is also the answer to a
  -- request of no kind.
  pub handler_lem :
      (messages : List Bytes)
      → handler w u n messages ≡ (elim messages [
        | [] ↦ err (index_not_found 0)
        | first ∷ rest ↦ (from_binary w first >>= λ q. answered q.type rest)
      ])
  handler_lem [] = handler-dispatch []
  handler_lem (first ∷ rest) =
      handler-dispatch (first ∷ rest) ∙ decoded_then (from_binary w first) rest

  abbrev pub IsSendable : RequestType → Type 0
  IsSendable t = IsValid w (request_of t)

  pub handler-request :
      (t : RequestType) (rest : List Bytes)
      → IsSendable t
      → handler w u n (to_binary w (request_of t) ∷ rest)
        ≡ (dispatch w u n t rest >>= λ s. ok (or_empty w u n s))
  handler-request t rest v =
      handler-dispatch (to_binary w (request_of t) ∷ rest)
      ∙ rw (from_binary-to_binary w (request_of t) v) refl
