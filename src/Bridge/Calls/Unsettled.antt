-- ===== src/Bridge/Calls/Unsettled.antt =====
-- libraries/rn-fula/src: what becomes of an app's calls.
use fula_archived.Prelude.{
  true, false, none, some, List, [], ◌∷◌, Text, text_eq, text_eq_refl, ◌≡◌, refl, ap, ◌∙◌, Result,
  ok, runtime, Bool-cases, inl, inr,
}
use fula_archived.Bridge.Sender.{Base64}
use fula_archived.Bridge.Calls.{
  RpcRequest, RpcResponse, Reply, responds, Message, logged, request, response, chunk, bare_start,
  untyped, Adaptor, undefined_name, function_of, answer, on_request, Call, pending, settled,
  abandoned, App, done, failed, on_response, by_status, failure, set_call, rpc, message_handler,
  handle_all,
}

-- What a call cannot leave any more: every response passes it by.
abbrev Final : Call → Type 0
Final c = (r : RpcResponse) → on_response r c ≡ c

abandoned-Final : Final abandoned
unfolding on_response
abandoned-Final r = refl

settled-Final : (x : RpcResponse) → Final (settled x)
unfolding on_response
settled-Final x r = refl

one_response :
    (r : RpcResponse) (a : App) (id : Text) (c : Call)
    → Final c
    → a.calls id ≡ c
    → (set_call r.id (on_response r) a).calls id ≡ c
one_response r a id c f e = elim (Bool-cases (text_eq id r.id)) [
  | inl h ↦ rw (h, e) (f r)
  | inr h ↦ rw h e
]

handle_all-Final :
    (ms : List Message) (a : App) (id : Text) (c : Call)
    → Final c
    → a.calls id ≡ c
    → (handle_all ms a).calls id ≡ c
unfolding handle_all message_handler
handle_all-Final [] a id c f e = e
handle_all-Final (logged ∷ ms) a id c f e = handle_all-Final ms a id c f e
handle_all-Final (request r ∷ ms) a id c f e = handle_all-Final ms a id c f e
handle_all-Final (chunk m ∷ ms) a id c f e = handle_all-Final ms _ id c f e
handle_all-Final (bare_start k ∷ ms) a id c f e = handle_all-Final ms _ id c f e
handle_all-Final (untyped ∷ ms) a id c f e = handle_all-Final ms a id c f e
handle_all-Final (response r ∷ ms) a id c f e =
    handle_all-Final ms (set_call r.id (on_response r) a) id c f (one_response r a id c f e)

-- A response to a call that waits.
answered :
    (r : RpcResponse) (a : App) (id : Text) (c : Call)
    → r.id ≡ id
    → on_response r pending ≡ c
    → (handle_all (logged ∷ logged ∷ response r ∷ []) (set_call id (λ q. pending) a)).calls id ≡ c
unfolding handle_all message_handler
answered r a id c same e =
    let own : text_eq id r.id ≡ true = ap (text_eq id) same ∙ text_eq_refl id in
    rw (own, text_eq_refl id) e

settles : (x : RpcResponse) → x.status ≡ done → on_response x pending ≡ settled x
unfolding on_response
settles x e = ap (λ s. by_status s x) e

module _ (b64 : Base64) (adaptor : Adaptor) where
  -- The app calls a function of the client in the web view. If the adaptor has no function named "undefined",
  -- the web view answers the app's message with a failure, and the promise of the call never
  -- settles, whatever messages follow. Were the function's name in the field that the web view
  -- reads, and did the function give a response for this call, the promise would get exactly it.
  pub rpc_lem :
      (id func : Text) (args : List Text) (a : App) (ms : List Message)
      (f : RpcRequest → Result Reply) (x : RpcResponse)
      → function_of undefined_name adaptor ≡ none
      → function_of func adaptor ≡ some f
      → f (record { id = id; function = func; func = some func; args = args; is_stream = false })
        ≡ ok (responds x)
      → x.id ≡ id
      → x.status ≡ done
      → ((handle_all (on_request b64 adaptor (rpc id func args a).0) (rpc id func args a).1).calls
            id
          ≡ abandoned)
        × ((handle_all ms (
                handle_all
                  (on_request b64 adaptor (rpc id func args a).0)
                  (rpc id func args a).1)).calls
              id
            ≡ abandoned)
        × ((handle_all ms (
                handle_all
                  (on_request b64 adaptor (record (rpc id func args a).0 { func = some func }))
                  (rpc id func args a).1)).calls
              id
            ≡ settled x)
  unfolding rpc on_request answer
  rpc_lem id func args a ms f x missing found gives same status =
      let gone : (handle_all (on_request b64 adaptor (rpc id func args a).0)
              (rpc id func args a).1).calls
            id
          ≡ abandoned =
        rw missing (
          answered (record { id = id; payload = failure id func runtime; status = failed }) a id
            abandoned refl (unfold on_response in refl)) in
      (
        gone,
        handle_all-Final ms _ id abandoned abandoned-Final gone,
        handle_all-Final ms _ id (settled x) (settled-Final x)
            (rw (found, gives) (answered x a id (settled x) same (settles x status))),
      )
