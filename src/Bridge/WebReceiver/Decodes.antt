-- ===== src/Bridge/WebReceiver/Decodes.antt =====
-- libraries/rn-fula/src: a stream of the app that the web view decodes.
use fula_archived.Prelude.{
  Bool, true, false, Option, none, some, List, [], ◌∷◌, ◌++◌, map, Text, Bytes, text_eq,
  text_eq_refl, ◌≡◌, refl, sym, ap, ◌∙◌, if◌then◌else◌, append_assoc, append-nil,
}
use fula_archived.FileSchema.Meta.{Meta}
use fula_archived.Bridge.{StreamChunk}
use fula_archived.Bridge.Sender.{
  Base64, start_message, chunk_message, send_each, client_stream_send,
}
use fula_archived.Bridge.Delivery.{of}
use fula_archived.Bridge.WebReceiver.{
  WebSlot, WebSlots, awaited, offered, open_with, completed, await_stream, WebEvent, told,
  subscribed, web_subscribe, next_parsed, web_react, web_stream_listener, web_step, web_run,
}

module _ (b64 : Base64) where
  abbrev slot_run : List StreamChunk → WebSlot → WebSlot
  slot_run [] s = s
  slot_run (m ∷ ms) s = slot_run ms (web_react b64 m.status m.data_text s)

  own_or_other :
      (b : Bool) (m : StreamChunk) (ms : List StreamChunk) (s : WebSlot)
      → slot_run ms (if b then web_react b64 m.status m.data_text s else s)
        ≡ slot_run (if b then m ∷ ms else ms) s
  own_or_other true m ms s = refl
  own_or_other false m ms s = refl

  own_subscribes :
      (key : Text) (slots : WebSlots)
      → web_step b64 (subscribed key) slots key ≡ web_subscribe (slots key)
  unfolding web_step
  own_subscribes key slots = rw (text_eq_refl key) refl

  awaits : (key : Text) (slots : WebSlots) → await_stream key slots key ≡ awaited
  unfolding await_stream
  awaits key slots = rw (text_eq_refl key) refl

  -- Without a subscription what comes behind the start is lost.
  chunks_lost :
      (key : Text) (meta : Meta) (vs : List Text)
      → slot_run (map (chunk_message key meta) vs) offered ≡ offered
  unfolding web_react
  chunks_lost key meta [] = refl
  chunks_lost key meta (v ∷ vs) = chunks_lost key meta vs

  all_lost :
      (key : Text) (meta : Meta) (vs : List Text)
      → slot_run (send_each key meta vs) offered ≡ offered
  unfolding web_react send_each
  all_lost key meta [] = refl
  all_lost key meta (v ∷ vs) = all_lost key meta vs

  web_run-told :
      (ms : List StreamChunk) (slots : WebSlots) (key : Text)
      → web_run b64 (map told ms) slots key ≡ slot_run (of key ms) (slots key)
  unfolding web_run web_step web_stream_listener
  web_run-told [] slots key = refl
  web_run-told (m ∷ ms) slots key =
      web_run-told ms (web_stream_listener b64 m slots) key
      ∙ own_or_other (text_eq key m.id) m (of key ms) (slots key)

  web_run-append :
      (es fs : List WebEvent) (slots : WebSlots)
      → web_run b64 (es ++ fs) slots ≡ web_run b64 fs (web_run b64 es slots)
  unfolding web_run
  web_run-append [] fs slots = refl
  web_run-append (e ∷ es) fs slots = web_run-append es fs (web_step b64 e slots)

  -- Messages, the subscription and more messages, as the transfer sees them.
  web_run-subscribed :
      (ms ns : List StreamChunk) (slots : WebSlots) (key : Text)
      → web_run b64 (map told ms ++ subscribed key ∷ map told ns) slots key
        ≡ slot_run (of key ns) (web_subscribe (slot_run (of key ms) (slots key)))
  unfolding web_run web_step
  web_run-subscribed ms ns slots key =
      ap (λ f. f key) (web_run-append (map told ms) (subscribed key ∷ map told ns) slots)
      ∙ web_run-told ns (web_step b64 (subscribed key) (web_run b64 (map told ms) slots)) key
      ∙ ap (slot_run (of key ns)) (
          own_subscribes key (web_run b64 (map told ms) slots)
          ∙ ap web_subscribe (web_run-told ms slots key))

  abbrev with_parsed : Option Bytes → List Bytes → List Bytes
  with_parsed none bs = bs
  with_parsed (some b) bs = b ∷ bs

  -- What is left when each text that can be parsed is.
  unfoldable pub parsed : List Text → List Bytes
  parsed [] = []
  parsed (v ∷ vs) = with_parsed (b64.parse v) (parsed vs)

  by_parse :
      (key : Text) (meta : Meta) (vs : List Text) (o : Option Bytes) (bs : List Bytes)
      → ((ds : List Bytes)
          → slot_run (send_each key meta vs) (open_with ds) ≡ completed (ds ++ parsed vs))
      → slot_run (send_each key meta vs) (next_parsed b64 o bs)
        ≡ completed (bs ++ with_parsed o (parsed vs))
  by_parse key meta vs none bs ih = ih bs
  by_parse key meta vs (some b) bs ih =
      ih (bs ++ b ∷ []) ∙ ap completed (append_assoc bs (b ∷ []) (parsed vs))

  slot_run-send_each :
      (key : Text) (meta : Meta) (vs : List Text) (bs : List Bytes)
      → slot_run (send_each key meta vs) (open_with bs) ≡ completed (bs ++ parsed vs)
  unfolding send_each web_react parsed
  slot_run-send_each key meta [] bs = ap completed (sym (append-nil bs))
  slot_run-send_each key meta (v ∷ vs) bs =
      by_parse key meta vs (b64.parse v) bs (slot_run-send_each key meta vs)

  parsed-encoded : (cs : List Bytes) → parsed (map b64.stringify cs) ≡ cs
  unfolding parsed
  parsed-encoded [] = refl
  parsed-encoded (c ∷ cs) = rw (b64.parse-stringify c) (ap (λ r. c ∷ r) (parsed-encoded cs))

  -- The app sends texts as a transfer that the web view awaits under a new id, and its messages may be mixed with
  -- those of other transfers. If the consumer subscribes behind the start and some of the texts,
  -- then these texts are lost, and the stream emits, in their order, the bytes of the texts behind
  -- the subscription that are base64 and nothing for the others, and completes; of encoded chunks it
  -- emits exactly the chunks. If it subscribes behind the end, then it gets nothing of the
  -- transfer, and the stream never completes.
  pub web_delivery :
      (key : Text) (meta : Meta) (early late : List Text) (cs : List Bytes)
      (before behind coded whole others : List StreamChunk) (slots : WebSlots)
      → of key before ≡ start_message key meta ∷ map (chunk_message key meta) early
      → of key behind ≡ send_each key meta late
      → of key coded ≡ send_each key meta (map b64.stringify cs)
      → of key whole ≡ client_stream_send key meta early
      → of key others ≡ []
      → (web_run b64
            (map told before ++ subscribed key ∷ map told behind)
            (await_stream key slots)
            key
          ≡ completed (parsed late))
        × (web_run b64
              (map told before ++ subscribed key ∷ map told coded)
              (await_stream key slots)
              key
            ≡ completed cs)
        × (web_run b64
              (map told whole ++ subscribed key ∷ map told others)
              (await_stream key slots)
              key
            ≡ open_with [])
  unfolding client_stream_send web_react web_subscribe
  web_delivery key meta early late cs before behind coded whole others slots e f g h k = (
    web_run-subscribed before behind (await_stream key slots) key
        ∙ rw (e, f, awaits key slots, chunks_lost key meta early)
            (slot_run-send_each key meta late []),
    web_run-subscribed before coded (await_stream key slots) key
        ∙ rw (e, g, awaits key slots, chunks_lost key meta early)
            (slot_run-send_each key meta (map b64.stringify cs) []
              ∙ ap completed (parsed-encoded cs)),
    web_run-subscribed whole others (await_stream key slots) key
        ∙ rw (h, k, awaits key slots, all_lost key meta early) refl,
  )
