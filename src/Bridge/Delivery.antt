-- ===== src/Bridge/Delivery.antt =====
-- The streams of libraries/rn-fula from end to end, among the messages of other transfers.
use fula_archived.Prelude.{
  Bool, true, false, Option, none, some, List, [], ◌∷◌, ◌++◌, length, concat, Text, Bytes, ◌≡◌,
  refl, sym, ap, ◌∙◌, inl, inr, Error, text_eq, if◌then◌else◌, append-nil, append_assoc, arith, ltb,
  Bool-cases,
}
use fula_archived.FileSchema.Meta.{Meta}
use fula_archived.Bridge.{StreamChunk}
use fula_archived.Bridge.Buffers.{concat_array_buffers, concat_array_buffers-concat}
use fula_archived.Bridge.Sender.{
  Base64, buffer_message, send_buffered, webview_stream_send, send_each, client_stream_send,
}
use fula_archived.Bridge.Receiver.{
  Slot, awaited, open_with, completed, Slots, react, stream_listener, listen_all,
}

-- The messages of one transfer, in their order.
abbrev pub of : Text → List StreamChunk → List StreamChunk
of key [] = []
of key (m ∷ ms) = if text_eq key m.id then m ∷ of key ms else of key ms

abbrev slot_run : List StreamChunk → Slot → Slot
slot_run [] s = s
slot_run (m ∷ ms) s = slot_run ms (react m.status m.data_text s)

own_or_other :
    (b : Bool) (m : StreamChunk) (ms : List StreamChunk) (s : Slot)
    → slot_run ms (if b then react m.status m.data_text s else s)
      ≡ slot_run (if b then m ∷ ms else ms) s
own_or_other true m ms s = refl
own_or_other false m ms s = refl

-- A transfer's slot depends on the transfer's messages only.
listen_all-of :
    (ms : List StreamChunk) (slots : Slots) (key : Text)
    → listen_all ms slots key ≡ slot_run (of key ms) (slots key)
unfolding listen_all stream_listener
listen_all-of [] slots key = refl
listen_all-of (m ∷ ms) slots key =
    listen_all-of ms (stream_listener m slots) key
    ∙ own_or_other (text_eq key m.id) m (of key ms) (slots key)

module _ (key : Text) (meta : Meta) where
  slot_run-send_each :
      (vs ds : List Text) → slot_run (send_each key meta vs) (open_with ds) ≡ completed (ds ++ vs)
  unfolding send_each react
  slot_run-send_each [] ds = ap completed (sym (append-nil ds))
  slot_run-send_each (v ∷ vs) ds =
      slot_run-send_each vs (ds ++ v ∷ []) ∙ ap completed (append_assoc ds (v ∷ []) vs)

  -- The app sends the values of an iterator as a transfer that the other side awaits. However the
  -- transfer's messages are mixed with messages of other transfers, the awaited stream emits
  -- exactly these values in their order and then completes.
  client_delivery :
      (vs : List Text) (ms : List StreamChunk) (slots : Slots)
      → slots key ≡ awaited
      → of key ms ≡ client_stream_send key meta vs
      → listen_all ms slots key ≡ completed vs
  unfolding client_stream_send react
  client_delivery vs ms slots h e =
      listen_all-of ms slots key ∙ rw (e, h) (slot_run-send_each vs [])

  module _ (b64 : Base64) where
    -- What `base64.parse` makes of the values of a stream, joined.
    abbrev pub decoded : List Text → Option Bytes
    decoded [] = some []
    decoded (d ∷ ds) = elim (b64.parse d) [
      | none ↦ none
      | some b ↦ elim (decoded ds) [ none ↦ none | some bs ↦ some (b ++ bs) ]
    ]

    decoded_more :
        (b bs : Bytes) (ds : List Text)
        → decoded ds ≡ some bs
        → decoded (b64.stringify b ∷ ds) ≡ some (b ++ bs)
    decoded_more b bs ds e = ground (arith, b64.parse-stringify b, e)

    concat-snoc : (bs : List Bytes) (c : Bytes) → concat (bs ++ c ∷ []) ≡ concat bs ++ c
    concat-snoc [] c = append-nil c
    concat-snoc (b ∷ bs) c =
        ap (λ r. b ++ r) (concat-snoc bs c) ∙ sym (append_assoc b (concat bs) c)

    buffered_more :
        (buffer : List Bytes) (c : Bytes) (cs : List Bytes) (failure : Option Error)
        → ltb (length buffer) 3 ≡ true
        → send_buffered key meta b64 buffer (c ∷ cs) failure
          ≡ send_buffered key meta b64 (buffer ++ c ∷ []) cs failure
    unfolding send_buffered
    buffered_more buffer c cs failure h = rw h refl

    buffered_full :
        (buffer : List Bytes) (c : Bytes) (cs : List Bytes) (failure : Option Error)
        → ltb (length buffer) 3 ≡ false
        → send_buffered key meta b64 buffer (c ∷ cs) failure ≡ (
          buffer_message key meta b64 buffer ∷ (send_buffered key meta b64 (c ∷ []) cs failure).0,
          (send_buffered key meta b64 (c ∷ []) cs failure).1,
        )
    unfolding send_buffered
    buffered_full buffer c cs failure h = rw h refl

    -- A run that ends well from a buffer on.
    abbrev Flushes : List Bytes → List Bytes → List Text → Type 0
    Flushes buffer cs ds =
        (ys : List Text) × (slot_run (send_buffered key meta b64 buffer cs none).0 (open_with ds)
          ≡ completed (ds ++ ys))
        × (decoded ys ≡ some (concat buffer ++ concat cs))
        × ((send_buffered key meta b64 buffer cs none).1 ≡ true)

    flush_message :
        (buffer cs : List Bytes) (c : Bytes) (ds : List Text)
        → ltb (length buffer) 3 ≡ false
        → Flushes (c ∷ []) cs (ds ++ b64.stringify (concat_array_buffers buffer) ∷ [])
        → Flushes buffer (c ∷ cs) ds
    unfolding react
    flush_message buffer cs c ds h (ys, run, back, resolved) = (
      b64.stringify (concat_array_buffers buffer) ∷ ys,
      rw (buffered_full buffer c cs none h) (run ∙ ap completed (append_assoc ds _ ys)),
      decoded_more (concat_array_buffers buffer) (c ++ concat cs) ys
            (back ∙ ap some (append_assoc c [] (concat cs)))
          ∙ rw (concat_array_buffers-concat buffer) refl,
      rw (buffered_full buffer c cs none h) resolved,
    )

    fill :
        (buffer cs : List Bytes) (c : Bytes) (ds : List Text)
        → ltb (length buffer) 3 ≡ true
        → Flushes (buffer ++ c ∷ []) cs ds
        → Flushes buffer (c ∷ cs) ds
    fill buffer cs c ds h (ys, run, back, resolved) = (
      ys,
      rw (buffered_more buffer c cs none h) run,
      back
          ∙ ap some (
              ap (λ r. r ++ concat cs) (concat-snoc buffer c)
              ∙ append_assoc (concat buffer) c (concat cs)),
      rw (buffered_more buffer c cs none h) resolved,
    )

    flush : (cs buffer : List Bytes) (ds : List Text) → Flushes buffer cs ds
    unfolding send_buffered react
    flush [] [] ds = ([], ap completed (sym (append-nil ds)), refl, refl)
    flush [] (b ∷ buffer) ds = (
      b64.stringify (concat_array_buffers (b ∷ buffer)) ∷ [],
      refl,
      decoded_more (concat_array_buffers (b ∷ buffer)) [] [] refl
          ∙ rw (concat_array_buffers-concat (b ∷ buffer)) refl,
      refl,
    )
    flush (c ∷ cs) buffer ds = elim (Bool-cases (ltb (length buffer) 3)) [
      | inl h ↦ fill buffer cs c ds h (flush cs (buffer ++ c ∷ []) ds)
      | inr h ↦ flush_message buffer cs c ds h (flush cs (c ∷ []) _)
    ]

    -- The web view sends the chunks of an iterable that ends, as a transfer that the app awaits. However
    -- the transfer's messages are mixed with messages of other transfers, the awaited stream
    -- completes, what it emitted decodes to exactly the bytes of the chunks in order, and the promise of the sender
    -- resolves.
    pub webview_delivery :
        (chunks : List Bytes) (ms : List StreamChunk) (slots : Slots)
        → slots key ≡ awaited
        → of key ms
          ≡ (webview_stream_send key meta b64 (record { items = chunks; failure = none })).0
        → (ds : List Text) × (listen_all ms slots key ≡ completed ds)
          × (decoded ds ≡ some (concat chunks))
          × ((webview_stream_send key meta b64 (record { items = chunks; failure = none })).1
              ≡ true)
    unfolding webview_stream_send react
    webview_delivery chunks ms slots h e =
        let (ys, run, back, resolved) = flush chunks [] [] in
        (ys, listen_all-of ms slots key ∙ rw (e, h) run, back, resolved)
