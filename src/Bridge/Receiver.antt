-- ===== src/Bridge/Receiver.antt =====
-- `_streamListener` and `eventBaseStreamToPromise` of rn-client/bridge.ts.
-- The listeners of the event emitter under the names that a transfer's id makes are the transfer's
-- slot; the subscriber of a stream subscribes as soon as it has it.
use fula_archived.Prelude.{List, [], ◌∷◌, ◌++◌, Text, text_eq, if◌then◌else◌}
use fula_archived.Bridge.{ChunkStatusType, StreamChunk, start, chunk, end}

-- Nothing; the `CALLBACK` listener of a promise; a stream, open or completed, with what was emitted.
pub data Slot : Type 0 where
  vacant : Slot
  awaited : Slot
  open_with : List Text → Slot
  completed : List Text → Slot

abbrev pub Slots : Type 0
Slots = Text → Slot

abbrev pub update : Text → (Slot → Slot) → Slots → Slots
update id f slots key = if text_eq key id then f (slots key) else slots key

-- `eventBaseStreamToPromise(transferId)`
unfoldable pub event_base_stream_to_promise : Text → Slots → Slots
event_base_stream_to_promise id = update id (λ s. awaited)

-- What a message does to the listeners of its transfer.
unfoldable pub react : ChunkStatusType → Text → Slot → Slot
react start d awaited = open_with []
react start d s = s
react chunk d (open_with ds) = open_with (ds ++ d ∷ [])
react chunk d s = s
react end d (open_with ds) = completed ds
react end d s = s

-- `_streamListener(data)`
unfoldable pub stream_listener : StreamChunk → Slots → Slots
unfolding react
stream_listener m = update m.id (react m.status m.data_text)

unfoldable pub listen_all : List StreamChunk → Slots → Slots
listen_all [] slots = slots
listen_all (m ∷ ms) slots = listen_all ms (stream_listener m slots)
