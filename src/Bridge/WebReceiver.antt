-- ===== src/Bridge/WebReceiver.antt =====
-- webview-fula/bridge.ts: `_streamListener` and `eventBaseStreamToPromise` of the web view, whose streams
-- emit bytes that were decoded from base64. Their observables are cold: the listeners of a transfer are
-- attached when its consumer subscribes, which `observableToAsyncGenerator` of webview-fula/index.ts
-- does on its first `next`.
pub mod Decodes
use fula_archived.Prelude.{
  Option, none, some, List, [], ◌∷◌, ◌++◌, Text, Bytes, text_eq, if◌then◌else◌,
}
use fula_archived.Bridge.{ChunkStatusType, StreamChunk, start, chunk, end}
use fula_archived.Bridge.Sender.{Base64}

-- Nothing; the `CALLBACK` listener of a promise; the observable that the promise was resolved with, which nobody
-- has subscribed to; a stream that is subscribed to, open or completed, with what was emitted.
pub data WebSlot : Type 0 where
  vacant : WebSlot
  awaited : WebSlot
  offered : WebSlot
  open_with : List Bytes → WebSlot
  completed : List Bytes → WebSlot

abbrev pub WebSlots : Type 0
WebSlots = Text → WebSlot

-- `eventBaseStreamToPromise(transferId)`, of an id that is new.
unfoldable pub await_stream : Text → WebSlots → WebSlots
await_stream id slots key = if text_eq key id then awaited else slots key

-- A message that comes, or the subscription of the consumer of a transfer.
pub data WebEvent : Type 0 where
  told : StreamChunk → WebEvent
  subscribed : Text → WebEvent

-- The function of the observable, which attaches the listeners; a consumer subscribes once.
unfoldable pub web_subscribe : WebSlot → WebSlot
web_subscribe offered = open_with []
web_subscribe s = s

module _ (b64 : Base64) where
  -- `observer.next(base64.parse(val))`: what cannot be parsed throws in the listener and is left out.
  abbrev pub next_parsed : Option Bytes → List Bytes → WebSlot
  next_parsed none bs = open_with bs
  next_parsed (some b) bs = open_with (bs ++ b ∷ [])

  -- What the message does to the transfer's listeners; without any it is lost.
  unfoldable pub web_react : ChunkStatusType → Text → WebSlot → WebSlot
  web_react start d awaited = offered
  web_react start d s = s
  web_react chunk d (open_with bs) = next_parsed (b64.parse d) bs
  web_react chunk d s = s
  web_react end d (open_with bs) = completed bs
  web_react end d s = s

  -- `_streamListener(data)`
  unfoldable pub web_stream_listener : StreamChunk → WebSlots → WebSlots
  unfolding web_react
  web_stream_listener m slots key =
      if text_eq key m.id then web_react m.status m.data_text (slots key) else slots key

  unfoldable pub web_step : WebEvent → WebSlots → WebSlots
  unfolding web_stream_listener web_subscribe
  web_step (told m) slots key = web_stream_listener m slots key
  web_step (subscribed id) slots key =
      if text_eq key id then web_subscribe (slots key) else slots key

  unfoldable pub web_run : List WebEvent → WebSlots → WebSlots
  unfolding web_step
  web_run [] slots = slots
  web_run (e ∷ es) slots = web_run es (web_step e slots)
