-- ===== src/FileProtocol.antt =====
-- protocols/file/src/handlers and constants.ts: the file protocol between a client and a box.
-- What a connection's stream gives for the messages written to it, `pipe(source, stream, sink)`, is
-- a function of these messages; so an exchange is looked at when its source has ended.
pub mod Client
pub mod Node
pub mod Dispatch
pub mod Session
use fula_archived.Prelude.{
  String, Bool, not, Option, none, some, List, [], ◌∷◌, Bytes, Text, ◌≡◌, Result, ok, err, Error,
  message, equal, if◌then◌else◌, true,
}
use fula_archived.AsyncLater.Values.{Source, at_end}

abbrev pub protocol_name : String
protocol_name = "fx/file/1"

-- `TextEncoder` and `TextDecoder`. The decoder gives back the strings without lone surrogates.
pub record Utf8 : Type 0 where
  pub encode : Text → Bytes
  pub decode : Bytes → Text
  pub is_text : Text → Bool
  pub decode-encode : (s : Text) → is_text s ≡ true → decode (encode s) ≡ s

-- `{stream, protocol}`: the peer's answer to all the messages that are written.
pub record Connection : Type 0 where
  pub protocol : String
  pub exchange : List Bytes → Result (Source Bytes)

-- `connection.protocol !== protocol_name`
unfoldable pub on_protocol : {A : Type 0} → Connection → Result A → Result A
on_protocol c r = if equal c.protocol protocol_name then r else err (message "Protocol mismatched")

-- `for await (const message of source) response = message`
unfoldable pub last_message : Option Bytes → List Bytes → Option Bytes
last_message seen [] = seen
last_message seen (m ∷ ms) = last_message (some m) ms

-- What the sinks of the client do at the end of their loops: `throw Error()` without a message.
unfoldable pub last_or_error : Source Bytes → Result Bytes
last_or_error s = elim s.failure [
  | some e ↦ err e
  | none ↦ elim (last_message none s.items) [ none ↦ err (message "") | some m ↦ ok m ]
]
