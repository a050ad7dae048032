-- ===== src/FulaClient/Running.antt =====
-- index.ts of libraries/fula-client: the streams that the client's operations open and close. The
-- state is the number of streams that are open.
use fula_archived.Prelude.{ℕ, suc, ◌-◌, String, Option, Result, ok, err, stuck}
use fula_archived.FileProtocol.{Connection}
use fula_archived.FulaClient.{FulaConnection}
use fula_archived.FulaClient.Streams.{Libp2p, get_stream_connection}

-- An operation, from the streams that are open before it to its result and those that are open then.
abbrev pub Run : Type 0 → Type 0
Run A = ℕ → Result A × ℕ

abbrev pub continue : {A B : Type 0} → (A → Run B) → Result A × ℕ → Result B × ℕ
continue f (ok a, n) = f a n
continue f (err e, n) = (err e, n)
continue f (stuck, n) = (stuck, n)

infixl 5 ◌>>=◌ ◌>>◌
abbrev pub ◌>>=◌ : {A B : Type 0} → Run A → (A → Run B) → Run B
◌>>=◌ m f n = continue f (m n)

abbrev pub ◌>>◌ : {A B : Type 0} → Run A → Run B → Run B
m >> k = m >>= λ _. k

-- A step that opens and closes nothing.
abbrev pub give : {A : Type 0} → Result A → Run A
give r n = (r, n)

abbrev pub opened : {A : Type 0} → Result A → Run A
opened (ok a) n = (ok a, suc n)
opened (err e) n = (err e, n)
opened stuck n = (stuck, n)

-- `connectionObj.stream.close()`
abbrev pub close_stream : Run (Unit {0})
close_stream n = (ok tt, n - 1)

-- `await _getStreamConnection(protocol)`
unfoldable pub open_stream :
    (p : Libp2p) → (p.Stream → Connection) → Option FulaConnection → String → Run Connection
open_stream p side c protocol =
    opened (get_stream_connection p c protocol) >>= λ s. give (ok (side s))
