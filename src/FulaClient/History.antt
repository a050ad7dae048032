-- ===== src/FulaClient/History.antt =====
-- connection.ts: which status a connection can have, whatever the order of what happens.
use fula_archived.Prelude.{
  Text, ◌||◌, Bool, true, false, List, [], ◌∷◌, ◌++◌, ◌≡◌, ◌≢◌, refl, ltb, ◌==◌, if◌then◌else◌, ◌∙◌,
}
use fula_archived.FulaClient.{
  Emitted, connected, Status, online, offline, connecting, FulaConnection, new_connection, start,
  stop, Happening, started_by_client, stopped_by_client, peer_connect, peer_disconnect,
  connect_timer, disconnect_timer, connect_fires, disconnect_fires, happen, happen_all,
}

abbrev pub IsStart : Happening → Type 0
IsStart started_by_client = Unit {0}
IsStart h = ⊥

abbrev pub NoStart : List Happening → Type 0
NoStart [] = Unit {0}
NoStart (h ∷ hs) = (¬ (IsStart h)) × NoStart hs

keeps_if :
    (b : Bool) (P : FulaConnection → Type 0) (x y : FulaConnection)
    → P x
    → P y
    → P (if b then x else y)
keeps_if true P x y h k = h
keeps_if false P x y h k = k

goes_if :
    (b : Bool) (P : FulaConnection → Type 0) (x y : FulaConnection)
    → b ≡ true
    → P x
    → P (if b then x else y)
goes_if true P x y e h = h
goes_if false P x y e h = cc

skips_if :
    (b : Bool) (P : FulaConnection → Type 0) (x y : FulaConnection)
    → b ≡ false
    → P y
    → P (if b then x else y)
skips_if true P x y e h = cc
skips_if false P x y e h = h

-- A connection that is stopped and for which no timer runs.
pub record IsQuiet (c : FulaConnection) : Type 0 where
  pub status : c.status ≡ offline
  pub listening : c.listening ≡ false
  pub connect_timers : c.connect_timers ≡ 0
  pub disconnect_timers : c.disconnect_timers ≡ 0

IsQuiet-happen :
    (h : Happening) (c : FulaConnection) → ¬ (IsStart h) → IsQuiet c → IsQuiet (happen h c)
unfolding happen stop
IsQuiet-happen started_by_client c n q = absurd (n tt)
IsQuiet-happen stopped_by_client c n q = record {
  status = refl;
  listening = refl;
  connect_timers = q.connect_timers;
  disconnect_timers = q.disconnect_timers;
}
IsQuiet-happen peer_connect c n q = skips_if c.listening IsQuiet _ _ q.listening q
IsQuiet-happen peer_disconnect c n q = skips_if c.listening IsQuiet _ _ q.listening q
IsQuiet-happen (connect_timer size) c n q =
    goes_if (c.connect_timers == 0) IsQuiet _ _ (rw q.connect_timers refl) q
IsQuiet-happen (disconnect_timer size) c n q =
    goes_if (c.disconnect_timers == 0) IsQuiet _ _ (rw q.disconnect_timers refl) q

stays_offline :
    (hs : List Happening) (c : FulaConnection)
    → NoStart hs
    → IsQuiet c
    → (happen_all hs c).status ≡ offline
unfolding happen_all
stays_offline [] c n q = q.status
stays_offline (h ∷ hs) c (n, ns) q = stays_offline hs (happen h c) ns (IsQuiet-happen h c n q)

-- A connection whose timers have all fired when it is stopped stays offline, whatever happens then,
-- until it is started again.
pub stopped_for_good :
    (hs : List Happening) (c : FulaConnection)
    → NoStart hs
    → c.connect_timers ≡ 0
    → c.disconnect_timers ≡ 0
    → (happen_all hs (stop c)).status ≡ offline
unfolding stop
stopped_for_good hs c n k d =
    stays_offline hs (stop c) n
      (record { status = refl; listening = refl; connect_timers = k; disconnect_timers = d })

-- The last status that was emitted, and whether a peer was.
abbrev pub last_status : Status → List Emitted → Status
last_status s [] = s
last_status s (connected ∷ es) = last_status s es
last_status s (Emitted.status t ∷ es) = last_status t es

abbrev pub has_connected : List Emitted → Bool
has_connected [] = false
has_connected (connected ∷ es) = true
has_connected (Emitted.status t ∷ es) = has_connected es

last_status-append :
    (s : Status) (es fs : List Emitted)
    → last_status s (es ++ fs) ≡ last_status (last_status s es) fs
last_status-append s [] fs = refl
last_status-append s (connected ∷ es) fs = last_status-append s es fs
last_status-append s (Emitted.status t ∷ es) fs = last_status-append t es fs

has_connected-append :
    (es fs : List Emitted) → has_connected (es ++ fs) ≡ (has_connected es || has_connected fs)
has_connected-append [] fs = refl
has_connected-append (connected ∷ es) fs = refl
has_connected-append (Emitted.status t ∷ es) fs = has_connected-append es fs

or_true : (b : Bool) → (b || true) ≡ true
or_true true = refl
or_true false = refl

-- The listeners know the status, and it is online only if they were told of a peer.
abbrev pub Told : Status → List Emitted → Type 0
Told s es = (last_status offline es ≡ s) × (s ≡ online → has_connected es ≡ true)

abbrev pub IsTold : FulaConnection → Type 0
IsTold c = Told c.status c.emitted

Told-emit :
    (s : Status) (es : List Emitted)
    → (s ≡ online → has_connected es ≡ true)
    → Told s (es ++ Emitted.status s ∷ [])
Told-emit s es h = (
  last_status-append offline es (Emitted.status s ∷ []),
  λ e. rw (has_connected-append es (Emitted.status s ∷ []), h e) refl,
)

offline-ne-online : offline ≢ online
offline-ne-online e = cc

connecting-ne-online : connecting ≢ online
connecting-ne-online e = cc

told_of_peer : (es : List Emitted) → has_connected (es ++ connected ∷ []) ≡ true
told_of_peer es = has_connected-append es (connected ∷ []) ∙ or_true (has_connected es)

IsTold-happen : (h : Happening) (c : FulaConnection) → IsTold c → IsTold (happen h c)
unfolding happen start stop connect_fires disconnect_fires
IsTold-happen started_by_client c t =
    Told-emit connecting c.emitted (λ e. absurd (connecting-ne-online e))
IsTold-happen stopped_by_client c t =
    Told-emit offline c.emitted (λ e. absurd (offline-ne-online e))
IsTold-happen peer_connect c t = keeps_if c.listening IsTold _ _ t t
IsTold-happen peer_disconnect c t = keeps_if c.listening IsTold _ _ t t
IsTold-happen (connect_timer size) c t = keeps_if (c.connect_timers == 0) IsTold _ _ t (
    keeps_if (ltb 0 size) IsTold _ _
      (Told-emit online (c.emitted ++ connected ∷ []) (λ e. told_of_peer c.emitted)) t)
IsTold-happen (disconnect_timer size) c t = keeps_if (c.disconnect_timers == 0) IsTold _ _ t (
    keeps_if (size == 0) IsTold _ _
      (Told-emit connecting c.emitted (λ e. absurd (connecting-ne-online e))) t)

IsTold-happen_all : (hs : List Happening) (c : FulaConnection) → IsTold c → IsTold (happen_all hs c)
unfolding happen_all
IsTold-happen_all [] c t = t
IsTold-happen_all (h ∷ hs) c t = IsTold-happen_all hs (happen h c) (IsTold-happen h c t)

-- Whatever happens to a new connection and in whatever order, the status that its listeners were told
-- last is its status, which is offline as long as none was told; and it is online only if they
-- were told of a peer that is connected.
pub status_told :
    (hs : List Happening) (ids : List Text)
    → (last_status offline (happen_all hs (new_connection ids)).emitted
        ≡ (happen_all hs (new_connection ids)).status)
      × ((happen_all hs (new_connection ids)).status ≡ online
          → has_connected (happen_all hs (new_connection ids)).emitted ≡ true)
unfolding new_connection
status_told hs ids =
    IsTold-happen_all hs (new_connection ids) (refl, λ e. absurd (offline-ne-online e))
