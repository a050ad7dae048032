-- ===== src/Firmware/Requests/Exits.antt =====
-- apps/firmware/server.js: when a process that was interrupted ends.
use fula_archived.Prelude.{
  ℕ, zero, suc, ◌+◌, ◌<◌, true, false, List, [], ◌∷◌, replicate, ◌≡◌, refl, ◌∙◌, arith, ◌==◌,
}
use fula_archived.Firmware.Requests.{
  Server, ServerEvent, arrived, answered, broke, interrupted, new_server, server_step, server_run,
}

-- The count is that of the requests that are answered and of those that threw.
abbrev IsCounted : Server → Type 0
IsCounted s = s.count ≡ s.in_flight + s.broken

server_step-IsCounted : (e : ServerEvent) (s : Server) → IsCounted s → IsCounted (server_step e s)
unfolding server_step
server_step-IsCounted arrived s h = ground arith
server_step-IsCounted answered s h = ground arith
server_step-IsCounted broke s h = ground arith
server_step-IsCounted interrupted s h = ground arith

server_run-IsCounted :
    (es : List ServerEvent) (s : Server) → IsCounted s → IsCounted (server_run es s)
unfolding server_run
server_run-IsCounted [] s h = h
server_run-IsCounted (e ∷ es) s h =
    server_run-IsCounted es (server_step e s) (server_step-IsCounted e s h)

-- A process with a request that threw.
abbrev IsStuck : Server → Type 0
IsStuck s = IsCounted s × (0 < s.broken) × (s.exited ≡ false)

server_step-IsStuck : (e : ServerEvent) (s : Server) → IsStuck s → IsStuck (server_step e s)
unfolding server_step
server_step-IsStuck arrived s (c, b, x) = ground arith
server_step-IsStuck answered s (c, b, x) = ground arith
server_step-IsStuck broke s (c, b, x) = ground arith
server_step-IsStuck interrupted s (c, b, x) = ground arith

stuck_stays : (es : List ServerEvent) (s : Server) → IsStuck s → (server_run es s).exited ≡ false
unfolding server_run
stuck_stays [] s (c, b, x) = x
stuck_stays (e ∷ es) s h = stuck_stays es (server_step e s) (server_step-IsStuck e s h)

not_zero : (k : ℕ) → false ≡ (suc k == 0)
not_zero k = ground arith

-- A process that waits for some requests, one or more.
abbrev IsWaiting : ℕ → Server → Type 0
IsWaiting n s = (s.count ≡ suc n) × (s.in_flight ≡ suc n) × (s.waits ≡ true) × (s.exited ≡ false)

answered-IsWaiting :
    (n : ℕ) (s : Server) → IsWaiting (suc n) s → IsWaiting n (server_step answered s)
unfolding server_step
answered-IsWaiting n s (c, i, w, x) = ground arith

last_answered : (s : Server) → IsWaiting 0 s → (server_step answered s).exited ≡ true
unfolding server_step
last_answered s (c, i, w, x) = ground arith

all_answered :
    (n : ℕ) (s : Server) → IsWaiting n s → (server_run (replicate (suc n) answered) s).exited ≡ true
unfolding server_run
all_answered zero s h = last_answered s h
all_answered (suc n) s h = all_answered n (server_step answered s) (answered-IsWaiting n s h)

interrupted-IsWaiting :
    (n : ℕ) (s : Server)
    → IsCounted s
    → s.broken ≡ 0
    → s.exited ≡ false
    → s.in_flight ≡ suc n
    → IsWaiting n (server_step interrupted s)
unfolding server_step
interrupted-IsWaiting n s c b x i = ground arith

interrupted_idle :
    (s : Server)
    → IsCounted s
    → s.broken ≡ 0
    → s.exited ≡ false
    → s.in_flight ≡ 0
    → (server_step interrupted s).exited ≡ true
unfolding server_step
interrupted_idle s c b x i = ground arith

ends_after :
    (n b : ℕ) (s : Server)
    → s.in_flight ≡ n
    → s.broken ≡ b
    → IsCounted s
    → s.exited ≡ false
    → (server_run (interrupted ∷ replicate n answered) s).exited ≡ (b == 0)
unfolding server_run
ends_after zero zero s i b c x = interrupted_idle s c b x i
ends_after (suc n) zero s i b c x =
    all_answered n (server_step interrupted s) (interrupted-IsWaiting n s c b x i)
ends_after n (suc k) s i b c x =
    stuck_stays (replicate n answered) (server_step interrupted s)
      (server_step-IsStuck interrupted s (c, omega (arith, b), x))
    ∙ not_zero k

-- Whatever requests a server has had, when it is interrupted and then each request that it is answering is
-- answered, its process ends if none of its requests has thrown, and goes on otherwise: such a request
-- is counted for good.
pub interrupted_lem :
    (es : List ServerEvent)
    → (server_run es new_server).exited ≡ false
    → (server_run
        (interrupted ∷ replicate (server_run es new_server).in_flight answered)
        (server_run es new_server)).exited
      ≡ ((server_run es new_server).broken == 0)
interrupted_lem es x =
    ends_after _ _ (server_run es new_server) refl refl (server_run-IsCounted es new_server refl) x
