-- ===== src/ReactHooks.antt =====
-- libraries/fula-client-react/src/hooks: UseLazyQuery.ts and UseSubscription.ts, as what they do to the state of a
-- component. A query is one with a body, and the context has a client, unless a test says so.
pub mod Loading
use fula_archived.Prelude.{
  ℕ, zero, suc, ◌-◌, Bool, true, false, ◌&&◌, Option, none, some, List, [], ◌∷◌, if◌then◌else◌,
  ◌==◌,
}

-- The three `useState` of a hook.
pub record Shown (Data : Type 0) (E : Type 0) : Type 0 where
  pub current : Option Data
  pub error : Option E
  pub loading : Bool

-- The state of `useLazyQuery`, with the number of queries that have not come back.
pub record Lazy (Data : Type 0) (E : Type 0) : Type 0 where
  pub shown : Shown Data E
  pub in_flight : ℕ

-- A call of the request function, with whether there is a client and a body, and what comes back.
pub data LazyEvent (Data : Type 0) (E : Type 0) : Type 0 where
  requested : Bool → LazyEvent Data E
  came : Option Data → LazyEvent Data E
  refused : E → LazyEvent Data E

-- The state of `useSubscription`: `isMounted`, and whether its loop over the results still runs.
pub record Subscribed (Data : Type 0) (E : Type 0) : Type 0 where
  pub shown : Shown Data E
  pub is_mounted : Bool
  pub runs : Bool

pub data SubscriptionEvent (Data : Type 0) (E : Type 0) : Type 0 where
  partial : Option Data → SubscriptionEvent Data E
  thrown : E → SubscriptionEvent Data E
  unmounted : SubscriptionEvent Data E

-- `{...(query?.data || {})}`: no data is shown as an object without fields.
abbrev pub shown_data : {Data : Type 0} → Data → Option Data → Data
shown_data nothing none = nothing
shown_data nothing (some d) = d

module _ {Data E : Type 0} where
  abbrev pub first_shown : Shown Data E
  first_shown = record { current = none; error = none; loading = false }

  abbrev pub set_loading : Bool → Lazy Data E → Lazy Data E
  set_loading b l = record l { shown = record l.shown { loading = b } }

  -- The `finally` of a query.
  abbrev pub come_back : Lazy Data E → Lazy Data E
  come_back l = set_loading false (record l { in_flight = l.in_flight - 1 })

  unfoldable pub lazy_step : Data → LazyEvent Data E → Lazy Data E → Lazy Data E
  lazy_step nothing (requested ready) l =
      if ready then set_loading true (record l { in_flight = suc l.in_flight }) else l
  lazy_step nothing (came d) l =
      if l.in_flight == 0
      then l
      else come_back (record l { shown = record l.shown { current = some (shown_data nothing d) } })
  lazy_step nothing (refused e) l =
      if l.in_flight == 0
      then l
      else come_back (record l { shown = record l.shown { error = some e } })

  unfoldable pub lazy_run : Data → List (LazyEvent Data E) → Lazy Data E → Lazy Data E
  lazy_run nothing [] l = l
  lazy_run nothing (e ∷ es) l = lazy_run nothing es (lazy_step nothing e l)

  -- `setLoading(true); setData(...); setLoading(false)`
  abbrev pub show_partial : Data → Option Data → Shown Data E → Shown Data E
  show_partial nothing d s = record s { current = some (shown_data nothing d); loading = false }

  unfoldable pub subscription_step :
      Data → SubscriptionEvent Data E → Subscribed Data E → Subscribed Data E
  subscription_step nothing (partial d) s =
      if s.runs
      then if s.is_mounted
        then record s { shown = show_partial nothing d s.shown }
        else record s { runs = false }
      else s
  subscription_step nothing (thrown e) s =
      if s.runs then record s { shown = record s.shown { error = some e }; runs = false } else s
  subscription_step nothing unmounted s = record s { is_mounted = false }

  unfoldable pub subscription_run :
      Data → List (SubscriptionEvent Data E) → Subscribed Data E → Subscribed Data E
  subscription_run nothing [] s = s
  subscription_run nothing (e ∷ es) s = subscription_run nothing es (subscription_step nothing e s)
