-- ===== src/ReactHooks/Loading.antt =====
-- libraries/fula-client-react/src/hooks: what a component shows.
use fula_archived.Prelude.{
  ◌<◌, true, false, Option, none, some, List, [], ◌∷◌, ◌++◌, map, ◌≡◌, refl, ◌∙◌, arith,
}
use fula_archived.ReactHooks.{
  first_shown, shown_data, Lazy, LazyEvent, requested, came, refused, lazy_step, lazy_run,
  Subscribed, SubscriptionEvent, partial, thrown, unmounted, show_partial, subscription_step,
  subscription_run,
}

-- The data that is shown after some results, the last of them.
abbrev pub last_shown : {Data : Type 0} → Data → Option Data → List (Option Data) → Option Data
last_shown nothing shown [] = shown
last_shown nothing shown (d ∷ ds) = last_shown nothing (some (shown_data nothing d)) ds

module _ {Data E : Type 0} where
  abbrev pub first_mounted : Subscribed Data E
  first_mounted = record { shown = first_shown; is_mounted = true; runs = true }

module _ {Data E : Type 0} (nothing : Data) where
  abbrev IsHonest : Lazy Data E → Type 0
  IsHonest l = l.shown.loading ≡ true → 0 < l.in_flight

  lazy_step-IsHonest :
      (e : LazyEvent Data E) (l : Lazy Data E) → IsHonest l → IsHonest (lazy_step nothing e l)
  unfolding lazy_step
  lazy_step-IsHonest (requested ready) l h = ground arith
  lazy_step-IsHonest (came d) l h = ground arith
  lazy_step-IsHonest (refused e) l h = ground arith

  lazy_run-IsHonest :
      (es : List (LazyEvent Data E)) (l : Lazy Data E)
      → IsHonest l
      → IsHonest (lazy_run nothing es l)
  unfolding lazy_run
  lazy_run-IsHonest [] l h = h
  lazy_run-IsHonest (e ∷ es) l h =
      lazy_run-IsHonest es (lazy_step nothing e l) (lazy_step-IsHonest e l h)

  -- `useLazyQuery` shows that it is loading only while a query has not come back, whatever is requested and
  -- comes back in whatever order.
  loading_in_flight :
      (es : List (LazyEvent Data E))
      → (lazy_run nothing es (record { shown = first_shown; in_flight = 0 })).shown.loading ≡ true
      → 0 < (lazy_run nothing es (record { shown = first_shown; in_flight = 0 })).in_flight
  loading_in_flight es h = lazy_run-IsHonest es _ (λ bad. cc) h

  mounted_step :
      (d : Option Data) (s : Subscribed Data E)
      → s.is_mounted ≡ true
      → s.runs ≡ true
      → subscription_step nothing (partial d) s
        ≡ record s { shown = show_partial nothing d s.shown }
  unfolding subscription_step
  mounted_step d s m r = simp (r, m)

  unmounted_step :
      (e : SubscriptionEvent Data E) (s : Subscribed Data E)
      → s.is_mounted ≡ false
      → ((subscription_step nothing e s).is_mounted ≡ false)
        × ((subscription_step nothing e s).shown.current ≡ s.shown.current)
  unfolding subscription_step
  unmounted_step (partial d) s m = ground arith
  unmounted_step (thrown e) s m = ground arith
  unmounted_step unmounted s m = (refl, refl)

  unmounted_same :
      (es : List (SubscriptionEvent Data E)) (s : Subscribed Data E)
      → s.is_mounted ≡ false
      → (subscription_run nothing es s).shown.current ≡ s.shown.current
  unfolding subscription_run
  unmounted_same [] s m = refl
  unmounted_same (e ∷ es) s m =
      let (off, same) = unmounted_step e s m in
      unmounted_same es (subscription_step nothing e s) off ∙ same

  shows_last :
      (ds : List (Option Data)) (es : List (SubscriptionEvent Data E)) (s : Subscribed Data E)
      → s.is_mounted ≡ true
      → s.runs ≡ true
      → ((subscription_run nothing (map partial ds) s).shown.current
          ≡ last_shown nothing s.shown.current ds)
        × ((subscription_run nothing (map partial ds ++ unmounted ∷ es) s).shown.current
            ≡ last_shown nothing s.shown.current ds)
  unfolding subscription_run
  shows_last [] es s m r = (
    refl,
    unmounted_same es (subscription_step nothing unmounted s) (unfold subscription_step in refl)
        ∙ (unfold subscription_step in refl),
  )
  shows_last (d ∷ ds) es s m r =
      rw (mounted_step d s m r, subscription_run) (shows_last ds es _ m r)

  -- While its component is mounted, `useSubscription` shows the data of the last result that came, or what it showed
  -- before where none did; once the component is unmounted, the data stays as it was then, whatever
  -- comes.
  pub subscription_shows :
      (ds : List (Option Data)) (es : List (SubscriptionEvent Data E))
      → ((subscription_run {E = E} nothing (map partial ds) first_mounted).shown.current
          ≡ last_shown nothing none ds)
        × ((subscription_run nothing (map partial ds ++ unmounted ∷ es) first_mounted).shown.current
            ≡ last_shown nothing none ds)
  subscription_shows ds es = shows_last ds es _ refl refl
