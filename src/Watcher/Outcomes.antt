-- ===== src/Watcher/Outcomes.antt =====
-- When WatchResource reports that the resource is ready.
use core_provider.Base.{
  String, List, [], ◌∷◌, ◌++◌, none, some, Bool, true, false, ◌≡◌, refl, ap, arith, str_eq,
  Bool-cases, inl, inr,
}
use core_provider.Base.Result.{ok}
use core_provider.Watcher.{Signal, timeout, event, watch_loop}

module _ {T : Type 0} (checker : T → Bool) where
  -- a signal after which the watch goes on
  abbrev pub IsPending : Signal T → Type 0
  IsPending timeout = ⊥
  IsPending (event type none) = Unit
  IsPending (event type (some obj)) = (checker obj ≡ false) × (str_eq type "DELETED" ≡ false)

  abbrev pub AllPending : List (Signal T) → Type 0
  AllPending [] = Unit
  AllPending (s ∷ rest) = IsPending s × AllPending rest

  -- Some event has a ready object, and no timeout and no deletion comes before it.
  pub data BecomesReady (signals : List (Signal T)) : Type 0 where
    becomes_ready :
        (before after : List (Signal T)) (type : String) (obj : T)
        → signals ≡ before ++ event type (some obj) ∷ after
        → AllPending before
        → checker obj ≡ true
        → BecomesReady signals

  pending-skip :
      (s : Signal T) (rest : List (Signal T))
      → IsPending s
      → watch_loop checker (s ∷ rest) ≡ watch_loop checker rest
  unfolding watch_loop
  pending-skip timeout rest p = absurd p
  pending-skip (event type none) rest p = refl
  pending-skip (event type (some obj)) rest p = ground arith

  ready-watch_loop :
      (before after : List (Signal T)) (type : String) (obj : T)
      → AllPending before
      → checker obj ≡ true
      → watch_loop checker (before ++ event type (some obj) ∷ after) ≡ ok tt
  unfolding watch_loop
  ready-watch_loop [] after type obj p r = rw r
  ready-watch_loop (s ∷ before) after type obj p r =
      rw (pending-skip s (before ++ event type (some obj) ∷ after) p.0)
        (ready-watch_loop before after type obj p.1 r)

  later :
      (s : Signal T) {rest : List (Signal T)}
      → IsPending s
      → BecomesReady rest
      → BecomesReady (s ∷ rest)
  later s p (becomes_ready before after type obj e ps r) =
      becomes_ready (s ∷ before) after type obj (ap (λ (x : List (Signal T)). s ∷ x) e) (p, ps) r

  watch_loop-BecomesReady :
      (signals : List (Signal T)) → watch_loop checker signals ≡ ok tt → BecomesReady signals
  unfolding watch_loop
  watch_loop-BecomesReady [] h = cc
  watch_loop-BecomesReady (timeout ∷ rest) h = cc
  watch_loop-BecomesReady (event type none ∷ rest) h =
      later (event type none) tt (watch_loop-BecomesReady rest h)
  watch_loop-BecomesReady (event type (some obj) ∷ rest) h = elim (Bool-cases (checker obj)) [
    | inl ready ↦ becomes_ready [] rest type obj refl tt ready
    | inr waiting ↦ elim (Bool-cases (str_eq type "DELETED")) [
      | inl gone ↦ ground arith
      | inr alive ↦
          later (event type (some obj)) (waiting, alive)
            (watch_loop-BecomesReady rest (ground arith))
    ]
  ]

  -- The watch succeeds exactly when an event has a ready object and neither the timeout nor the
  -- deletion of an object that is not ready comes before it.
  pub watch_loop-ok :
      (signals : List (Signal T))
      → (watch_loop checker signals ≡ ok tt → BecomesReady signals)
        × (BecomesReady signals → watch_loop checker signals ≡ ok tt)
  watch_loop-ok signals = (watch_loop-BecomesReady signals, from)
    where
      from : BecomesReady signals → watch_loop checker signals ≡ ok tt
      from (becomes_ready before after type obj e p r) =
          rw e (ready-watch_loop before after type obj p r)
