-- ===== src/Watcher.antt =====
-- internal/tools/kube/watcher/watch.go
-- The goroutine and the `select` take turns: the sequence of what reaches them is `List (Signal T)`,
-- with the timeout of the context where it happens, and the closing of the channel at the end.
pub mod Outcomes
use core_provider.Base.{String, List, [], ◌∷◌, Option, none, some, Bool, str_eq, if◌then◌else◌}
use core_provider.Base.Result.{Error, text, wrap, Result, ok, err}
use core_provider.Base.Exec.{Exec}

-- An event has its type and the object, `none` where it is not unstructured or does not convert.
pub data Signal (T : Type 0) : Type 0 where
  timeout : Signal T
  event : String → Option T → Signal T

abbrev pub timed_out : Error
timed_out = text "timeout waiting for resource %s/%s to be ready"

abbrev pub was_deleted : Error
was_deleted = text "resource %s/%s deleted"

abbrev pub watch_ended : Error
watch_ended = text "watch ended before resource %s/%s ready"

module _ {T : Type 0} (checker : T → Bool) where
  unfoldable pub watch_loop : List (Signal T) → Result (Unit {0})
  watch_loop [] = err watch_ended
  watch_loop (timeout ∷ rest) = err timed_out
  watch_loop (event type none ∷ rest) = watch_loop rest
  watch_loop (event type (some obj) ∷ rest) =
      if checker obj
      then ok tt
      else if str_eq type "DELETED"
      then err was_deleted
      else watch_loop rest

  watched : {W : Type 0} → Result (List (Signal T)) × W → Result (Unit {0}) × W
  unfolding watch_loop
  watched (ok signals, w) = (watch_loop signals, w)
  watched (err e, w) = (err (wrap "error watching resource %s/%s: %w" e), w)

  -- NewWatcher(…, checker).WatchResource(ctx, namespace, name). An empty namespace is
  -- metav1.NamespaceAll, the empty string, so that `watch` is given the namespace as it is.
  unfoldable pub watch_resource :
      {W : Type 0}
      → (String → String → Exec W (List (Signal T)))
      → String
      → String
      → Exec W (Unit {0})
  unfolding watched
  watch_resource watch namespace name w = watched (watch namespace name w)
