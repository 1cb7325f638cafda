-- ===== src/Server/Graceful.antt =====
-- server/server.go, app/app.go and api/http/device.go: a graceful shutdown of the process.
use deviceconnect.Prelude.{
  ℕ, suc, ◌*◌, ◌^◌, ◌≤◌, ◌<◌, List, [], ◌∷◌, length, map, none, ◌≡◌, refl, sym, ap, ◌∙◌,
}
use mathlib.Core.Path.{subst}
use deviceconnect.App.Shutdown.{Step, Change, Cancels, interval, run}
use deviceconnect.App.Shutdown.Registered.{
  live, arrivals, starting, run-live, called, ticks, shutdown-ticks,
}
use deviceconnect.Server.{sigusr1, returned, graceful, init_and_run}

module _ {C : Type 0} where
  length-map : (m : Cancels C) → length (map (λ x. x.1) m) ≡ length m
  length-map [] = refl
  length-map (x ∷ m) = ap suc (length-map m)

  -- A process that was connected, and gets SIGUSR1 after connections came and went, fewer than 2^32 of
  -- them, ends without an error where the HTTP server stops in time and the timeout has more
  -- nanoseconds than there are open connections: each open connection is cancelled once and no
  -- other, and all waiting takes no more than the timeout.
  pub init_and_run-live :
      (changes : List (Change C)) (timeout : ℕ)
      → arrivals changes < 2 ^ 32
      → length (live [] changes) < timeout
      → let r = (run starting changes).registry in
        (steps : List (Step C)) × (init_and_run none none sigusr1 none timeout r ≡ returned steps)
        × (called steps ≡ live [] changes)
        × (ticks steps * interval timeout r ≤ timeout)
  unfolding init_and_run
  init_and_run-live changes timeout few enough =
      let r = (run starting changes).registry in
      let open_ones = run-live changes few in
      let (steps, done, all, bound, _) = shutdown-ticks timeout r (
        subst (λ n. n < timeout) (sym (ap length open_ones) ∙ length-map r.shutdown_cancels)
          enough) in
      (steps, ap graceful done, all ∙ open_ones, bound)
