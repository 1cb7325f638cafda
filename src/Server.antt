-- ===== src/Server.antt =====
-- server/server.go: what the process does from the start of the server to its end. app/app.go: the
-- settings of `New`. client/inventory/client.go: `Search`. What the network and the HTTP server give is the
-- input.
pub mod Graceful
use deviceconnect.Prelude.{
  ℕ, String, Bool, true, false, ◌||◌, List, [], ◌∷◌, Option, none, some, not, ◌==◌, if◌then◌else◌,
}
use deviceconnect.Errors.{Error, Result, ok, err, panic, message, wrap}
use deviceconnect.App.Shutdown.{Registry, Step, shutdown}

-- The loop of `New` over its settings: whether one of them has audit logs.
abbrev pub have_audit_logs : List Bool → Bool
have_audit_logs [] = false
have_audit_logs (b ∷ configs) = b || have_audit_logs configs

-- `unix.SIGINT`, `unix.SIGTERM` and `unix.SIGUSR1`
pub data Signal : Type 0 where
  sigint sigterm sigusr1 : Signal

-- The end of the process: `InitAndRun` returns, with what a graceful shutdown has done, or with an error
-- before it served, or `l.Fatal` or a panic ends it.
pub data Exit (C : Type 0) : Type 0 where
  returned : List (Step C) → Exit C
  failed fatal : Error → Exit C
  crashed : Exit C

module _ {C : Type 0} where
  -- `deviceConnectApp.Shutdown`, which `srv.Shutdown` starts, and `ShutdownDone`, which waits for its end.
  abbrev pub graceful : Result (List (Step C)) → Exit C
  graceful (ok steps) = returned steps
  graceful _ = crashed

  -- From the signal on: `stopped` is how `srv.Shutdown` ends within its five seconds.
  abbrev pub stop : Signal → Option Error → ℕ → Registry C → Exit C
  stop signal (some e) timeout r = fatal e
  stop sigusr1 none timeout r = graceful (shutdown timeout r)
  stop _ none timeout r = returned []

  -- `InitAndRun`: `connected` is how the NATS client is made, and `routed` the router.
  unfoldable pub init_and_run :
      Option Error → Option Error → Signal → Option Error → ℕ → Registry C → Exit C
  unfolding shutdown
  init_and_run (some e) routed signal stopped timeout r = failed e
  init_and_run none (some e) signal stopped timeout r = fatal e
  init_and_run none none signal stopped timeout r = stop signal stopped timeout r

-- An answer of the inventory service: its status, its body as it is decoded, and its count.
pub record SearchAnswer (Dev : Type 0) : Type 0 where
  pub status_code : ℕ
  pub body : Result (List Dev)
  pub total_count : Result ℕ

module _ {Dev : Type 0} where
  abbrev pub counted : List Dev → Result ℕ → Result (List Dev × ℕ)
  counted devs (ok n) = ok (devs, n)
  counted devs (err e) = err (wrap e "error parsing X-Total-Count header")
  counted devs panic = panic

  abbrev pub listed_devices : SearchAnswer Dev → Result (List Dev) → Result (List Dev × ℕ)
  listed_devices a (ok devs) = counted devs a.total_count
  listed_devices a (err e) = err (wrap e "error parsing search devices response")
  listed_devices a panic = panic

  -- `Search`, after the request was made; an error comes with no devices and the count -1.
  unfoldable pub search_inventory : Result (SearchAnswer Dev) → Result (List Dev × ℕ)
  search_inventory (err e) = err (wrap e "search devices request failed")
  search_inventory panic = panic
  search_inventory (ok a) =
      if a.status_code == 200
      then listed_devices a a.body
      else err (message "search devices request failed with unexpected status")
