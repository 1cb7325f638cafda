-- ===== src/App/Shutdown.antt =====
-- app/app.go: the registry of what is cancelled when the service shuts down, and `Shutdown`.
-- api/http/device.go, `Connect`: a device's connection registers when it begins and unregisters when
-- it ends. `C` stands for the functions that cancel a connection.
pub mod Registered
use deviceconnect.Prelude.{
  ℕ, ◌+◌, ◌*◌, ◌/◌, ◌%◌, ◌^◌, zero, suc, List, [], ◌∷◌, ◌++◌, length, Option, none, some, ◌==◌,
  if◌then◌else◌, get_elem?,
}
use deviceconnect.Errors.{Result, ok, panic}

-- `map[uint32]context.CancelFunc`
abbrev pub Cancels : Type 0 → Type 0
Cancels C = List (ℕ × C)

module _ {C : Type 0} where
  -- `a.shutdownCancels[id] = cancel`
  abbrev pub put : ℕ → C → Cancels C → Cancels C
  put id cancel [] = (id, cancel) ∷ []
  put id cancel ((k, c) ∷ m) = if k == id then (id, cancel) ∷ m else (k, c) ∷ put id cancel m

  -- `delete(a.shutdownCancels, id)`
  abbrev pub delete : ℕ → Cancels C → Cancels C
  delete id [] = []
  delete id ((k, c) ∷ m) = if k == id then delete id m else (k, c) ∷ delete id m

abbrev pub remove_at {ℓ} : {A : Type ℓ} → ℕ → List A → List A
remove_at n [] = []
remove_at zero (x ∷ xs) = xs
remove_at (suc n) (x ∷ xs) = x ∷ remove_at n xs

-- `shutdownID`, and the map.
pub record Registry (C : Type 0) : Type 0 where
  pub shutdown_id : ℕ
  pub shutdown_cancels : Cancels C

module _ {C : Type 0} where
  -- `RegisterShutdownCancel`: `atomic.AddUint32` wraps around.
  unfoldable pub register_shutdown_cancel : C → Registry C → ℕ × Registry C
  register_shutdown_cancel cancel r =
      let id = (r.shutdown_id + 1) % 2 ^ 32 in
      (id, record { shutdown_id = id; shutdown_cancels = put id cancel r.shutdown_cancels })

  -- `UnregisterShutdownCancel`
  unfoldable pub unregister_shutdown_cancel : ℕ → Registry C → Registry C
  unregister_shutdown_cancel id r = record r { shutdown_cancels = delete id r.shutdown_cancels }

-- What `Shutdown` does: it calls a cancel function, or waits for the ticker.
pub data Step (C : Type 0) : Type 0 where
  cancelled : C → Step C
  ticked : Step C

module _ {C : Type 0} where
  abbrev pub cancel_all : Cancels C → List (Step C)
  cancel_all [] = ticked ∷ []
  cancel_all ((id, cancel) ∷ m) = cancelled cancel ∷ ticked ∷ cancel_all m

  -- The interval of the ticker.
  abbrev pub interval : ℕ → Registry C → ℕ
  interval timeout r = timeout / (length r.shutdown_cancels + 1)

  -- `Shutdown`, with the timeout in nanoseconds: `time.NewTicker` panics on an interval that is not
  -- positive. The range over the map may give its entries in any order.
  unfoldable pub shutdown : ℕ → Registry C → Result (List (Step C))
  shutdown timeout r = if interval timeout r == 0 then panic else ok (cancel_all r.shutdown_cancels)

-- The connections of devices: each holds its cancel function and the id that it was given.
pub record Server (C : Type 0) : Type 0 where
  pub registry : Registry C
  pub connections : List (C × ℕ)

-- A connection begins, or the n-th of those that are open ends.
pub data Change (C : Type 0) : Type 0 where
  arrives : C → Change C
  leaves : ℕ → Change C

module _ {C : Type 0} where
  abbrev pub arrived : C → Server C → ℕ × Registry C → Server C
  arrived cancel s (id, r) = record {
    registry = r;
    connections = s.connections ++ ((cancel, id) ∷ []);
  }

  abbrev pub left : ℕ → Option (C × ℕ) → Server C → Server C
  left n none s = s
  left n (some (cancel, id)) s = record {
    registry = unregister_shutdown_cancel id s.registry;
    connections = remove_at n s.connections;
  }

  -- `registerID := h.app.RegisterShutdownCancel(cancel)` and the deferred unregistering.
  unfoldable pub change_step : Server C → Change C → Server C
  unfolding register_shutdown_cancel unregister_shutdown_cancel
  change_step s (arrives cancel) = arrived cancel s (register_shutdown_cancel cancel s.registry)
  change_step s (leaves n) = left n (get_elem? s.connections n) s

  unfoldable pub run : Server C → List (Change C) → Server C
  unfolding change_step
  run s [] = s
  run s (c ∷ changes) = run (change_step s c) changes
