-- ===== src/App/Shutdown/Registered.antt =====
-- app/app.go: which connections are in the registry, and how long a shutdown waits.
use deviceconnect.Prelude.{
  ℕ, ◌+◌, ◌*◌, ◌/◌, ◌%◌, ◌^◌, ◌≤◌, ◌<◌, zero, suc, List, [], ◌∷◌, ◌++◌, length, map, Option, none,
  some, ◌==◌, if_elim, get_elem?, ◌≡◌, refl, sym, ap, ◌∙◌, arith,
}
use mathlib.Core.Path.{subst}
use native.Mathlib.Nat.{mul-div-le, lt-mul-div-succ, le-div_iff_mul-le, mul-add, mul-one}
use deviceconnect.Errors.{ok}
use deviceconnect.App.Shutdown.{
  Cancels, put, delete, remove_at, Registry, register_shutdown_cancel, unregister_shutdown_cancel,
  Step, cancelled, ticked, cancel_all, interval, shutdown, Server, Change, arrives, leaves, left,
  change_step, run,
}

map-append {ℓ κ} :
    {A : Type ℓ} {B : Type κ} (f : A → B) (xs ys : List A) → map f (xs ++ ys) ≡ map f xs ++ map f ys
map-append f [] ys = refl
map-append f (x ∷ xs) ys = ap (λ zs. f x ∷ zs) (map-append f xs ys)

map-remove_at {ℓ κ} :
    {A : Type ℓ} {B : Type κ} (f : A → B) (n : ℕ) (xs : List A)
    → map f (remove_at n xs) ≡ remove_at n (map f xs)
map-remove_at f n [] = refl
map-remove_at f zero (x ∷ xs) = refl
map-remove_at f (suc n) (x ∷ xs) = ap (λ zs. f x ∷ zs) (map-remove_at f n xs)

remove_at-none {ℓ} :
    {A : Type ℓ} (n : ℕ) (xs : List A) → get_elem? xs n ≡ none → remove_at n xs ≡ xs
remove_at-none n [] h = refl
remove_at-none zero (x ∷ xs) h = absurd cc
remove_at-none (suc n) (x ∷ xs) h = ap (λ zs. x ∷ zs) (remove_at-none n xs h)

mul-succ : (n k : ℕ) → n * (k + 1) ≡ n * k + n
mul-succ n k = mul-add n k 1 ∙ ap (λ x. n * k + x) (mul-one n)

module _ {C : Type 0} where
  -- The open connections after some changes, as a list alone.
  abbrev pub live : List C → List (Change C) → List C
  live cs [] = cs
  live cs (arrives c ∷ changes) = live (cs ++ (c ∷ [])) changes
  live cs (leaves n ∷ changes) = live (remove_at n cs) changes

  abbrev pub arrivals : List (Change C) → ℕ
  arrivals [] = 0
  arrivals (arrives c ∷ changes) = arrivals changes + 1
  arrivals (leaves n ∷ changes) = arrivals changes

  -- The ids of a map go up from above `lo` to `hi`.
  abbrev IsAscending : ℕ → Cancels C → ℕ → Type 0
  IsAscending lo [] hi = lo ≤ hi
  IsAscending lo ((id, c) ∷ m) hi = (lo < id) × IsAscending id m hi

  IsAscending-le : (lo hi : ℕ) (m : Cancels C) → IsAscending lo m hi → lo ≤ hi
  IsAscending-le lo hi [] h = h
  IsAscending-le lo hi ((id, c) ∷ m) (h, a) = omega (arith, IsAscending-le id hi m a)

  IsAscending-lower :
      (lo lo' hi : ℕ) (m : Cancels C) → lo' ≤ lo → IsAscending lo m hi → IsAscending lo' m hi
  IsAscending-lower lo lo' hi [] le h = omega arith
  IsAscending-lower lo lo' hi ((id, c) ∷ m) le (h, a) = (omega arith, a)

  put-new :
      (lo hi id : ℕ) (c : C) (m : Cancels C)
      → IsAscending lo m hi
      → hi < id
      → (put id c m ≡ m ++ ((id, c) ∷ [])) × IsAscending lo (put id c m) id
  put-new lo hi id c [] a h = (refl, (omega arith, omega arith))
  put-new lo hi id c ((k, d) ∷ m) (l, a) h =
      let (e, b) = put-new k hi id c m a h in
      let le = IsAscending-le k hi m a in
      if_elim (λ x. (x ≡ (k, d) ∷ (m ++ ((id, c) ∷ []))) × IsAscending lo x id) (k == id)
        ((id, c) ∷ m) ((k, d) ∷ put id c m) (λ same. absurd (ground (arith, le)))
        (λ _. (ap (λ xs. (k, d) ∷ xs) e, (l, b)))

  delete-absent : (lo hi id : ℕ) (m : Cancels C) → IsAscending lo m hi → id ≤ lo → delete id m ≡ m
  delete-absent lo hi id [] a h = refl
  delete-absent lo hi id ((k, c) ∷ m) (l, a) h =
      ground (arith, delete-absent k hi id m a (omega arith))

  delete-remove_at :
      (lo hi n : ℕ) (m : Cancels C) (id : ℕ) (c : C)
      → IsAscending lo m hi
      → get_elem? m n ≡ some (id, c)
      → (delete id m ≡ remove_at n m) × IsAscending lo (remove_at n m) hi × (lo < id)
  delete-remove_at lo hi n [] id c a = λ h. absurd cc
  delete-remove_at lo hi zero ((k, d) ∷ m) id c (l, a) = λ h.
      let same : k ≡ id = cc in
      (
        ground (arith, delete-absent k hi id m a (omega arith)),
        IsAscending-lower k lo hi m (omega arith) a,
        omega arith,
      )
  delete-remove_at lo hi (suc n) ((k, d) ∷ m) id c (l, a) = λ h.
      let (e, b, lt) = delete-remove_at k hi n m id c a h in
      (ground (arith, e), (l, b), omega arith)

  abbrev swap : ℕ × C → C × ℕ
  swap (id, c) = (c, id)

  -- The connections hold the ids of the map, and `cs` are its cancel functions.
  abbrev IsServing : Server C → List C → Type 0
  IsServing s cs =
      IsAscending 0 s.registry.shutdown_cancels s.registry.shutdown_id
      × (s.connections ≡ map swap s.registry.shutdown_cancels)
      × (map (λ x. x.1) s.registry.shutdown_cancels ≡ cs)

  get_elem?-swap-none :
      (n : ℕ) (m : Cancels C) → get_elem? (map swap m) n ≡ none → get_elem? m n ≡ none
  get_elem?-swap-none n [] h = refl
  get_elem?-swap-none zero (x ∷ m) h = absurd cc
  get_elem?-swap-none (suc n) (x ∷ m) h = get_elem?-swap-none n m h

  get_elem?-swap-some :
      (n : ℕ) (m : Cancels C) (c : C) (id : ℕ)
      → get_elem? (map swap m) n ≡ some (c, id)
      → get_elem? m n ≡ some (id, c)
  get_elem?-swap-some n [] c id h = absurd cc
  get_elem?-swap-some zero ((k, d) ∷ m) c id h =
      let a : d ≡ c = cc in let b : k ≡ id = cc in rw (a, b) refl
  get_elem?-swap-some (suc n) (x ∷ m) c id h = get_elem?-swap-some n m c id h

  change_step-arrives :
      (s : Server C) (cs : List C) (c : C)
      → IsServing s cs
      → s.registry.shutdown_id + 1 < 2 ^ 32
      → IsServing (change_step s (arrives c)) (cs ++ (c ∷ []))
        × ((change_step s (arrives c)).registry.shutdown_id ≡ s.registry.shutdown_id + 1)
  unfolding change_step register_shutdown_cancel
  change_step-arrives s cs c (a, held, values) h =
      let id : ℕ = (s.registry.shutdown_id + 1) % 2 ^ 32 in
      let same : id ≡ s.registry.shutdown_id + 1 = omega arith in
      let (e, b) =
        put-new 0 s.registry.shutdown_id id c s.registry.shutdown_cancels a (omega (arith, same)) in
      (
        (
          b,
          ap (λ xs. xs ++ ((c, id) ∷ [])) held
              ∙ (sym (map-append swap s.registry.shutdown_cancels ((id, c) ∷ []))
                  ∙ ap (map swap) (sym e)),
          ap (map (λ x. x.1)) e
              ∙ (map-append (λ x. x.1) s.registry.shutdown_cancels ((id, c) ∷ [])
                  ∙ ap (λ xs. xs ++ (c ∷ [])) values),
        ),
        same,
      )

  change_step-leaves :
      (s : Server C) (cs : List C) (n : ℕ)
      → IsServing s cs
      → IsServing (change_step s (leaves n)) (remove_at n cs)
        × ((change_step s (leaves n)).registry.shutdown_id ≡ s.registry.shutdown_id)
  unfolding change_step unregister_shutdown_cancel
  change_step-leaves s cs n (a, held, values) = by_held (get_elem? s.connections n) refl
    where
      m : Cancels C
      m = s.registry.shutdown_cancels

      by_held :
          (x : Option (C × ℕ))
          → get_elem? s.connections n ≡ x
          → IsServing (left n x s) (remove_at n cs)
            × ((left n x s).registry.shutdown_id ≡ s.registry.shutdown_id)
      by_held none e =
          let gone = get_elem?-swap-none n m (ap (λ xs. get_elem? xs n) (sym held) ∙ e) in
          (
            (
              a,
              held,
              (ap (map (λ x. x.1)) (sym (remove_at-none n m gone))
                  ∙ (map-remove_at (λ x. x.1) n m ∙ ap (remove_at n) values)),
            ),
            refl,
          )
      by_held (some (c, id)) e =
          let there = get_elem?-swap-some n m c id (ap (λ xs. get_elem? xs n) (sym held) ∙ e) in
          let (same, b, lt) = delete-remove_at 0 s.registry.shutdown_id n m id c a there in
          (
            (
              subst (λ x. IsAscending 0 x s.registry.shutdown_id) (sym same) b,
              ap (remove_at n) held ∙ (sym (map-remove_at swap n m) ∙ ap (map swap) (sym same)),
              (ap (map (λ x. x.1)) same ∙ (map-remove_at (λ x. x.1) n m ∙ ap (remove_at n) values)),
            ),
            refl,
          )

  run-IsServing :
      (changes : List (Change C)) (s : Server C) (cs : List C)
      → IsServing s cs
      → s.registry.shutdown_id + arrivals changes < 2 ^ 32
      → IsServing (run s changes) (live cs changes)
  unfolding run
  run-IsServing [] s cs i h = i
  run-IsServing (arrives c ∷ changes) s cs i h =
      let (j, e) = change_step-arrives s cs c i (omega arith) in
      run-IsServing changes (change_step s (arrives c)) (cs ++ (c ∷ [])) j (omega (arith, e))
  run-IsServing (leaves n ∷ changes) s cs i h =
      let (j, e) = change_step-leaves s cs n i in
      run-IsServing changes (change_step s (leaves n)) (remove_at n cs) j (omega (arith, e))

  abbrev pub starting : Server C
  starting = record {
    registry = record { shutdown_id = 0; shutdown_cancels = [] };
    connections = [];
  }

  -- While fewer than 2^32 connections have been registered, the registry holds the cancel functions
  -- of the connections that are open, each once, and no other: it implements a list to which a
  -- connection is added when it begins and from which it is taken when it ends.
  pub run-live :
      (changes : List (Change C))
      → arrivals changes < 2 ^ 32
      → map (λ x. x.1) (run starting changes).registry.shutdown_cancels ≡ live [] changes
  run-live changes h =
      (run-IsServing changes starting [] ((omega arith), refl, refl) (omega arith)).2

  -- The functions that were called, and how often the ticker was waited for.
  abbrev pub called : List (Step C) → List C
  called [] = []
  called (cancelled c ∷ steps) = c ∷ called steps
  called (ticked ∷ steps) = called steps

  abbrev pub ticks : List (Step C) → ℕ
  ticks [] = 0
  ticks (cancelled c ∷ steps) = ticks steps
  ticks (ticked ∷ steps) = ticks steps + 1

  cancel_all-called : (m : Cancels C) → called (cancel_all m) ≡ map (λ x. x.1) m
  cancel_all-called [] = refl
  cancel_all-called ((id, c) ∷ m) = ap (λ cs. c ∷ cs) (cancel_all-called m)

  cancel_all-ticks : (m : Cancels C) → ticks (cancel_all m) ≡ length m + 1
  cancel_all-ticks [] = refl
  cancel_all-ticks ((id, c) ∷ m) = omega (arith, cancel_all-ticks m)

  -- A shutdown whose timeout has more nanoseconds than there are registered connections calls
  -- each of the registered functions once, and waits for no more than the timeout and for less than
  -- one nanosecond for each wait below it.
  pub shutdown-ticks :
      (timeout : ℕ) (r : Registry C)
      → length r.shutdown_cancels < timeout
      → (steps : List (Step C)) × (shutdown timeout r ≡ ok steps)
        × (called steps ≡ map (λ x. x.1) r.shutdown_cancels)
        × (ticks steps * interval timeout r ≤ timeout)
        × (timeout < ticks steps * interval timeout r + ticks steps)
  unfolding shutdown
  shutdown-ticks timeout r h =
      let n = length r.shutdown_cancels + 1 in
      let positive : 0 < n = omega arith in
      let one_each : 1 * n ≤ timeout = omega arith in
      let low : 1 ≤ timeout / n = (le-div_iff_mul-le positive).1 one_each in
      let le = mul-div-le timeout n in
      let lt : timeout < n * (timeout / n + 1) = lt-mul-div-succ timeout positive in
      let size = cancel_all-ticks r.shutdown_cancels in
      (
        cancel_all r.shutdown_cancels,
        ground (arith, low),
        cancel_all-called r.shutdown_cancels,
        rw size le,
        rw size (subst (λ x. timeout < x) (mul-succ n (timeout / n)) lt),
      )
