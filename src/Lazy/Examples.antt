-- ===== src/Lazy/Examples.antt =====
-- A run of two threads that call `get` of one lazy value (mutex.h, mutex.cpp).
use native.Mathlib.Decide.{ℕ_discrete}
use kj.Base.{ℕ, ◌≤◌, ◌≡◌, ◌≢◌, ◌⊎◌, refl, Option, none, some}
use kj.Lazy.{
  State, uninitialized, initialized, Pc, outside, waiting, locked, running, storing, leaving,
  returned, failed, slow, lock, begin, make, store, unlock, System, update, Step, pick, Reach,
  start, later,
}
use kj.Lazy.Safety.{CanMove, Reach-safe, Reach-live}

not_ready : uninitialized ≢ initialized
not_ready e = cc

abbrev system : State → Option ℕ → Option ℕ → ℕ → (ℕ → Pc) → System
system state owner value made pc = record {
  object = record { state = state; owner = owner; value = value; made = made };
  pc = pc;
}

-- Both threads wait for the mutex.
abbrev pcs_waiting : ℕ → Pc
pcs_waiting = update (update (λ _. outside) 0 waiting) 1 waiting

abbrev both_waiting : System
both_waiting = system uninitialized none none 0 pcs_waiting

both_waiting-Reach : Reach both_waiting
unfolding ℕ_discrete
both_waiting-Reach = later (later start (pick 0 (slow not_ready))) (pick 1 (slow not_ready))

-- The first one is in the initializer.
abbrev pcs_running : ℕ → Pc
pcs_running = update (update pcs_waiting 0 locked) 0 running

abbrev one_running : System
one_running = system uninitialized (some 0) none 0 pcs_running

one_running-Reach : Reach one_running
unfolding ℕ_discrete
one_running-Reach = later (later both_waiting-Reach (pick 0 (lock refl))) (pick 0 (begin refl))

-- It has returned.
abbrev pcs_returned : ℕ → Pc
pcs_returned = update (update (update pcs_running 0 storing) 0 leaving) 0 returned

abbrev one_returned : System
one_returned = system initialized none (some 7) 1 pcs_returned

one_returned-Reach : Reach one_returned
unfolding ℕ_discrete
one_returned-Reach =
    later (later (later one_running-Reach (pick 0 (make 7))) (pick 0 store)) (pick 0 unlock)

-- The other one takes the mutex.
abbrev other_locked : System
other_locked = system initialized (some 1) (some 7) 1 (update pcs_returned 1 locked)

other_locks : Step one_returned other_locked
unfolding ℕ_discrete
other_locks = pick 1 (lock refl)

at_returned : pcs_returned 0 ≡ returned
unfolding ℕ_discrete
at_returned = refl

at_waiting : pcs_running 1 ≡ waiting
unfolding ℕ_discrete
at_waiting = refl

waiting_not_returned : pcs_running 1 ≢ returned
unfolding ℕ_discrete
waiting_not_returned e = cc

waiting_not_failed : pcs_running 1 ≢ failed
unfolding ℕ_discrete
waiting_not_failed e = cc

Reach-safe_example :
    ((i j : ℕ) → pcs_returned i ≡ running → pcs_returned j ≡ running → i ≡ j)
    × (1 ≤ 1)
    × ((i : ℕ) → pcs_returned i ≡ returned → ◌≢◌ {A = Option ℕ} (some 7) none)
Reach-safe_example = Reach-safe one_returned-Reach

Reach-live_example :
    CanMove 1 one_running.object (pcs_running 1)
    ⊎ ((pcs_running 1 ≡ waiting)
        × (j : ℕ) × (one_running.object.owner ≡ some j)
        × CanMove j one_running.object (pcs_running j))
Reach-live_example = Reach-live one_running-Reach 1 waiting_not_returned waiting_not_failed
