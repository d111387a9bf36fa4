-- ===== src/Promise/Fork/Examples.antt =====
-- A fork with three branches (async.cpp), where event 7 waits for the second.
use kj.Base.{ℕ, ◌≡◌, ◌≢◌, refl, Bool, true, false, none, some, [], ◌∷◌, ◌==◌, if◌then◌else◌}
use kj.EventLoop.{head, next_of, update}
use kj.EventLoop.Queue.{has}
use kj.Promise.{nobody, already, waiting_event, depth_first}
use kj.Promise.Fork.{ForkHub, add_branch, destroy_branch, fire_hub}
use kj.Promise.Fork.Branches.{fired}
use kj.Promise.Fork.Hub.{IsOpen, destroy_branch-IsOpen}
use kj.Promise.Fork.Telling.{fire_hub-armings}

abbrev hub : ForkHub
hub = record {
  head_branch = some 1;
  tail_branch = some (next_of 3);
  next = update (update (update (λ _. none) 1 (some 2)) 2 (some 3)) 3 none;
  prev_ptr =
      update (update (update (λ _. none) 1 (some head)) 2 (some (next_of 1))) 3 (some (next_of 2));
  ready = λ b. if b == 2 then waiting_event 7 else nobody;
}

not_already : (b : Bool) → (if b then waiting_event 7 else nobody) ≢ already
not_already true e = cc
not_already false e = cc

hub-IsOpen : IsOpen hub (1 ∷ 2 ∷ 3 ∷ [])
hub-IsOpen = record {
  tail_at = refl;
  chain = (refl, refl, (refl, refl, (refl, refl, refl)));
  distinct = (refl, (refl, (refl, tt)));
  waits = λ a m. not_already (a == 2);
}

destroy_branch-IsOpen_example : IsOpen (destroy_branch 2 hub) (1 ∷ 3 ∷ [])
destroy_branch-IsOpen_example = destroy_branch-IsOpen hub (1 ∷ []) (3 ∷ []) 2 hub-IsOpen

fire_hub-armings_example :
    (h : ForkHub) × (fire_hub 3 hub ≡ some (h, depth_first 7 ∷ []))
    × (h.head_branch ≡ none)
    × ((b : ℕ)
        → has b (1 ∷ 2 ∷ 3 ∷ []) ≡ true
        → (h.ready b ≡ fired (hub.ready b)) × (destroy_branch b h ≡ h))
    × ((b : ℕ) → (h' : ForkHub) × (add_branch b h ≡ some (h', [])) × (h'.ready b ≡ already))
fire_hub-armings_example = fire_hub-armings hub (1 ∷ 2 ∷ 3 ∷ []) hub-IsOpen
