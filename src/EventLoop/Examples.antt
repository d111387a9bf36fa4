-- ===== src/EventLoop/Examples.antt =====
-- The theorems about the event loop at a loop with two waiting events.
use kj.Base.{ℕ, ◌≡◌, refl, none, some, List, [], ◌∷◌, ◌==◌, if◌then◌else◌, arith}
use kj.EventLoop.{EventLoop, head, next_of, after, update, fresh, destroy, on_thread, turn, turned}
use kj.EventLoop.Refine.{IsQueue}
use kj.EventLoop.Destroy.{erase, destroy-erase}
use kj.EventLoop.Order.{ArmCall, depth, breadth, callback, turn-order, Keeps}

-- Events 1 and 2 wait.
abbrev waiting : EventLoop
waiting = record (fresh 100 (some 100)) {
  first = some 1;
  next = update (λ e. none) 1 (some 2);
  prev = update (update (λ e. none) 1 (some head)) 2 (some (next_of 1));
  tail = next_of 2;
}

waiting-IsQueue : IsQueue waiting [] (1 ∷ 2 ∷ [])
unfolding fresh
waiting-IsQueue = record {
  chain = (refl, refl, (refl, refl, refl));
  distinct = (refl, (refl, tt));
  insert_at = refl;
  ends = refl;
  others = λ e h. ground arith;
}

destroy-erase_example : IsQueue (after (destroy 1 waiting)) [] (2 ∷ [])
unfolding erase
destroy-erase_example = destroy-erase 1 waiting [] (1 ∷ 2 ∷ []) waiting-IsQueue

-- Event 1 arms 3 and 5 depth-first, and 4 breadth-first in between; the others arm nothing.
abbrev calls : ℕ → List ArmCall
calls e = if e == 1 then depth 3 ∷ breadth 4 ∷ depth 5 ∷ [] else []

turn-order_example :
    (l' : EventLoop) × (turn (callback calls) waiting ≡ turned l')
    × IsQueue l' [] (3 ∷ 5 ∷ 2 ∷ 4 ∷ [])
    × Keeps waiting l'
unfolding fresh on_thread
turn-order_example =
    turn-order calls 1 waiting [] (1 ∷ 2 ∷ []) (2 ∷ []) waiting-IsQueue refl refl
      (refl, (refl, (refl, tt)))
