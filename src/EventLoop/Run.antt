-- ===== src/EventLoop/Run.antt =====
-- `EventLoop::run` (async.cpp) against a queue that is a list.
use kj.Base.{ℕ, zero, suc, ◌≡◌, refl, Bool, false, List, [], ◌∷◌, ◌++◌, arith, ap, ◌∙◌}
use kj.EventLoop.{EventLoop, done, is_some, set_runnable, stop_running}
use kj.EventLoop.Queue.{first_of, Chain-first}
use kj.EventLoop.Refine.{IsQueue, IsQueue-same, set_runnable-IsQueue}
use kj.EventLoop.Order.{ArmCall, depths, breadths, AllNew, latest, Told, set_runnable-Keeps}

-- The events that are left after a number of turns, the next first.
unfoldable pub after_turns : (ℕ → List ArmCall) → ℕ → List ℕ → List ℕ
after_turns calls zero queue = queue
after_turns calls (suc n) [] = []
after_turns calls (suc n) (e ∷ rest) =
    after_turns calls n (depths (calls e) ++ (rest ++ breadths (calls e)))

-- In none of the turns a callback arms an event that is in the queue.
abbrev pub NewEachTurn : (ℕ → List ArmCall) → ℕ → List ℕ → Type 0
NewEachTurn calls zero queue = Unit {0}
NewEachTurn calls (suc n) [] = Unit {0}
NewEachTurn calls (suc n) (e ∷ rest) =
    AllNew (calls e) [] rest
    × NewEachTurn calls n (depths (calls e) ++ (rest ++ breadths (calls e)))

set_runnable_lem :
    (b : Bool) (l : EventLoop)
    → ((set_runnable b l).last_runnable ≡ b) × ((set_runnable b l).first ≡ l.first)
unfolding set_runnable
set_runnable_lem b l = ground arith

-- The end of `run` and of `waitImpl` leaves the port told whether an event is left.
pub stop_running-IsQueue :
    (l : EventLoop) (queue : List ℕ)
    → IsQueue l [] queue
    → Told l
    → (l' : EventLoop) × (stop_running (done l) ≡ done l')
      × IsQueue l' [] queue
      × (l'.running ≡ false)
      × (latest l'.notices ≡ is_some (first_of queue))
unfolding stop_running
stop_running-IsQueue l queue q told =
    let left = set_runnable (is_some l.first) l in
    let l' = record left { running = false } in
    let (last, first) = set_runnable_lem (is_some l.first) l in
    (
      l',
      refl,
      IsQueue-same left l' [] _ refl refl refl refl refl
          (set_runnable-IsQueue (is_some l.first) l [] _ q),
      refl,
      (set_runnable-Keeps (is_some l.first) l).told told
          ∙ last
          ∙ ap is_some (Chain-first l queue q.chain),
    )
