-- ===== src/EventLoop/Waiting.antt =====
-- `waitImpl` (async.cpp) up to the call of `get`, against a queue that is a list.
use kj.Base.{ℕ, zero, suc, ◌≡◌, false, List, [], ◌∷◌, ◌++◌, ◌==◌}
use kj.EventLoop.{EventLoop, Outcome, done, failed, is_some, nothing_to_wait_for}
use kj.EventLoop.Queue.{first_of}
use kj.EventLoop.Refine.{IsQueue}
use kj.EventLoop.Order.{ArmCall, depths, breadths, latest}

-- There is an event for each of the turns, and none of them is the event that is waited for.
abbrev pub NotYet : (ℕ → List ArmCall) → ℕ → ℕ → List ℕ → Type 0
NotYet calls d zero queue = Unit {0}
NotYet calls d (suc n) [] = ⊥
NotYet calls d (suc n) (e ∷ rest) =
    ((e == d) ≡ false) × NotYet calls d n (depths (calls e) ++ (rest ++ breadths (calls e)))

-- The event that is waited for, which arms nothing, is first in the queue, or the queue is empty.
abbrev pub Decides : (ℕ → List ArmCall) → ℕ → List ℕ → Type 0
Decides calls d [] = Unit {0}
Decides calls d (e ∷ rest) = (e ≡ d) × (calls d ≡ [])

-- How a wait ends for which this queue decides.
abbrev pub WaitEnd : List ℕ → Outcome → Type 0
WaitEnd [] r =
    (l' : EventLoop) × (r ≡ failed nothing_to_wait_for l') × IsQueue l' [] [] × (l'.running ≡ false)
WaitEnd (e ∷ rest) r =
    (l' : EventLoop) × (r ≡ done l')
    × IsQueue l' [] rest
    × (l'.running ≡ false)
    × (latest l'.notices ≡ is_some (first_of rest))
