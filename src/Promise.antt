-- ===== src/Promise.antt =====
-- Promise nodes (async.h, async-inl.h, async.cpp): results, and the event that waits for a node.
pub mod Adapter
pub mod Fulfilled
pub mod ArrayJoin
pub mod Joined
pub mod Exclusive
pub mod Transform
pub mod Chain
pub mod Fork
pub mod Weak
pub mod Lifecycle
mod Examples
use kj.Base.{ℕ, ◌≡◌, Bool, true, false, Option, none, some, List, [], ◌∷◌, ◌++◌, ◌>>=◌}
use kj.EventLoop.{EventLoop, Outcome, done, failed, arm_depth_first, arm_breadth_first}

-- `ExceptionOr<T>`
pub record ExceptionOr (E T : Type 0) : Type 0 where
  pub exception : Option E
  pub value : Option T

module _ {E T : Type 0} where
  abbrev pub empty_result : ExceptionOr E T
  empty_result = record { exception = none; value = none }

  abbrev pub value_of : T → ExceptionOr E T
  value_of v = record { exception = none; value = some v }

  abbrev pub broken : E → ExceptionOr E T
  broken e = record { exception = some e; value = none }

  -- The first exception is kept.
  unfoldable pub add_exception : E → ExceptionOr E T → ExceptionOr E T
  add_exception e r = elim r.exception [ none ↦ record r { exception = some e } | some old ↦ r ]

-- `OnReadyEvent::event`: null, `_kJ_ALREADY_READY`, or the event that waits.
pub data Ready : Type 0 where
  nobody : Ready
  already : Ready
  waiting_event : ℕ → Ready

-- What a node does to the queue of its event loop.
pub data Arming : Type 0 where
  depth_first : ℕ → Arming
  breadth_first : ℕ → Arming

-- `OnReadyEvent::init`
unfoldable pub init : ℕ → Ready → Ready × List Arming
init e already = (already, breadth_first e ∷ [])
init e nobody = (waiting_event e, [])
init e (waiting_event old) = (waiting_event e, [])

-- `OnReadyEvent::arm`. Where the node is ready already, the call goes through the marker, which
-- points to no event: `none`.
unfoldable pub arm : Ready → Option (Ready × List Arming)
arm nobody = some (already, [])
arm already = none
arm (waiting_event e) = some (waiting_event e, depth_first e ∷ [])

-- The armings, done on the queue.
unfoldable pub perform : List Arming → EventLoop → Outcome
unfolding arm_depth_first arm_breadth_first
perform [] l = done l
perform (depth_first e ∷ rest) l = elim (arm_depth_first e l) [
  | done l' ↦ perform rest l'
  | failed f l' ↦ failed f l'
]
perform (breadth_first e ∷ rest) l = elim (arm_breadth_first e l) [
  | done l' ↦ perform rest l'
  | failed f l' ↦ failed f l'
]

-- Steps one after another, with all that they arm.
module _ {S Step : Type 0} (step : Step → S → Option (S × List Arming)) where
  unfoldable pub run_steps : List Step → S → Option (S × List Arming)
  run_steps [] s = some (s, [])
  run_steps (x ∷ xs) s = do
    (s', first) ← step x s
    (s'', rest) ← run_steps xs s'
    some (s'', first ++ rest)

  pub run_steps-cons :
      (x : Step) (xs : List Step) (s : S) {s' s'' : S} {first rest : List Arming}
      → step x s ≡ some (s', first)
      → run_steps xs s' ≡ some (s'', rest)
      → run_steps (x ∷ xs) s ≡ some (s'', first ++ rest)
  unfolding run_steps
  run_steps-cons x xs s h g = rw h (rw g)
