-- ===== src/Lazy.antt =====
-- `Lazy<T>::get` over `Once` (mutex.h, mutex.cpp), called by threads whose steps are interleaved in
-- any order. The critical section of the system is a parameter: it lets in one thread at a time.
pub mod Inv
pub mod Safety
mod Examples
use native.Mathlib.Decide.{ℕ_discrete}
use mathlib.Core.Logic.{ite}
use kj.Base.{ℕ, ◌+◌, ◌≡◌, ◌≢◌, Bool, true, false, Option, none, some}

-- `Once::State`. `Lazy` does not call `disable`.
pub data State : Type 0 where
  uninitialized initialized : State

-- The object: the state and the mutex of its `once`, the number of the value that it holds, and
-- how often an initializer has made one.
pub record Lazy : Type 0 where
  pub state : State
  pub owner : Option ℕ
  pub value : Option ℕ
  pub made : ℕ

-- Where a thread stands in `get`.
pub data Pc : Type 0 where
  outside : Pc  -- before the test of `isInitialized`
  waiting : Pc  -- at `mutex.lock()`
  locked : Pc  -- before the test of `runOnce`
  running : Pc  -- in the initializer
  storing : Pc  -- before the store of `INITIALIZED`
  leaving : Pc  -- before `mutex.unlock()`
  failing : Pc  -- the same, with an exception of the initializer
  returned : Pc  -- at `return *value`
  failed : Pc

-- One step of the thread `i`.
pub data Move (i : ℕ) (l : Lazy) : Pc → Lazy → Pc → Type 0 where
  fast : l.state ≡ initialized → Move i l outside l returned
  slow : l.state ≢ initialized → Move i l outside l waiting
  lock : l.owner ≡ none → Move i l waiting (record l { owner = some i }) locked
  skip : l.state ≢ uninitialized → Move i l locked l leaving
  begin : l.state ≡ uninitialized → Move i l locked l running
  make : (v : ℕ) → Move i l running (record l { value = some v; made = l.made + 1 }) storing
  throw : Move i l running l failing
  store : Move i l storing (record l { state = initialized }) leaving
  unlock : Move i l leaving (record l { owner = none }) returned
  unlock_failing : Move i l failing (record l { owner = none }) failed

pub record System : Type 0 where
  pub object : Lazy
  pub pc : ℕ → Pc

abbrev pub update : (ℕ → Pc) → ℕ → Pc → ℕ → Pc
update f i p j = ite (ℕ_discrete i j) p (f j)

pub data Step (s : System) : System → Type 0 where
  pick :
      (i : ℕ) {l : Lazy} {p : Pc}
      → Move i s.object (s.pc i) l p
      → Step s (record { object = l; pc = update s.pc i p })

-- Every thread is before its call, or will not make one.
abbrev pub init : System
init = record {
  object = record { state = uninitialized; owner = none; value = none; made = 0 };
  pc = λ _. outside;
}

pub data Reach : System → Type 0 where
  start : Reach init
  later : {s t : System} → Reach s → Step s t → Reach t
