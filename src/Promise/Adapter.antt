-- ===== src/Promise/Adapter.antt =====
-- `AdapterPromiseNode` (async-inl.h): a promise that is settled through a fulfiller.
use kj.Base.{ℕ, Bool, true, false, Option, none, some, List, [], if◌then◌else◌}
use kj.Promise.{ExceptionOr, empty_result, value_of, broken, Ready, nobody, Arming, init, arm}

module _ (E T : Type 0) where
  pub record AdapterNode : Type 0 where
    pub result : ExceptionOr E T
    pub waiting : Bool
    pub ready : Ready

  -- The calls on a node.
  pub data AdapterCall : Type 0 where
    fulfill : T → AdapterCall
    reject : E → AdapterCall
    on_ready : ℕ → AdapterCall

module _ {E T : Type 0} where
  abbrev pub fresh_adapter : AdapterNode E T
  fresh_adapter = record { result = empty_result; waiting = true; ready = nobody }

  -- `waiting = false; result = ...; setReady();`
  unfoldable pub settle : ExceptionOr E T → AdapterNode E T → Option (AdapterNode E T × List Arming)
  unfolding arm
  settle r n = elim (arm n.ready) [
    | none ↦ none
    | some (ready, armed) ↦ some (record { result = r; waiting = false; ready = ready }, armed)
  ]

  unfoldable pub adapter_call :
      AdapterCall E T → AdapterNode E T → Option (AdapterNode E T × List Arming)
  unfolding init settle
  adapter_call (AdapterCall.fulfill v) n = if n.waiting then settle (value_of v) n else some (n, [])
  adapter_call (AdapterCall.reject e) n = if n.waiting then settle (broken e) n else some (n, [])
  adapter_call (AdapterCall.on_ready e) n =
      let (ready, armed) = init e n.ready in some (record n { ready = ready }, armed)

  -- `get`; the assertion `!isWaiting()` is checked in debug builds only.
  unfoldable pub adapter_get : AdapterNode E T → ExceptionOr E T
  adapter_get n = n.result
