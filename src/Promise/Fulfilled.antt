-- ===== src/Promise/Fulfilled.antt =====
-- A promise that is settled through a fulfiller (async-inl.h, `AdapterPromiseNode`) takes its first
-- result, and arms the event that waits for it once.
use kj.Base.{
  ℕ, ◌≡◌, refl, ap, sym, Bool, true, false, Option, none, some, List, [], ◌∷◌, map, ◌⊎◌, inl, inr,
  Option-cases,
}
use kj.Promise.{
  ExceptionOr, empty_result, value_of, broken, Ready, already, waiting_event, Arming, depth_first,
  breadth_first, run_steps,
}
use kj.Promise.Adapter.{AdapterNode, AdapterCall, fresh_adapter, adapter_call, adapter_get}

module _ {E T : Type 0} where
  -- The first result that the calls give.
  abbrev pub first_result : List (AdapterCall E T) → Option (ExceptionOr E T)
  first_result [] = none
  first_result (AdapterCall.fulfill v ∷ calls) = some (value_of v)
  first_result (AdapterCall.reject e ∷ calls) = some (broken e)
  first_result (AdapterCall.on_ready e ∷ calls) = first_result calls

  -- The events that are made to wait.
  abbrev pub awaited : List (AdapterCall E T) → List ℕ
  awaited [] = []
  awaited (AdapterCall.fulfill v ∷ calls) = awaited calls
  awaited (AdapterCall.reject e ∷ calls) = awaited calls
  awaited (AdapterCall.on_ready e ∷ calls) = e ∷ awaited calls

  abbrev pub when_settled : ℕ → Option (ExceptionOr E T) → List Arming
  when_settled e none = []
  when_settled e (some r) = depth_first e ∷ []

  -- What is to be armed: a waiting event when the result comes, and an event that comes later.
  abbrev pub expected : List (AdapterCall E T) → List Arming
  expected [] = []
  expected (AdapterCall.fulfill v ∷ calls) = map breadth_first (awaited calls)
  expected (AdapterCall.reject e ∷ calls) = map breadth_first (awaited calls)
  expected (AdapterCall.on_ready e ∷ calls) = when_settled e (first_result calls)

  abbrev settled_node : ExceptionOr E T → Ready → AdapterNode E T
  settled_node r ready = record { result = r; waiting = false; ready = ready }

  abbrev waiting_node : ℕ → AdapterNode E T
  waiting_node e = record { result = empty_result; waiting = true; ready = waiting_event e }

  run-settled :
      (calls : List (AdapterCall E T)) (r : ExceptionOr E T)
      → run_steps adapter_call calls (settled_node r already)
        ≡ some (settled_node r already, map breadth_first (awaited calls))
  unfolding run_steps adapter_call
  run-settled [] r = refl
  run-settled (AdapterCall.fulfill v ∷ calls) r = rw (run-settled calls r)
  run-settled (AdapterCall.reject e ∷ calls) r = rw (run-settled calls r)
  run-settled (AdapterCall.on_ready e ∷ calls) r = rw (run-settled calls r)

  run-done :
      (calls : List (AdapterCall E T)) (r : ExceptionOr E T) (e : ℕ)
      → awaited calls ≡ []
      → run_steps adapter_call calls (settled_node r (waiting_event e))
        ≡ some (settled_node r (waiting_event e), [])
  unfolding run_steps adapter_call
  run-done [] r e h = refl
  run-done (AdapterCall.fulfill v ∷ calls) r e h = rw (run-done calls r e h)
  run-done (AdapterCall.reject x ∷ calls) r e h = rw (run-done calls r e h)
  run-done (AdapterCall.on_ready d ∷ calls) r e h = absurd (cc)

  run-waiting_some :
      (calls : List (AdapterCall E T)) (r : ExceptionOr E T) (e : ℕ)
      → awaited calls ≡ []
      → first_result calls ≡ some r
      → run_steps adapter_call calls (waiting_node e)
        ≡ some (settled_node r (waiting_event e), depth_first e ∷ [])
  unfolding run_steps adapter_call
  run-waiting_some [] r e h g = absurd (cc)
  run-waiting_some (AdapterCall.fulfill v ∷ calls) r e h g =
      rw (run-done calls (value_of v) e h) (cc)
  run-waiting_some (AdapterCall.reject x ∷ calls) r e h g = rw (run-done calls (broken x) e h) (cc)
  run-waiting_some (AdapterCall.on_ready d ∷ calls) r e h g = absurd (cc)

  run-waiting_none :
      (calls : List (AdapterCall E T)) (e : ℕ)
      → awaited calls ≡ []
      → first_result calls ≡ none
      → run_steps adapter_call calls (waiting_node e) ≡ some (waiting_node e, [])
  unfolding run_steps adapter_call
  run-waiting_none [] e h g = refl
  run-waiting_none (AdapterCall.fulfill v ∷ calls) e h g = absurd (cc)
  run-waiting_none (AdapterCall.reject x ∷ calls) e h g = absurd (cc)
  run-waiting_none (AdapterCall.on_ready d ∷ calls) e h g = absurd (cc)

  -- The node's result where it has one, and whether it waits for one.
  abbrev pub result_or_empty : Option (ExceptionOr E T) → ExceptionOr E T
  result_or_empty none = empty_result
  result_or_empty (some r) = r

  abbrev pub has_none : Option (ExceptionOr E T) → Bool
  has_none none = true
  has_none (some r) = false

  -- On a new adapter node, in any order of calls that make one event wait at most: the calls do not
  -- fail, the node has the first result that they give and waits for one if they give none, and the
  -- event is armed once if there is a result, depth-first if it came first and breadth-first if the
  -- result did.
  pub run_steps-adapter_call :
      (calls : List (AdapterCall E T))
      → (awaited calls ≡ []) ⊎ ((e : ℕ) × (awaited calls ≡ e ∷ []))
      → (n : AdapterNode E T) × (run_steps adapter_call calls fresh_adapter
          ≡ some (n, expected calls))
        × (adapter_get n ≡ result_or_empty (first_result calls))
        × (n.waiting ≡ has_none (first_result calls))
  unfolding run_steps adapter_call adapter_get
  run_steps-adapter_call [] h = (fresh_adapter, refl, refl, refl)
  run_steps-adapter_call (AdapterCall.fulfill v ∷ calls) h =
      (settled_node (value_of v) already, rw (run-settled calls (value_of v)), refl, refl)
  run_steps-adapter_call (AdapterCall.reject x ∷ calls) h =
      (settled_node (broken x) already, rw (run-settled calls (broken x)), refl, refl)
  run_steps-adapter_call (AdapterCall.on_ready e ∷ calls) h =
      let rest : awaited calls ≡ [] = elim h [ inl p ↦ absurd (cc) | inr (d, p) ↦ cc ] in
      elim (Option-cases (first_result calls)) [
        | inl g ↦ (
          waiting_node e,
          rw (run-waiting_none calls e rest g)
              (ap (λ t. some (waiting_node e, when_settled e t)) (sym g)),
          ap result_or_empty (sym g),
          ap has_none (sym g),
        )
        | inr (r, g) ↦ (
          settled_node r (waiting_event e),
          rw (run-waiting_some calls r e rest g)
              (ap (λ t. some (settled_node r (waiting_event e), when_settled e t)) (sym g)),
          ap result_or_empty (sym g),
          ap has_none (sym g),
        )
      ]
