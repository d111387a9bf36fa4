-- ===== src/Promise/Examples.antt =====
-- Promise nodes at concrete calls.
use kj.Base.{ℕ, ◌≡◌, refl, true, false, none, some, List, [], ◌∷◌, inl, inr, ◌⊎◌, ◌+◌, arith}
use kj.EventLoop.{fresh, after, enter_scope}
use kj.Promise.{
  ExceptionOr, empty_result, value_of, broken, depth_first, breadth_first, perform, run_steps,
}
use kj.Promise.Adapter.{AdapterNode, AdapterCall, fresh_adapter, adapter_call, adapter_get}
use kj.Promise.Fulfilled.{run_steps-adapter_call}
use kj.Promise.ArrayJoin.{JoinNode, branch_fires, on_ready, make_join, join_call}
use kj.Promise.Joined.{run_steps-join_call}
use kj.Promise.Exclusive.{
  ExclusiveNode, make_exclusive, exclusive_call, exclusive_get, fires, branch,
  exclusive_get-run_steps, exclusive_get_both,
}
use kj.Promise.Exclusive
use kj.Promise.Transform.{
  threw, returned, result, propagate, continue, wait_end, transform_get, wait_end-transform_get,
}
use kj.Promise.Chain.{
  Nodes, Held, chain_call, owned_calls, both_calls, make_chain, asked, is_shortened,
  run_steps-owned_calls,
}

-- Rejected after it was fulfilled, with event 7 waiting.
abbrev calls : List (AdapterCall ℕ ℕ)
calls = AdapterCall.on_ready 7 ∷ AdapterCall.fulfill 3 ∷ AdapterCall.reject 4 ∷ []

run_steps-adapter_call_example :
    (n : AdapterNode ℕ ℕ) × (run_steps adapter_call calls fresh_adapter
      ≡ some (n, depth_first 7 ∷ []))
    × (adapter_get n ≡ value_of 3)
    × (n.waiting ≡ false)
run_steps-adapter_call_example = run_steps-adapter_call calls (inr (7, refl))

-- The armings of a node are done on an event loop.
armed_first :
    (after (perform (depth_first 7 ∷ []) (after (enter_scope (fresh 1 none))))).first ≡ some 7
unfolding perform enter_scope fresh
armed_first = refl

run_steps-join_call_example :
    (s : JoinNode) × (run_steps join_call
        (branch_fires ∷ branch_fires ∷ on_ready 7 ∷ branch_fires ∷ [])
        (make_join 3)
      ≡ some (s, depth_first 7 ∷ []))
run_steps-join_call_example = run_steps-join_call 3 2 1 7 (omega arith) (omega arith)

abbrev parts : List (ℕ ⊎ ℕ)
parts = inr 1 ∷ inl 5 ∷ inl 6 ∷ []

exclusive_get-run_steps_example :
    (n : ExclusiveNode ℕ) × (m : ExclusiveNode ℕ) × (run_steps exclusive_call
        (Exclusive.on_ready 7 ∷ fires false ∷ [])
        (make_exclusive 10 20)
      ≡ some (n, depth_first 7 ∷ []))
    × (exclusive_get n ≡ some 20)
    × (branch true n ≡ none)
    × (run_steps exclusive_call (fires false ∷ Exclusive.on_ready 7 ∷ []) (make_exclusive 10 20)
        ≡ some (m, breadth_first 7 ∷ []))
    × (exclusive_get m ≡ some 20)
    × (branch true m ≡ none)
exclusive_get-run_steps_example = exclusive_get-run_steps false 10 20 7

exclusive_get_both_example :
    (n : ExclusiveNode ℕ) × (run_steps
        (exclusive_call {D = ℕ})
        (Exclusive.on_ready 7 ∷ fires false ∷ fires true ∷ [])
        (make_exclusive 10 20)
      ≡ some (n, depth_first 7 ∷ depth_first 7 ∷ []))
    × (exclusive_get n ≡ none)
    × (run_steps (exclusive_call {D = ℕ}) (fires false ∷ fires true ∷ []) (make_exclusive 10 20)
        ≡ none)
exclusive_get_both_example = exclusive_get_both false 10 20 7

-- The dependency gives 3 and its destructor throws 7, which the error handler turns into 107.
abbrev recovered : ExceptionOr ℕ ℕ
recovered =
    transform_get (λ v. returned (v + 1)) (λ e. returned (result (e + 100))) (returned (value_of 3))
      (some 7) empty_result

wait_end-transform_get_example :
    wait_end recovered.value recovered.exception
    ≡ continue (λ v. returned (v + 1)) (λ e. returned (result (e + 100))) (some (threw 7))
unfolding wait_end
wait_end-transform_get_example =
    wait_end-transform_get (λ v. returned (v + 1)) (λ e. returned (result (e + 100))) (value_of 3)
      (some 7)

recovered_lem : wait_end recovered.value recovered.exception ≡ some (returned 107)
unfolding wait_end transform_get
recovered_lem = refl

-- Without an error handler the dependency's exception is passed on.
passed_on :
    transform_get {E = ℕ} (λ v. returned (v + 1)) propagate (returned (broken 5)) none empty_result
    ≡ broken 5
unfolding transform_get
passed_on = refl

-- Nodes that are numbers: a node arms what waits for it breadth-first, and moves to the next number
-- when it has been asked.
abbrev numbers : Nodes ℕ ℕ ℕ
numbers = record {
  on_ready = λ e n. (n + 1, breadth_first e ∷ []);
  settle = λ n. n + 10;
  broken_node = λ e. 1000 + e;
}

run_steps-owned_calls_example :
    (h : Held ℕ ℕ) × (run_steps
        (chain_call numbers)
        (owned_calls true (both_calls false 8 (value_of 5) none))
        (make_chain 2)
      ≡ some (h, breadth_first 8 ∷ []))
    × (asked h ≡ some 16)
    × (is_shortened h ≡ true)
run_steps-owned_calls_example =
    run_steps-owned_calls numbers 2 true false 8 (value_of 5) none 5 (inr (inr (refl, refl, refl)))
