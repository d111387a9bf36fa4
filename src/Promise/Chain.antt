-- ===== src/Promise/Chain.antt =====
-- `ChainPromiseNode` (async-inl.h, async.cpp): a promise for a promise as one promise, which takes
-- itself out of the way when it knows the pointer that owns it.
use kj.Base.{
  ℕ, ◌≡◌, refl, Bool, true, false, Option, none, some, if◌then◌else◌, List, [], ◌∷◌, ◌⊎◌, inl, inr,
  append-nil,
}
use kj.Promise.{ExceptionOr, add_exception, Arming, run_steps}

-- The nodes of other classes: `N` are those for a value, and `P` those for a promise. `settle` is
-- `setSelfPointer`, which may put another node in place of the node.
pub record Nodes (E P N : Type 0) : Type 0 where
  pub on_ready : ℕ → N → N × List Arming
  pub settle : N → N
  pub broken_node : E → N

-- `state` with `inner`
pub data Inner (P N : Type 0) : Type 0 where
  step1 : P → Inner P N
  step2 : N → Inner P N

pub record ChainNode (P N : Type 0) : Type 0 where
  pub inner : Inner P N
  pub on_ready_event : Option ℕ
  pub has_self_pointer : Bool

-- What the owner's pointer leads to: the chain, or the node that the chain has put in its place.
pub data Held (P N : Type 0) : Type 0 where
  chain : ChainNode P N → Held P N
  shortened : N → Held P N

-- The calls of the owner, and the firing of the event. With it come what the inner node's `get` gives
-- and the exception of its destructor.
pub data ChainCall (E N : Type 0) : Type 0 where
  on_ready : ℕ → ChainCall E N
  set_self_pointer : ChainCall E N
  fire : ExceptionOr E N → Option E → ChainCall E N

module _ {P N : Type 0} where
  abbrev asked_inner : Inner P N → Option N
  asked_inner (step1 p) = none
  asked_inner (step2 n) = some n

  abbrev pub make_chain : P → Held P N
  make_chain p = chain (record { inner = step1 p; on_ready_event = none; has_self_pointer = false })

  -- The node that `get` asks; in step 1 it fails.
  abbrev pub asked : Held P N → Option N
  asked (chain c) = asked_inner c.inner
  asked (shortened n) = some n

  abbrev pub is_shortened : Held P N → Bool
  is_shortened (chain c) = false
  is_shortened (shortened n) = true

module _ {E N : Type 0} where
  unfoldable pub with_dropped : Option E → ExceptionOr E N → ExceptionOr E N
  unfolding add_exception
  with_dropped none r = r
  with_dropped (some e) r = add_exception e r

  -- An event begins to wait, and the chain's event fires, in either order.
  abbrev pub both_calls : Bool → ℕ → ExceptionOr E N → Option E → List (ChainCall E N)
  both_calls true e r dropped = on_ready e ∷ fire r dropped ∷ []
  both_calls false e r dropped = fire r dropped ∷ on_ready e ∷ []

  -- The owner has set its pointer before, or does not do so.
  abbrev pub owned_calls : Bool → List (ChainCall E N) → List (ChainCall E N)
  owned_calls true calls = set_self_pointer ∷ calls
  owned_calls false calls = calls

module _ {E P N : Type 0} (nodes : Nodes E P N) where
  -- The node of step 2: the exception goes before the value.
  unfoldable pub next_node : ExceptionOr E N → Option N
  next_node r = elim r.exception [ some e ↦ some (nodes.broken_node e) | none ↦ r.value ]

  -- `if (onReadyEvent != nullptr) inner->onReady(*onReadyEvent);`
  abbrev pub tell_waiting : Option ℕ → N → N × List Arming
  tell_waiting none n = (n, [])
  tell_waiting (some e) n = nodes.on_ready e n

  -- The end of `fire`, where the chain comes to step 2
  abbrev pub enter_step2 : ChainNode P N → N → Held P N × List Arming
  enter_step2 c n =
      let (n', armed) = tell_waiting c.on_ready_event (nodes.settle n) in
      (if c.has_self_pointer then shortened n' else chain (record c { inner = step2 n' }), armed)

  unfoldable pub fire_chain :
      ChainNode P N → Inner P N → ExceptionOr E N → Option E → Option (Held P N × List Arming)
  unfolding next_node with_dropped
  fire_chain c (step2 n) intermediate dropped = none
  fire_chain c (step1 p) intermediate dropped =
      elim (next_node (with_dropped dropped intermediate)) [
        | none ↦ none
        | some n ↦ some (enter_step2 c n)
      ]

  -- Where the node fails, `none`.
  unfoldable pub chain_on_ready :
      ℕ → ChainNode P N → Inner P N → Option ℕ → Option (Held P N × List Arming)
  chain_on_ready e c (step1 p) none = some (chain (record c { on_ready_event = some e }), [])
  chain_on_ready e c (step1 p) (some old) = none
  chain_on_ready e c (step2 n) waiting =
      let (n', armed) = nodes.on_ready e n in some (chain (record c { inner = step2 n' }), armed)

  unfoldable pub chain_set_self_pointer : ChainNode P N → Inner P N → Held P N
  chain_set_self_pointer c (step1 p) = chain (record c { has_self_pointer = true })
  chain_set_self_pointer c (step2 n) = shortened (nodes.settle n)

  -- A call through the owner's pointer, or the firing of the chain's event
  unfoldable pub chain_call : ChainCall E N → Held P N → Option (Held P N × List Arming)
  unfolding fire_chain chain_on_ready chain_set_self_pointer
  chain_call (on_ready e) (chain c) = chain_on_ready e c c.inner c.on_ready_event
  chain_call (on_ready e) (shortened n) =
      let (n', armed) = nodes.on_ready e n in some (shortened n', armed)
  chain_call set_self_pointer (chain c) = some (chain_set_self_pointer c c.inner, [])
  chain_call set_self_pointer (shortened n) = some (shortened (nodes.settle n), [])
  chain_call (fire r dropped) (chain c) = fire_chain c c.inner r dropped
  chain_call (fire r dropped) (shortened n) = none

  abbrev left_chain : Option ℕ → N → Held P N
  left_chain waiting n =
      chain (record { inner = step2 n; on_ready_event = waiting; has_self_pointer = false })

  abbrev at_step1 : P → Option ℕ → Bool → ChainNode P N
  at_step1 p waiting own = record {
    inner = step1 p;
    on_ready_event = waiting;
    has_self_pointer = own;
  }

  fire_chain_lem :
      (c : ChainNode P N) (p : P) (r : ExceptionOr E N) (dropped : Option E) (n : N)
      → next_node (with_dropped dropped r) ≡ some n
      → fire_chain c (step1 p) r dropped ≡ some (enter_step2 c n)
  unfolding fire_chain
  fire_chain_lem c p r dropped n next = rw (next, fire_chain)

  -- `n` is the node of step 2: a broken one for the exception of the result, or else for that of the
  -- destructor, and without an exception the node in the result.
  abbrev pub Follows : ExceptionOr E N → Option E → N → Type 0
  Follows r dropped n =
      ((e : E) × (r.exception ≡ some e) × (n ≡ nodes.broken_node e))
      ⊎ (((r.exception ≡ none) × (e : E) × (dropped ≡ some e) × (n ≡ nodes.broken_node e))
          ⊎ ((r.exception ≡ none) × (dropped ≡ none) × (r.value ≡ some n)))

  next_node_lem :
      (x : Option E) (v : Option N) (dropped : Option E) (n : N)
      → Follows (record { exception = x; value = v }) dropped n
      → next_node (with_dropped dropped (record { exception = x; value = v })) ≡ some n
  unfolding next_node with_dropped add_exception
  next_node_lem none v none n (inl (e, x, is)) = cc
  next_node_lem none v none n (inr (inl (x, e, d, is))) = cc
  next_node_lem none v none n (inr (inr (x, d, at))) = at
  next_node_lem none v (some f) n (inl (e, x, is)) = cc
  next_node_lem none v (some f) n (inr (inl (x, e, d, is))) = cc
  next_node_lem none v (some f) n (inr (inr (x, d, at))) = cc
  next_node_lem (some f) v none n (inl (e, x, is)) = cc
  next_node_lem (some f) v none n (inr (inl (x, e, d, is))) = cc
  next_node_lem (some f) v none n (inr (inr (x, d, at))) = cc
  next_node_lem (some f) v (some g) n (inl (e, x, is)) = cc
  next_node_lem (some f) v (some g) n (inr (inl (x, e, d, is))) = cc
  next_node_lem (some f) v (some g) n (inr (inr (x, d, at))) = cc

  -- Where the inner node gives a promise or an exception, or its destructor throws: in whichever order
  -- an event begins to wait and the chain's event fires, the node of step 2, which is a broken one for
  -- the first exception, gets the event once, after `setSelfPointer`, and arms what it arms for it.
  -- That node is then the one that `get` asks, through the chain, or in place of the chain where this
  -- knows its owner.
  pub run_steps-owned_calls :
      (p : P) (own waits_first : Bool) (e : ℕ) (r : ExceptionOr E N) (dropped : Option E) (n : N)
      → Follows r dropped n
      → (h : Held P N) × (run_steps chain_call
            (owned_calls own (both_calls waits_first e r dropped))
            (make_chain p)
          ≡ some (h, (nodes.on_ready e (nodes.settle n)).1))
        × (asked h ≡ some (nodes.on_ready e (nodes.settle n)).0)
        × (is_shortened h ≡ own)
  unfolding chain_call fire_chain chain_on_ready chain_set_self_pointer run_steps
  run_steps-owned_calls p true true e r dropped n next =
      let fires =
        fire_chain_lem (at_step1 p (some e) true) p r dropped n
          (next_node_lem r.exception r.value dropped n next) in
      (shortened (nodes.on_ready e (nodes.settle n)).0, rw (fires, append-nil), refl, refl)
  run_steps-owned_calls p true false e r dropped n next =
      let fires =
        fire_chain_lem (at_step1 p none true) p r dropped n
          (next_node_lem r.exception r.value dropped n next) in
      (shortened (nodes.on_ready e (nodes.settle n)).0, rw (fires, append-nil), refl, refl)
  run_steps-owned_calls p false true e r dropped n next =
      let fires =
        fire_chain_lem (at_step1 p (some e) false) p r dropped n
          (next_node_lem r.exception r.value dropped n next) in
      (
        left_chain (some e) (nodes.on_ready e (nodes.settle n)).0,
        rw (fires, append-nil),
        refl,
        refl,
      )
  run_steps-owned_calls p false false e r dropped n next =
      let fires =
        fire_chain_lem (at_step1 p none false) p r dropped n
          (next_node_lem r.exception r.value dropped n next) in
      (left_chain none (nodes.on_ready e (nodes.settle n)).0, rw (fires, append-nil), refl, refl)
