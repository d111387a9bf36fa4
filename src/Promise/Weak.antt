-- ===== src/Promise/Weak.antt =====
-- `WeakFulfiller` (async-inl.h): the fulfiller of `newPromiseAndFulfiller`, which the application owns
-- and which outlives neither side.
use kj.Base.{ℕ, suc, Bool, true, false, Option, none, some, List, [], ◌++◌, if◌then◌else◌}
use kj.Promise.{Arming}
use kj.Promise.Adapter.{AdapterNode, AdapterCall, fresh_adapter, adapter_call}

module _ (E T : Type 0) where
  -- The fulfiller, where `inner` is null or the adapter node, how often it was freed, and the node.
  pub record Pair : Type 0 where
    pub attached : Bool
    pub freed : ℕ
    pub node : AdapterNode E T
    pub armed : List Arming

module _ {E T : Type 0} where
  -- `make` and the adapter's constructor, which attaches.
  abbrev pub make_pair : Pair E T
  make_pair = record { attached = true; freed = 0; node = fresh_adapter; armed = [] }

  -- A call that is passed on to the node.
  abbrev pub pass_on : AdapterCall E T → Pair E T → Option (Pair E T)
  pass_on call p = elim (adapter_call call p.node) [
    | none ↦ none
    | some (node, armed) ↦ some (record p { node = node; armed = p.armed ++ armed })
  ]

  unfoldable pub weak_fulfill : T → Pair E T → Option (Pair E T)
  unfolding adapter_call
  weak_fulfill v p = if p.attached then pass_on (AdapterCall.fulfill v) p else some p

  unfoldable pub weak_reject : E → Pair E T → Option (Pair E T)
  unfolding adapter_call
  weak_reject e p = if p.attached then pass_on (AdapterCall.reject e) p else some p

  -- `detach`, when the promise is destroyed.
  unfoldable pub weak_detach : Pair E T → Pair E T
  weak_detach p =
      if p.attached then record p { attached = false } else record p { freed = suc p.freed }

  -- `disposeImpl`, when the application drops its fulfiller. `unfulfilled` is the exception that says so.
  unfoldable pub weak_dispose : E → Pair E T → Option (Pair E T)
  unfolding adapter_call
  weak_dispose unfulfilled p =
      if p.attached
      then (let detached = λ (q : Pair E T). some (record q { attached = false }) in
          if p.node.waiting
          then elim (pass_on (AdapterCall.reject unfulfilled) p) [
            | none ↦ none
            | some q ↦ detached q
          ]
          else detached p)
      else some (record p { freed = suc p.freed })
