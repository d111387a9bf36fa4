-- ===== src/Promise/Lifecycle.antt =====
-- Both owners of a `WeakFulfiller` (async-inl.h) let go of it: it is freed once, and the promise is not
-- left waiting.
use kj.Base.{
  ℕ, suc, ◌≡◌, ◌≢◌, refl, ap, ◌∙◌, Bool, true, false, Option, some, List, [], ◌∷◌, ◌++◌, ◌>>=◌,
  Bool-cases, inl, inr, if_true, if_false,
}
use kj.Promise.{
  ExceptionOr, value_of, broken, Ready, nobody, already, waiting_event, Arming, init, arm,
}
use kj.Promise.Adapter.{AdapterNode, AdapterCall, adapter_call, settle}
use kj.Promise.Weak.{Pair, make_pair, pass_on, weak_fulfill, weak_reject, weak_detach, weak_dispose}

-- What happens to the pair while both or one of its sides are alive.
pub data Use (E T : Type 0) : Type 0 where
  fulfills : T → Use E T
  rejects : E → Use E T
  awaits : ℕ → Use E T

arm-not_already :
    (r : Ready) → r ≢ already → (r' : Ready) × (a : List Arming) × (arm r ≡ some (r', a))
unfolding arm
arm-not_already nobody h = (already, [], refl)
arm-not_already already h = absurd (h refl)
arm-not_already (waiting_event e) h = (waiting_event e, _, refl)

module _ {E T : Type 0} where
  abbrev pub use_pair : Use E T → Pair E T → Option (Pair E T)
  use_pair (fulfills v) p = weak_fulfill v p
  use_pair (rejects e) p = weak_reject e p
  use_pair (awaits e) p = pass_on (AdapterCall.on_ready e) p

  abbrev pub uses : List (Use E T) → Pair E T → Option (Pair E T)
  uses [] p = some p
  uses (x ∷ xs) p = use_pair x p >>= uses xs

  -- A node that waits for its result is not marked as ready.
  abbrev NodeOk : AdapterNode E T → Type 0
  NodeOk n = n.waiting ≡ true → n.ready ≢ already

  record Alive (p : Pair E T) (attached : Bool) : Type 0 where
    side : p.attached ≡ attached
    kept : p.freed ≡ 0
    sound : NodeOk p.node

  settle-NodeOk :
      (n : AdapterNode E T) (r : ExceptionOr E T)
      → NodeOk n
      → n.waiting ≡ true
      → (m : AdapterNode E T) × (a : List Arming) × (settle r n ≡ some (m, a))
        × (m.waiting ≡ false)
        × NodeOk m
  unfolding settle
  settle-NodeOk n r ok w =
      let (ready, a, e) = arm-not_already n.ready (ok w) in
      (record { result = r; waiting = false; ready = ready }, a, rw (e, settle), refl, λ w' h. cc)

  init-NodeOk :
      (n : AdapterNode E T) (e : ℕ) (r : Ready)
      → n.ready ≡ r
      → NodeOk n
      → NodeOk (record n { ready = (init e r).0 })
  unfolding init
  init-NodeOk n e nobody h ok = λ w g. cc
  init-NodeOk n e already h ok = λ w g. ok w h
  init-NodeOk n e (waiting_event d) h ok = λ w g. cc

  -- Behind `fulfill` and `reject` the node does not wait.
  abbrev SettledBy : AdapterCall E T → AdapterNode E T → Type 0
  SettledBy (AdapterCall.fulfill v) n = n.waiting ≡ false
  SettledBy (AdapterCall.reject e) n = n.waiting ≡ false
  SettledBy (AdapterCall.on_ready e) n = Unit {0}

  adapter_call-NodeOk :
      (call : AdapterCall E T) (n : AdapterNode E T)
      → NodeOk n
      → (m : AdapterNode E T) × (a : List Arming) × (adapter_call call n ≡ some (m, a))
        × SettledBy call m
        × NodeOk m
  unfolding adapter_call
  adapter_call-NodeOk (AdapterCall.fulfill v) n ok = elim (Bool-cases n.waiting) [
    | inl w ↦
        let (m, a, e, done, ok') = settle-NodeOk n (value_of v) ok w in
        (m, a, if_true _ _ w ∙ e, done, ok')
    | inr w ↦ (n, [], if_false _ _ w, w, ok)
  ]
  adapter_call-NodeOk (AdapterCall.reject x) n ok = elim (Bool-cases n.waiting) [
    | inl w ↦
        let (m, a, e, done, ok') = settle-NodeOk n (broken x) ok w in
        (m, a, if_true _ _ w ∙ e, done, ok')
    | inr w ↦ (n, [], if_false _ _ w, w, ok)
  ]
  adapter_call-NodeOk (AdapterCall.on_ready e) n ok = (
    record n { ready = (init e n.ready).0 },
    (init e n.ready).1,
    refl,
    tt,
    init-NodeOk n e n.ready refl ok,
  )

  pass_on-Alive :
      (call : AdapterCall E T) (p : Pair E T) {b : Bool}
      → Alive p b
      → (q : Pair E T) × (pass_on call p ≡ some q) × SettledBy call q.node × Alive q b
  pass_on-Alive call p v =
      let (m, a, e, done, ok) = adapter_call-NodeOk call p.node v.sound in
      (
        record p { node = m; armed = p.armed ++ a },
        rw (e, pass_on),
        done,
        record { side = v.side; kept = v.kept; sound = ok },
      )

  use_pair-Alive :
      (x : Use E T) (p : Pair E T) {b : Bool}
      → Alive p b
      → (q : Pair E T) × (use_pair x p ≡ some q) × Alive q b
  unfolding weak_fulfill weak_reject
  use_pair-Alive (fulfills w) p v = elim (Bool-cases p.attached) [
    | inl h ↦
        let (q, e, done, v') = pass_on-Alive (AdapterCall.fulfill w) p v in
        (q, if_true _ _ h ∙ e, v')
    | inr h ↦ (p, if_false _ _ h, v)
  ]
  use_pair-Alive (rejects x) p v = elim (Bool-cases p.attached) [
    | inl h ↦
        let (q, e, done, v') = pass_on-Alive (AdapterCall.reject x) p v in
        (q, if_true _ _ h ∙ e, v')
    | inr h ↦ (p, if_false _ _ h, v)
  ]
  use_pair-Alive (awaits d) p v =
      let (q, e, done, v') = pass_on-Alive (AdapterCall.on_ready d) p v in (q, e, v')

  uses-Alive :
      (xs : List (Use E T)) (p : Pair E T) {b : Bool}
      → Alive p b
      → (q : Pair E T) × (uses xs p ≡ some q) × Alive q b
  uses-Alive [] p v = (p, refl, v)
  uses-Alive (x ∷ xs) p v =
      let (q, e, v') = use_pair-Alive x p v in
      let (r, e', v'') = uses-Alive xs q v' in (r, rw e e', v'')

  make_pair-Alive : Alive make_pair true
  make_pair-Alive = record { side = refl; kept = refl; sound = λ w h. cc }

  -- Whatever was fulfilled, rejected and awaited: where the application drops its fulfiller first, a
  -- promise that still waits is rejected, and the fulfiller is freed once when the promise is
  -- destroyed.
  pub weak_detach-weak_dispose :
      (unfulfilled : E) (xs : List (Use E T))
      → (p : Pair E T) × ((uses xs make_pair >>= weak_dispose unfulfilled) ≡ some p)
        × (p.node.waiting ≡ false)
        × (p.freed ≡ 0)
        × ((weak_detach p).freed ≡ 1)
  unfolding weak_dispose weak_detach
  weak_detach-weak_dispose unfulfilled xs =
      let (p, e, v) = uses-Alive xs make_pair make_pair-Alive in
      elim (Bool-cases p.node.waiting) [
        | inl w ↦
            let (q, e', settled, v') = pass_on-Alive (AdapterCall.reject unfulfilled) p v in
            (
              record q { attached = false },
              rw e (if_true _ _ v.side ∙ if_true _ _ w ∙ rw e'),
              settled,
              v'.kept,
              ap suc v'.kept,
            )
        | inr w ↦ (
          record p { attached = false },
          rw e (if_true _ _ v.side ∙ if_false _ _ w),
          w,
          v.kept,
          ap suc v.kept,
        )
      ]

  -- Whatever was fulfilled, rejected and awaited, also by the application after the promise was
  -- destroyed: where the promise is destroyed first, the fulfiller is freed once when the application
  -- drops it.
  pub weak_dispose-weak_detach :
      (unfulfilled : E) (xs ys : List (Use E T))
      → (p : Pair E T) × ((uses xs make_pair >>= λ q. uses ys (weak_detach q)) ≡ some p)
        × (p.freed ≡ 0)
        × (weak_dispose unfulfilled p ≡ some (record p { freed = 1 }))
  unfolding weak_dispose weak_detach
  weak_dispose-weak_detach unfulfilled xs ys =
      let (p, e, v) = uses-Alive xs make_pair make_pair-Alive in
      let gone : weak_detach p ≡ record p { attached = false } = if_true _ _ v.side in
      let (q, e', v') =
        uses-Alive ys (record p { attached = false })
          (record { side = refl; kept = v.kept; sound = v.sound }) in
      (
        q,
        rw e (rw gone e'),
        v'.kept,
        if_false _ _ v'.side ∙ ap (λ (t : ℕ). some (record q { freed = suc t })) v'.kept,
      )
