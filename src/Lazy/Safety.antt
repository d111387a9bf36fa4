-- ===== src/Lazy/Safety.antt =====
-- What threads can rely on that share a lazy value (mutex.h).
use kj.Base.{
  ℕ, ◌≤◌, ◌≡◌, ◌≢◌, refl, sym, subst, ap, ◌∙◌, ◌⊎◌, inl, inr, true, none, some, some_eq,
  Option-cases, arith,
}
use kj.Lazy.{
  State, uninitialized, initialized, Lazy, Pc, outside, waiting, locked, running, storing, leaving,
  failing, returned, failed, Move, fast, slow, lock, skip, begin, make, throw, store, unlock,
  unlock_failing, System, Step, pick, Reach,
}
use kj.Lazy.Inv.{states_differ, critical, Knows, Inv, Reach-Inv}

at_most_once : (l : Lazy) (pc : ℕ → Pc) → Inv l pc → (s : State) → l.state ≡ s → l.made ≤ 1
at_most_once l pc inv initialized e = omega (arith, inv.made_once e)
at_most_once l pc inv uninitialized e = elim (inv.open_end e) [
  | inl zero_made ↦ omega arith
  | inr (j, owner, stores) ↦
      let known = subst (Knows l) stores (inv.knows j) in omega (arith, known.0)
]

Move-keeps_value :
    {k : ℕ} {l l' : Lazy} {p p' : Pc} {pc : ℕ → Pc}
    → Move k l p l' p'
    → Inv l pc
    → pc k ≡ p
    → l.state ≡ initialized
    → l'.value ≡ l.value
Move-keeps_value (fast e) inv at ready = refl
Move-keeps_value (slow e) inv at ready = refl
Move-keeps_value (lock e) inv at ready = refl
Move-keeps_value (skip e) inv at ready = refl
Move-keeps_value (begin e) inv at ready = refl
Move-keeps_value {k} {l} (make v) inv at ready =
    let known = subst (Knows l) at (inv.knows k) in absurd (states_differ (sym ready ∙ known.0))
Move-keeps_value throw inv at ready = refl
Move-keeps_value store inv at ready = refl
Move-keeps_value unlock inv at ready = refl
Move-keeps_value unlock_failing inv at ready = refl

is_initialized : (s : State) → (s ≡ initialized) ⊎ (s ≡ uninitialized)
is_initialized initialized = inl refl
is_initialized uninitialized = inr refl

abbrev pub CanMove : ℕ → Lazy → Pc → Type 0
CanMove j l p = (l' : Lazy) × (p' : Pc) × Move j l p l' p'

-- A thread can go on wherever it stands in the mutex.
critical-CanMove : (j : ℕ) (l : Lazy) (p : Pc) → critical p ≡ true → CanMove j l p
critical-CanMove j l locked c = elim (is_initialized l.state) [
  | inl e ↦ (l, leaving, skip (λ u. states_differ (sym e ∙ u)))
  | inr u ↦ (l, running, begin u)
]
critical-CanMove j l running c = (l, failing, throw)
critical-CanMove j l storing c = (record l { state = initialized }, leaving, store)
critical-CanMove j l leaving c = (record l { owner = none }, returned, unlock)
critical-CanMove j l failing c = (record l { owner = none }, failed, unlock_failing)
critical-CanMove j l outside c = cc
critical-CanMove j l waiting c = cc
critical-CanMove j l returned c = cc
critical-CanMove j l failed c = cc

outside-CanMove : (j : ℕ) (l : Lazy) → CanMove j l outside
outside-CanMove j l = elim (is_initialized l.state) [
  | inl e ↦ (l, returned, fast e)
  | inr u ↦ (l, waiting, slow (λ e. states_differ (sym e ∙ u)))
]

-- In every interleaving of calls of `get`: no two threads are in an initializer together, no two
-- initializers succeed, and where a call returns, the value is there.
pub Reach-safe :
    {s : System}
    → Reach s
    → ((i j : ℕ) → s.pc i ≡ running → s.pc j ≡ running → i ≡ j)
      × (s.object.made ≤ 1)
      × ((i : ℕ) → s.pc i ≡ returned → s.object.value ≢ none)
Reach-safe {s} r =
    let inv = Reach-Inv r in
    (
      λ i j at_i at_j.
          some_eq i j (sym (inv.owned i (ap critical at_i)) ∙ inv.owned j (ap critical at_j)),
      at_most_once s.object s.pc inv s.object.state refl,
      λ i at. inv.kept (inv.made_once (subst (Knows s.object) at (inv.knows i))),
    )

-- The value of a call that has returned stays the value.
pub Step-keeps_value :
    {s t : System}
    → Reach s
    → Step s t
    → (i : ℕ) → s.pc i ≡ returned
    → t.object.value ≡ s.object.value
Step-keeps_value {s} r (pick k m) i at =
    let inv = Reach-Inv r in Move-keeps_value m inv refl (subst (Knows s.object) at (inv.knows i))

-- Each thread whose call has not ended can make a step itself, or it waits for the mutex, and the thread
-- that holds the mutex can make a step.
pub Reach-live :
    {s : System}
    → Reach s
    → (i : ℕ) → s.pc i ≢ returned
    → s.pc i ≢ failed
    → CanMove i s.object (s.pc i)
      ⊎ ((s.pc i ≡ waiting) × (j : ℕ) × (s.object.owner ≡ some j) × CanMove j s.object (s.pc j))
Reach-live {s} r i not_returned not_failed = go (s.pc i) refl
  where
    l : Lazy
    l = s.object

    Goal : Type 0
    Goal =
        CanMove i l (s.pc i)
        ⊎ ((s.pc i ≡ waiting) × (j : ℕ) × (l.owner ≡ some j) × CanMove j l (s.pc j))

    moves : (p : Pc) → s.pc i ≡ p → critical p ≡ true → Goal
    moves p at c = inl (critical-CanMove i l (s.pc i) (ap critical at ∙ c))

    go : (p : Pc) → s.pc i ≡ p → Goal
    go waiting at = elim (Option-cases l.owner) [
      | inl free ↦
          inl (subst (CanMove i l) (sym at) (record l { owner = some i }, locked, lock free))
      | inr (j, owner) ↦
          inr (at, j, owner, critical-CanMove j l (s.pc j) ((Reach-Inv r).holds j owner))
    ]
    go outside at = inl (subst (CanMove i l) (sym at) (outside-CanMove i l))
    go returned at = absurd (not_returned at)
    go failed at = absurd (not_failed at)
    go locked at = moves locked at refl
    go running at = moves running at refl
    go storing at = moves storing at refl
    go leaving at = moves leaving at refl
    go failing at = moves failing at refl
