-- ===== src/Promise/Exclusive.antt =====
-- `ExclusiveJoinPromiseNode` (async-inl.h, async.cpp): the promise of two that is ready first.
use kj.Base.{ℕ, ◌≡◌, refl, Bool, true, false, not, Option, none, some, List, [], ◌∷◌}
use kj.Promise.{
  Ready, nobody, already, waiting_event, Arming, depth_first, breadth_first, init, arm, run_steps,
}

module _ (D : Type 0) where
  -- The dependencies of the two branches; a canceled one is null.
  pub record ExclusiveNode : Type 0 where
    pub left : Option D
    pub right : Option D
    pub ready : Ready

pub data ExclusiveCall : Type 0 where
  left_fires right_fires : ExclusiveCall
  on_ready : ℕ → ExclusiveCall

-- The left branch is `true`.
abbrev pub fires : Bool → ExclusiveCall
fires true = left_fires
fires false = right_fires

module _ {D : Type 0} where
  abbrev pub make_exclusive : D → D → ExclusiveNode D
  make_exclusive l r = record { left = some l; right = some r; ready = nobody }

  unfoldable pub arm_exclusive : ExclusiveNode D → Option (ExclusiveNode D × List Arming)
  unfolding arm
  arm_exclusive n = elim (arm n.ready) [
    | none ↦ none
    | some (ready, armed) ↦ some (record n { ready = ready }, armed)
  ]

  -- `Branch::fire` of either branch, and `onReady`
  unfoldable pub exclusive_call :
      ExclusiveCall → ExclusiveNode D → Option (ExclusiveNode D × List Arming)
  unfolding init arm_exclusive
  exclusive_call left_fires n = arm_exclusive (record n { right = none })
  exclusive_call right_fires n = arm_exclusive (record n { left = none })
  exclusive_call (on_ready e) n =
      let (ready, armed) = init e n.ready in some (record n { ready = ready }, armed)

  -- `get`: the dependency that it asks, or an exception, `none`.
  unfoldable pub exclusive_get : ExclusiveNode D → Option D
  exclusive_get n = elim n.left [ some d ↦ some d | none ↦ n.right ]

  abbrev pub branch : Bool → ExclusiveNode D → Option D
  branch true n = n.left
  branch false n = n.right

  -- Where one branch fires and one event waits, in either order, the other branch is canceled, the
  -- event is armed once, depth-first if it waited first and breadth-first otherwise, and the result
  -- is that of the branch that fired.
  pub exclusive_get-run_steps :
      (side : Bool) (l r : D) (e : ℕ)
      → (n : ExclusiveNode D) × (m : ExclusiveNode D) × (run_steps exclusive_call
            (on_ready e ∷ fires side ∷ [])
            (make_exclusive l r)
          ≡ some (n, depth_first e ∷ []))
        × (exclusive_get n ≡ branch side (make_exclusive l r))
        × (branch (not side) n ≡ none)
        × (run_steps exclusive_call (fires side ∷ on_ready e ∷ []) (make_exclusive l r)
            ≡ some (m, breadth_first e ∷ []))
        × (exclusive_get m ≡ branch side (make_exclusive l r))
        × (branch (not side) m ≡ none)
  unfolding run_steps exclusive_call exclusive_get
  exclusive_get-run_steps true l r e = (
    record { left = some l; right = none; ready = waiting_event e },
    record { left = some l; right = none; ready = already },
    refl,
    refl,
    refl,
    refl,
    refl,
    refl,
  )
  exclusive_get-run_steps false l r e = (
    record { left = none; right = some r; ready = waiting_event e },
    record { left = none; right = some r; ready = already },
    refl,
    refl,
    refl,
    refl,
    refl,
    refl,
  )

  -- Where both branches fire, in either order, while an event waits, the event is armed twice, each
  -- branch has cancelled the other, and `get` throws. Where no event waits, the second call arms through
  -- the marker.
  pub exclusive_get_both :
      (side : Bool) (l r : D) (e : ℕ)
      → (n : ExclusiveNode D) × (run_steps exclusive_call
            (on_ready e ∷ fires side ∷ fires (not side) ∷ [])
            (make_exclusive l r)
          ≡ some (n, depth_first e ∷ depth_first e ∷ []))
        × (exclusive_get n ≡ none)
        × (run_steps exclusive_call (fires side ∷ fires (not side) ∷ []) (make_exclusive l r)
            ≡ none)
  unfolding run_steps exclusive_call exclusive_get
  exclusive_get_both true l r e =
      (record { left = none; right = none; ready = waiting_event e }, refl, refl, refl)
  exclusive_get_both false l r e =
      (record { left = none; right = none; ready = waiting_event e }, refl, refl, refl)
