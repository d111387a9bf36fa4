-- ===== src/Variants/Nullable.antt =====
-- What a `NullableValue` holds after it is assigned to, made and destroyed (common.h).
use kj.Base.{
  ℕ, ◌≡◌, refl, sym, subst, ◌∙◌, Bool, true, false, not, none, some, [], if◌then◌else◌, if_true,
  if_false,
}
use kj.Memory.{Runtime, Behaves}
use kj.Variants.{
  NullableValue, Result, unset, set_from, set_unless, assign_nullable, destroy_nullable,
}
use kj.Variants.Living.{Lives}
use kj.Variants.Tags.{destroy-Lives}
use kj.Variants.Assigning.{construct-Lives}

module _ (m : Runtime) (t : ℕ) where
  -- A value lives where the object is set.
  abbrev pub IsKept : NullableValue → m.State → Type 0
  IsKept n s = Lives n.value (if n.is_set then some t else none) (m.history s)

  module _ (b : Behaves m) where
    -- How `unset` ends.
    abbrev Unset : NullableValue → Result m t → Type 0
    Unset n r = (r.0 ≡ record n { is_set = false }) × Lives n.value none (m.history r.1)

    unset_cases :
        (v : Bool) (at : ℕ) (s : m.State)
        → IsKept (record { is_set = v; value = at }) s
        → Unset
            (record { is_set = v; value = at })
            (unset m t (record { is_set = v; value = at }) s)
    unfolding unset
    unset_cases true at s l = (refl, destroy-Lives m b [] false t at s l)
    unset_cases false at s l = (refl, l)

    destroyed_cases :
        (u v : Bool) (at : ℕ) (s : m.State)
        → IsKept (record { is_set = v; value = at }) s
        → Lives at none (m.history (destroy_nullable m t u (record { is_set = v; value = at }) s).0)
    unfolding destroy_nullable
    destroyed_cases u true at s l = destroy-Lives m b [] u t at s l
    destroyed_cases u false at s l = l

    -- How an assignment from another object ends.
    abbrev pub Assigned : NullableValue → NullableValue → Result m t → Type 0
    Assigned other n r =
        IsKept r.0 r.1
        × (r.0.value ≡ n.value)
        × (r.2 ≡ true → r.0.is_set ≡ false)
        × (r.2 ≡ false → r.0.is_set ≡ other.is_set)

    set_done :
        (other n : NullableValue) (s : m.State) (threw : Bool)
        → other.is_set ≡ true
        → (threw ≡ false → Lives n.value (some t) (m.history s))
        → (threw ≡ true → Lives n.value none (m.history s))
        → Assigned other n (record n { is_set = not threw }, s, threw)
    set_done other n s true e made failed = (failed refl, refl, λ _. refl, λ f. cc)
    set_done other n s false e made failed = (made refl, refl, λ f. cc, λ _. sym e)

    set_cases :
        (other n : NullableValue) (s : m.State) (v : Bool)
        → other.is_set ≡ v
        → n.is_set ≡ false
        → Lives n.value none (m.history s)
        → Assigned other n (set_from m t other n s)
    unfolding set_from
    set_cases other n s true e clear l =
        let (made, failed) = construct-Lives m b [] t n.value s l in
        subst (Assigned other n) (sym (if_true _ _ e))
          (set_done other n (m.construct t n.value s).0 (m.construct t n.value s).1 e made failed)
    set_cases other n s false e clear l = subst (Assigned other n) (sym (if_false _ _ e)) (
      subst (λ v. Lives n.value (if v then some t else none) (m.history s)) (sym clear) l,
      refl,
      λ f. cc,
      λ _. clear ∙ sym e,
    )

    unless_cases :
        (threw : Bool) (other n n' : NullableValue) (s : m.State)
        → n' ≡ record n { is_set = false }
        → Lives n.value none (m.history s)
        → Assigned other n (set_unless m t threw other n' s)
    unless_cases true other n n' s e l =
        subst (λ x. Assigned other n (x, s, true)) (sym e) (l, refl, λ _. refl, λ f. cc)
    unless_cases false other n n' s e l =
        subst (λ x. Assigned other n (set_from m t other x s)) (sym e)
          (set_cases other (record n { is_set = false }) s other.is_set refl refl l)

    -- In each case, also where a constructor or a destructor throws, an assignment leaves an object that is
    -- set where its value lives, and no value begins inside another or ends that does not live. From
    -- another object it leaves what that is, or where it throws, nothing; from itself it changes nothing.
    -- The destructor leaves no value.
    pub assign_nullable-IsKept :
        (n other : NullableValue) (s : m.State)
        → IsKept n s
        → Assigned other n (assign_nullable m t (some other) n s)
          × (assign_nullable m t none n s ≡ (n, s, false))
          × ((u : Bool) → Lives n.value none (m.history (destroy_nullable m t u n s).0))
    unfolding assign_nullable
    assign_nullable-IsKept n other s l =
        let (empty, dead) = unset_cases n.is_set n.value s l in
        (
          unless_cases (unset m t n s).2 other n (unset m t n s).0 (unset m t n s).1 empty dead,
          refl,
          λ u. destroyed_cases u n.is_set n.value s l,
        )
