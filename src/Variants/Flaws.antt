-- ===== src/Variants/Flaws.antt =====
-- Assignments of a `OneOf` that throw (one-of.h).
use kj.Base.{
  ℕ, zero, suc, ◌≤◌, ◌≡◌, refl, sym, subst, ap, ◌∙◌, Bool, true, false, none, some, List, length,
  arith,
}
use kj.Memory.{Runtime, Behaves}
use kj.Variants.{OneOf, Done, copy_from, clear_tag, assign_one_of, destroy_one_of}
use kj.Variants.Living.{Lives, Proper, Proper-destroyed}
use kj.Variants.Tags.{type_at, Holds, clear_tag-Lives, copy_variants_at, destroy_variants_at}
use kj.Variants.Assigning.{true_ne_false, none_ne_some, unless_thrown_cases, assign_one_of-Holds}

module _ (m : Runtime) (b : Behaves m) (types : List ℕ) where
  assign_runs :
      (o other : OneOf) (s : m.State) (t k : ℕ)
      → Holds m types o s
      → other.tag ≡ suc k
      → type_at types (suc k) ≡ some t
      → (clear_tag m types o s).2 ≡ false
      → let (s', threw) = m.construct t o.space (clear_tag m types o s).1 in
        assign_one_of m types (some other) o s ≡ (record o { tag = other.tag }, s', threw)
  unfolding assign_one_of copy_from
  assign_runs o other s t k h e at ends =
      let c = clear_tag m types o s in
      let (s', threw) = m.construct t o.space c.1 in
      unless_thrown_cases m (λ r. r ≡ (record o { tag = other.tag }, s', threw)) c
        (λ o' s'. copy_from m types other o' s')
        (λ thrown. absurd (true_ne_false (sym thrown ∙ ends)))
        (λ _.
          subst (λ x. copy_from m types other x c.1 ≡ (record o { tag = other.tag }, s', threw))
            (sym (clear_tag-Lives m b types o s h).0)
            (copy_variants_at m other 1 k types (record o { tag = other.tag }) c.1 t (omega arith)
              at))

  -- Destroying what the tag names where nothing lives is not proper.
  destroy-Proper :
      (u : Bool) (o : OneOf) (s : m.State) (t k : ℕ)
      → o.tag ≡ suc k
      → type_at types (suc k) ≡ some t
      → Lives o.space none (m.history s)
      → Proper o.space none (m.history (destroy_one_of m u types o s).1)
      → ⊥
  unfolding destroy_one_of
  destroy-Proper u o s t k e at l proper =
      let runs = destroy_variants_at m u 1 k types o s t (omega arith) (omega arith) at in
      let ended = Proper-destroyed o.space t none (m.history s) (
        subst (Proper o.space none) (ap (λ r. m.history r.1) runs ∙ (b.destroys u t o.space s).1)
          proper) in
      none_ne_some (sym l.alive ∙ ended)

  -- Where the constructor throws by which an object is assigned from another, no object lives in the
  -- space, but the tag is the other's, and the destructor ends an object that does not live. This is
  -- where clearing the object before does not throw.
  pub assign_one_of_flaws :
      (o other : OneOf) (s : m.State) (t : ℕ) (u : Bool)
      → Holds m types o s
      → other.tag ≤ length types
      → type_at types other.tag ≡ some t
      → (clear_tag m types o s).2 ≡ false
      → (m.construct t o.space (clear_tag m types o s).1).1 ≡ true
      → let r = assign_one_of m types (some other) o s in
        (r.0 ≡ record o { tag = other.tag })
        × Lives o.space none (m.history r.1)
        × (Proper o.space none (m.history (destroy_one_of m u types r.0 r.1).1) → ⊥)
  assign_one_of_flaws o other s t u h short typed ends throws = flawed other.tag refl
    where
      r : Done m
      r = assign_one_of m types (some other) o s

      flawed :
          (n : ℕ)
          → other.tag ≡ n
          → (r.0 ≡ record o { tag = other.tag })
            × Lives o.space none (m.history r.1)
            × (Proper o.space none (m.history (destroy_one_of m u types r.0 r.1).1) → ⊥)
      flawed zero e = absurd (none_ne_some (sym (ap (type_at types) e) ∙ typed))
      flawed (suc k) e =
          let at = sym (ap (type_at types) e) ∙ typed in
          let runs = assign_runs o other s t k h e at ends in
          let dead =
            (assign_one_of-Holds m b types other o s h short).1 (ap (λ x. x.2) runs ∙ throws) in
          (
            ap (λ x. x.0) runs,
            dead,
            subst (λ x. Proper o.space none (m.history (destroy_one_of m u types x r.1).1) → ⊥)
                (sym (ap (λ x. x.0) runs))
                (destroy-Proper u (record o { tag = other.tag }) r.1 t k e at dead),
          )
