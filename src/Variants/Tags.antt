-- ===== src/Variants/Tags.antt =====
-- The loops over the variants of a `OneOf` (one-of.h), which act on the variant of the tag alone.
use kj.Base.{
  ℕ, zero, suc, ◌+◌, ◌≤◌, ◌<◌, ◌≡◌, refl, sym, subst, ap, ◌∙◌, Bool, true, false, Option, none,
  some, List, [], ◌∷◌, length, get_elem?, ◌==◌, if_true, if_false, arith,
}
use kj.Memory.{Runtime, Behaves}
use kj.Variants.{OneOf, Done, unless_thrown, destroy_variants, copy_variants, clear_tag}
use kj.Variants.Living.{Lives, Lives-destroyed}

abbrev pub type_at : List ℕ → ℕ → Option ℕ
type_at types zero = none
type_at types (suc k) = get_elem? types k

pub get_elem?-some : (ts : List ℕ) (j : ℕ) → j < length ts → (t : ℕ) × (get_elem? ts j ≡ some t)
get_elem?-some [] j h = absurd (omega arith)
get_elem?-some (t ∷ ts) zero h = (t, refl)
get_elem?-some (t ∷ ts) (suc j) h = get_elem?-some ts j (omega arith)

eq→== : (a b : ℕ) → a ≡ b → (a == b) ≡ true
eq→== a b e = ground arith

ne→== : (a b : ℕ) → (a ≡ b → ⊥) → (a == b) ≡ false
ne→== a b n = ground arith

module _ (m : Runtime) where
  unless_thrown_stop :
      (r : Done m) (k : OneOf → m.State → Done m)
      → k r.0 r.1 ≡ (r.0, r.1, false)
      → unless_thrown m r k ≡ r
  unless_thrown_stop (o, s, true) k e = refl
  unless_thrown_stop (o, s, false) k e = e

  pub destroy_variants_past :
      (u : Bool) (i : ℕ) (ts : List ℕ) (o : OneOf) (s : m.State)
      → o.tag < i
      → destroy_variants m u i ts o s ≡ (o, s, false)
  unfolding destroy_variants
  destroy_variants_past u i [] o s h = refl
  destroy_variants_past u i (t ∷ ts) o s h =
      ap (λ r. unless_thrown m r (destroy_variants m u (suc i) ts))
        (if_false _ _ (ne→== o.tag i (λ e. omega arith)))
      ∙ destroy_variants_past u (suc i) ts o s (omega arith)

  pub destroy_variants_at :
      (u : Bool) (i j : ℕ) (ts : List ℕ) (o : OneOf) (s : m.State) (t : ℕ)
      → o.tag ≡ i + j
      → 1 ≤ i
      → get_elem? ts j ≡ some t
      → destroy_variants m u i ts o s
        ≡ (record o { tag = 0 }, (m.destroy u t o.space s).0, (m.destroy u t o.space s).1)
  unfolding destroy_variants
  destroy_variants_at u i j [] o s t at pos e = cc
  destroy_variants_at u i zero (t' ∷ ts) o s t at pos e =
      let same : t' ≡ t = cc in
      ap (λ r. unless_thrown m r (destroy_variants m u (suc i) ts))
        (if_true _ _ (eq→== o.tag i (omega arith)))
      ∙ (unless_thrown_stop
            (record o { tag = 0 }, (m.destroy u t' o.space s).0, (m.destroy u t' o.space s).1)
            (destroy_variants m u (suc i) ts)
            (destroy_variants_past u (suc i) ts (record o { tag = 0 }) (m.destroy u t' o.space s).0
              (omega arith))
          ∙ ap
              (λ x.
                (record o { tag = 0 }, (m.destroy u x o.space s).0, (m.destroy u x o.space s).1))
              same)
  destroy_variants_at u i (suc j) (t' ∷ ts) o s t at pos e =
      ap (λ r. unless_thrown m r (destroy_variants m u (suc i) ts))
        (if_false _ _ (ne→== o.tag i (λ e'. omega arith)))
      ∙ destroy_variants_at u (suc i) j ts o s t (omega arith) (omega arith) e

  pub copy_variants_past :
      (other : OneOf) (i : ℕ) (ts : List ℕ) (o : OneOf) (s : m.State)
      → other.tag < i
      → copy_variants m other i ts o s ≡ (o, s, false)
  unfolding copy_variants
  copy_variants_past other i [] o s h = refl
  copy_variants_past other i (t ∷ ts) o s h =
      ap (λ r. unless_thrown m r (copy_variants m other (suc i) ts))
        (if_false _ _ (ne→== other.tag i (λ e. omega arith)))
      ∙ copy_variants_past other (suc i) ts o s (omega arith)

  pub copy_variants_at :
      (other : OneOf) (i j : ℕ) (ts : List ℕ) (o : OneOf) (s : m.State) (t : ℕ)
      → other.tag ≡ i + j
      → get_elem? ts j ≡ some t
      → copy_variants m other i ts o s
        ≡ (o, (m.construct t o.space s).0, (m.construct t o.space s).1)
  unfolding copy_variants
  copy_variants_at other i j [] o s t at e = cc
  copy_variants_at other i zero (t' ∷ ts) o s t at e =
      let same : t' ≡ t = cc in
      ap (λ r. unless_thrown m r (copy_variants m other (suc i) ts))
        (if_true _ _ (eq→== other.tag i (omega arith)))
      ∙ (unless_thrown_stop (o, (m.construct t' o.space s).0, (m.construct t' o.space s).1)
            (copy_variants m other (suc i) ts)
            (copy_variants_past other (suc i) ts o (m.construct t' o.space s).0 (omega arith))
          ∙ ap (λ x. (o, (m.construct x o.space s).0, (m.construct x o.space s).1)) same)
  copy_variants_at other i (suc j) (t' ∷ ts) o s t at e =
      ap (λ r. unless_thrown m r (copy_variants m other (suc i) ts))
        (if_false _ _ (ne→== other.tag i (λ e'. omega arith)))
      ∙ copy_variants_at other (suc i) j ts o s t (omega arith) e

  -- The tag is that of the object that lives in the space.
  pub record Holds (types : List ℕ) (o : OneOf) (s : m.State) : Type 0 where
    pub lives : Lives o.space (type_at types o.tag) (m.history s)
    pub within : o.tag ≤ length types

  module _ (b : Behaves m) (types : List ℕ) where
    -- What a destructor does to a living object.
    pub destroy-Lives :
        (u : Bool) (t p : ℕ) (s : m.State)
        → Lives p (some t) (m.history s)
        → Lives p none (m.history (m.destroy u t p s).0)
    destroy-Lives u t p s l =
        subst (Lives p none) (sym (b.destroys u t p s).1) (Lives-destroyed p t (m.history s) l)

    pub destroy_cases :
        (u : Bool) (o : OneOf) (s : m.State) (k : ℕ)
        → o.tag ≡ suc k
        → Holds types o s
        → (t : ℕ) × (type_at types o.tag ≡ some t)
          × (destroy_variants m u 1 types o s
              ≡ (record o { tag = 0 }, (m.destroy u t o.space s).0, (m.destroy u t o.space s).1))
          × Lives o.space none (m.history (m.destroy u t o.space s).0)
    destroy_cases u o s k e h =
        let short = h.within in
        let (t, at) = get_elem?-some types k (omega arith) in
        let typed : type_at types o.tag ≡ some t = ap (type_at types) e ∙ at in
        (
          t,
          typed,
          destroy_variants_at u 1 k types o s t (omega arith) (omega arith) at,
          destroy-Lives u t o.space s (subst (λ x. Lives o.space x (m.history s)) typed h.lives),
        )

    abbrev pub Cleared : OneOf → Done m → Type 0
    Cleared o r = (r.0 ≡ record o { tag = 0 }) × Lives o.space none (m.history r.1)

    clear_cases :
        (o : OneOf) (s : m.State) (k : ℕ)
        → o.tag ≡ k
        → Holds types o s
        → ((clear_tag m types o s).0 ≡ record o { tag = 0 })
          × Lives o.space none (m.history (clear_tag m types o s).1)
    unfolding clear_tag
    clear_cases o s zero e h = subst (Cleared o) (sym (if_true _ _ (eq→== o.tag 0 e))) (
      ap (λ n. record o { tag = n }) e,
      subst (λ x. Lives o.space x (m.history s)) (ap (type_at types) e) h.lives,
    )
    clear_cases o s (suc k) e h =
        let (t, typed, runs, dead) = destroy_cases false o s k e h in
        subst (Cleared o) (sym (if_false _ _ (ne→== o.tag 0 (λ z. omega arith)) ∙ runs))
          (refl, dead)

    -- An object that is cleared is empty, whatever its destructor throws.
    pub clear_tag-Lives :
        (o : OneOf) (s : m.State)
        → Holds types o s
        → ((clear_tag m types o s).0 ≡ record o { tag = 0 })
          × Lives o.space none (m.history (clear_tag m types o s).1)
    clear_tag-Lives o s h = clear_cases o s o.tag refl h
