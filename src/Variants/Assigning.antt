-- ===== src/Variants/Assigning.antt =====
-- What a `OneOf` holds after it is initialised, assigned to and destroyed (one-of.h).
use kj.Base.{
  ℕ, zero, suc, ◌≤◌, ◌≡◌, refl, sym, subst, ap, ◌∙◌, Bool, true, false, Option, none, some, List,
  [], ◌∷◌, ◌++◌, length, append-nil, if◌then◌else◌, arith,
}
use kj.Memory.{Runtime, Behaves, constructed}
use kj.Variants.{
  OneOf, Done, unless_thrown, destroy_variants, copy_from, clear_tag, assign_one_of, set_tag,
  init_variant, destroy_one_of,
}
use kj.Variants.Living.{Lives, Lives-constructed}
use kj.Variants.Tags.{
  type_at, Holds, Cleared, clear_tag-Lives, destroy_cases, copy_variants_past, copy_variants_at,
  destroy_variants_past, get_elem?-some,
}

pub true_ne_false : true ≡ false → ⊥
true_ne_false e = cc

pub none_ne_some : {A : Type 0} {a : A} → ◌≡◌ {A = Option A} none (some a) → ⊥
none_ne_some e = cc

module _ (m : Runtime) where
  pub unless_thrown_cases {κ} :
      (P : Done m → Type κ) (r : Done m) (k : OneOf → m.State → Done m)
      → (r.2 ≡ true → P r)
      → (r.2 ≡ false → P (k r.0 r.1))
      → P (unless_thrown m r k)
  unless_thrown_cases P (o, s, true) k thrown ended = thrown refl
  unless_thrown_cases P (o, s, false) k thrown ended = ended refl

  module _ (b : Behaves m) (types : List ℕ) where
    pub construct-Lives :
        (t p : ℕ) (s : m.State)
        → Lives p none (m.history s)
        → ((m.construct t p s).1 ≡ false → Lives p (some t) (m.history (m.construct t p s).0))
          × ((m.construct t p s).1 ≡ true → Lives p none (m.history (m.construct t p s).0))
    construct-Lives t p s l =
        let says = (b.constructs t p s).1 in
        (
          λ e.
              subst (Lives p (some t))
                (sym (says ∙ ap (λ x. m.history s ++ (if x then [] else constructed t p ∷ [])) e))
                (Lives-constructed p t (m.history s) l),
          λ e.
              subst (Lives p none)
                (sym (
                  says
                  ∙ (ap (λ x. m.history s ++ (if x then [] else constructed t p ∷ [])) e
                      ∙ append-nil (m.history s))))
                l,
        )

    -- How copying into an empty object ends.
    abbrev Copied : OneOf → OneOf → Done m → Type 0
    Copied other o r =
        (r.0 ≡ record o { tag = other.tag })
        × (r.2 ≡ false → Lives o.space (type_at types other.tag) (m.history r.1))
        × (r.2 ≡ true → Lives o.space none (m.history r.1))

    copy_cases :
        (other o : OneOf) (s : m.State) (k : ℕ)
        → other.tag ≡ k
        → other.tag ≤ length types
        → Lives o.space none (m.history s)
        → Copied other o (copy_from m types other o s)
    unfolding copy_from
    copy_cases other o s zero e short l =
        subst (Copied other o)
          (sym (copy_variants_past m other 1 types (record o { tag = other.tag }) s (omega arith)))
          (
            refl,
            λ _. subst (λ x. Lives o.space x (m.history s)) (sym (ap (type_at types) e)) l,
            λ thrown. cc,
          )
    copy_cases other o s (suc k) e short l =
        let (t, at) = get_elem?-some types k (omega arith) in
        let (made, failed) = construct-Lives t o.space s l in
        subst (Copied other o)
          (sym (
            copy_variants_at m other 1 k types (record o { tag = other.tag }) s t (omega arith) at))
          (
            refl,
            λ ended.
                subst (λ x. Lives o.space x (m.history (m.construct t o.space s).0))
                  (sym (ap (type_at types) e ∙ at)) (made ended),
            failed,
          )

    pub copy_from-Copied :
        (other o : OneOf) (s : m.State)
        → other.tag ≤ length types
        → Lives o.space none (m.history s)
        → Copied other o (copy_from m types other o s)
    copy_from-Copied other o s = copy_cases other o s other.tag refl

    -- An assignment from another object that ends without an exception leaves the tag of the other,
    -- which is that of the object that lives in the space then. Where it throws, no object lives there.
    pub assign_one_of-Holds :
        (other o : OneOf) (s : m.State)
        → Holds m types o s
        → other.tag ≤ length types
        → let r = assign_one_of m types (some other) o s in
          (r.2 ≡ false → (r.0 ≡ record o { tag = other.tag }) × Holds m types r.0 r.1)
          × (r.2 ≡ true → Lives o.space none (m.history r.1))
    unfolding assign_one_of
    assign_one_of-Holds other o s h short =
        let c = clear_tag m types o s in
        let (empty, dead) = clear_tag-Lives m b types o s h in
        unless_thrown_cases
          (λ r.
            (r.2 ≡ false → (r.0 ≡ record o { tag = other.tag }) × Holds m types r.0 r.1)
            × (r.2 ≡ true → Lives o.space none (m.history r.1)))
          c (λ o' s'. copy_from m types other o' s')
          (λ thrown. (λ ended. absurd (true_ne_false (sym thrown ∙ ended)), λ _. dead))
          (λ _.
            let (at, made, failed) =
              subst (λ x. Copied other (record o { tag = 0 }) (copy_from m types other x c.1))
                (sym empty) (copy_from-Copied other (record o { tag = 0 }) c.1 short dead) in
            (
              λ ended. (
                at,
                subst (λ x. Holds m types x (copy_from m types other c.0 c.1).1) (sym at)
                    (record { lives = made ended; within = short }),
              ),
              failed,
            ))

    -- Assigned to itself, an object loses its value: it ends empty, with nothing alive in its space,
    -- whether or not the destructor throws.
    pub assign_one_of_itself :
        (o : OneOf) (s : m.State)
        → Holds m types o s
        → let r = assign_one_of m types none o s in
          (r.0 ≡ record o { tag = 0 }) × Lives o.space none (m.history r.1)
    unfolding assign_one_of copy_from
    assign_one_of_itself o s h =
        let c = clear_tag m types o s in
        let (empty, dead) = clear_tag-Lives m b types o s h in
        unless_thrown_cases (Cleared m b types o) c (λ o' s'. copy_from m types o' o' s')
          (λ _. (empty, dead))
          (λ _.
            subst (λ x. Cleared m b types o (copy_from m types x x c.1)) (sym empty)
              (subst (Cleared m b types o)
                (sym (
                  copy_variants_past m (record o { tag = 0 }) 1 types (record o { tag = 0 }) c.1
                    (omega arith)))
                (refl, dead)))

    -- How `init` of the variant `i` ends.
    abbrev pub Initialised : ℕ → OneOf → Done m → Type 0
    Initialised i o r =
        Holds m types r.0 r.1
        × (r.2 ≡ false → r.0 ≡ record o { tag = i })
        × (r.2 ≡ true → r.0 ≡ record o { tag = 0 })

    set_cases :
        (i t : ℕ) (o : OneOf) (s : m.State) (threw : Bool)
        → type_at types i ≡ some t
        → i ≤ length types
        → (threw ≡ false → Lives o.space (some t) (m.history s))
        → (threw ≡ true → Lives o.space none (m.history s))
        → Initialised i o (set_tag m i (record o { tag = 0 }, s, threw))
    set_cases i t o s true typed short made failed =
        (record { lives = failed refl; within = omega arith }, λ e. cc, λ _. refl)
    set_cases i t o s false typed short made failed = (
      record {
        lives = subst (λ x. Lives o.space x (m.history s)) (sym typed) (made refl);
        within = short;
      },
      λ _. refl,
      λ e. cc,
    )

    -- `init` leaves the tag of the object that lives in the space, also where it throws: the object is
    -- empty then.
    pub init_variant-Holds :
        (i t : ℕ) (o : OneOf) (s : m.State)
        → Holds m types o s
        → type_at types i ≡ some t
        → i ≤ length types
        → Initialised i o (init_variant m types i t o s)
    unfolding init_variant
    init_variant-Holds i t o s h typed short =
        let c = clear_tag m types o s in
        let (empty, dead) = clear_tag-Lives m b types o s h in
        let none_left : Holds m types c.0 c.1 =
          subst (λ x. Holds m types x c.1) (sym empty)
            (record { lives = dead; within = omega arith }) in
        let k : OneOf → m.State → Done m =
          λ o' s'. set_tag m i (o', (m.construct t o'.space s').0, (m.construct t o'.space s').1) in
        unless_thrown_cases (Initialised i o) c k
          (λ thrown. (none_left, λ ended. absurd (true_ne_false (sym thrown ∙ ended)), λ _. empty))
          (λ _.
            let (made, failed) = construct-Lives t o.space c.1 dead in
            subst (λ x. Initialised i o (k x c.1)) (sym empty)
              (set_cases i t o (m.construct t o.space c.1).0 (m.construct t o.space c.1).1 typed
                short made failed))

    -- A destructor leaves no object in the space.
    pub destroy_one_of-Lives :
        (u : Bool) (o : OneOf) (s : m.State)
        → Holds m types o s
        → Lives o.space none (m.history (destroy_one_of m u types o s).1)
    unfolding destroy_one_of
    destroy_one_of-Lives u o s h = destroyed_cases o.tag refl
      where
        destroyed_cases :
            (k : ℕ)
            → o.tag ≡ k
            → Lives o.space none (m.history (destroy_variants m u 1 types o s).1)
        destroyed_cases zero e =
            subst (λ r. Lives o.space none (m.history r.1))
              (sym (destroy_variants_past m u 1 types o s (omega arith)))
              (subst (λ x. Lives o.space x (m.history s)) (ap (type_at types) e) h.lives)
        destroyed_cases (suc k) e =
            let (t, typed, runs, dead) = destroy_cases m b types u o s k e h in
            subst (λ r. Lives o.space none (m.history r.1)) (sym runs) dead

    -- The tag of a `OneOf` is that of the object that lives in its space, and no object begins inside
    -- another or ends that does not live: this is kept by `init` in each case, by an assignment from
    -- another object that ends without an exception, and the destructor leaves no object.
    pub OneOf-typed :
        (o other : OneOf) (s : m.State) (i t : ℕ)
        → Holds m types o s
        → other.tag ≤ length types
        → type_at types i ≡ some t
        → i ≤ length types
        → Initialised i o (init_variant m types i t o s)
          × ((assign_one_of m types (some other) o s).2 ≡ false
              → ((assign_one_of m types (some other) o s).0 ≡ record o { tag = other.tag })
                × Holds m types
                    (assign_one_of m types (some other) o s).0
                    (assign_one_of m types (some other) o s).1)
          × ((u : Bool) → Lives o.space none (m.history (destroy_one_of m u types o s).1))
    OneOf-typed o other s i t h short typed inside = (
      init_variant-Holds i t o s h typed inside,
      (assign_one_of-Holds other o s h short).0,
      λ u. destroy_one_of-Lives u o s h,
    )
