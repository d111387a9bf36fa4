-- ===== src/Refcount/Counting.antt =====
-- The counts of objects are the numbers of their pointers (refcount.h, refcount.cpp, memory.h).
use kj.Base.{
  ℕ, zero, suc, ◌+◌, ◌-◌, ◌%◌, ◌^◌, ◌≤◌, ◌<◌, ◌≡◌, refl, sym, subst, ap, ◌∙◌, inl, inr, true, false,
  Option, none, some, Bool-cases, List, [], ◌∷◌, length, ltb, ◌==◌, if◌then◌else◌, if_true,
  if_false, lt→ltb, le→ltb, ==_iff, ==_refl, arith,
}
use kj.Refcount.{
  Objects, fine, and_then, put_at, add_ref_internal, refcounted, add_ref, delete_object,
  dispose_impl, dispose_pointer, pointer, set_pointer,
}

abbrev pub held : ℕ → Option ℕ → ℕ
held o none = 0
held o (some p) = if p == o then 1 else 0

-- How many variables point to an object.
abbrev pub count_of : ℕ → List (Option ℕ) → ℕ
count_of o [] = 0
count_of o (p ∷ ps) = held o p + count_of o ps

-- The objects have the counts `f`, and are alive where these are not zero.
pub record Counted (f : ℕ → ℕ) (s : Objects) : Type 0 where
  pub counts : (o : ℕ) → s.refcount o ≡ f o
  pub lives : (o : ℕ) → s.alive o ≡ ltb 0 (f o)
  pub unused : (o : ℕ) → s.next_object ≤ o → f o ≡ 0

pub Counted-ext : (f g : ℕ → ℕ) (s : Objects) → ((o : ℕ) → f o ≡ g o) → Counted f s → Counted g s
Counted-ext f g s same c = record {
  counts = λ o. c.counts o ∙ same o;
  lives = λ o. c.lives o ∙ ap (ltb 0) (same o);
  unused = λ o h. sym (same o) ∙ c.unused o h;
}

held-le : (o : ℕ) (q : Option ℕ) → held o q ≤ 1
held-le o none = omega arith
held-le o (some p) = ground arith

pub count_of-le-length : (o : ℕ) (ps : List (Option ℕ)) → count_of o ps ≤ length ps
count_of-le-length o [] = omega arith
count_of-le-length o (p ∷ ps) =
    let h = held-le o p in let rest = count_of-le-length o ps in omega arith

pub length-set_pointer :
    (i : ℕ) (q : Option ℕ) (ps : List (Option ℕ)) → length (set_pointer i q ps) ≡ length ps
length-set_pointer i q [] = refl
length-set_pointer zero q (p ∷ ps) = refl
length-set_pointer (suc i) q (p ∷ ps) = ap (λ n. suc n) (length-set_pointer i q ps)

pub count_of-set_pointer :
    (o i : ℕ) (q : Option ℕ) (ps : List (Option ℕ))
    → i < length ps
    → held o (pointer i ps) + count_of o (set_pointer i q ps) ≡ held o q + count_of o ps
count_of-set_pointer o i q [] h = omega arith
count_of-set_pointer o zero q (p ∷ ps) h = omega arith
count_of-set_pointer o (suc i) q (p ∷ ps) h =
    let rest = count_of-set_pointer o i q ps (omega arith) in omega arith

pub pointer-set_pointer :
    (i j : ℕ) (ps : List (Option ℕ)) → pointer j (set_pointer i (pointer j ps) ps) ≡ pointer j ps
pointer-set_pointer i j [] = refl
pointer-set_pointer zero zero (p ∷ ps) = refl
pointer-set_pointer zero (suc j) (p ∷ ps) = refl
pointer-set_pointer (suc i) zero (p ∷ ps) = refl
pointer-set_pointer (suc i) (suc j) (p ∷ ps) = pointer-set_pointer i j ps

lt→differs : (a b : ℕ) → a < b → (a == b) ≡ false
lt→differs a b h = ground arith

not_zero→positive : (n : ℕ) → (n == 0) ≡ false → 0 < n
not_zero→positive n h = ground arith

-- A statement on every number, shown for one and for the others.
at_each {ℓ} : (P : ℕ → Type ℓ) (o : ℕ) → P o → ((j : ℕ) → (o == j) ≡ false → P j) → (j : ℕ) → P j
at_each P o here elsewhere j = elim (Bool-cases (o == j)) [
  | inl e ↦ subst P (omega (arith, (==_iff o j).0 e)) here
  | inr n ↦ elsewhere j n
]

module _ (o : ℕ) where
  put_at_self {ℓ} : {A : Type ℓ} (v : A) (f : ℕ → A) → put_at o v f o ≡ v
  unfolding put_at
  put_at_self v f = if_true _ _ (==_refl o)

  put_at_other {ℓ} :
      {A : Type ℓ} (v : A) (f : ℕ → A) (j : ℕ) → (o == j) ≡ false → put_at o v f j ≡ f j
  unfolding put_at
  put_at_other v f j n = if_false _ _ n

  held_self : held o (some o) ≡ 1
  held_self = if_true _ _ (==_refl o)

  held_other : (j : ℕ) → (o == j) ≡ false → held j (some o) ≡ 0
  held_other j n = if_false _ _ n

  module _ (g : ℕ → ℕ) where
    with_self : held o (some o) + g o ≡ g o + 1
    with_self = rw held_self (omega arith)

    with_other : (j : ℕ) → (o == j) ≡ false → held j (some o) + g j ≡ g j
    with_other j n = rw (held_other j n) (omega arith)

add_ref_internal-Counted :
    (o : ℕ) (g : ℕ → ℕ) (s : Objects)
    → ((j : ℕ) → s.refcount j ≡ g j)
    → ((j : ℕ) → s.alive j ≡ ltb 0 (held j (some o) + g j))
    → ((j : ℕ) → s.next_object ≤ j → held j (some o) + g j ≡ 0)
    → g o + 1 < 2 ^ 32
    → (s' : Objects) × (add_ref_internal o s ≡ fine s') × Counted (λ j. held j (some o) + g j) s'
unfolding add_ref_internal
add_ref_internal-Counted o g s counts lives unused room = (
  record s { refcount = put_at o ((s.refcount o + 1) % 2 ^ 32) s.refcount },
  if_true _ _ (lives o ∙ lt→ltb 0 _ (rw (with_self o g) (omega arith))),
  record {
    counts =
        at_each (λ j. put_at o ((s.refcount o + 1) % 2 ^ 32) s.refcount j ≡ held j (some o) + g j) o
          (put_at_self o _ s.refcount ∙ (rw (counts o) (omega arith) ∙ sym (with_self o g)))
          (λ j n. put_at_other o _ s.refcount j n ∙ (counts j ∙ sym (with_other o g j n)));
    lives = lives;
    unused = unused;
  },
)

pub refcounted-Counted :
    (g : ℕ → ℕ) (s : Objects)
    → Counted g s
    → (s' : Objects) × (refcounted s ≡ fine (s.next_object, s'))
      × Counted (λ j. held j (some s.next_object) + g j) s'
unfolding refcounted and_then
refcounted-Counted g s c =
    let o = s.next_object in
    let none_yet : g o ≡ 0 = c.unused o (omega arith) in
    let made : Objects = record {
      refcount = put_at o 0 s.refcount;
      alive = put_at o true s.alive;
      next_object = o + 1;
    } in
    let (s', ends, c') =
      add_ref_internal-Counted o g made
        (at_each (λ j. put_at o 0 s.refcount j ≡ g j) o (put_at_self o 0 s.refcount ∙ sym none_yet)
          (λ j n. put_at_other o 0 s.refcount j n ∙ c.counts j))
        (at_each (λ j. put_at o true s.alive j ≡ ltb 0 (held j (some o) + g j)) o
          (put_at_self o true s.alive ∙ sym (lt→ltb 0 _ (rw (with_self o g) (omega arith))))
          (λ j n.
            put_at_other o true s.alive j n ∙ (c.lives j ∙ sym (ap (ltb 0) (with_other o g j n)))))
        (λ j h. with_other o g j (lt→differs o j (omega arith)) ∙ c.unused j (omega arith))
        (omega arith) in
    (s', ap (λ r. and_then r (λ s'. fine (o, s'))) ends, c')

pub add_ref-Counted :
    (o : ℕ) (g : ℕ → ℕ) (s : Objects)
    → Counted g s
    → 0 < g o
    → g o + 1 < 2 ^ 32
    → (s' : Objects) × (add_ref o s ≡ fine s') × Counted (λ j. held j (some o) + g j) s'
unfolding add_ref
add_ref-Counted o g s c there room =
    let (s', ends, c') =
      add_ref_internal-Counted o g s c.counts
        (at_each (λ j. s.alive j ≡ ltb 0 (held j (some o) + g j)) o
          (c.lives o ∙ (lt→ltb 0 _ there ∙ sym (lt→ltb 0 _ (rw (with_self o g) (omega arith)))))
          (λ j n. c.lives j ∙ sym (ap (ltb 0) (with_other o g j n))))
        (at_each (λ j. s.next_object ≤ j → held j (some o) + g j ≡ 0) o
          (λ h. let zero_there = c.unused o h in absurd (omega arith))
          (λ j n h. with_other o g j n ∙ c.unused j h))
        room in
    (
      s',
      if_true _ _ (c.lives o ∙ lt→ltb 0 _ there)
          ∙ (if_true _ _ (ap (ltb 0) (c.counts o) ∙ lt→ltb 0 _ there) ∙ ends),
      c',
    )

-- The other objects keep their counts where one loses a pointer.
module _ (o : ℕ) (g : ℕ → ℕ) (s : Objects) (c : Counted (λ j. held j (some o) + g j) s) where
  left_self : g o + 1 < 2 ^ 32 → (s.refcount o + (2 ^ 32 - 1)) % 2 ^ 32 ≡ g o
  left_self room = rw (c.counts o ∙ with_self o g) (omega arith)

  put_at-counts : (v : ℕ) → v ≡ g o → (j : ℕ) → put_at o v s.refcount j ≡ g j
  put_at-counts v e =
      at_each (λ j. put_at o v s.refcount j ≡ g j) o (put_at_self o v s.refcount ∙ e)
        (λ j n. put_at_other o v s.refcount j n ∙ (c.counts j ∙ with_other o g j n))

  lost-unused : (j : ℕ) → s.next_object ≤ j → g j ≡ 0
  lost-unused j h = let both = c.unused j h in omega arith

  dispose_impl-Counted :
      g o + 1 < 2 ^ 32 → (s' : Objects) × (dispose_impl o s ≡ fine s') × Counted g s'
  unfolding dispose_impl delete_object
  dispose_impl-Counted room = elim (Bool-cases (g o == 0)) [
    | inl last ↦ (
      record s {
        refcount = put_at o ((s.refcount o + (2 ^ 32 - 1)) % 2 ^ 32) s.refcount;
        alive = put_at o false s.alive;
      },
      if_true _ _ there
          ∙ (if_true _ _ (ap (λ n. n == 0) (left_self room) ∙ last)
              ∙ if_true _ _ (ap (λ n. n == 0) (put_at-counts _ (left_self room) o) ∙ last)),
      record {
        counts = put_at-counts _ (left_self room);
        lives =
            at_each (λ j. put_at o false s.alive j ≡ ltb 0 (g j)) o
              (put_at_self o false s.alive
                ∙ sym (le→ltb 0 (g o) (omega (arith, (==_iff (g o) 0).0 last))))
              (λ j n.
                put_at_other o false s.alive j n ∙ (c.lives j ∙ ap (ltb 0) (with_other o g j n)));
        unused = lost-unused;
      },
    )
    | inr more ↦ (
      record s { refcount = put_at o ((s.refcount o + (2 ^ 32 - 1)) % 2 ^ 32) s.refcount },
      if_true _ _ there ∙ if_false _ _ (ap (λ n. n == 0) (left_self room) ∙ more),
      record {
        counts = put_at-counts _ (left_self room);
        lives =
            at_each (λ j. s.alive j ≡ ltb 0 (g j)) o
              (there ∙ sym (lt→ltb 0 (g o) (not_zero→positive (g o) more)))
              (λ j n. c.lives j ∙ ap (ltb 0) (with_other o g j n));
        unused = lost-unused;
      },
    )
  ]
    where
      there : s.alive o ≡ true
      there = c.lives o ∙ lt→ltb 0 _ (rw (with_self o g) (omega arith))

pub dispose_pointer-Counted :
    (q : Option ℕ) (g : ℕ → ℕ) (s : Objects)
    → Counted (λ j. held j q + g j) s
    → ((j : ℕ) → g j + 1 < 2 ^ 32)
    → (s' : Objects) × (dispose_pointer q s ≡ fine s') × Counted g s'
unfolding dispose_pointer
dispose_pointer-Counted none g s c room =
    (s, refl, Counted-ext (λ j. 0 + g j) g s (λ o. omega arith) c)
dispose_pointer-Counted (some o) g s c room = dispose_impl-Counted o g s c (room o)
