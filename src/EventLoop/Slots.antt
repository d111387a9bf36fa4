-- ===== src/EventLoop/Slots.antt =====
-- Where a list of distinct events ends, and how that changes when an event comes or goes.
use kj.Base.{
  ℕ, ◌≡◌, refl, true, false, ◌||◌, List, [], ◌∷◌, ◌++◌, arith, ◌==◌, if◌then◌else◌, ap, ◌∙◌, ==_iff,
  append-nil,
}
use kj.EventLoop.{Slot, head, next_of, same_slot}
use kj.EventLoop.Queue.{
  has, Distinct, has-append, end_slot, last_of, end_slot_last, has-last_of, has-append_false,
}

pub same_slot_eq : (r s : Slot) → same_slot r s ≡ true → r ≡ s
unfolding same_slot
same_slot_eq head head h = refl
same_slot_eq head (next_of e) h = cc
same_slot_eq (next_of d) head h = cc
same_slot_eq (next_of d) (next_of e) h = ap next_of ((==_iff d e).0 h)

pub same_slot_refl : (s : Slot) → same_slot s s ≡ true
unfolding same_slot
same_slot_refl head = refl
same_slot_refl (next_of e) = ground arith

pub same_slot_ne : (a e : ℕ) → (a == e) ≡ false → same_slot (next_of a) (next_of e) ≡ false
unfolding same_slot
same_slot_ne a e h = h

pub end_slot-append :
    (s : Slot) (xs ys : List ℕ) → end_slot s (xs ++ ys) ≡ end_slot (end_slot s xs) ys
end_slot-append s [] ys = refl
end_slot-append s (x ∷ xs) ys = end_slot-append (next_of x) xs ys

pub Distinct-back : (xs ys : List ℕ) → Distinct (xs ++ ys) → Distinct ys
Distinct-back [] ys d = d
Distinct-back (x ∷ xs) ys d = Distinct-back xs ys d.1

pub Distinct-front : (xs ys : List ℕ) → Distinct (xs ++ ys) → Distinct xs
Distinct-front [] ys d = tt
Distinct-front (x ∷ xs) ys (once, d) = ((has-append_false x xs ys once).0, Distinct-front xs ys d)

pub Distinct-apart :
    (a : ℕ) (xs ys : List ℕ) → Distinct (xs ++ ys) → has a xs ≡ true → has a ys ≡ false
Distinct-apart a [] ys d h = cc
Distinct-apart a (x ∷ xs) ys (once, d) h =
    ground (arith, has-append x xs ys, Distinct-apart a xs ys d)

pub has-insert : (a e : ℕ) (xs ys : List ℕ) → has a (xs ++ e ∷ ys) ≡ ((a == e) || has a (xs ++ ys))
has-insert a e [] ys = refl
has-insert a e (x ∷ xs) ys = ground (arith, has-insert a e xs ys)

pub Distinct-insert :
    (e : ℕ) (xs ys : List ℕ)
    → Distinct (xs ++ ys)
    → has e (xs ++ ys) ≡ false
    → Distinct (xs ++ e ∷ ys)
Distinct-insert e [] ys d h = (h, d)
Distinct-insert e (x ∷ xs) ys (once, d) h =
    (ground (arith, has-insert x e xs ys), Distinct-insert e xs ys d (ground arith))

pub Distinct-remove :
    (e : ℕ) (xs ys : List ℕ)
    → Distinct (xs ++ e ∷ ys)
    → Distinct (xs ++ ys) × (has e (xs ++ ys) ≡ false)
Distinct-remove e [] ys d = (d.1, d.0)
Distinct-remove e (x ∷ xs) ys (once, d) =
    let (rest, gone) = Distinct-remove e xs ys d in
    ((ground (arith, has-insert x e xs ys), rest), ground (arith, has-insert x e xs ys))

-- The ends of a list and of a proper prefix of it are different slots.
pub end_slot-ne :
    (xs ys : List ℕ) (y : ℕ)
    → Distinct (xs ++ y ∷ ys)
    → same_slot (end_slot head (xs ++ y ∷ ys)) (end_slot head xs) ≡ false
unfolding same_slot
end_slot-ne [] ys y d = ap (λ s. same_slot s head) (end_slot_last head y ys)
end_slot-ne (x ∷ xs) ys y d =
    let whole : end_slot head ((x ∷ xs) ++ y ∷ ys) ≡ next_of (last_of y ys) =
      end_slot-append head (x ∷ xs) (y ∷ ys) ∙ end_slot_last (end_slot (next_of x) xs) y ys in
    let apart = Distinct-apart (last_of x xs) (x ∷ xs) (y ∷ ys) d (has-last_of x xs) in
    rw (whole, end_slot_last head x xs) (same_slot_ne _ _ (ground (arith, has-last_of y ys)))

-- What a pointer to the end of a list becomes when `e` is taken out of the list.
pub end_slot-remove :
    (e : ℕ) (xs ys : List ℕ)
    → Distinct (xs ++ e ∷ ys)
    → (if same_slot (end_slot head (xs ++ e ∷ ys)) (next_of e)
        then end_slot head xs
        else end_slot head (xs ++ e ∷ ys))
      ≡ end_slot head (xs ++ ys)
end_slot-remove e xs [] d =
    rw (end_slot-append head xs (e ∷ []), same_slot_refl (next_of e), append-nil xs)
end_slot-remove e xs (y ∷ ys) d =
    let absent = (Distinct-back xs (e ∷ y ∷ ys) d).0 in
    let ne : same_slot (next_of (last_of y ys)) (next_of e) ≡ false =
      same_slot_ne (last_of y ys) e (ground (arith, has-last_of y ys)) in
    rw (
      end_slot-append head xs (e ∷ y ∷ ys),
      end_slot-append head xs (y ∷ ys),
      end_slot_last (next_of e) y ys,
      ne,
    )
