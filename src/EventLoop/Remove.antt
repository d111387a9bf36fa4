-- ===== src/EventLoop/Remove.antt =====
-- What taking an event out (async.cpp, `~Event` and `turn`) does to the chain.
use kj.Base.{
  ℕ, ◌≡◌, inl, inr, false, Option, some, List, [], ◌∷◌, ◌++◌, arith, if◌then◌else◌, Bool-cases, ◌∙◌,
}
use kj.EventLoop.{Slot, head, next_of, EventLoop, read, splice, unlink, same_slot}
use kj.EventLoop.Queue.{
  has, Distinct, has-append, Chain, end_slot, Outside, Chain-frame, last_of, end_slot_last,
  has-last_of, has-append_false, Outside-mem, first_of-ne, next-Chain,
}

-- What `splice` changes, field by field.
module _ (l : EventLoop) (e : ℕ) where
  splice_next : (slot : Slot) (a : ℕ) → Outside slot (a ∷ []) → (splice e slot l).next a ≡ l.next a
  unfolding splice
  splice_next head a out = ground arith
  splice_next (next_of p) a out = ground arith

  pub splice_prev :
      (slot : Slot) (a : ℕ) {after : Option ℕ}
      → l.next e ≡ after
      → (after ≡ some a → ⊥)
      → (splice e slot l).prev a ≡ l.prev a
  unfolding splice
  splice_prev head a r out = ground arith
  splice_prev (next_of p) a r out = ground arith

  splice_here : (slot : Slot) → read (splice e slot l) slot ≡ l.next e
  unfolding splice
  splice_here head = ground arith
  splice_here (next_of p) = ground arith

  splice_after : (slot : Slot) (y : ℕ) → l.next e ≡ some y → (splice e slot l).prev y ≡ some slot
  unfolding splice
  splice_after head y r = ground arith
  splice_after (next_of p) y r = ground arith

  read-splice :
      (slot place : Slot) (a : ℕ)
      → place ≡ next_of a
      → Outside slot (a ∷ [])
      → read (splice e place l) slot ≡ read l slot
  unfolding splice
  read-splice head place a r apart = ground arith
  read-splice (next_of p) place a r apart = ground arith

-- `splice` leaves the two places alone that the loop remembers.
pub splice_places :
    (l : EventLoop) (e : ℕ) (slot : Slot)
    → ((splice e slot l).tail ≡ l.tail) × ((splice e slot l).insert_point ≡ l.insert_point)
unfolding splice
splice_places l e head = ground arith
splice_places l e (next_of p) = ground arith

pub splice_thread :
    (l : EventLoop) (e : ℕ) (slot : Slot)
    → ((splice e slot l).current ≡ l.current) × ((splice e slot l).address ≡ l.address)
unfolding splice
splice_thread l e head = ground arith
splice_thread l e (next_of p) = ground arith

pub splice_port :
    (l : EventLoop) (e : ℕ) (slot : Slot)
    → ((splice e slot l).notices ≡ l.notices) × ((splice e slot l).last_runnable ≡ l.last_runnable)
unfolding splice
splice_port l e head = ground arith
splice_port l e (next_of p) = ground arith

splice-Chain-after :
    (l : EventLoop) (e : ℕ) (slot : Slot) (y : ℕ) (ys : List ℕ)
    → l.next e ≡ some y
    → Outside slot (y ∷ ys)
    → has y ys ≡ false
    → Chain l (next_of y) ys
    → Chain (splice e slot l) (next_of y) ys
splice-Chain-after l e slot y ys here out once c =
    Chain-frame l (splice e slot l) (next_of y) ys
      (splice_next l e slot y (Outside-mem slot y (y ∷ ys) out (ground arith)))
      (λ a h. (
        splice_next l e slot a (Outside-mem slot a (y ∷ ys) out (ground arith)),
        splice_prev l e slot a here (λ q. ground arith),
      ))
      c

Outside-tail : (slot : Slot) (e : ℕ) (ys : List ℕ) → Outside slot (e ∷ ys) → Outside slot ys
Outside-tail head e ys out = tt
Outside-tail (next_of p) e ys out = ground arith

-- Taking an event out from behind `xs` leaves the rest in order.
pub splice-Chain :
    (l : EventLoop) (e : ℕ) (slot : Slot) (xs ys : List ℕ)
    → Outside slot (xs ++ e ∷ ys)
    → Distinct (xs ++ e ∷ ys)
    → Chain l slot (xs ++ e ∷ ys)
    → Chain (splice e (end_slot slot xs) l) slot (xs ++ ys)
splice-Chain l e slot [] [] out d (here, back, next) = splice_here l e slot ∙ next
splice-Chain l e slot [] (y ∷ ys) out (once, (once', d)) (here, back, (next, back', c)) = (
  splice_here l e slot ∙ next,
  splice_after l e slot y next,
  splice-Chain-after l e slot y ys next (Outside-tail slot e (y ∷ ys) out) once' c,
)
splice-Chain l e slot (x ∷ xs) ys out (once, d) (here, back, c) =
    let place = end_slot_last slot x xs in
    let follows = next-Chain l (next_of x) e xs ys c in
    let apart = has-append_false x xs (e ∷ ys) once in
    (
      read-splice l e slot (end_slot (next_of x) xs) (last_of x xs) place (
            Outside-mem slot (last_of x xs) (x ∷ xs ++ e ∷ ys) out
              (ground (arith, has-last_of x xs, has-append (last_of x xs) xs (e ∷ ys))))
          ∙ here,
      splice_prev l e (end_slot (next_of x) xs) x follows (first_of-ne x ys (ground arith)) ∙ back,
      splice-Chain l e (next_of x) xs ys once d c,
    )

-- `splice` neither reads nor writes those two places.
pub splice_fields :
    (l : EventLoop) (e : ℕ) (slot t i : Slot)
    → let l' = record l { tail = t; insert_point = i } in
      ((splice e slot l').first ≡ (splice e slot l).first)
      × ((splice e slot l').next ≡ (splice e slot l).next)
      × ((splice e slot l').prev ≡ (splice e slot l).prev)
unfolding splice
splice_fields l e head t i = ground arith
splice_fields l e (next_of p) t i = ground arith

unfoldable pub repoint : Slot → ℕ → Slot → Slot
repoint place e slot = if same_slot place (next_of e) then slot else place

-- `unlink` is `splice` and a change of the two places, if they are inside the event.
pub unlink_lem :
    (l : EventLoop) (e : ℕ) (slot : Slot)
    → unlink e slot l
      ≡ splice e slot
          (record l { tail = repoint l.tail e slot; insert_point = repoint l.insert_point e slot })
unfolding unlink repoint
unlink_lem l e slot = elim (Bool-cases (same_slot l.tail (next_of e))) [
  | inl t ↦ elim (Bool-cases (same_slot l.insert_point (next_of e))) [
    | inl i ↦ rw (t, i)
    | inr i ↦ rw (t, i)
  ]
  | inr t ↦ elim (Bool-cases (same_slot l.insert_point (next_of e))) [
    | inl i ↦ rw (t, i)
    | inr i ↦ rw (t, i)
  ]
]
