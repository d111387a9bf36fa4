-- ===== src/EventLoop/Insert.antt =====
-- What inserting an event (async.cpp, `armDepthFirst` and `armBreadthFirst`) does to the chain.
use kj.Base.{ℕ, ◌≡◌, ◌≢◌, false, Option, some, List, [], ◌∷◌, ◌++◌, arith, ◌==◌, ◌∙◌}
use kj.EventLoop.{Slot, head, next_of, EventLoop, read, link}
use kj.EventLoop.Queue.{
  has, Distinct, has-append, Chain, end_slot, Outside, Chain-frame, last_of, end_slot_last,
  has-last_of, Chain-end_slot, has-ne, has-append_false, Outside-mem, first_of-ne,
}

-- What `link` changes, field by field.
module _ (l : EventLoop) (e : ℕ) where
  link_next :
      (slot : Slot) (a : ℕ)
      → (a == e) ≡ false
      → Outside slot (a ∷ [])
      → (link e slot l).next a ≡ l.next a
  unfolding link
  link_next head a h out = ground arith
  link_next (next_of p) a h out = ground arith

  pub link_prev :
      (slot : Slot) (a : ℕ) {after : Option ℕ}
      → read l slot ≡ after
      → (a == e) ≡ false
      → (after ≡ some a → ⊥)
      → (link e slot l).prev a ≡ l.prev a
  unfolding link
  link_prev head a r h out = ground arith
  link_prev (next_of p) a r h out = ground arith

  link_here :
      (slot : Slot)
      → Outside slot (e ∷ [])
      → read l slot ≢ some e
      → (read (link e slot l) slot ≡ some e)
        × ((link e slot l).prev e ≡ some slot)
        × ((link e slot l).next e ≡ read l slot)
  unfolding link
  link_here head out h = ground arith
  link_here (next_of p) out h = ground arith

  link_after :
      (slot : Slot) (y : ℕ) → read l slot ≡ some y → (link e slot l).prev y ≡ some (next_of e)
  unfolding link
  link_after head y r = ground arith
  link_after (next_of p) y r = ground arith

  read-link :
      (slot place : Slot) (a : ℕ)
      → place ≡ next_of a
      → Outside slot (e ∷ [])
      → Outside slot (a ∷ [])
      → read (link e place l) slot ≡ read l slot
  unfolding link
  read-link head place a r out apart = ground arith
  read-link (next_of p) place a r out apart = ground arith

-- `link` leaves the two places alone that the loop remembers.
pub link_places :
    (l : EventLoop) (e : ℕ) (slot : Slot)
    → ((link e slot l).tail ≡ l.tail) × ((link e slot l).insert_point ≡ l.insert_point)
unfolding link
link_places l e head = ground arith
link_places l e (next_of p) = ground arith

pub link_thread :
    (l : EventLoop) (e : ℕ) (slot : Slot)
    → ((link e slot l).current ≡ l.current) × ((link e slot l).address ≡ l.address)
unfolding link
link_thread l e head = ground arith
link_thread l e (next_of p) = ground arith

pub link_port :
    (l : EventLoop) (e : ℕ) (slot : Slot)
    → ((link e slot l).notices ≡ l.notices) × ((link e slot l).last_runnable ≡ l.last_runnable)
unfolding link
link_port l e head = ground arith
link_port l e (next_of p) = ground arith

link-Chain-after :
    (l : EventLoop) (e : ℕ) (slot : Slot) (y : ℕ) (ys : List ℕ)
    → read l slot ≡ some y
    → Outside slot (y ∷ ys)
    → has e (y ∷ ys) ≡ false
    → has y ys ≡ false
    → Chain l (next_of y) ys
    → Chain (link e slot l) (next_of y) ys
link-Chain-after l e slot y ys here out new once c =
    Chain-frame l (link e slot l) (next_of y) ys
      (link_next l e slot y (ground arith) (Outside-mem slot y (y ∷ ys) out (ground arith)))
      (λ a h. (
        link_next l e slot a (has-ne a e (y ∷ ys) (ground arith) new)
            (Outside-mem slot a (y ∷ ys) out (ground arith)),
        link_prev l e slot a here (has-ne a e (y ∷ ys) (ground arith) new) (λ q. ground arith),
      ))
      c

-- Inserting an event at the slot behind `xs` puts it behind `xs`.
pub link-Chain :
    (l : EventLoop) (e : ℕ) (slot : Slot) (xs ys : List ℕ)
    → Outside slot (xs ++ ys)
    → Outside slot (e ∷ [])
    → has e (xs ++ ys) ≡ false
    → Distinct (xs ++ ys)
    → Chain l slot (xs ++ ys)
    → Chain (link e (end_slot slot xs) l) slot (xs ++ e ∷ ys)
link-Chain l e slot [] [] out apart new d c =
    let (at, back, next) = link_here l e slot apart (ground arith) in (at, back, next ∙ c)
link-Chain l e slot [] (y ∷ ys) out apart new (not_again, d) (here, back, c) =
    let (at, own, next) = link_here l e slot apart (ground arith) in
    (
      at,
      own,
      (
        next ∙ here,
        link_after l e slot y here,
        link-Chain-after l e slot y ys here out new not_again c,
      ),
    )
link-Chain l e slot (x ∷ xs) ys out apart new (not_again, d) (here, back, c) =
    let place = end_slot_last slot x xs in
    let follows = Chain-end_slot l (next_of x) xs ys c in
    let apart_ys = (has-append_false x xs ys not_again).1 in
    (
      read-link l e slot (end_slot (next_of x) xs) (last_of x xs) place apart (
            Outside-mem slot (last_of x xs) (x ∷ xs ++ ys) out
              (ground (arith, has-last_of x xs, has-append (last_of x xs) xs ys)))
          ∙ here,
      link_prev l e (end_slot (next_of x) xs) x follows (ground arith) (first_of-ne x ys apart_ys)
          ∙ back,
      link-Chain l e (next_of x) xs ys not_again (ground arith) (ground arith) d c,
    )
