-- ===== src/EventLoop/Refine.antt =====
-- The event loop as two lists of events: what it means that the pointers hold them, and that the
-- calls which arm an event insert it where the list says.
use kj.Base.{
  ℕ, ◌≡◌, refl, inl, inr, Bool, true, false, not, ◌&&◌, ◌||◌, Option, none, List, [], ◌∷◌, ◌++◌,
  arith, ◌==◌, Bool-cases, ap, ◌∙◌, sym, subst, append_assoc, append-nil,
}
use kj.EventLoop.{
  Slot, head, next_of, EventLoop, done, is_some, set_runnable, on_thread, link, same_slot,
  arm_depth_first, arm_breadth_first, fresh,
}
use kj.EventLoop.Queue.{
  has, Distinct, Chain, end_slot, Chain-same, has-append_false, first_of-ne, Chain-end_slot,
}
use kj.EventLoop.Slots.{same_slot_refl, end_slot-append, end_slot-ne, Distinct-insert, has-insert}
use kj.EventLoop.Insert.{link-Chain, link_prev, link_places}

pub record IsQueue (l : EventLoop) (front back : List ℕ) : Type 0 where
  pub chain : Chain l head (front ++ back)
  pub distinct : Distinct (front ++ back)
  pub insert_at : l.insert_point ≡ end_slot head front
  pub ends : l.tail ≡ end_slot head (front ++ back)
  pub others : (e : ℕ) → has e (front ++ back) ≡ false → l.prev e ≡ none

pub IsQueue-fresh : (address : ℕ) (current : Option ℕ) → IsQueue (fresh address current) [] []
unfolding fresh
IsQueue-fresh address current = record {
  chain = refl;
  distinct = tt;
  insert_at = refl;
  ends = refl;
  others = λ e h. refl;
}

-- The queue is in five fields of the loop.
pub IsQueue-same :
    (l l' : EventLoop) (front back : List ℕ)
    → l'.first ≡ l.first
    → l'.next ≡ l.next
    → l'.prev ≡ l.prev
    → l'.insert_point ≡ l.insert_point
    → l'.tail ≡ l.tail
    → IsQueue l front back
    → IsQueue l' front back
IsQueue-same l l' front back f n p i t q = record {
  chain = Chain-same l l' head (front ++ back) f n p q.chain;
  distinct = q.distinct;
  insert_at = i ∙ q.insert_at;
  ends = t ∙ q.ends;
  others = λ e h. ap (λ prev. prev e) p ∙ q.others e h;
}

pub set_runnable-IsQueue :
    (runnable : Bool) (l : EventLoop) (front back : List ℕ)
    → IsQueue l front back
    → IsQueue (set_runnable runnable l) front back
unfolding set_runnable
set_runnable-IsQueue runnable l front back q =
    elim (Bool-cases ((runnable && l.last_runnable) || (not runnable && not l.last_runnable))) [
      | inl same ↦ rw same q
      | inr changed ↦ rw changed (
          IsQueue-same l (record l { last_runnable = runnable; notices = runnable ∷ l.notices })
            front back refl refl refl refl refl q)
    ]

link_others :
    (l : EventLoop) (e : ℕ) (xs ys : List ℕ)
    → Chain l head (xs ++ ys)
    → ((a : ℕ) → has a (xs ++ ys) ≡ false → l.prev a ≡ none)
    → (a : ℕ) → has a (xs ++ e ∷ ys) ≡ false
    → (link e (end_slot head xs) l).prev a ≡ none
link_others l e xs ys c others a h =
    let both : ((a == e) || has a (xs ++ ys)) ≡ false = sym (has-insert a e xs ys) ∙ h in
    let absent : has a (xs ++ ys) ≡ false = ground arith in
    link_prev l e (end_slot head xs) a (Chain-end_slot l head xs ys c) (ground arith)
      (first_of-ne a ys (has-append_false a xs ys absent).1)
    ∙ others a absent

linked-IsQueue :
    (e : ℕ) (l l' : EventLoop) (xs ys front back : List ℕ)
    → Chain l head (xs ++ ys)
    → Distinct (xs ++ ys)
    → ((a : ℕ) → has a (xs ++ ys) ≡ false → l.prev a ≡ none)
    → has e (xs ++ ys) ≡ false
    → xs ++ e ∷ ys ≡ front ++ back
    → l'.first ≡ (link e (end_slot head xs) l).first
    → l'.next ≡ (link e (end_slot head xs) l).next
    → l'.prev ≡ (link e (end_slot head xs) l).prev
    → l'.insert_point ≡ end_slot head front
    → l'.tail ≡ end_slot head (front ++ back)
    → IsQueue l' front back
linked-IsQueue e l l' xs ys front back c d others new shape f n p i t = record {
  chain = subst (Chain l' head) shape (
      Chain-same (link e (end_slot head xs) l) l' head (xs ++ e ∷ ys) f n p
        (link-Chain l e head xs ys tt tt new d c));
  distinct = subst Distinct shape (Distinct-insert e xs ys d new);
  insert_at = i;
  ends = t;
  others = λ a h. ap (λ prev. prev a) p ∙ link_others l e xs ys c others a (ap (has a) shape ∙ h);
}

-- Arming an event depth-first puts it behind the events that were armed so since the current event
-- began to run, and before all others.
pub arm_depth_first-insert :
    (e : ℕ) (l : EventLoop) (front back : List ℕ)
    → IsQueue l front back
    → on_thread l ≡ true
    → has e (front ++ back) ≡ false
    → (l' : EventLoop) × (arm_depth_first e l ≡ done l') × IsQueue l' (front ++ e ∷ []) back
unfolding arm_depth_first
arm_depth_first-insert e l front [] q here new =
    let nil_end : l.tail ≡ l.insert_point =
      q.ends ∙ ap (end_slot head) (append-nil front) ∙ sym q.insert_at in
    let linked = record (link e l.insert_point l) { insert_point = next_of e; tail = next_of e } in
    (
      set_runnable true linked,
      rw (here, q.others e new, nil_end, same_slot_refl l.insert_point),
      set_runnable-IsQueue true linked (front ++ e ∷ []) [] (
          linked-IsQueue e l linked front [] (front ++ e ∷ []) [] q.chain q.distinct q.others new
            (sym (append-nil (front ++ e ∷ []))) (ap (λ s. (link e s l).first) q.insert_at)
            (ap (λ s. (link e s l).next) q.insert_at) (ap (λ s. (link e s l).prev) q.insert_at)
            (sym (end_slot-append head front (e ∷ [])))
            (rw (append-nil (front ++ e ∷ []), end_slot-append head front (e ∷ [])))),
    )
arm_depth_first-insert e l front (y ∷ ys) q here new =
    let apart : same_slot l.tail l.insert_point ≡ false =
      rw (q.ends, q.insert_at) (end_slot-ne front ys y q.distinct) in
    let linked = record (link e l.insert_point l) { insert_point = next_of e } in
    let kept : linked.tail ≡ l.tail = (link_places l e l.insert_point).0 in
    (
      set_runnable true linked,
      rw (here, q.others e new, apart),
      set_runnable-IsQueue true linked (front ++ e ∷ []) (y ∷ ys) (
          linked-IsQueue e l linked front (y ∷ ys) (front ++ e ∷ []) (y ∷ ys) q.chain q.distinct
            q.others new (sym (append_assoc front (e ∷ []) (y ∷ ys)))
            (ap (λ s. (link e s l).first) q.insert_at) (ap (λ s. (link e s l).next) q.insert_at)
            (ap (λ s. (link e s l).prev) q.insert_at) (sym (end_slot-append head front (e ∷ [])))
            (kept
              ∙ q.ends
              ∙ rw (
                end_slot-append head front (y ∷ ys),
                append_assoc,
                end_slot-append head front (e ∷ y ∷ ys),
              ))),
    )

-- Arming an event breadth-first puts it behind all others.
pub arm_breadth_first-append :
    (e : ℕ) (l : EventLoop) (front back : List ℕ)
    → IsQueue l front back
    → on_thread l ≡ true
    → has e (front ++ back) ≡ false
    → (l' : EventLoop) × (arm_breadth_first e l ≡ done l') × IsQueue l' front (back ++ e ∷ [])
unfolding arm_breadth_first
arm_breadth_first-append e l front back q here new =
    let linked = record (link e l.tail l) { tail = next_of e } in
    let all : front ++ back ≡ (front ++ back) ++ [] = sym (append-nil (front ++ back)) in
    (
      set_runnable true linked,
      rw (here, q.others e new),
      set_runnable-IsQueue true linked front (back ++ e ∷ []) (
          linked-IsQueue e l linked (front ++ back) [] front (back ++ e ∷ [])
            (subst (Chain l head) all q.chain) (subst Distinct all q.distinct)
            (λ a h. q.others a (ap (has a) all ∙ h)) (sym (ap (has e) all) ∙ new)
            (append_assoc front back (e ∷ [])) (ap (λ s. (link e s l).first) q.ends)
            (ap (λ s. (link e s l).next) q.ends) (ap (λ s. (link e s l).prev) q.ends)
            ((link_places l e l.tail).1 ∙ q.insert_at)
            (sym (
              ap (end_slot head) (sym (append_assoc front back (e ∷ [])))
              ∙ end_slot-append head (front ++ back) (e ∷ [])))),
    )

-- An event that is in the queue has a place in it.
Chain-prev :
    (l : EventLoop) (slot : Slot) (e : ℕ) (xs : List ℕ)
    → Chain l slot xs
    → has e xs ≡ true
    → is_some (l.prev e) ≡ true
Chain-prev l slot e [] c h = cc
Chain-prev l slot e (x ∷ xs) c h = elim (Bool-cases (e == x)) [
  | inl same ↦ let is : e ≡ x = ground arith in rw (is, c.1)
  | inr other ↦ Chain-prev l (next_of x) e xs c.2 (ground arith)
]

-- Arming an event that is in the queue already changes nothing.
pub arm_again :
    (e : ℕ) (l : EventLoop) (front back : List ℕ)
    → IsQueue l front back
    → on_thread l ≡ true
    → has e (front ++ back) ≡ true
    → (arm_depth_first e l ≡ done l) × (arm_breadth_first e l ≡ done l)
unfolding arm_depth_first arm_breadth_first
arm_again e l front back q here old =
    let armed = Chain-prev l head e (front ++ back) q.chain old in
    (rw (here, armed), rw (here, armed))
