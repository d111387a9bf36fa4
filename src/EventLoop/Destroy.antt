-- ===== src/EventLoop/Destroy.antt =====
-- `~Event` and the start of `turn` (async.cpp) take an event out of the queue, wherever it stands.
use kj.Base.{
  ℕ, ◌≡◌, refl, inl, inr, true, false, none, some, List, [], ◌∷◌, ◌++◌, arith, ◌==◌, if◌then◌else◌,
  Bool-cases, ap, ◌∙◌, sym, subst, append_assoc,
}
use kj.EventLoop.{
  Slot, head, next_of, EventLoop, update, on_thread, splice, same_slot, unlink, forget, destroy,
  dequeue, after,
}
use kj.EventLoop.Queue.{
  has, Distinct, has-append, Chain, end_slot, Chain-same, Chain-frame, has-append_false,
  first_of-ne, next-Chain, prev-Chain, has-ne, end_slot_last, last_of, has-last_of,
}
use kj.EventLoop.Slots.{
  same_slot_ne, has-insert, Distinct-remove, end_slot-remove, Distinct-apart, Distinct-front,
}
use kj.EventLoop.Remove.{
  splice-Chain, splice_prev, splice_places, splice_thread, splice_port, splice_fields, repoint,
  unlink_lem,
}
use kj.EventLoop.Refine.{IsQueue}

unfoldable pub erase : ℕ → List ℕ → List ℕ
erase e [] = []
erase e (x ∷ xs) = if e == x then xs else x ∷ erase e xs

pub erase_split :
    (e : ℕ) (xs : List ℕ)
    → has e xs ≡ true
    → (us vs : List ℕ) × (xs ≡ us ++ e ∷ vs) × (erase e xs ≡ us ++ vs)
unfolding erase
erase_split e [] h = cc
erase_split e (x ∷ xs) h = elim (Bool-cases (e == x)) [
  | inl same ↦ ([], xs, ground arith, rw same)
  | inr other ↦
      let (us, vs, whole, rest) = erase_split e xs (ground arith) in
      (x ∷ us, vs, ap (◌∷◌ x) whole, rw other (ap (◌∷◌ x) rest))
]

pub erase_absent : (e : ℕ) (xs : List ℕ) → has e xs ≡ false → erase e xs ≡ xs
unfolding erase
erase_absent e [] h = refl
erase_absent e (x ∷ xs) h = ground (arith, erase_absent e xs)

splice_others :
    (l : EventLoop) (e : ℕ) (xs ys : List ℕ)
    → Chain l head (xs ++ e ∷ ys)
    → Distinct (xs ++ e ∷ ys)
    → ((a : ℕ) → has a (xs ++ e ∷ ys) ≡ false → l.prev a ≡ none)
    → (a : ℕ) → has a (xs ++ ys) ≡ false
    → (forget e (splice e (end_slot head xs) l)).prev a ≡ none
splice_others l e xs ys c d others a h = elim (Bool-cases (a == e)) [
  | inl same ↦ rw same
  | inr other ↦ rw other (
      splice_prev l e (end_slot head xs) a (next-Chain l head e xs ys c)
        (first_of-ne a ys (has-append_false a xs ys h).1)
      ∙ others a (has-insert a e xs ys ∙ rw (other, h)))
]

removed-IsQueue :
    (e : ℕ) (l l' : EventLoop) (xs ys front back : List ℕ)
    → Chain l head (xs ++ e ∷ ys)
    → Distinct (xs ++ e ∷ ys)
    → ((a : ℕ) → has a (xs ++ e ∷ ys) ≡ false → l.prev a ≡ none)
    → xs ++ ys ≡ front ++ back
    → l'.first ≡ (splice e (end_slot head xs) l).first
    → l'.next ≡ (forget e (splice e (end_slot head xs) l)).next
    → l'.prev ≡ (forget e (splice e (end_slot head xs) l)).prev
    → l'.insert_point ≡ end_slot head front
    → l'.tail ≡ end_slot head (front ++ back)
    → IsQueue l' front back
removed-IsQueue e l l' xs ys front back c d others shape f n p i t =
    let (distinct, gone) = Distinct-remove e xs ys d in
    let spliced = splice e (end_slot head xs) l in
    record {
      chain = subst (Chain l' head) shape (
          Chain-same (forget e spliced) l' head (xs ++ ys) f n p (
            Chain-frame spliced (forget e spliced) head (xs ++ ys) refl
              (λ a h. let ne = has-ne a e (xs ++ ys) h gone in (rw ne, rw ne))
              (splice-Chain l e head xs ys tt d c)));
      distinct = subst Distinct shape distinct;
      insert_at = i;
      ends = t;
      others = λ a h.
          ap (λ prev. prev a) p ∙ splice_others l e xs ys c d others a (ap (has a) shape ∙ h);
    }

unlinked-IsQueue :
    (e : ℕ) (l : EventLoop) (xs ys front back : List ℕ)
    → Chain l head (xs ++ e ∷ ys)
    → Distinct (xs ++ e ∷ ys)
    → ((a : ℕ) → has a (xs ++ e ∷ ys) ≡ false → l.prev a ≡ none)
    → xs ++ ys ≡ front ++ back
    → repoint l.insert_point e (end_slot head xs) ≡ end_slot head front
    → repoint l.tail e (end_slot head xs) ≡ end_slot head (front ++ back)
    → IsQueue (forget e (unlink e (end_slot head xs) l)) front back
unlinked-IsQueue e l xs ys front back c d others shape i t =
    let slot = end_slot head xs in
    let tail' = repoint l.tail e slot in
    let point' = repoint l.insert_point e slot in
    let moved = splice e slot (record l { tail = tail'; insert_point = point' }) in
    let (f, n, p) = splice_fields l e slot tail' point' in
    let places = splice_places (record l { tail = tail'; insert_point = point' }) e slot in
    rw (unlink_lem l e slot) (
      removed-IsQueue e l (forget e moved) xs ys front back c d others shape f
        (ap (λ next. update next e none) n) (ap (λ prev. update prev e none) p) (places.1 ∙ i)
        (places.0 ∙ t))

-- The pointer to the end of a list, when `e` leaves the list.
repoint_end :
    (e : ℕ) (place : Slot) (xs ys zs : List ℕ)
    → place ≡ end_slot head zs
    → zs ≡ xs ++ e ∷ ys
    → Distinct (xs ++ e ∷ ys)
    → repoint place e (end_slot head xs) ≡ end_slot head (xs ++ ys)
unfolding repoint
repoint_end e place xs ys zs at shape d = rw (at, shape) (end_slot-remove e xs ys d)

-- The pointer to the end of a list that does not hold `e`.
repoint_other :
    (e : ℕ) (place slot : Slot) (zs : List ℕ)
    → place ≡ end_slot head zs
    → has e zs ≡ false
    → repoint place e slot ≡ end_slot head zs
unfolding repoint same_slot
repoint_other e place slot [] at h = rw at
repoint_other e place slot (z ∷ zs) at h =
    let ne : same_slot (next_of (last_of z zs)) (next_of e) ≡ false =
      same_slot_ne (last_of z zs) e (has-ne (last_of z zs) e (z ∷ zs) (has-last_of z zs) h) in
    rw (at, end_slot_last head z zs, ne)

after-destroy :
    (e : ℕ) (l : EventLoop)
    → after (destroy e l) ≡ forget e (elim (l.prev e) [ none ↦ l | some slot ↦ unlink e slot l ])
unfolding destroy
after-destroy e l = elim (Bool-cases (l.firing e)) [
  | inl f ↦ rw f
  | inr f ↦ elim (Bool-cases (on_thread l)) [ inl t ↦ rw (f, t) | inr t ↦ rw (f, t) ]
]

destroy-front :
    (e : ℕ) (l : EventLoop) (front back : List ℕ)
    → IsQueue l front back
    → has e front ≡ true
    → IsQueue (after (destroy e l)) (erase e front) (erase e back)
destroy-front e l front back q h =
    let (xs, ys, whole, rest) = erase_split e front h in
    let shape : front ++ back ≡ xs ++ e ∷ (ys ++ back) =
      ap (λ zs. zs ++ back) whole ∙ append_assoc xs (e ∷ ys) back in
    let c = subst (Chain l head) shape q.chain in
    let d = subst Distinct shape q.distinct in
    let front_distinct = subst Distinct whole (Distinct-front front back q.distinct) in
    let kept = erase_absent e back (Distinct-apart e front back q.distinct h) in
    rw (after-destroy e l, rest, kept, prev-Chain l head e xs (ys ++ back) c)
      (unlinked-IsQueue e l xs (ys ++ back) (xs ++ ys) back c d
        (λ a g. q.others a (ap (has a) shape ∙ g)) (sym (append_assoc xs ys back))
        (repoint_end e l.insert_point xs ys front q.insert_at whole front_distinct)
        (repoint_end e l.tail xs (ys ++ back) (front ++ back) q.ends shape d
          ∙ ap (end_slot head) (sym (append_assoc xs ys back))))

destroy-back :
    (e : ℕ) (l : EventLoop) (front back : List ℕ)
    → IsQueue l front back
    → has e front ≡ false
    → has e back ≡ true
    → IsQueue (after (destroy e l)) (erase e front) (erase e back)
destroy-back e l front back q absent h =
    let (xs, ys, whole, rest) = erase_split e back h in
    let shape : front ++ back ≡ (front ++ xs) ++ e ∷ ys =
      ap (◌++◌ front) whole ∙ sym (append_assoc front xs (e ∷ ys)) in
    let c = subst (Chain l head) shape q.chain in
    let d = subst Distinct shape q.distinct in
    rw
      (after-destroy e l, rest, erase_absent e front absent, prev-Chain l head e (front ++ xs) ys c)
      (unlinked-IsQueue e l (front ++ xs) ys front (xs ++ ys) c d
        (λ a g. q.others a (ap (has a) shape ∙ g)) (append_assoc front xs ys)
        (repoint_other e l.insert_point (end_slot head (front ++ xs)) front q.insert_at absent)
        (repoint_end e l.tail (front ++ xs) ys (front ++ back) q.ends shape d
          ∙ ap (end_slot head) (append_assoc front xs ys)))

destroy-absent :
    (e : ℕ) (l : EventLoop) (front back : List ℕ)
    → IsQueue l front back
    → has e (front ++ back) ≡ false
    → IsQueue (after (destroy e l)) (erase e front) (erase e back)
destroy-absent e l front back q absent =
    let (no_front, no_back) = has-append_false e front back absent in
    rw
      (
        after-destroy e l,
        erase_absent e front no_front,
        erase_absent e back no_back,
        q.others e absent,
      )
      (record {
        chain =
            Chain-frame l (forget e l) head (front ++ back) refl
              (λ a h. let ne = has-ne a e (front ++ back) h absent in (rw ne, rw ne)) q.chain;
        distinct = q.distinct;
        insert_at = q.insert_at;
        ends = q.ends;
        others = λ a h. elim (Bool-cases (a == e)) [
          | inl same ↦ rw same
          | inr other ↦ rw other (q.others a h)
        ];
      })

-- Destroying an event takes it out of the queue, wherever it stands and also when the destructor
-- throws, and leaves the other events in their order, with the insertion point behind the same ones.
pub destroy-erase :
    (e : ℕ) (l : EventLoop) (front back : List ℕ)
    → IsQueue l front back
    → IsQueue (after (destroy e l)) (erase e front) (erase e back)
destroy-erase e l front back q = elim (Bool-cases (has e front)) [
  | inl h ↦ destroy-front e l front back q h
  | inr no_front ↦ elim (Bool-cases (has e back)) [
    | inl h ↦ destroy-back e l front back q no_front h
    | inr no_back ↦ destroy-absent e l front back q (ground (arith, has-append e front back))
  ]
]

dequeue_lem :
    (e : ℕ) (l : EventLoop)
    → dequeue e l
      ≡ forget e (record (splice e head l) { tail = repoint l.tail e head; insert_point = head })
unfolding dequeue repoint
dequeue_lem e l = elim (Bool-cases (same_slot l.tail (next_of e))) [
  | inl inside ↦ rw ((splice_places l e head).0, inside)
  | inr outside ↦ rw ((splice_places l e head).0, outside)
]

-- `turn` takes the first event out, and what is armed depth-first from then on goes to the front.
pub dequeue-IsQueue :
    (e : ℕ) (l : EventLoop) (front back rest : List ℕ)
    → IsQueue l front back
    → front ++ back ≡ e ∷ rest
    → IsQueue (dequeue e l) [] rest
dequeue-IsQueue e l front back rest q shape =
    let d = subst Distinct shape q.distinct in
    rw (dequeue_lem e l) (
      removed-IsQueue e l
        (forget e (record (splice e head l) { tail = repoint l.tail e head; insert_point = head }))
        [] rest [] rest (subst (Chain l head) shape q.chain) d
        (λ a h. q.others a (ap (has a) shape ∙ h)) refl refl refl refl refl
        (repoint_end e l.tail [] rest (front ++ back) q.ends shape d))

pub dequeue_thread :
    (e : ℕ) (l : EventLoop)
    → ((dequeue e l).current ≡ l.current) × ((dequeue e l).address ≡ l.address)
dequeue_thread e l = rw (dequeue_lem e l) (splice_thread l e head)

pub dequeue_port :
    (e : ℕ) (l : EventLoop)
    → ((dequeue e l).notices ≡ l.notices) × ((dequeue e l).last_runnable ≡ l.last_runnable)
dequeue_port e l = rw (dequeue_lem e l) (splice_port l e head)
