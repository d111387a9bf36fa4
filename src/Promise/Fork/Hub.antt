-- ===== src/Promise/Fork/Hub.antt =====
-- The branches of a fork that wait (async.cpp).
use kj.Base.{
  ℕ, ◌≡◌, ◌≢◌, refl, sym, subst, ap, ◌∙◌, Bool, true, false, ◌||◌, Option, none, some, List, [],
  ◌∷◌, ◌++◌, ◌==◌, Bool-cases, inl, inr, if◌then◌else◌, if_true, if_false, arith, append-nil,
}
use kj.EventLoop.{Slot, head, next_of, update, read, write, set_prev, link, splice}
use kj.EventLoop.Queue.{
  has, Distinct, Chain, Chain-frame, Chain-same, end_slot, end_slot_last, last_of, has-last_of,
  Outside, first_of, has-ne, Chain-end_slot, next-Chain, prev-Chain,
}
use kj.EventLoop.Slots.{end_slot-append, Distinct-insert, Distinct-remove, has-insert}
use kj.EventLoop.Insert.{link-Chain}
use kj.EventLoop.Remove.{splice-Chain}
use kj.Promise.{Ready, nobody, already, waiting_event, init}
use kj.Promise.Fork.{
  ForkHub, fork_hub, put_branch, insert_branch, add_branch, set_prev_ptr, remove_branch,
  destroy_branch, branch_on_ready,
}
use kj.Promise.Fork.Branches.{queue_of}

-- A hub that was not told yet, with its branches in the order of the list.
pub record IsOpen (h : ForkHub) (xs : List ℕ) : Type 0 where
  pub tail_at : h.tail_branch ≡ some (end_slot head xs)
  pub chain : Chain (queue_of h) head xs
  pub distinct : Distinct xs
  pub waits : (a : ℕ) → has a xs ≡ true → h.ready a ≢ already

pub fork_hub-IsOpen : IsOpen fork_hub []
fork_hub-IsOpen = record { tail_at = refl; chain = refl; distinct = tt; waits = λ a m. cc }

Outside-end_slot : (b : ℕ) (xs : List ℕ) → has b xs ≡ false → Outside (end_slot head xs) (b ∷ [])
Outside-end_slot b [] e = tt
Outside-end_slot b (x ∷ xs) e =
    subst (λ s. Outside s (b ∷ [])) (sym (end_slot_last head x xs))
      (ap (λ q. q || false) (has-ne (last_of x xs) b (x ∷ xs) (has-last_of x xs) e))

or_right : (x y : Bool) → y ≡ true → (x || y) ≡ true
or_right true y e = refl
or_right false y e = e

pub nobody_ne_already : nobody ≢ already
nobody_ne_already e = cc

abbrev pub fresh : ForkHub → ℕ → ForkHub
fresh h b = record h {
  next = update h.next b none;
  prev_ptr = update h.prev_ptr b none;
  ready = update h.ready b nobody;
}

-- The hub when a new branch stands at the slot.
abbrev added : ForkHub → ℕ → Slot → ForkHub
added h b slot =
    let linked =
      put_branch slot (some b)
        (record (fresh h b) { prev_ptr = update (fresh h b).prev_ptr b (some slot) }) in
    record linked { next = update linked.next b none; tail_branch = some (next_of b) }

module _ (h : ForkHub) (b : ℕ) where
  added_fields :
      (slot : Slot)
      → read (queue_of h) slot ≡ none
      → Outside slot (b ∷ [])
      → ((added h b slot).head_branch ≡ (link b slot (queue_of h)).first)
        × ((a : ℕ) → (added h b slot).next a ≡ (link b slot (queue_of h)).next a)
        × ((a : ℕ) → (added h b slot).prev_ptr a ≡ (link b slot (queue_of h)).prev a)
        × ((a : ℕ) → (added h b slot).ready a ≡ (if a == b then nobody else h.ready a))
        × ((added h b slot).tail_branch ≡ some (next_of b))
  unfolding link
  added_fields head e out = (ground arith, λ a. ground arith, λ a. ground arith, λ a. refl, refl)
  added_fields (next_of p) e out =
      (ground arith, λ a. ground arith, λ a. ground arith, λ a. refl, refl)

  removed_fields :
      (slot : Slot) (o : Option ℕ)
      → let h' = set_prev_ptr o slot (put_branch slot o h) in
        let l' = set_prev o slot (write slot o (queue_of h)) in
        (h'.head_branch ≡ l'.first)
        × (h'.next ≡ l'.next)
        × (h'.prev_ptr ≡ l'.prev)
        × (h'.ready ≡ h.ready)
  removed_fields head none = (refl, refl, refl, refl)
  removed_fields head (some n) = (refl, refl, refl, refl)
  removed_fields (next_of p) none = (refl, refl, refl, refl)
  removed_fields (next_of p) (some n) = (refl, refl, refl, refl)

  set_tail :
      (slot : Slot) (xs ys : List ℕ)
      → h.tail_branch ≡ some (end_slot head (xs ++ b ∷ ys))
      → slot ≡ end_slot head xs
      → (set_prev_ptr (first_of ys) slot (put_branch slot (first_of ys) h)).tail_branch
        ≡ some (end_slot head (xs ++ ys))
  set_tail slot xs [] at e = ap (λ s. some s) (e ∙ ap (end_slot head) (sym (append-nil xs)))
  set_tail head xs (y ∷ ys) at e =
      at
      ∙ ap (λ s. some s)
          (end_slot-append head xs (b ∷ y ∷ ys) ∙ sym (end_slot-append head xs (y ∷ ys)))
  set_tail (next_of p) xs (y ∷ ys) at e =
      at
      ∙ ap (λ s. some s)
          (end_slot-append head xs (b ∷ y ∷ ys) ∙ sym (end_slot-append head xs (y ∷ ys)))

-- A new branch of an open hub stands behind the others.
pub add_branch-IsOpen :
    (h : ForkHub) (xs : List ℕ) (b : ℕ)
    → IsOpen h xs
    → has b xs ≡ false
    → (h' : ForkHub) × (add_branch b h ≡ some (h', [])) × IsOpen h' (xs ++ b ∷ [])
unfolding add_branch
add_branch-IsOpen h xs b open_hub new =
    let slot = end_slot head xs in
    let out = Outside-end_slot b xs new in
    let ends : read (queue_of h) slot ≡ none =
      Chain-end_slot (queue_of h) head xs []
        (subst (Chain (queue_of h) head) (sym (append-nil xs)) open_hub.chain) in
    let (first, next, prev, ready, tail) = added_fields h b slot ends out in
    let same_nil : xs ++ [] ≡ xs = append-nil xs in
    let linked =
      link-Chain (queue_of h) b head xs [] tt tt (ap (has b) same_nil ∙ new)
        (subst Distinct (sym same_nil) open_hub.distinct)
        (subst (Chain (queue_of h) head) (sym same_nil) open_hub.chain) in
    (
      added h b slot,
      ap (λ t. insert_branch t b (fresh h b)) open_hub.tail_at,
      record {
        tail_at = tail ∙ ap (λ s. some s) (sym (end_slot-append head xs (b ∷ [])));
        chain =
            Chain-frame (link b slot (queue_of h)) (queue_of (added h b slot)) head (xs ++ b ∷ [])
              first (λ a m. (next a, prev a)) linked;
        distinct =
            Distinct-insert b xs [] (subst Distinct (sym same_nil) open_hub.distinct)
              (ap (has b) same_nil ∙ new);
        waits = λ a m e. elim (Bool-cases (a == b)) [
          | inl same ↦ nobody_ne_already (sym (if_true _ _ same) ∙ (sym (ready a) ∙ e))
          | inr other ↦
              open_hub.waits a
                (ap (λ ys. has a ys) (sym same_nil)
                  ∙ (ap (λ x. x || has a (xs ++ [])) (sym other)
                      ∙ (sym (has-insert a b xs []) ∙ m)))
                (sym (if_false _ _ other) ∙ (sym (ready a) ∙ e))
        ];
      },
    )

init_waits : (e : ℕ) (r : Ready) → r ≢ already → (init e r).0 ≢ already
unfolding init
init_waits e nobody n q = cc
init_waits e already n q = n q
init_waits e (waiting_event old) n q = cc

-- An event that waits for a branch keeps the hub open.
branch_on_ready-IsOpen :
    (h : ForkHub) (xs : List ℕ) (b e : ℕ)
    → IsOpen h xs
    → has b xs ≡ true
    → IsOpen (branch_on_ready b e h).0 xs
unfolding branch_on_ready
branch_on_ready-IsOpen h xs b e open_hub m = record {
  tail_at = open_hub.tail_at;
  chain = open_hub.chain;
  distinct = open_hub.distinct;
  waits = λ a a_in q. elim (Bool-cases (a == b)) [
    | inl same ↦ init_waits e (h.ready b) (open_hub.waits b m) (sym (if_true _ _ same) ∙ q)
    | inr other ↦ open_hub.waits a a_in (sym (if_false _ _ other) ∙ q)
  ];
}

-- A branch that is destroyed before the hub is told leaves the others in order, wherever it stood.
pub destroy_branch-IsOpen :
    (h : ForkHub) (xs ys : List ℕ) (b : ℕ)
    → IsOpen h (xs ++ b ∷ ys)
    → IsOpen (destroy_branch b h) (xs ++ ys)
unfolding destroy_branch splice
destroy_branch-IsOpen h xs ys b open_hub =
    let slot = end_slot head xs in
    let at : h.prev_ptr b ≡ some slot = prev-Chain (queue_of h) head b xs ys open_hub.chain in
    let follows : h.next b ≡ first_of ys = next-Chain (queue_of h) head b xs ys open_hub.chain in
    let h' = remove_branch (some slot) b h in
    let (first, next, prev, ready) = removed_fields h b slot (h.next b) in
    let (rest, gone) = Distinct-remove b xs ys open_hub.distinct in
    subst (λ o. IsOpen (remove_branch o b h) (xs ++ ys)) (sym at)
      (record {
        tail_at =
            ap (λ o. (set_prev_ptr o slot (put_branch slot o h)).tail_branch) follows
            ∙ set_tail h b slot xs ys open_hub.tail_at refl;
        chain =
            Chain-same (splice b slot (queue_of h)) (queue_of h') head (xs ++ ys) first next prev
              (splice-Chain (queue_of h) b head xs ys tt open_hub.distinct open_hub.chain);
        distinct = rest;
        waits = λ a m e.
            open_hub.waits a (has-insert a b xs ys ∙ or_right (a == b) _ m)
              (sym (ap (λ f. f a) ready) ∙ e);
      })
