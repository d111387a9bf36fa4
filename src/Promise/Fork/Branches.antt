-- ===== src/Promise/Fork/Branches.antt =====
-- The list of the branches of a fork (async.cpp), over the lemmas on the queue of an event loop, which
-- is linked in the same way.
use kj.Base.{
  ℕ, suc, ◌≡◌, ◌≢◌, refl, sym, subst, ap, ap₂, ◌∙◌, Bool, true, false, ◌||◌, Option, none, some,
  List, [], ◌∷◌, ◌++◌, length, ◌==◌, ==_refl, ==_iff, Bool-cases, inl, inr, if◌then◌else◌, if_true,
  if_false, arith,
}
use kj.EventLoop.{Slot, head, next_of, EventLoop, update}
use kj.EventLoop.Queue.{
  has, Distinct, Chain, Chain-frame, Outside, Outside-mem, first_of, has-ne, Chain-end_slot,
}
use kj.Promise.{Ready, nobody, already, waiting_event, Arming, depth_first, arm}
use kj.Promise.Fork.{ForkHub, put_branch, hub_ready, release, fire_loop}

-- The list of a hub as that of an event loop.
abbrev pub queue_of : ForkHub → EventLoop
queue_of h = record {
  address = 0;
  current = none;
  first = h.head_branch;
  next = h.next;
  prev = h.prev_ptr;
  firing = λ _. false;
  tail = head;
  insert_point = head;
  running = false;
  last_runnable = false;
  notices = [];
}

-- What arming a branch does to the event that waits for it, and how it leaves the branch.
abbrev pub of_ready : Ready → List Arming
of_ready (waiting_event e) = depth_first e ∷ []
of_ready _ = []

abbrev pub fired : Ready → Ready
fired (waiting_event e) = waiting_event e
fired _ = already

abbrev pub armings : (ℕ → Ready) → List ℕ → List Arming
armings ready [] = []
armings ready (b ∷ bs) = of_ready (ready b) ++ armings ready bs

pub hub_ready_cases :
    (b : ℕ) (h : ForkHub) (r : Ready)
    → h.ready b ≡ r
    → r ≢ already
    → hub_ready b h ≡ some (record h { ready = update h.ready b (fired r) }, of_ready r)
unfolding arm hub_ready
hub_ready_cases b h nobody e n = rw (e, hub_ready) refl
hub_ready_cases b h already e n = absurd (n refl)
hub_ready_cases b h (waiting_event k) e n = rw (e, hub_ready) refl

-- The hub when the branch `b` behind `slot` has been told.
module _ (h : ForkHub) (b : ℕ) where
  abbrev told : Slot → ForkHub
  told slot =
      let armed = record h { ready = update h.ready b (fired (h.ready b)) } in
      let cleared = put_branch slot none armed in
      record cleared { prev_ptr = update cleared.prev_ptr b none }

  told_fields :
      (slot : Slot)
      → ((a : ℕ) → (told slot).prev_ptr a ≡ (if a == b then none else h.prev_ptr a))
        × ((a : ℕ) → (told slot).ready a ≡ (if a == b then fired (h.ready b) else h.ready a))
        × ((told slot).tail_branch ≡ h.tail_branch)
  told_fields head = (λ a. refl, λ a. refl, refl)
  told_fields (next_of p) = (λ a. refl, λ a. refl, refl)

  told_next : (slot : Slot) (a : ℕ) → Outside slot (a ∷ []) → (told slot).next a ≡ h.next a
  told_next head a out = refl
  told_next (next_of p) a out = ground arith

  told-Chain :
      (slot : Slot) (ys : List ℕ)
      → Outside slot (b ∷ ys)
      → has b ys ≡ false
      → Chain (queue_of h) (next_of b) ys
      → Chain (queue_of (told slot)) (next_of b) ys
  told-Chain slot ys out once c =
      Chain-frame (queue_of h) (queue_of (told slot)) (next_of b) ys
        (told_next slot b (Outside-mem slot b (b ∷ ys) out (ground arith)))
        (λ a m. (
          told_next slot a (Outside-mem slot a (b ∷ ys) out (ground arith)),
          (told_fields slot).0 a ∙ if_false _ _ (has-ne a b ys m once),
        ))
        c

-- What is left of the first pointer.
abbrev pub head_left : Slot → List ℕ → Option ℕ → Option ℕ
head_left head (b ∷ bs) first = none
head_left _ _ first = first

told_head :
    (h : ForkHub) (b : ℕ) (slot : Slot) (ys : List ℕ)
    → (told h b slot).head_branch ≡ head_left slot (b ∷ ys) h.head_branch
told_head h b head ys = refl
told_head h b (next_of p) ys = refl

head_left_next : (b : ℕ) (ys : List ℕ) (first : Option ℕ) → head_left (next_of b) ys first ≡ first
head_left_next b [] first = refl
head_left_next b (y ∷ ys) first = refl

head_left_nil : (slot : Slot) (first : Option ℕ) → head_left slot [] first ≡ first
head_left_nil head first = refl
head_left_nil (next_of p) first = refl

-- How the loop ends behind a slot.
pub record Told (h : ForkHub) (slot : Slot) (xs : List ℕ) (h' : ForkHub) : Type 0 where
  pub tail_same : h'.tail_branch ≡ h.tail_branch
  pub head_same : h'.head_branch ≡ head_left slot xs h.head_branch
  pub alone : (a : ℕ) → h'.prev_ptr a ≡ (if has a xs then none else h.prev_ptr a)
  pub armed : (a : ℕ) → h'.ready a ≡ (if has a xs then fired (h.ready a) else h.ready a)

armings-same :
    (f g : ℕ → Ready) (xs : List ℕ)
    → ((a : ℕ) → has a xs ≡ true → f a ≡ g a)
    → armings f xs ≡ armings g xs
armings-same f g [] same = refl
armings-same f g (x ∷ xs) same =
    ap₂ (λ r rest. of_ready r ++ rest) (same x (ground arith))
      (armings-same f g xs (λ a m. same a (ground arith)))

either_way {ℓ} :
    {A : Type ℓ} (x y : Bool) (n u v w : A)
    → w ≡ (if y then n else u)
    → u ≡ (if x then n else v)
    → w ≡ (if x || y then n else v)
either_way true true n u v w e f = e
either_way true false n u v w e f = e ∙ f
either_way false true n u v w e f = e
either_way false false n u v w e f = e ∙ f

-- One round, then the rest.
fire_loop_step :
    (n b : ℕ) (h : ForkHub) {h₁ h₂ h₃ : ForkHub} {armed rest : List Arming}
    → hub_ready b h ≡ some (h₁, armed)
    → release (h₁.prev_ptr b) b h₁ ≡ some h₂
    → fire_loop n (h₂.next b) h₂ ≡ some (h₃, rest)
    → fire_loop (suc n) (some b) h ≡ some (h₃, armed ++ rest)
unfolding fire_loop
fire_loop_step n b h p q r = rw p (rw q (rw r refl))

pub fire_loop-Told :
    (h : ForkHub) (slot : Slot) (xs : List ℕ)
    → Outside slot xs
    → Distinct xs
    → Chain (queue_of h) slot xs
    → ((a : ℕ) → has a xs ≡ true → h.ready a ≢ already)
    → (h' : ForkHub) × (fire_loop (length xs) (first_of xs) h ≡ some (h', armings h.ready xs))
      × Told h slot xs h'
unfolding fire_loop
fire_loop-Told h slot [] out d c waits = (
  h,
  refl,
  record {
    tail_same = refl;
    head_same = sym (head_left_nil slot h.head_branch);
    alone = λ a. refl;
    armed = λ a. refl;
  },
)
fire_loop-Told h slot (b ∷ ys) out (once, d) (here, back, c) waits =
    let h₂ = told h b slot in
    let h₁ = record h { ready = update h.ready b (fired (h.ready b)) } in
    let (prev, ready, tail_same) = told_fields h b slot in
    let elsewhere : (a : ℕ) → has a ys ≡ true → h₂.ready a ≡ h.ready a =
      λ a m. ready a ∙ if_false _ _ (has-ne a b ys m once) in
    let (h', runs, t) =
      fire_loop-Told h₂ (next_of b) ys once d (told-Chain h b slot ys out once c)
        (λ a m e. waits a (ground arith) (sym (elsewhere a m) ∙ e)) in
    let follows =
      told_next h b slot b (Outside-mem slot b (b ∷ ys) out (ground arith))
      ∙ Chain-end_slot (queue_of h) (next_of b) [] ys c in
    (
      h',
      fire_loop_step (length ys) b h (hub_ready_cases b h (h.ready b) refl (waits b (ground arith)))
            (ap (λ o. release o b h₁) back) (ap (λ o. fire_loop (length ys) o h₂) follows ∙ runs)
          ∙ ap (λ rest. some (h', of_ready (h.ready b) ++ rest))
              (armings-same h₂.ready h.ready ys elsewhere),
      record {
        tail_same = t.tail_same ∙ tail_same;
        head_same = t.head_same ∙ (head_left_next b ys h₂.head_branch ∙ told_head h b slot ys);
        alone = λ a.
            either_way (a == b) (has a ys) none (h₂.prev_ptr a) (h.prev_ptr a) (h'.prev_ptr a)
              (t.alone a) (prev a);
        armed = λ a. elim (Bool-cases (a == b)) [
          | inl e ↦
              subst (λ k. h'.ready k ≡ (if has k (b ∷ ys) then fired (h.ready k) else h.ready k))
                (sym ((==_iff a b).0 e))
                (t.armed b
                  ∙ (if_false _ _ once
                      ∙ (ready b
                          ∙ (if_true _ _ (==_refl b)
                              ∙ sym (if_true _ _ (ap (λ x. x || has b ys) (==_refl b)))))))
          | inr e ↦
              t.armed a
              ∙ (ap (λ r. if has a ys then fired r else r) (ready a ∙ if_false _ _ e)
                  ∙ ap (λ x. if x || has a ys then fired (h.ready a) else h.ready a) (sym e))
        ];
      },
    )
