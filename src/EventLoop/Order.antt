-- ===== src/EventLoop/Order.antt =====
-- The order in which the loop runs the events that a callback arms (async-inl.h and async.cpp).
use kj.Base.{
  ℕ, ◌≡◌, refl, inl, inr, Bool, true, false, not, ◌&&◌, ◌||◌, Option, none, List, [], ◌∷◌, ◌++◌,
  Bool-cases, ap, sym, ap₂, ◌∙◌, subst, append_assoc, append-nil,
}
use kj.EventLoop.{
  head, next_of, Slot, EventLoop, update, is_some, is_own_or_null, set_runnable, on_thread, link,
  same_slot, dequeue, after, arm_depth_first, arm_breadth_first, turn, turned,
}
use kj.EventLoop.Queue.{has, Chain, Chain-same}
use kj.EventLoop.Insert.{link_thread, link_port}
use kj.EventLoop.Refine.{IsQueue, IsQueue-same, arm_depth_first-insert, arm_breadth_first-append}
use kj.EventLoop.Destroy.{dequeue-IsQueue, dequeue_thread, dequeue_port}

-- What a callback does to the queue, call by call.
pub data ArmCall : Type 0 where
  depth breadth : ℕ → ArmCall

unfoldable pub make_calls : List ArmCall → EventLoop → EventLoop
make_calls [] l = l
make_calls (depth e ∷ cs) l = make_calls cs (after (arm_depth_first e l))
make_calls (breadth e ∷ cs) l = make_calls cs (after (arm_breadth_first e l))

abbrev pub depths : List ArmCall → List ℕ
depths [] = []
depths (depth e ∷ cs) = e ∷ depths cs
depths (breadth e ∷ cs) = depths cs

abbrev pub breadths : List ArmCall → List ℕ
breadths [] = []
breadths (depth e ∷ cs) = breadths cs
breadths (breadth e ∷ cs) = e ∷ breadths cs

-- Each call arms an event that is not in the queue yet.
abbrev pub AllNew : List ArmCall → List ℕ → List ℕ → Type 0
AllNew [] front back = Unit {0}
AllNew (depth e ∷ cs) front back =
    (has e (front ++ back) ≡ false) × AllNew cs (front ++ e ∷ []) back
AllNew (breadth e ∷ cs) front back =
    (has e (front ++ back) ≡ false) × AllNew cs front (back ++ e ∷ [])

pub on_thread-same :
    (l l' : EventLoop)
    → l'.current ≡ l.current
    → l'.address ≡ l.address
    → on_thread l' ≡ on_thread l
unfolding on_thread
on_thread-same l l' c a = ap₂ is_own_or_null c a

-- What the port has been told last; at first it takes the loop for idle.
abbrev pub latest : List Bool → Bool
latest [] = false
latest (b ∷ bs) = b

-- The port has been told what the loop remembers.
abbrev pub Told : EventLoop → Type 0
Told l = latest l.notices ≡ l.last_runnable

-- The thread's current loop stays, and the port stays told.
pub record Keeps (l l' : EventLoop) : Type 0 where
  pub current : l'.current ≡ l.current
  pub address : l'.address ≡ l.address
  pub told : Told l → Told l'

pub Keeps-refl : (l : EventLoop) → Keeps l l
Keeps-refl l = record { current = refl; address = refl; told = λ t. t }

pub Keeps-then : {l l' l'' : EventLoop} → Keeps l l' → Keeps l' l'' → Keeps l l''
Keeps-then k k' = record {
  current = k'.current ∙ k.current;
  address = k'.address ∙ k.address;
  told = λ t. k'.told (k.told t);
}

pub Keeps-same :
    (l l' : EventLoop)
    → l'.current ≡ l.current
    → l'.address ≡ l.address
    → l'.notices ≡ l.notices
    → l'.last_runnable ≡ l.last_runnable
    → Keeps l l'
Keeps-same l l' c a n r = record { current = c; address = a; told = λ t. ap latest n ∙ t ∙ sym r }

pub Keeps-on_thread : (l l' : EventLoop) → Keeps l l' → on_thread l' ≡ on_thread l
Keeps-on_thread l l' k = on_thread-same l l' k.current k.address

pub set_runnable-Keeps : (b : Bool) (l : EventLoop) → Keeps l (set_runnable b l)
unfolding set_runnable
set_runnable-Keeps b l =
    elim (Bool-cases ((b && l.last_runnable) || (not b && not l.last_runnable))) [
      | inl same ↦ rw same (Keeps-refl l)
      | inr changed ↦ rw changed (record { current = refl; address = refl; told = λ t. refl })
    ]

linked-Keeps :
    (e : ℕ) (slot : Slot) (l : EventLoop) (tail insert_point : Slot)
    → Keeps l
        (set_runnable true (record (link e slot l) { tail = tail; insert_point = insert_point }))
linked-Keeps e slot l tail insert_point =
    let (c, a) = link_thread l e slot in
    let (n, r) = link_port l e slot in
    let linked = record (link e slot l) { tail = tail; insert_point = insert_point } in
    Keeps-then (Keeps-same l linked c a n r) (set_runnable-Keeps true linked)

arm_depth_first-Keeps : (e : ℕ) (l : EventLoop) → Keeps l (after (arm_depth_first e l))
unfolding arm_depth_first
arm_depth_first-Keeps e l = elim (Bool-cases (on_thread l)) [
  | inr away ↦ rw away (Keeps-refl l)
  | inl here ↦ elim (Bool-cases (is_some (l.prev e))) [
    | inl armed ↦ rw (here, armed) (Keeps-refl l)
    | inr new ↦ elim (Bool-cases (same_slot l.tail l.insert_point)) [
      | inl last ↦ rw (here, new, last) (linked-Keeps e l.insert_point l (next_of e) (next_of e))
      | inr inner ↦
          rw (here, new, inner)
            (linked-Keeps e l.insert_point l (link e l.insert_point l).tail (next_of e))
    ]
  ]
]

arm_breadth_first-Keeps : (e : ℕ) (l : EventLoop) → Keeps l (after (arm_breadth_first e l))
unfolding arm_breadth_first
arm_breadth_first-Keeps e l = elim (Bool-cases (on_thread l)) [
  | inr away ↦ rw away (Keeps-refl l)
  | inl here ↦ elim (Bool-cases (is_some (l.prev e))) [
    | inl armed ↦ rw (here, armed) (Keeps-refl l)
    | inr new ↦ rw (here, new) (linked-Keeps e l.tail l (next_of e) (link e l.tail l).insert_point)
  ]
]

-- A run of calls puts the depth-first events behind the front, in the order of the calls, and the
-- breadth-first ones behind all others.
pub make_calls-IsQueue :
    (cs : List ArmCall) (l : EventLoop) (front back : List ℕ)
    → IsQueue l front back
    → on_thread l ≡ true
    → AllNew cs front back
    → IsQueue (make_calls cs l) (front ++ depths cs) (back ++ breadths cs)
unfolding make_calls
make_calls-IsQueue [] l front back q here new = rw (append-nil front, append-nil back) q
make_calls-IsQueue (depth e ∷ cs) l front back q here (absent, new) =
    let (l', ran, q') = arm_depth_first-insert e l front back q here absent in
    let here' : on_thread l' ≡ true =
      rw ran at (Keeps-on_thread l (after (arm_depth_first e l)) (arm_depth_first-Keeps e l))
      ∙ here in
    rw (ran, ← append_assoc front (e ∷ []) (depths cs))
      (make_calls-IsQueue cs l' (front ++ e ∷ []) back q' here' new)
make_calls-IsQueue (breadth e ∷ cs) l front back q here (absent, new) =
    let (l', ran, q') = arm_breadth_first-append e l front back q here absent in
    let here' : on_thread l' ≡ true =
      rw ran at (Keeps-on_thread l (after (arm_breadth_first e l)) (arm_breadth_first-Keeps e l))
      ∙ here in
    rw (ran, ← append_assoc back (e ∷ []) (breadths cs))
      (make_calls-IsQueue cs l' front (back ++ e ∷ []) q' here' new)

make_calls-Keeps : (cs : List ArmCall) (l : EventLoop) → Keeps l (make_calls cs l)
unfolding make_calls
make_calls-Keeps [] l = Keeps-refl l
make_calls-Keeps (depth e ∷ cs) l = Keeps-then (arm_depth_first-Keeps e l) (make_calls-Keeps cs _)
make_calls-Keeps (breadth e ∷ cs) l =
    Keeps-then (arm_breadth_first-Keeps e l) (make_calls-Keeps cs _)

-- A callback that makes these calls and keeps its event.
abbrev pub callback : (ℕ → List ArmCall) → ℕ → EventLoop → EventLoop × Option ℕ
callback calls e l = (make_calls (calls e) l, none)

IsQueue-next_turn :
    (l : EventLoop) (firing : ℕ → Bool) (front back : List ℕ)
    → IsQueue l front back
    → IsQueue (record l { firing = firing; insert_point = head }) [] (front ++ back)
IsQueue-next_turn l firing front back q = record {
  chain =
      Chain-same l (record l { firing = firing; insert_point = head }) head (front ++ back) refl
        refl refl q.chain;
  distinct = q.distinct;
  insert_at = refl;
  ends = q.ends;
  others = q.others;
}

-- On a loop that is the thread's current one, or where there is none, and where the callback arms no
-- event that is in the queue by then: one turn takes the first event, and leaves what its callback
-- armed depth-first, in the order of the calls, then the events that were waiting, then what it armed
-- breadth-first. It does not change which loop is the thread's current one, and a port that was told
-- what the loop remembers of it still is.
pub turn-order :
    (calls : ℕ → List ArmCall) (e : ℕ) (l : EventLoop) (front back rest : List ℕ)
    → IsQueue l front back
    → front ++ back ≡ e ∷ rest
    → on_thread l ≡ true
    → AllNew (calls e) [] rest
    → (l' : EventLoop) × (turn (callback calls) l ≡ turned l')
      × IsQueue l' [] (depths (calls e) ++ (rest ++ breadths (calls e)))
      × Keeps l l'
unfolding turn
turn-order calls e l front back rest q shape here new =
    let first = (subst (Chain l head) shape q.chain).0 in
    let popped = dequeue e l in
    let start = record popped { firing = update popped.firing e true } in
    let q₁ =
      IsQueue-same popped start [] rest refl refl refl refl refl
        (dequeue-IsQueue e l front back rest q shape) in
    let (c, a) = dequeue_thread e l in
    let (n, r) = dequeue_port e l in
    let starts : Keeps l start = Keeps-same l start c a n r in
    let here₁ = Keeps-on_thread l start starts ∙ here in
    let ran = make_calls (calls e) start in
    let l' = record ran { firing = update ran.firing e false; insert_point = head } in
    (
      l',
      rw first,
      IsQueue-next_turn ran _ (depths (calls e)) (rest ++ breadths (calls e))
          (make_calls-IsQueue (calls e) start [] rest q₁ here₁ new),
      Keeps-then starts
          (Keeps-then (make_calls-Keeps (calls e) start) (Keeps-same ran l' refl refl refl refl)),
    )
