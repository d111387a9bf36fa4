-- ===== src/Promise/Joined.antt =====
-- A join of an array of promises (async.cpp, `ArrayJoinPromiseNodeBase`) arms the event that waits for it
-- once, when the last branch has fired, and passes on every value or the first exception.
use kj.Base.{
  ℕ, zero, suc, ◌+◌, ◌-◌, ◌%◌, ◌^◌, ◌<◌, ◌≤◌, ◌≡◌, append-nil, refl, ap, subst, false, none, some,
  List, [], ◌∷◌, ◌++◌, map, replicate, ◌==◌, if◌then◌else◌, arith, Bool-cases, Option-cases, inl,
  inr, ◌⊎◌,
}
use kj.Promise.{
  ExceptionOr, empty_result, value_of, broken, add_exception, Ready, nobody, already, waiting_event,
  Arming, depth_first, breadth_first, init, arm, run_steps, run_steps-cons,
}
use kj.Promise.ArrayJoin.{
  JoinNode, JoinCall, branch_fires, on_ready, make_join, arm_join, join_call, gather, values_of,
  join_get,
}

abbrev node : ℕ → Ready → JoinNode
node left ready = record { count_left = left; ready = ready }

fire_some :
    (left : ℕ) (ready : Ready)
    → 1 < left
    → left < 2 ^ 32
    → join_call branch_fires (node left ready) ≡ some (node (left - 1) ready, [])
unfolding join_call
fire_some left ready h g =
    let less : (left + 2 ^ 32 - 1) % 2 ^ 32 ≡ left - 1 = omega arith in
    let more : (left - 1 == 0) ≡ false = ground arith in rw (less, more)

fire_last :
    (ready ready' : Ready) {last : List Arming}
    → arm ready ≡ some (ready', last)
    → join_call branch_fires (node 1 ready) ≡ some (node 0 ready', last)
unfolding join_call arm_join
fire_last ready ready' a = rw a

-- Branches that are not the last arm nothing.
run-fires_some :
    (k left : ℕ) (ready : Ready) (rest : List JoinCall) {n : JoinNode} {armed : List Arming}
    → k < left
    → left < 2 ^ 32
    → run_steps join_call rest (node (left - k) ready) ≡ some (n, armed)
    → run_steps join_call (replicate k branch_fires ++ rest) (node left ready) ≡ some (n, armed)
run-fires_some zero left ready rest h g e = let same : left - 0 ≡ left = omega arith in rw same at e
run-fires_some (suc k) left ready rest h g e =
    let same : left - suc k ≡ left - 1 - k = omega arith in
    run_steps-cons join_call branch_fires (replicate k branch_fires ++ rest) (node left ready)
      (fire_some left ready (omega arith) g)
      (run-fires_some k (left - 1) ready rest (omega arith) (omega arith) (rw same at e))

-- The last one arms the node.
run-fires_all :
    (k left : ℕ) (ready ready' : Ready) (rest : List JoinCall) {n : JoinNode}
    {armed last : List Arming}
    → suc k ≡ left
    → left < 2 ^ 32
    → arm ready ≡ some (ready', last)
    → run_steps join_call rest (node 0 ready') ≡ some (n, armed)
    → run_steps join_call (replicate (suc k) branch_fires ++ rest) (node left ready)
      ≡ some (n, last ++ armed)
run-fires_all zero left ready ready' rest h g a e =
    rw (← h)
      (run_steps-cons join_call branch_fires rest (node 1 ready) (fire_last ready ready' a) e)
run-fires_all (suc k) left ready ready' rest h g a e =
    run_steps-cons join_call branch_fires (replicate (suc k) branch_fires ++ rest) (node left ready)
      (fire_some left ready (omega arith) g)
      (run-fires_all k (left - 1) ready ready' rest (omega arith) (omega arith) a e)

run-waits :
    (left e : ℕ) (rest : List JoinCall) {n : JoinNode} {armed : List Arming}
    → run_steps join_call rest (node left (waiting_event e)) ≡ some (n, armed)
    → run_steps join_call (on_ready e ∷ rest) (node left nobody) ≡ some (n, armed)
unfolding join_call init
run-waits left e rest h =
    run_steps-cons join_call (on_ready e) rest (node left nobody) {s' = node left (waiting_event e)}
      {first = []} refl h

-- The event comes last.
join_late :
    (m e : ℕ)
    → suc m < 2 ^ 32
    → run_steps join_call (replicate (suc m) branch_fires ++ on_ready e ∷ []) (node (suc m) nobody)
      ≡ some (node 0 already, breadth_first e ∷ [])
unfolding arm run_steps join_call init
join_late m e h = run-fires_all m (suc m) nobody already (on_ready e ∷ []) refl h refl refl

-- The last branch fires behind the event.
join_early :
    (n i j e : ℕ)
    → n < 2 ^ 32
    → 0 < j
    → i + j ≡ n
    → run_steps join_call
        (replicate i branch_fires ++ on_ready e ∷ replicate j branch_fires)
        (node n nobody)
      ≡ some (node 0 (waiting_event e), depth_first e ∷ [])
unfolding arm run_steps
join_early n i zero e h p g = absurd (omega arith)
join_early n i (suc k) e h p g =
    run-fires_some i n nobody (on_ready e ∷ replicate (suc k) branch_fires) (omega arith) h (
      run-waits (n - i) e (replicate (suc k) branch_fires) (
        subst
          (λ t.
            run_steps join_call t (node (n - i) (waiting_event e))
            ≡ some (node 0 (waiting_event e), depth_first e ∷ []))
          (append-nil (replicate (suc k) branch_fires))
          (run-fires_all k (n - i) (waiting_event e) (waiting_event e) [] (omega arith)
            (omega arith) refl refl)))

-- A branch has not fired.
join_open :
    (n i j e : ℕ)
    → n < 2 ^ 32
    → i + j < n
    → run_steps join_call
        (replicate i branch_fires ++ on_ready e ∷ replicate j branch_fires)
        (node n nobody)
      ≡ some (node (n - i - j) (waiting_event e), [])
unfolding run_steps
join_open n i j e h g =
    run-fires_some i n nobody (on_ready e ∷ replicate j branch_fires) (omega arith) h (
      run-waits (n - i) e (replicate j branch_fires) (
        subst
          (λ t.
            run_steps join_call t (node (n - i) (waiting_event e))
            ≡ some (node (n - i - j) (waiting_event e), []))
          (append-nil (replicate j branch_fires))
          (run-fires_some j (n - i) (waiting_event e) [] (omega arith) (omega arith) refl)))

-- What a join of `n` promises arms for the event `e`, where `i` branches have fired before it waits
-- and `j` behind that.
abbrev pub join_expected : ℕ → ℕ → ℕ → ℕ → List Arming
join_expected n i j e =
    if i == n then breadth_first e ∷ [] else if i + j == n then depth_first e ∷ [] else []

-- On a new join of fewer than 2^32 promises whose branches fire, as many as `n` at most, and for
-- which one event waits between: the calls do not fail, and they arm the event once all `n` branches
-- have fired and not before, breadth-first where it came last and depth-first otherwise.
pub run_steps-join_call :
    (n i j e : ℕ)
    → n < 2 ^ 32
    → i + j ≤ n
    → (s : JoinNode) × (run_steps join_call
          (replicate i branch_fires ++ on_ready e ∷ replicate j branch_fires)
          (make_join n)
        ≡ some (s, join_expected n i j e))
unfolding make_join run_steps join_call init
run_steps-join_call zero zero zero e small h = (node 0 already, refl)
run_steps-join_call zero (suc i) j e small h = absurd (omega arith)
run_steps-join_call zero zero (suc j) e small h = absurd (omega arith)
run_steps-join_call (suc m) i j e small h =
    let start : make_join (suc m) ≡ node (suc m) nobody =
      let fits : suc m % 2 ^ 32 ≡ suc m = omega arith in
      let many : (suc m == 0) ≡ false = ground arith in rw (fits, many) in
    elim (Bool-cases (i == suc m)) [
      | inl late ↦
          let i_is : i ≡ suc m = ground arith in
          let j_is : j ≡ 0 = omega arith in
          (node 0 already, rw (start, late, i_is, j_is) (join_late m e small))
      | inr early ↦ elim (Bool-cases (i + j == suc m)) [
        | inl all ↦ (
          node 0 (waiting_event e),
          rw (start, early, all) (join_early (suc m) i j e small (ground arith) (ground arith)),
        )
        | inr some_left ↦ (
          node (suc m - i - j) (waiting_event e),
          rw (start, early, some_left) (join_open (suc m) i j e small (ground arith)),
        )
      ]
    ]

module _ {E T : Type 0} where
  -- What a branch that is ready gives: an exception or a value.
  abbrev pub part_of : E ⊎ T → ExceptionOr E T
  part_of (inl e) = broken e
  part_of (inr v) = value_of v

  abbrev pub cons_value : T → ExceptionOr E (List T) → ExceptionOr E (List T)
  cons_value v r = elim r.exception [
    | some e ↦ r
    | none ↦ elim r.value [ none ↦ r | some vs ↦ value_of (v ∷ vs) ]
  ]

  -- The first exception, or all values.
  abbrev pub joined : List (E ⊎ T) → ExceptionOr E (List T)
  joined [] = value_of []
  joined (inl e ∷ parts) = broken e
  joined (inr v ∷ parts) = cons_value v (joined parts)

  gather_kept : (parts : List (ExceptionOr E T)) (e : E) → gather parts (broken e) ≡ broken e
  unfolding gather add_exception
  gather_kept [] e = refl
  gather_kept (part ∷ parts) e = elim (Option-cases part.exception) [
    | inl h ↦ rw h (gather_kept parts e)
    | inr (x, h) ↦ rw h (gather_kept parts e)
  ]

  abbrev JoinCase : List (E ⊎ T) → Type 0
  JoinCase parts =
      ((e : E) × (gather (map part_of parts) empty_result ≡ broken e) × (joined parts ≡ broken e))
      ⊎ ((vs : List T) × (gather (map part_of parts) empty_result ≡ empty_result)
          × (values_of (map part_of parts) ≡ some vs)
          × (joined parts ≡ value_of vs))

  join_cases : (parts : List (E ⊎ T)) → JoinCase parts
  unfolding gather values_of add_exception
  join_cases [] = inr ([], refl, refl, refl)
  join_cases (inl e ∷ parts) = inl (e, gather_kept (map part_of parts) e, refl)
  join_cases (inr v ∷ parts) = elim (join_cases parts) [
    | inl (e, h, g) ↦ inl (e, h, rw g)
    | inr (vs, h, a, g) ↦ inr (v ∷ vs, h, rw a, rw g)
  ]

  -- The result of a join whose branches are all ready is the exception of the first branch that has
  -- one, or the list of all their values.
  pub join_get-joined : (parts : List (E ⊎ T)) → join_get (map part_of parts) ≡ some (joined parts)
  unfolding join_get
  join_get-joined parts = elim (join_cases parts) [
    | inl (e, h, g) ↦ rw (h, join_get, g) (ap some h)
    | inr (vs, h, a, g) ↦ rw (h, join_get) (rw (a, g))
  ]
