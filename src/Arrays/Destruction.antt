-- ===== src/Arrays/Destruction.antt =====
-- Exceptions in the destruction of arrays (array.cpp).
use kj.Base.{
  ℕ, zero, suc, ◌+◌, ◌-◌, ◌*◌, ◌≤◌, ◌≡◌, refl, sym, subst, ap, ◌∙◌, Bool, true, false, some, List,
  [], ◌∷◌, ◌++◌, append-nil, append_assoc, ltb, lt→ltb, arith,
}
use kj.Memory.{Runtime, Event, constructed, destroyed, without, Heaps, Behaves}
use kj.Arrays.{
  ExceptionSafeArrayUtil, guard_elements, destroy_loop, destroy_all, end_guard, dispose_elements,
  dispose_heap,
}

-- What happens to `n` objects from `p` on that are constructed in order.
abbrev pub built : ℕ → ℕ → ℕ → ℕ → List Event
built t size p zero = []
built t size p (suc n) = constructed t p ∷ built t size (p + size) n

-- What happens to them where they are destroyed from the last to the first.
abbrev pub razed : ℕ → ℕ → ℕ → ℕ → List Event
razed t size p zero = []
razed t size p (suc n) = destroyed t (p + size * n) ∷ razed t size p n

module _ (m : Runtime) (b : Behaves m) where
  open m use {State, live, history, construct, destroy}

  guard_down :
      (p size n t : ℕ)
      → (let g = guard_elements p size (suc n) t in
          record g { pos = g.pos - g.element_size; constructed_element_count = n })
        ≡ guard_elements p size n t
  unfolding guard_elements
  guard_down p size n t =
      let back : p + size * suc n - size ≡ p + size * n = grind arith in
      ap
        (λ (q : ℕ). record {
          pos = q;
          element_size = size;
          constructed_element_count = n;
          element = t;
        })
        back

  after_destroy :
      ℕ → Bool → ExceptionSafeArrayUtil → State × Bool → ExceptionSafeArrayUtil × State × Bool
  after_destroy n unwinding g (s, true) = (g, s, true)
  after_destroy n unwinding g (s, false) = destroy_loop m n unwinding g s

  split :
      (n : ℕ) (unwinding : Bool) (g : ExceptionSafeArrayUtil) (r : State × Bool)
      → elim r.1 as (λ _. ExceptionSafeArrayUtil × State × Bool) [
        | true ↦ (g, r.0, true)
        | false ↦ destroy_loop m n unwinding g r.0
      ]
        ≡ after_destroy n unwinding g r
  unfolding after_destroy
  split n unwinding g (s, true) = refl
  split n unwinding g (s, false) = refl

  quiet :
      (n : ℕ) (g : ExceptionSafeArrayUtil) (r : State × Bool)
      → r.1 ≡ false
      → (after_destroy n true g r).2 ≡ (destroy_loop m n true g r.0).2
  unfolding after_destroy
  quiet n g (s, true) e = cc
  quiet n g (s, false) e = refl

  destroy_step :
      (unwinding : Bool) (p size n t : ℕ) (s : State)
      → destroy_loop m (suc n) unwinding (guard_elements p size (suc n) t) s
        ≡ after_destroy n unwinding
            (guard_elements p size n t)
            (destroy unwinding t (p + size * n) s)
  unfolding destroy_loop guard_elements after_destroy
  destroy_step unwinding p size n t s =
      let g : ExceptionSafeArrayUtil = record {
        pos = p + size * suc n - size;
        element_size = size;
        constructed_element_count = n;
        element = t;
      } in
      split n unwinding g (destroy unwinding t g.pos s)
      ∙ ap (λ g. after_destroy n unwinding g (destroy unwinding g.element g.pos s))
          (guard_down p size n t)

  -- Where `r` has destroyed the elements of `s` from the last to the one with the number `j`.
  record Down (p size n t : ℕ) (s : State) (r : ExceptionSafeArrayUtil × State × Bool)
      : Type 0 where
    j : ℕ
    bound : j ≤ n
    guard : r.0 ≡ guard_elements p size j t
    heap : live r.1 ≡ live s
    events : history r.1 ++ razed t size p j ≡ history s ++ razed t size p n
    finished : r.2 ≡ false → j ≡ 0

  after_destroy-Down :
      (unwinding : Bool) (p size n t : ℕ) (s : State) (r : State × Bool)
      → live r.0 ≡ live s
      → history r.0 ≡ history s ++ destroyed t (p + size * n) ∷ []
      → Down p size n t r.0 (destroy_loop m n unwinding (guard_elements p size n t) r.0)
      → Down p size (suc n) t s (after_destroy n unwinding (guard_elements p size n t) r)
  unfolding after_destroy
  after_destroy-Down unwinding p size n t s (s', true) heap events rest = record {
    j = n;
    bound = omega arith;
    guard = refl;
    heap = heap;
    events = ap (λ l. l ++ razed t size p n) events ∙ append_assoc (history s) _ _;
    finished = λ e. cc;
  }
  after_destroy-Down unwinding p size n t s (s', false) heap events rest = record {
    j = rest.j;
    bound = omega (arith, rest.bound);
    guard = rest.guard;
    heap = rest.heap ∙ heap;
    events = rest.events ∙ (ap (λ l. l ++ razed t size p n) events ∙ append_assoc (history s) _ _);
    finished = rest.finished;
  }

  destroy_loop-Down :
      (unwinding : Bool) (p size n t : ℕ) (s : State)
      → Down p size n t s (destroy_loop m n unwinding (guard_elements p size n t) s)
  unfolding destroy_loop
  destroy_loop-Down unwinding p size zero t s = record {
    j = 0;
    bound = omega arith;
    guard = refl;
    heap = refl;
    events = refl;
    finished = λ _. refl;
  }
  destroy_loop-Down unwinding p size (suc n) t s =
      let (heap, events) = b.destroys unwinding t (p + size * n) s in
      subst (Down p size (suc n) t s) (sym (destroy_step unwinding p size n t s)) (
        after_destroy-Down unwinding p size n t s (destroy unwinding t (p + size * n) s) heap events
          (destroy_loop-Down unwinding p size n t (destroy unwinding t (p + size * n) s).0))

  -- While an exception is on its way, no element stops the loop.
  destroy_loop_quiet :
      (p size n t : ℕ) (s : State) → (destroy_loop m n true (guard_elements p size n t) s).2 ≡ false
  unfolding destroy_loop after_destroy
  destroy_loop_quiet p size zero t s = refl
  destroy_loop_quiet p size (suc n) t s =
      ap (λ r. r.2) (destroy_step true p size n t s)
      ∙ quiet n (guard_elements p size n t) (destroy true t (p + size * n) s)
          (b.holds_back t (p + size * n) s)
      ∙ destroy_loop_quiet p size n t (destroy true t (p + size * n) s).0

  raze_rest :
      (p size n t : ℕ) (s : State)
      → (live (destroy_loop m n true (guard_elements p size n t) s).1 ≡ live s)
        × (history (destroy_loop m n true (guard_elements p size n t) s).1
            ≡ history s ++ razed t size p n)
  raze_rest p size n t s =
      let r = destroy_loop m n true (guard_elements p size n t) s in
      let down = destroy_loop-Down true p size n t s in
      let none_left : down.j ≡ 0 = down.finished (destroy_loop_quiet p size n t s) in
      (
        down.heap,
        sym (append-nil (history r.1))
            ∙ ap (λ (j : ℕ). history r.1 ++ razed t size p j) (sym none_left)
            ∙ down.events,
      )

  -- Leaving the guard's scope by an exception, or with no element left, destroys the rest.
  pub end_guard_lem :
      (unwinding threw : Bool) (p size j t : ℕ) (s : State)
      → (threw ≡ false → j ≡ 0)
      → (live (end_guard m unwinding (guard_elements p size j t, s, threw)).0 ≡ live s)
        × (history (end_guard m unwinding (guard_elements p size j t, s, threw)).0
            ≡ history s ++ razed t size p j)
        × ((end_guard m unwinding (guard_elements p size j t, s, threw)).1 ≡ threw)
  unfolding end_guard destroy_all guard_elements
  end_guard_lem unwinding threw p size zero t s finished = (refl, sym (append-nil _), refl)
  end_guard_lem unwinding false p size (suc j) t s finished = absurd (omega (arith, finished refl))
  end_guard_lem false true p size (suc j) t s finished =
      let some_left : ltb 0 (suc j) ≡ true = lt→ltb 0 (suc j) (omega arith) in
      let rest = raze_rest p size (suc j) t s in rw some_left (rest.0, rest.1, refl)
  end_guard_lem true true p size (suc j) t s finished =
      let some_left : ltb 0 (suc j) ≡ true = lt→ltb 0 (suc j) (omega arith) in
      let rest = raze_rest p size (suc j) t s in rw some_left (rest.0, rest.1, refl)

  -- The elements are destroyed, from the last to the first, also where destructors throw.
  pub dispose_elements_lem :
      (unwinding : Bool) (p size n t : ℕ) (s : State)
      → (live (dispose_elements m unwinding p size n (some t) s).0 ≡ live s)
        × (history (dispose_elements m unwinding p size n (some t) s).0
            ≡ history s ++ razed t size p n)
  unfolding dispose_elements destroy_all guard_elements
  dispose_elements_lem unwinding p size n t s =
      let down = destroy_loop-Down unwinding p size n t s in
      let r = destroy_loop m n unwinding (guard_elements p size n t) s in
      let rest = end_guard_lem unwinding r.2 p size down.j t r.1 down.finished in
      (
        ap (λ g. live (end_guard m unwinding (g, r.1, r.2)).0) down.guard ∙ rest.0 ∙ down.heap,
        ap (λ g. history (end_guard m unwinding (g, r.1, r.2)).0) down.guard ∙ rest.1 ∙ down.events,
      )

  -- Nothing is thrown while an exception is on its way.
  pub dispose_elements_quiet :
      (p size n t : ℕ) (s : State) → (dispose_elements m true p size n (some t) s).1 ≡ false
  unfolding dispose_elements destroy_all guard_elements
  dispose_elements_quiet p size n t s =
      let r = destroy_loop m n true (guard_elements p size n t) s in
      let down = destroy_loop-Down true p size n t s in
      let rest = end_guard_lem true r.2 p size down.j t r.1 down.finished in
      ap (λ g. (end_guard m true (g, r.1, r.2)).1) down.guard
      ∙ (rest.2 ∙ destroy_loop_quiet p size n t s)

module _ (m : Runtime) (h : Heaps m) (b : Behaves m) where
  open m use {State, live, history}

  -- `HeapArrayDisposer::disposeImpl` destroys each element once, from the last to the first, and
  -- frees the block, also where destructors throw.
  pub dispose_heap_lem :
      (unwinding : Bool) (p size n t : ℕ) (s : State)
      → (history (dispose_heap m unwinding p size n (some t) s).0 ≡ history s ++ razed t size p n)
        × (live (dispose_heap m unwinding p size n (some t) s).0 ≡ without p (live s))
  unfolding dispose_heap
  dispose_heap_lem unwinding p size n t s =
      let r = dispose_elements m unwinding p size n (some t) s in
      let (heap, events) = dispose_elements_lem m b unwinding p size n t s in
      let (freed, kept) = h.takes p r.0 in (kept ∙ events, freed ∙ ap (λ l. without p l) heap)
