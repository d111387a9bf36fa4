-- ===== src/Arrays/Construction.antt =====
-- Exceptions in the construction of arrays (array.cpp).
use kj.Base.{
  ℕ, zero, suc, ◌+◌, ◌*◌, ◌%◌, ◌^◌, ◌≤◌, ◌≡◌, refl, sym, subst, ap, ◌∙◌, ◌⊎◌, Bool, true, false,
  Option, none, some, [], ◌∷◌, ◌++◌, append-nil, append_assoc, if◌then◌else◌, arith,
}
use kj.Memory.{Runtime, constructed, Heaps, Behaves}
use kj.Arrays.{ExceptionSafeArrayUtil, guard_elements, advance, construct_elements}
use kj.Arrays.Destruction.{built, razed}

module _ (m : Runtime) (b : Behaves m) where
  open m use {State, live, history, construct}

  after_construct :
      ℕ → ExceptionSafeArrayUtil → State × Bool → ExceptionSafeArrayUtil × State × Bool
  unfolding advance
  after_construct n g (s, true) = (g, s, true)
  after_construct n g (s, false) = construct_elements m n (advance g) s

  split_construct :
      (n : ℕ) (g : ExceptionSafeArrayUtil) (r : State × Bool)
      → elim r.1 as (λ _. ExceptionSafeArrayUtil × State × Bool) [
        | true ↦ (g, r.0, true)
        | false ↦ construct_elements m n (advance g) r.0
      ]
        ≡ after_construct n g r
  unfolding after_construct
  split_construct n g (s, true) = refl
  split_construct n g (s, false) = refl

  -- Where `r` has constructed `k` of `n` elements from the guard's position on, behind the `c`
  -- elements that stand there.
  pub record Up (p size c n t : ℕ) (s : State) (r : ExceptionSafeArrayUtil × State × Bool)
      : Type 0 where
    pub k : ℕ
    pub bound : k ≤ n
    pub guard : r.0 ≡ guard_elements p size (c + k) t
    pub heap : live r.1 ≡ live s
    pub events : history r.1 ≡ history s ++ built t size (p + size * c) k
    pub finished : r.2 ≡ false → k ≡ n

  guard_up :
      (p size c t : ℕ) → advance (guard_elements p size c t) ≡ guard_elements p size (c + 1) t
  unfolding guard_elements advance
  guard_up p size c t =
      let on : p + size * c + size ≡ p + size * (c + 1) = grind arith in
      ap
        (λ (q : ℕ). record {
          pos = q;
          element_size = size;
          constructed_element_count = c + 1;
          element = t;
        })
        on

  after_construct-Up :
      (p size c n t : ℕ) (s : State) (r : State × Bool)
      → live r.0 ≡ live s
      → history r.0 ≡ history s ++ (if r.1 then [] else constructed t (p + size * c) ∷ [])
      → Up p size (c + 1) n t r.0 (construct_elements m n (guard_elements p size (c + 1) t) r.0)
      → Up p size c (suc n) t s (after_construct n (guard_elements p size c t) r)
  unfolding after_construct
  after_construct-Up p size c n t s (s', true) heap events rest =
      let still : c ≡ c + 0 = omega arith in
      record {
        k = 0;
        bound = omega arith;
        guard = ap (λ (i : ℕ). guard_elements p size i t) still;
        heap = heap;
        events = events;
        finished = λ e. cc;
      }
  after_construct-Up p size c n t s (s', false) heap events rest =
      let here : ℕ = p + size * c in
      let on : p + size * (c + 1) ≡ p + size * c + size = grind arith in
      let count : c + 1 + rest.k ≡ c + suc rest.k = omega arith in
      let r = construct_elements m n (guard_elements p size (c + 1) t) s' in
      subst (Up p size c (suc n) t s)
        (ap (λ g. construct_elements m n g s') (sym (guard_up p size c t)))
        (record {
          k = suc rest.k;
          bound = omega (arith, rest.bound);
          guard = rest.guard ∙ ap (λ (i : ℕ). guard_elements p size i t) count;
          heap = rest.heap ∙ heap;
          events =
              rest.events
              ∙ (ap (λ l. l ++ built t size (p + size * (c + 1)) rest.k) events
                  ∙ (append_assoc (history s) (constructed t here ∷ []) _
                      ∙ ap (λ (q : ℕ). history s ++ constructed t here ∷ built t size q rest.k)
                          on));
          finished = λ e. omega (arith, rest.finished e);
        })

  pub construct_elements-Up :
      (p size c n t : ℕ) (s : State)
      → Up p size c n t s (construct_elements m n (guard_elements p size c t) s)
  unfolding construct_elements guard_elements
  construct_elements-Up p size c zero t s =
      let still : c ≡ c + 0 = omega arith in
      record {
        k = 0;
        bound = omega arith;
        guard = ap (λ (i : ℕ). guard_elements p size i t) still;
        heap = refl;
        events = sym (append-nil (history s));
        finished = λ _. refl;
      }
  construct_elements-Up p size c (suc n) t s =
      let (heap, events) = b.constructs t (p + size * c) s in
      let r = construct t (p + size * c) s in
      subst (Up p size c (suc n) t s) (sym (split_construct n (guard_elements p size c t) r)) (
        after_construct-Up p size c n t s r heap events
          (construct_elements-Up p size (c + 1) n t r.0))

  -- `r` has constructed all of the `n` elements, or it throws and has destroyed those that it
  -- constructed.
  abbrev pub AllOrNone : ℕ → ℕ → ℕ → ℕ → State → State × Bool → Type 0
  AllOrNone p size n t s r =
      ((r.1 ≡ false) × (history r.0 ≡ history s ++ built t size p n))
      ⊎ ((k : ℕ) × (k ≤ n)
          × (r.1 ≡ true)
          × (history r.0 ≡ history s ++ (built t size p k ++ razed t size p k)))

module _ (m : Runtime) (h : Heaps m) (b : Behaves m) where
  open m use {State, live, history, operator_new}

  -- How `HeapArrayDisposer::allocateImpl` may end.
  abbrev pub Allocates : ℕ → ℕ → ℕ → ℕ → State → State × Option ℕ → Type 0
  Allocates size n capacity t s r =
      ((r.1 ≡ none)
        × (live r.0 ≡ live s)
        × ((p : ℕ) × (k : ℕ) × (k ≤ n)
            × (history r.0 ≡ history s ++ (built t size p k ++ razed t size p k))))
      ⊎ ((p : ℕ) × (r.1 ≡ some p)
          × (live r.0 ≡ (p, size * capacity % 2 ^ 64) ∷ live s)
          × (history r.0 ≡ history s ++ built t size p n))
