-- ===== src/Arrays.antt =====
-- Arrays of elements that are constructed and destroyed one by one (array.h, array.cpp).
pub mod Destruction
pub mod Construction
pub mod Builder
pub mod Vector
pub mod Growth
pub mod Calls
mod Examples
use kj.Base.{
  ℕ, zero, suc, ◌+◌, ◌-◌, ◌*◌, ◌%◌, ◌^◌, Bool, true, false, ◌||◌, Option, none, some, ltb,
  if◌then◌else◌,
}
use kj.Memory.{Runtime}

-- `ExceptionSafeArrayUtil`, for elements of the type `element`.
pub record ExceptionSafeArrayUtil : Type 0 where
  pub pos : ℕ
  pub element_size : ℕ
  pub constructed_element_count : ℕ
  pub element : ℕ

unfoldable pub guard_elements : ℕ → ℕ → ℕ → ℕ → ExceptionSafeArrayUtil
guard_elements p size count t = record {
  pos = p + size * count;
  element_size = size;
  constructed_element_count = count;
  element = t;
}

unfoldable pub advance : ExceptionSafeArrayUtil → ExceptionSafeArrayUtil
advance g = record g {
  pos = g.pos + g.element_size;
  constructed_element_count = g.constructed_element_count + 1;
}

module _ (m : Runtime) where
  open m use {State, operator_new, operator_delete, construct, destroy}

  -- A call that changes a guard, with whether it throws.
  abbrev pub Guarded : Type 0
  Guarded = ExceptionSafeArrayUtil × State × Bool

  unfoldable pub construct_elements : ℕ → ExceptionSafeArrayUtil → State → Guarded
  unfolding advance
  construct_elements zero g s = (g, s, false)
  construct_elements (suc count) g s =
      let r = construct g.element g.pos s in
      elim r.1 [ true ↦ (g, r.0, true) | false ↦ construct_elements count (advance g) r.0 ]

  -- The loop of `destroyAll`, where `constructedElementCount` is the number.
  unfoldable pub destroy_loop : ℕ → Bool → ExceptionSafeArrayUtil → State → Guarded
  destroy_loop zero unwinding g s = (g, s, false)
  destroy_loop (suc n) unwinding g s =
      let g' : ExceptionSafeArrayUtil = record g {
        pos = g.pos - g.element_size;
        constructed_element_count = n;
      } in
      let r = destroy unwinding g.element g'.pos s in
      elim r.1 [ true ↦ (g', r.0, true) | false ↦ destroy_loop n unwinding g' r.0 ]

  unfoldable pub destroy_all : Bool → ExceptionSafeArrayUtil → State → Guarded
  unfolding destroy_loop
  destroy_all unwinding g s = destroy_loop g.constructed_element_count unwinding g s

  -- The guard goes out of scope, by an exception if `threw`.
  unfoldable pub end_guard : Bool → Guarded → State × Bool
  unfolding destroy_all
  end_guard unwinding (g, s, threw) =
      if ltb 0 g.constructed_element_count
      then (let r = destroy_all (unwinding || threw) g s in (r.1, threw || r.2))
      else (s, threw)

  -- `DestructorOnlyArrayDisposer::disposeImpl`; `none` stands for a trivial destructor.
  unfoldable pub dispose_elements : Bool → ℕ → ℕ → ℕ → Option ℕ → State → State × Bool
  unfolding end_guard destroy_all guard_elements
  dispose_elements unwinding p size count none s = (s, false)
  dispose_elements unwinding p size count (some t) s =
      end_guard unwinding (destroy_all unwinding (guard_elements p size count t) s)

  -- `HeapArrayDisposer::disposeImpl`
  unfoldable pub dispose_heap : Bool → ℕ → ℕ → ℕ → Option ℕ → State → State × Bool
  unfolding dispose_elements
  dispose_heap unwinding p size count destroy_element s =
      let r = dispose_elements unwinding p size count destroy_element s in
      (operator_delete p r.0, r.1)

  -- The `AutoDeleter` frees the block where the construction throws.
  unfoldable pub release_or_delete : ℕ → State × Bool → State × Option ℕ
  release_or_delete p (s, true) = (operator_delete p s, none)
  release_or_delete p (s, false) = (s, some p)

  unfoldable pub release_guard : Guarded → Guarded
  release_guard (g, s, true) = (g, s, true)
  release_guard (g, s, false) = (record g { constructed_element_count = 0 }, s, false)

  -- The construction in `HeapArrayDisposer::allocateImpl`, by whether there is a constructor and a
  -- destructor to call.
  unfoldable pub construct_array : ℕ → ℕ → ℕ → Option ℕ → Option ℕ → State → State × Bool
  unfolding construct_elements end_guard release_guard guard_elements
  construct_array p size count none destroy_element s = (s, false)
  construct_array p size count (some t) none s =
      let r = construct_elements count (guard_elements p size 0 t) s in (r.1, r.2)
  construct_array p size count (some t) (some _) s =
      end_guard false (release_guard (construct_elements count (guard_elements p size 0 t) s))

  -- `HeapArrayDisposer::allocateImpl`: the address, or `none` where it throws.
  unfoldable pub allocate_heap : ℕ → ℕ → ℕ → Option ℕ → Option ℕ → State → State × Option ℕ
  unfolding construct_array release_or_delete
  allocate_heap size count capacity construct_element destroy_element s =
      elim (operator_new (size * capacity % 2 ^ 64) s) [
        | none ↦ (s, none)
        | some (p, s') ↦
            release_or_delete p (construct_array p size count construct_element destroy_element s')
      ]
