-- ===== src/Arena/Objects.antt =====
-- What `Arena` makes of its bytes (arena.h): objects, arrays and strings.
use kj.Base.{
  ℕ, ◌+◌, ◌*◌, ◌%◌, ◌^◌, max, Bool, true, false, not, Option, none, some, if◌then◌else◌, ◌>>=◌,
}
use kj.Memory.{Runtime}
use kj.Arrays.{ExceptionSafeArrayUtil, guard_elements, construct_elements}
use kj.Arena.{Arena, destroy_object, destroy_array, allocate_bytes, set_destructor}

-- A type with its size, its alignment and whether its constructor and destructor do nothing.
pub record Class : Type 0 where
  pub id : ℕ
  pub size : ℕ
  pub align : ℕ
  pub trivial_constructor : Bool
  pub trivial_destructor : Bool

unfoldable pub address_unless : Bool → ℕ → Option ℕ
address_unless true p = none
address_unless false p = some p

abbrev pub prefix_size : Class → ℕ
prefix_size c = max c.align 8

module _ (m : Runtime) where
  open m use {State, construct}

  -- An allocation may find no memory (`none`), or a constructor may throw (no address).
  abbrev pub Allocation : Type 0
  Allocation = Option (Arena × State × Option ℕ)

  unfoldable pub register_object : Class → ℕ → Arena → Arena
  unfolding set_destructor
  register_object c p a =
      if c.trivial_destructor then a else set_destructor p (destroy_object c.id) a

  unfoldable pub end_allocate : Class → ℕ → Arena → State × Bool → Arena × State × Option ℕ
  unfolding register_object
  end_allocate c p a (s, true) = (a, s, none)
  end_allocate c p a (s, false) = (register_object c p a, s, some p)

  -- `allocate<T>(params...)`
  unfoldable pub allocate : Class → Arena → State → Allocation
  unfolding end_allocate
  allocate c a s = allocate_bytes m c.size c.align (not c.trivial_destructor) a s >>= λ r. some (
      end_allocate c r.0 r.1
        (if c.trivial_constructor then (r.2, false) else construct c.id r.0 r.2))

  -- The constructors of an array's elements; the guard counts those that have ended.
  unfoldable pub construct_all : Class → ℕ → ℕ → State → ExceptionSafeArrayUtil × State × Bool
  unfolding construct_elements guard_elements
  construct_all c count p s =
      if c.trivial_constructor
      then (guard_elements p c.size count c.id, s, false)
      else construct_elements m count (guard_elements p c.size 0 c.id) s

  -- `allocateArray<T>(size)`, for elements without a destructor. The result is the first element.
  unfoldable pub allocate_plain_array : Class → ℕ → Arena → State → Allocation
  unfolding construct_all address_unless
  allocate_plain_array c count a s =
      allocate_bytes m (c.size * count % 2 ^ 64) c.align false a s >>= λ r.
      let t = construct_all c count r.0 r.2 in some (r.1, t.1, address_unless t.2 r.0)

  -- The same for elements with a destructor, whose tag counts the elements that are constructed.
  unfoldable pub allocate_tagged_array : Class → ℕ → Arena → State → Allocation
  unfolding construct_all set_destructor address_unless
  allocate_tagged_array c count a s =
      allocate_bytes m ((c.size * count + prefix_size c) % 2 ^ 64) c.align true a s >>= λ r.
      let t = construct_all c count (r.0 + prefix_size c) r.2 in
      some (
        set_destructor r.0 (destroy_array c.id c.size (prefix_size c) t.0.constructed_element_count)
            r.1,
        t.1,
        address_unless t.2 (r.0 + prefix_size c),
      )

  unfoldable pub allocate_array : Class → ℕ → Arena → State → Allocation
  unfolding allocate_plain_array allocate_tagged_array
  allocate_array c count a s =
      if c.trivial_destructor
      then allocate_plain_array c count a s
      else allocate_tagged_array c count a s
