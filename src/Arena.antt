-- ===== src/Arena.antt =====
-- `Arena` (arena.h, arena.cpp): objects in chunks of the heap that are freed at once. Addresses and
-- sizes are those of a machine with words of 64 bits.
pub mod Bounds
pub mod Growing
pub mod Allocating
pub mod Cleanup
pub mod Objects
pub mod Lifetime
pub mod Disjoint
mod Examples
use kj.Base.{
  ℕ, zero, suc, ◌+◌, ◌-◌, ◌*◌, ◌/◌, ◌%◌, ◌^◌, max, Bool, true, false, not, Option, none, some, List,
  [], ◌∷◌, length, ltb, leb, if◌then◌else◌, ◌>>=◌,
}
use kj.Text.{Bytes}
use kj.Memory.{Runtime}
use kj.Arrays.{dispose_elements}

-- The sizes of the headers; both are aligned to 8.
abbrev pub chunk_header_size : ℕ
chunk_header_size = 24

abbrev pub object_header_size : ℕ
object_header_size = 16

-- `ChunkHeader`, at `start`. Its `next` is the rest of the arena's `chunk_list`.
pub record Chunk : Type 0 where
  pub start : ℕ
  pub pos : ℕ
  pub end : ℕ

-- What `destroyObject<T>` and `destroyArray<T>` are instances for: the type, and for an array the
-- size of an element, that of the prefix, and the tag in it, which counts the elements.
pub data Destructor : Type 0 where
  destroy_object : ℕ → Destructor
  destroy_array : ℕ → ℕ → ℕ → ℕ → Destructor

-- `ObjectHeader`, at the address `at`. Its `next` is the rest of the arena's `object_list`.
pub record ObjectHeader : Type 0 where
  pub at : ℕ
  pub destructor : Destructor

pub record Arena : Type 0 where
  pub next_chunk_size : ℕ
  pub chunk_list : List ℕ
  pub object_list : List ObjectHeader
  pub current_chunk : Option Chunk

-- `Arena(chunkSizeHint)`
unfoldable pub arena : ℕ → Arena
arena hint = record {
  next_chunk_size = max chunk_header_size hint;
  chunk_list = [];
  object_list = [];
  current_chunk = none;
}

-- `Arena(scratch)`, for a space by its address and size.
unfoldable pub arena_over : ℕ → ℕ → Arena
unfolding arena
arena_over p n =
    if ltb chunk_header_size n
    then record (arena n) {
      current_chunk = some (record { start = p; pos = p + chunk_header_size; end = p + n });
    }
    else arena n

-- `(i + mask) & ~mask`, which clears the low bits for a power of two.
unfoldable pub align_to : ℕ → ℕ → ℕ
align_to i alignment = (i + (alignment - 1)) % 2 ^ 64 / alignment * alignment

-- The loop that doubles the size of the next chunk. Every round adds one at least.
unfoldable pub enough_for : ℕ → ℕ → ℕ → Option ℕ
enough_for zero amount n = if ltb n amount then none else some n
enough_for (suc fuel) amount n =
    let rest = enough_for fuel amount (n * 2 % 2 ^ 64) in if ltb n amount then rest else some n

unfoldable pub set_destructor : ℕ → Destructor → Arena → Arena
set_destructor p destructor a = record a {
  object_list = record { at = p - object_header_size; destructor = destructor } ∷ a.object_list;
}

module _ (m : Runtime) where
  open m use {State, operator_new, operator_delete, construct, destroy}

  -- `allocateBytesInternal` where the current chunk has too little space.
  unfoldable pub allocate_chunk : ℕ → ℕ → Arena → State → Option (ℕ × Arena × State)
  unfolding enough_for align_to
  allocate_chunk amount alignment a s =
      let aligned = max alignment 8 in
      let total = (amount + align_to chunk_header_size aligned) % 2 ^ 64 in
      enough_for total total a.next_chunk_size >>= λ n. operator_new n s >>= λ r. some (
        align_to (r.0 + chunk_header_size) aligned,
        record a {
          next_chunk_size = n * 2 % 2 ^ 64;
          chunk_list = r.0 ∷ a.chunk_list;
          current_chunk = some (record { start = r.0; pos = r.0 + total; end = r.0 + n });
        },
        r.1,
      )

  unfoldable pub allocate_from : Option Chunk → ℕ → ℕ → Arena → State → Option (ℕ × Arena × State)
  unfolding allocate_chunk align_to
  allocate_from none amount alignment a s = allocate_chunk amount alignment a s
  allocate_from (some c) amount alignment a s =
      let aligned_pos = align_to c.pos alignment in
      if leb ((amount + (aligned_pos - c.pos)) % 2 ^ 64) (c.end - c.pos)
      then some (
        aligned_pos,
        record a { current_chunk = some (record c { pos = aligned_pos + amount }) },
        s,
      )
      else allocate_chunk amount alignment a s

  unfoldable pub allocate_bytes_internal : ℕ → ℕ → Arena → State → Option (ℕ × Arena × State)
  unfolding allocate_from
  allocate_bytes_internal amount alignment a s = allocate_from a.current_chunk amount alignment a s

  unfoldable pub allocate_bytes : ℕ → ℕ → Bool → Arena → State → Option (ℕ × Arena × State)
  unfolding allocate_bytes_internal align_to
  allocate_bytes amount alignment false a s = allocate_bytes_internal amount alignment a s
  allocate_bytes amount alignment true a s =
      let aligned = max alignment 8 in
      allocate_bytes_internal ((amount + align_to object_header_size aligned) % 2 ^ 64) aligned a s
      >>= λ r. some (align_to (r.0 + object_header_size) aligned, r.1, r.2)

  -- `destroyObject<T>` and `destroyArray<T>`
  unfoldable pub run_destructor : Bool → ℕ → Destructor → State → State × Bool
  unfolding dispose_elements
  run_destructor unwinding p (destroy_object t) s = destroy unwinding t p s
  run_destructor unwinding p (destroy_array t size prefix tag) s =
      dispose_elements m unwinding (p + prefix) size tag (some t) s

  -- The first loop of `cleanup`: the objects that are left where a destructor throws.
  unfoldable pub destroy_objects :
      Bool → List ObjectHeader → State → List ObjectHeader × State × Bool
  unfolding run_destructor
  destroy_objects unwinding [] s = ([], s, false)
  destroy_objects unwinding (header ∷ rest) s =
      let r = run_destructor unwinding (header.at + object_header_size) header.destructor s in
      elim r.1 [ true ↦ (rest, r.0, true) | false ↦ destroy_objects unwinding rest r.0 ]

  unfoldable pub delete_chunks : List ℕ → State → State
  delete_chunks [] s = s
  delete_chunks (p ∷ rest) s = delete_chunks rest (operator_delete p s)

  unfoldable pub end_cleanup : Arena → List ObjectHeader × State × Bool → Arena × State × Bool
  unfolding delete_chunks
  end_cleanup a (rest, s, true) = (record a { object_list = rest }, s, true)
  end_cleanup a (rest, s, false) =
      (record a { object_list = rest; chunk_list = [] }, delete_chunks a.chunk_list s, false)

  unfoldable pub cleanup : Bool → Arena → State → Arena × State × Bool
  unfolding destroy_objects end_cleanup
  cleanup unwinding a s = end_cleanup a (destroy_objects unwinding a.object_list s)

  -- `~Arena`: `cleanup` once more where it throws.
  unfoldable pub destroy_arena : Bool → Arena → State → State × Bool
  unfolding cleanup
  destroy_arena unwinding a s =
      let r = cleanup unwinding a s in
      elim r.2 [
        | true ↦ (let again = cleanup true r.0 r.1 in (again.1, true))
        | false ↦ (r.1, false)
      ]
