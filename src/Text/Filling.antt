-- ===== src/Text/Filling.antt =====
-- A character array that is filled from the front through a moving pointer, as `fill`, `memcpy`
-- and `flattenTo` do. `none` is a write behind the end, or a use of bytes that were never written.
use kj.Base.{
  ℕ, ◌+◌, ◌≤◌, ◌≡◌, Option, none, some, List, [], ◌++◌, append_assoc, length, leb, le→leb, ◌==◌,
  if◌then◌else◌, ==_refl, ap,
}

pub record Buffer : Type 0 where
  pub written : List ℕ
  pub capacity : ℕ

-- `heapString(size)`: the bytes are there, and hold nothing yet.
unfoldable pub heap_string : ℕ → Buffer
heap_string size = record { written = []; capacity = size }

unfoldable pub put : List ℕ → Buffer → Option Buffer
put bytes b =
    if leb (length b.written + length bytes) b.capacity
    then some (record b { written = b.written ++ bytes })
    else none

-- `memcpy` to an offset: the offset must be where the written part ends.
unfoldable pub put_at : ℕ → List ℕ → Buffer → Option Buffer
unfolding put
put_at offset bytes b = if offset == length b.written then put bytes b else none

-- The string, once every byte of it has been written.
unfoldable pub finish : Buffer → Option (List ℕ)
finish b = if length b.written == b.capacity then some b.written else none

abbrev pub extend : Buffer → List ℕ → Buffer
extend b bytes = record b { written = b.written ++ bytes }

abbrev pub Fits : List ℕ → Buffer → Type 0
Fits bytes b = length b.written + length bytes ≤ b.capacity

pub put-extend : (bytes : List ℕ) (b : Buffer) → Fits bytes b → put bytes b ≡ some (extend b bytes)
unfolding put
put-extend bytes b h = rw (le→leb _ _ h)

pub put_at-extend :
    (offset : ℕ) (bytes : List ℕ) (b : Buffer)
    → offset ≡ length b.written
    → Fits bytes b
    → put_at offset bytes b ≡ some (extend b bytes)
unfolding put_at
put_at-extend offset bytes b e h = rw (e, ==_refl (length b.written), put-extend bytes b h)

pub extend-extend : (b : Buffer) (xs ys : List ℕ) → extend (extend b xs) ys ≡ extend b (xs ++ ys)
extend-extend b xs ys = ap (λ w. record b { written = w }) (append_assoc b.written xs ys)

pub finish_lem : (b : Buffer) → length b.written ≡ b.capacity → finish b ≡ some b.written
unfolding finish
finish_lem b h = rw (h, ==_refl b.capacity)

-- Filling a fresh array of the right size with some bytes gives these bytes.
pub finish-heap_string :
    (size : ℕ) (bytes : List ℕ)
    → length bytes ≡ size
    → finish (extend (heap_string size) bytes) ≡ some bytes
unfolding heap_string
finish-heap_string size bytes h = finish_lem _ h
