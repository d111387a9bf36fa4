-- ===== src/Text.antt =====
-- string.h and string.cpp: text as a list of byte values, and the functions that build a string in
-- two passes, one for its size and one for its bytes.
pub mod Filling
pub mod Joining
pub mod Search
pub mod Numbers
pub mod Examples
use kj.Base.{ℕ, suc, ◌+◌, Option, none, some, List, [], ◌∷◌, map, length, ltb, if◌then◌else◌, ◌>>=◌}
use Filling.{Buffer, heap_string, put, finish}

abbrev pub Bytes : Type 0
Bytes = List ℕ

-- `sum(std::initializer_list<size_t>)`; the sizes are those of objects that are in memory together.
unfoldable pub sum : ℕ → List ℕ → ℕ
sum result [] = result
sum result (num ∷ nums) = sum (result + num) nums

-- `fill(target, first, rest...)`
unfoldable pub fill : List Bytes → Buffer → Option Buffer
fill [] target = some target
fill (first ∷ rest) target = put first target >>= fill rest

-- `concat(params...)`, which is also `str(params...)` after each parameter has become characters.
unfoldable pub concat : List Bytes → Option Bytes
unfolding fill sum
concat params = fill params (heap_string (sum 0 (map length params))) >>= finish

-- The first loop of `strArray`: `i` is the index of the first piece that is left.
unfoldable pub array_size : ℕ → ℕ → List Bytes → ℕ → ℕ
array_size delim_len i [] size = size
array_size delim_len i (piece ∷ pieces) size =
    array_size delim_len (suc i) pieces
      ((if ltb 0 i then size + delim_len else size) + length piece)

-- The second loop of `strArray`.
unfoldable pub array_fill : Bytes → ℕ → List Bytes → Buffer → Option Buffer
array_fill delim i [] pos = some pos
array_fill delim i (piece ∷ pieces) pos =
    ((if ltb 0 i then put delim pos else some pos) >>= put piece)
    >>= array_fill delim (suc i) pieces

unfoldable pub str_array : List Bytes → Bytes → Option Bytes
unfolding array_size array_fill
str_array arr delim =
    array_fill delim 0 arr (heap_string (array_size (length delim) 0 arr 0)) >>= finish
