-- ===== src/Text/Joining.antt =====
-- `kj::str` and `kj::strArray` (string.h): both passes agree, and the text is the concatenation.
use kj.Base.{
  ℕ, suc, ◌+◌, ◌≡◌, refl, some, List, [], ◌∷◌, ◌++◌, map, append_assoc, append-nil, arith, length,
  length-append, concat as flatten, lt→ltb,
}
use kj.Text.Filling.{
  Buffer, heap_string, extend, Fits, put-extend, extend-extend, finish-heap_string,
}
use kj.Text.{Bytes, sum, fill, concat, array_size, array_fill, str_array}

pub sum-length-flatten :
    (acc : ℕ) (xs : List Bytes) → sum acc (map length xs) ≡ acc + length (flatten xs)
unfolding sum
sum-length-flatten acc [] = omega arith
sum-length-flatten acc (x ∷ xs) =
    omega (arith, sum-length-flatten (acc + length x) xs, length-append x (flatten xs))

pub fill-extend :
    (xs : List Bytes) (b : Buffer) → Fits (flatten xs) b → fill xs b ≡ some (extend b (flatten xs))
unfolding fill
fill-extend [] b h = rw (append-nil b.written)
fill-extend (x ∷ xs) b h =
    let total = length-append x (flatten xs) in
    let grown = length-append b.written x in
    rw (
      put-extend x b (omega arith),
      fill-extend xs (extend b x) (omega arith),
      extend-extend b x (flatten xs),
    )

-- `str(params...)` fills its string exactly and returns the parameters' texts one after another.
pub concat-flatten : (params : List Bytes) → concat params ≡ some (flatten params)
unfolding concat heap_string
concat-flatten params =
    let size : sum 0 (map length params) ≡ length (flatten params) =
      omega (arith, sum-length-flatten 0 params) in
    rw (size, fill-extend params (heap_string (length (flatten params))) (omega arith))
      (finish-heap_string _ (flatten params) refl)

-- The elements with the delimiter between them.
abbrev pub after : Bytes → List Bytes → Bytes
after delim [] = []
after delim (x ∷ xs) = delim ++ (x ++ after delim xs)

abbrev pub join : Bytes → List Bytes → Bytes
join delim [] = []
join delim (x ∷ xs) = x ++ after delim xs

array_size-after :
    (delim : Bytes) (i : ℕ) (xs : List Bytes) (size : ℕ)
    → array_size (length delim) (suc i) xs size ≡ size + length (after delim xs)
unfolding array_size
array_size-after delim i [] size = omega arith
array_size-after delim i (x ∷ xs) size =
    let test = lt→ltb 0 (suc i) (omega arith) in
    rw test (
      omega (
        arith,
        array_size-after delim (suc i) xs (size + length delim + length x),
        length-append delim (x ++ after delim xs),
        length-append x (after delim xs),
      ))

array_fill-after :
    (delim : Bytes) (i : ℕ) (xs : List Bytes) (b : Buffer)
    → Fits (after delim xs) b
    → array_fill delim (suc i) xs b ≡ some (extend b (after delim xs))
unfolding array_fill
array_fill-after delim i [] b h = rw (append-nil b.written)
array_fill-after delim i (x ∷ xs) b h =
    let test = lt→ltb 0 (suc i) (omega arith) in
    let whole = length-append delim (x ++ after delim xs) in
    let rest = length-append x (after delim xs) in
    let first = length-append b.written delim in
    let second = length-append (b.written ++ delim) x in
    rw
      (
        test,
        put-extend delim b (omega arith),
        put-extend x (extend b delim) (omega arith),
        array_fill-after delim (suc i) xs (extend (extend b delim) x) (omega arith),
      )
      (simp append_assoc)

-- `strArray(arr, delim)` fills its string exactly and returns the elements with the delimiter
-- between each two of them.
pub str_array-join :
    (arr : List Bytes) (delim : Bytes) → str_array arr delim ≡ some (join delim arr)
unfolding str_array array_size array_fill heap_string
str_array-join [] delim = finish-heap_string 0 [] refl
str_array-join (x ∷ xs) delim =
    let size : array_size (length delim) 1 xs (0 + length x) ≡ length (x ++ after delim xs) =
      omega (arith, array_size-after delim 0 xs (0 + length x), length-append x (after delim xs)) in
    let room = length-append x (after delim xs) in
    let fresh = heap_string (length (x ++ after delim xs)) in
    rw
      (
        size,
        put-extend x fresh (omega arith),
        array_fill-after delim 0 xs (extend fresh x) (omega arith),
      )
      (finish-heap_string _ (x ++ after delim xs) refl)
