-- ===== src/Text/Search.antt =====
-- The tests and searches of `StringPtr` (string.h), and characters of literals.
use Prim.Native.Char.{code}
use Prim.Native.String.{String}
use kj.Base.{
  ℕ, zero, suc, ◌+◌, ◌≡◌, refl, ap, Bool, true, false, ◌&&◌, Option, none, some, List, [], ◌∷◌,
  ◌++◌, arith, length, ◌==◌, if◌then◌else◌, ==_refl, take, Bool-cases, inl, inr,
}

-- The bytes of an ASCII literal.
abbrev pub codes : String → List ℕ
codes String.[] = []
codes (String.◌∷◌ c s) = code c ∷ codes s

-- `operator==`
unfoldable pub bytes_eq : List ℕ → List ℕ → Bool
bytes_eq [] [] = true
bytes_eq [] (y ∷ ys) = false
bytes_eq (x ∷ xs) [] = false
bytes_eq (x ∷ xs) (y ∷ ys) = x == y && bytes_eq xs ys

unfoldable pub starts_with : List ℕ → List ℕ → Bool
starts_with xs [] = true
starts_with [] (y ∷ ys) = false
starts_with (x ∷ xs) (y ∷ ys) = x == y && starts_with xs ys

-- `findFirst`: the index of the first `c`, where `i` is the index of the first byte that is left.
unfoldable pub find_from : ℕ → List ℕ → ℕ → Option ℕ
find_from c [] i = none
find_from c (x ∷ xs) i = if x == c then some i else find_from c xs (suc i)

unfoldable pub find_first : List ℕ → ℕ → Option ℕ
unfolding find_from
find_first xs c = find_from c xs 0

abbrev pub has_byte : ℕ → List ℕ → Bool
has_byte c [] = false
has_byte c (x ∷ xs) = if x == c then true else has_byte c xs

find_from-none : (c : ℕ) (xs : List ℕ) (i : ℕ) → has_byte c xs ≡ false → find_from c xs i ≡ none
unfolding find_from
find_from-none c [] i h = refl
find_from-none c (x ∷ xs) i h = ground (arith, find_from-none c xs (suc i))

pub find_first-none : (c : ℕ) (xs : List ℕ) → has_byte c xs ≡ false → find_first xs c ≡ none
unfolding find_first
find_first-none c xs h = find_from-none c xs 0 h

find_from-some :
    (c : ℕ) (xs ys : List ℕ) (i : ℕ)
    → has_byte c xs ≡ false
    → find_from c (xs ++ c ∷ ys) i ≡ some (i + length xs)
unfolding find_from
find_from-some c [] ys i h = let same : i ≡ i + 0 = omega arith in rw (==_refl c) (ap some same)
find_from-some c (x ∷ xs) ys i h =
    let next : suc i + length xs ≡ i + suc (length xs) = omega arith in
    elim (Bool-cases (x == c)) [
      | inl hit ↦ ground arith
      | inr miss ↦ rw (miss, find_from-some c xs ys (suc i) (ground arith)) (ap some next)
    ]

-- The first occurrence is behind the longest prefix without one.
pub find_first-some :
    (c : ℕ) (xs ys : List ℕ)
    → has_byte c xs ≡ false
    → find_first (xs ++ c ∷ ys) c ≡ some (length xs)
unfolding find_first
find_first-some c xs ys h =
    let start : 0 + length xs ≡ length xs = omega arith in rw (find_from-some c xs ys 0 h, start)

-- What a search that succeeds tells.
find_from-eq-some :
    (c : ℕ) (xs : List ℕ) (i : ℕ) {j : ℕ}
    → find_from c xs i ≡ some j
    → (ys : List ℕ) × (zs : List ℕ) × (xs ≡ ys ++ c ∷ zs)
      × (has_byte c ys ≡ false)
      × (j ≡ i + length ys)
unfolding find_from
find_from-eq-some c [] i h = cc
find_from-eq-some c (x ∷ xs) i h = elim (Bool-cases (x == c)) [
  | inl hit ↦ ([], xs, ground arith, refl, ground arith)
  | inr miss ↦
      let (ys, zs, e, free, at) = find_from-eq-some c xs (suc i) (rw miss at h) in
      (x ∷ ys, zs, ap (λ t. x ∷ t) e, rw (miss, free), omega arith)
]

pub find_first-eq-some :
    (xs : List ℕ) (c : ℕ) {j : ℕ}
    → find_first xs c ≡ some j
    → (ys : List ℕ) × (zs : List ℕ) × (xs ≡ ys ++ c ∷ zs)
      × (has_byte c ys ≡ false)
      × (j ≡ length ys)
unfolding find_first
find_first-eq-some xs c h =
    let (ys, zs, e, free, at) = find_from-eq-some c xs 0 h in (ys, zs, e, free, omega arith)

pub has_byte-take :
    (c : ℕ) (xs : List ℕ) (k : ℕ) → has_byte c xs ≡ false → has_byte c (take k xs) ≡ false
has_byte-take c [] zero h = refl
has_byte-take c [] (suc k) h = refl
has_byte-take c (x ∷ xs) zero h = refl
has_byte-take c (x ∷ xs) (suc k) h = ground (arith, has_byte-take c xs k)

find_from-none_free :
    (c : ℕ) (xs : List ℕ) (i : ℕ) → find_from c xs i ≡ none → has_byte c xs ≡ false
unfolding find_from
find_from-none_free c [] i h = refl
find_from-none_free c (x ∷ xs) i h = ground (arith, find_from-none_free c xs (suc i))

pub find_first-none_free : (c : ℕ) (xs : List ℕ) → find_first xs c ≡ none → has_byte c xs ≡ false
unfolding find_first
find_first-none_free c xs h = find_from-none_free c xs 0 h
