-- ===== src/CommandLine/Lines.antt =====
-- What the wrapping of help texts (main.cpp, `MainImpl::wrapText`) does to a text: its lines and its words.
use kj.Base.{
  ℕ, zero, suc, ◌+◌, ◌≤◌, ◌<◌, ◌≡◌, refl, ap, ◌∙◌, Bool, true, false, ◌&&◌, ◌||◌, none, some, List,
  [], ◌∷◌, ◌++◌, le→leb, length, take, replicate, leb, ◌==◌, if◌then◌else◌, Bool-cases,
  Option-cases, inl, inr, arith,
}
use kj.Text.{Bytes}
use kj.Text.Search.{find_first, has_byte, find_first-eq-some, find_first-none_free, has_byte-take}
use kj.CommandLine.Wrap.{
  space, newline, find_wrap, wrap_pos, skip_spaces, skip_newline, fitting_line,
}

-- A text without its spaces and line ends.
abbrev pub words : Bytes → Bytes
words [] = []
words (c ∷ cs) = if c == space || c == newline then words cs else c ∷ words cs

-- Every line has at most `limit` characters, where `column` stand before the text.
abbrev pub within : ℕ → ℕ → Bytes → Bool
within limit column [] = true
within limit column (c ∷ cs) =
    if c == newline
    then within limit 0 cs
    else leb (suc column) limit && within limit (suc column) cs

pub words-append : (xs ys : Bytes) → words (xs ++ ys) ≡ words xs ++ words ys
words-append [] ys = refl
words-append (x ∷ xs) ys = ground (arith, words-append xs ys)

pub words-replicate : (n : ℕ) → words (replicate n space) ≡ []
words-replicate zero = refl
words-replicate (suc n) = words-replicate n

pub words-skip_spaces : (xs : Bytes) → words (skip_spaces xs) ≡ words xs
unfolding skip_spaces
words-skip_spaces [] = refl
words-skip_spaces (x ∷ xs) = ground (arith, words-skip_spaces xs)

pub words-skip_newline : (xs : Bytes) → words (skip_newline xs) ≡ words xs
words-skip_newline [] = refl
words-skip_newline (x ∷ xs) = ground arith

pub length-skip_spaces : (xs : Bytes) → length (skip_spaces xs) ≤ length xs
unfolding skip_spaces
length-skip_spaces [] = omega arith
length-skip_spaces (x ∷ xs) = ground (arith, length-skip_spaces xs)

pub length-skip_newline : (xs : Bytes) → length (skip_newline xs) ≤ length xs
length-skip_newline [] = omega arith
length-skip_newline (x ∷ xs) = ground arith

pub within-replicate :
    (limit column n : ℕ) (xs : Bytes)
    → column + n ≤ limit
    → within limit column (replicate n space ++ xs) ≡ within limit (column + n) xs
within-replicate limit column zero xs h =
    let same : column ≡ column + 0 = omega arith in ap (λ (t : ℕ). within limit t xs) same
within-replicate limit column (suc n) xs h =
    let next : suc column + n ≡ column + suc n = omega arith in
    rw (le→leb (suc column) limit (omega arith)) (
      within-replicate limit (suc column) n xs (omega arith)
      ∙ ap (λ (t : ℕ). within limit t xs) next)

-- A line that is short enough is taken off.
pub within-line :
    (limit column : ℕ) (xs ys : Bytes)
    → has_byte newline xs ≡ false
    → column + length xs ≤ limit
    → within limit column (xs ++ newline ∷ ys) ≡ within limit 0 ys
within-line limit column [] ys free h = refl
within-line limit column (x ∷ xs) ys free h = elim (Bool-cases (x == newline)) [
  | inl hit ↦ ground arith
  | inr miss ↦
      rw (miss, le→leb (suc column) limit (omega arith))
        (within-line limit (suc column) xs ys (rw miss at free) (omega arith))
]

find_wrap_bounds : (text : Bytes) (p : ℕ) {q : ℕ} → find_wrap text p ≡ some q → (0 < q) × (q ≤ p)
unfolding find_wrap
find_wrap_bounds text zero h = cc
find_wrap_bounds text (suc p) h = grind (arith, find_wrap_bounds text p)

pub wrap_pos_bounds :
    (text : Bytes) (width : ℕ)
    → 0 < width
    → (0 < wrap_pos text width) × (wrap_pos text width ≤ width)
unfolding wrap_pos
wrap_pos_bounds text width h = elim (Option-cases (find_wrap text width)) [
  | inl e ↦ rw (e, wrap_pos) (omega arith)
  | inr (q, e) ↦ rw (e, wrap_pos) (find_wrap_bounds text width e)
]

has_byte-append_left :
    (c : ℕ) (xs ys : Bytes) (k : ℕ)
    → has_byte c xs ≡ false
    → k ≤ length xs
    → has_byte c (take k (xs ++ ys)) ≡ false
has_byte-append_left c [] ys zero free h = refl
has_byte-append_left c [] ys (suc k) free h = absurd (omega arith)
has_byte-append_left c (x ∷ xs) ys zero free h = refl
has_byte-append_left c (x ∷ xs) ys (suc k) free h = ground (arith, has_byte-append_left c xs ys k)

-- Where no line fits, the text begins with `width` characters that are no line end.
pub no_line :
    (text : Bytes) (width k : ℕ)
    → fitting_line text width ≡ none
    → k ≤ width
    → has_byte newline (take k text) ≡ false
unfolding fitting_line
no_line text width k h g = elim (Option-cases (find_first text newline)) [
  | inl e ↦ has_byte-take newline text k (find_first-none_free newline text e)
  | inr (j, e) ↦
      let (ys, zs, cut, free, at) = find_first-eq-some text newline e in
      elim (Bool-cases (leb j width)) [
        | inl fits ↦ absurd (cc (rw fits at rw (e, fitting_line) at h))
        | inr long ↦ rw cut (has_byte-append_left newline ys (newline ∷ zs) k free (ground arith))
      ]
]

pub fitting_line_cut :
    (text : Bytes) (width : ℕ) {j : ℕ}
    → fitting_line text width ≡ some j
    → (ys : List ℕ) × (zs : List ℕ) × (text ≡ ys ++ newline ∷ zs)
      × (has_byte newline ys ≡ false)
      × (j ≡ length ys)
      × (j ≤ width)
unfolding fitting_line
fitting_line_cut text width {j} h = elim (Option-cases (find_first text newline)) [
  | inl e ↦ absurd (cc (rw (e, fitting_line) at h))
  | inr (i, e) ↦ elim (Bool-cases (leb i width)) [
    | inl fits ↦
        let (ys, zs, cut, free, at) = find_first-eq-some text newline e in
        let same : i ≡ j = cc (rw fits at rw (e, fitting_line) at h) in
        (ys, zs, cut, free, omega arith, ground arith)
    | inr long ↦ absurd (cc (rw long at rw (e, fitting_line) at h))
  ]
]
