-- ===== src/Text/Numbers/Cleaning.antt =====
-- The text of floating-point numbers, whatever the locale (string.cpp).
use kj.Base.{ℕ, ◌≡◌, Bool, true, false, not, ◌&&◌, Option, [], ◌∷◌, ◌++◌, ◌+◌, ◌⊎◌, ◌==◌}
use kj.Text.{Bytes}
use kj.Text.Search.{has_byte}
use kj.Text.Numbers.{is_valid_float_char, Floats, reads_as}

-- Every byte of a text passes a test.
abbrev pub All : (ℕ → Bool) → Bytes → Type 0
All p [] = Unit
All p (c ∷ cs) = (p c ≡ true) × All p cs

-- A byte of a radix, which is neither in a number nor a point.
abbrev pub is_radix : ℕ → Bool
is_radix c = not (is_valid_float_char c) && not (c == b'.')

-- `t` is what a locale prints of a number, and `u` the same with a point for the radix: there is no
-- radix, or a point already, or some bytes of another radix.
abbrev pub Printed : Bytes → Bytes → Type 0
Printed t u =
    ((t ≡ u) × All is_valid_float_char u)
    ⊎ (((t ≡ u) × (has_byte b'.' u ≡ true))
        ⊎ ((whole : Bytes) × (c : ℕ) × (radix : Bytes) × (rest : Bytes) × (t
              ≡ whole ++ c ∷ (radix ++ rest))
            × (u ≡ whole ++ b'.' ∷ rest)
            × All is_valid_float_char whole
            × All is_radix (c ∷ radix)
            × All is_valid_float_char rest))

-- `w` is `u` without its plus signs.
pub data Unsigned : Bytes → Bytes → Type 0 where
  ended : Unsigned [] []
  plus : {u w : Bytes} → Unsigned u w → Unsigned (b'+' ∷ u) w
  kept : {u w : Bytes} (c : ℕ) → (c == b'+') ≡ false → Unsigned u w → Unsigned (c ∷ u) (c ∷ w)

-- What is relied on for printing and parsing: two digits more than `digits` are enough to read a
-- number back; the text is one of a locale; and `plain`, which parses numbers with a point, reads
-- it with the point, and without plus signs, like `parse`.
pub record Prints (f : Floats) (digits : ℕ) (plain : Bytes → Option f.Value) : Type 0 where
  pub exact :
      (v : f.Value) → f.same v v ≡ true → reads_as f (f.parse (f.print (digits + 2) v)) v ≡ true
  pub shaped :
      (n : ℕ) (v : f.Value)
      → f.same v f.infinity ≡ false
      → f.same v f.minus_infinity ≡ false
      → f.same v v ≡ true
      → (u : Bytes) × (w : Bytes) × Printed (f.print n v) u
        × Unsigned u w
        × (plain w ≡ f.parse (f.print n v))
