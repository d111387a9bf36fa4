-- ===== src/Text/Numbers.antt =====
-- How numbers become text (string.cpp): `sprintf` into arrays of a fixed size, and the cleaning of
-- what is printed of a floating-point number.
pub mod Digits
pub mod Cleaning
mod Examples
use kj.Base.{
  ℕ, zero, suc, ◌+◌, ◌-◌, ◌*◌, ◌/◌, ◌%◌, ◌≤◌, Bool, true, false, not, ◌&&◌, ◌||◌, Option, none,
  some, List, [], ◌∷◌, ◌++◌, length, leb, ltb, ◌==◌, if◌then◌else◌,
}
use kj.Text.{Bytes}
use kj.Text.Search.{codes, has_byte}

-- `sprintf` of a number in a base, with small letters; the fuel is the number.
unfoldable pub digit : ℕ → ℕ
digit d = if ltb d 10 then b'0' + d else b'a' + d - 10

unfoldable pub print_digits : ℕ → ℕ → ℕ → Bytes → Bytes
unfolding digit
print_digits base zero n acc = digit (n % base) ∷ acc
print_digits base (suc fuel) n acc =
    let rest = print_digits base fuel (n / base) (digit (n % base) ∷ acc) in
    if ltb n base then digit n ∷ acc else rest

-- What is written into an array of `room` bytes with a zero byte behind it; `none` is an overrun.
unfoldable pub capped : ℕ → Bytes → Option Bytes
capped room text = if ltb (length text) room then some text else none

-- `Stringifier::operator*` for the integers of `n` bytes: a sign, and the size of the number.
unfoldable pub stringify : ℕ → Bool → ℕ → Option Bytes
unfolding print_digits capped
stringify n true v = capped (n * 3 + 2) (b'-' ∷ print_digits 10 v v [])
stringify n false v = capped (n * 3 + 2) (print_digits 10 v v [])

unfoldable pub hex : ℕ → ℕ → Option Bytes
unfolding print_digits capped
hex n v = capped (n * 2 + 1) (print_digits 16 v v [])

-- `IsValidFloatChar`
unfoldable pub is_valid_float_char : ℕ → Bool
is_valid_float_char c =
    (leb b'0' c && leb c b'9') || (c == b'e' || (c == b'E' || (c == b'+' || c == b'-')))

-- The loop that passes over the extra bytes of a radix.
unfoldable pub skip_radix : Bytes → Bytes
skip_radix [] = []
skip_radix (c ∷ cs) = if is_valid_float_char c then c ∷ cs else skip_radix cs

-- The text from the first unknown character on is a radix and what follows.
unfoldable pub replace_radix : Bytes → Bytes
unfolding is_valid_float_char skip_radix
replace_radix [] = []
replace_radix (c ∷ cs) =
    if is_valid_float_char c then c ∷ replace_radix cs else b'.' ∷ skip_radix cs

unfoldable pub delocalize_radix : Bytes → Bytes
unfolding replace_radix
delocalize_radix text = if has_byte b'.' text then text else replace_radix text

unfoldable pub remove_plus : Bytes → Bytes
remove_plus [] = []
remove_plus (c ∷ cs) = if c == b'+' then remove_plus cs else c ∷ remove_plus cs

-- A kind of floating-point numbers: `snprintf` with `%.*g`, the parser, and equality as the code has
-- it, for which not-a-number differs from itself.
pub record Floats : Type 1 where
  pub Value : Type 0
  pub same : Value → Value → Bool
  pub infinity : Value
  pub minus_infinity : Value
  pub print : ℕ → Value → Bytes
  pub parse : Bytes → Option Value

-- `parsed_value == value`
unfoldable pub reads_as : (f : Floats) → Option f.Value → f.Value → Bool
reads_as f none v = false
reads_as f (some w) v = f.same w v

-- `DoubleToBuffer` for 15 digits, `FloatToBuffer` for 6.
unfoldable pub to_buffer : (f : Floats) → ℕ → f.Value → Bytes
unfolding reads_as delocalize_radix remove_plus
to_buffer f digits v =
    if f.same v f.infinity
    then codes "inf"
    else (if f.same v f.minus_infinity
        then codes "-inf"
        else (if f.same v v
            then remove_plus (
                delocalize_radix (
                  if reads_as f (f.parse (f.print digits v)) v
                  then f.print digits v
                  else f.print (digits + 2) v))
            else codes "nan"))
