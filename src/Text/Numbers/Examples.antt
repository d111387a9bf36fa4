-- ===== src/Text/Numbers/Examples.antt =====
-- Integers of eight bytes, and a kind of floating-point numbers whose locale prints commas.
use kj.Base.{ℕ, ◌≡◌, refl, Bool, true, false, Option, none, some, ◌∷◌, leb, if◌then◌else◌, arith}
use kj.Text.{Bytes}
use kj.Text.Search.{codes, bytes_eq}
use kj.Text.Numbers.{stringify, hex, Floats}
use kj.Text.Numbers.Digits.{number_from, stringify_lem}

stringify_run : stringify 1 true 128 ≡ some (codes "-128")
unfolding stringify
stringify_run = refl

hex_run : hex 2 0xbeef ≡ some (codes "beef")
unfolding hex
hex_run = refl

stringify_lem_example :
    (text : Bytes) × (stringify 8 false 18446744073709551615 ≡ some text)
    × (stringify 8 true 18446744073709551615 ≡ some (b'-' ∷ text))
    × (number_from 10 0 text ≡ 18446744073709551615)
stringify_lem_example = stringify_lem 8 18446744073709551615 (omega arith) (omega arith)

data Value : Type 0 where
  infinity minus_infinity nan third : Value

abbrev same : Value → Value → Bool
same infinity infinity = true
same minus_infinity minus_infinity = true
same third third = true
same _ _ = false

-- Six digits do not tell the number from others.
abbrev print : ℕ → Value → Bytes
print n infinity = codes "inf"
print n minus_infinity = codes "-inf"
print n nan = codes "nan"
print n third = if leb n 6 then codes "3,3e-01" else codes "3,333e-01"

parse_by : Bytes → Bytes → Option Value
parse_by number text =
    if bytes_eq text number
    then some third
    else (if bytes_eq text (codes "inf")
        then some infinity
        else (if bytes_eq text (codes "-inf") then some minus_infinity else none))

abbrev comma_floats : Floats
comma_floats = record {
  Value = Value;
  same = same;
  infinity = infinity;
  minus_infinity = minus_infinity;
  print = print;
  parse = parse_by (codes "3,333e-01");
}

abbrev plain : Bytes → Option Value
plain = parse_by (codes "3.333e-01")
