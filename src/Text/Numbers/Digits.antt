-- ===== src/Text/Numbers/Digits.antt =====
-- Integers fit into the arrays that their text is written to, and their text reads back (string.cpp).
use native.Mathlib.Nat.{
  div-add-mod', mod-lt, div-lt_iff_lt-mul, mul-le-mul, le_refl, pow-suc, pow-zero, mod-eq_of_lt,
}
use kj.Base.{
  ℕ, zero, suc, ◌+◌, ◌-◌, ◌*◌, ◌/◌, ◌%◌, ◌^◌, ◌≤◌, ◌<◌, ◌≡◌, sym, ap, ◌∙◌, ◌⊎◌, inl, inr, true,
  false, some, [], ◌∷◌, length, ltb, ltb→lt, lt→ltb, if◌then◌else◌, if_true, if_false, arith,
  Bool-cases,
}
use kj.Text.{Bytes}
use kj.Text.Numbers.{digit, print_digits, capped, stringify, hex}

-- What a digit stands for, and a text of digits behind the number `n`.
abbrev pub digit_value : ℕ → ℕ
digit_value c = if ltb c b'a' then c - b'0' else c - b'a' + 10

abbrev pub number_from : ℕ → ℕ → Bytes → ℕ
number_from base n [] = n
number_from base n (c ∷ cs) = number_from base (n * base + digit_value c) cs

digit_value-digit : (d : ℕ) → d < 16 → digit_value (digit d) ≡ d
unfolding digit
digit_value-digit d h = ground arith

ltb→ge : (a b : ℕ) → ltb a b ≡ false → b ≤ a
ltb→ge a b e = ground arith

division :
    (base n k : ℕ)
    → 1 < base
    → n ≤ suc k
    → base ≤ n
    → (n ≡ n / base * base + n % base) × (n % base < base) × (n / base ≤ k)
division base n k h enough more =
    let twice : suc k * 2 ≤ suc k * base = mul-le-mul (le_refl (suc k)) h in
    let below : n / base < suc k = (div-lt_iff_lt-mul (omega arith)).1 (omega arith) in
    (sym (div-add-mod' n base), mod-lt n (omega arith), omega arith)

-- The digits of `n` take the number before them times a power of the base, to which `n` is added.
number-print_digits :
    (base fuel n : ℕ) (acc : Bytes)
    → 1 < base
    → base ≤ 16
    → n ≤ fuel
    → number_from base 0 (print_digits base fuel n acc) ≡ number_from base n acc
unfolding print_digits
number-print_digits base zero n acc h k enough =
    let none : n ≡ 0 = omega arith in
    let small : n % base ≡ 0 = ap (λ (x : ℕ). x % base) none ∙ mod-eq_of_lt (omega arith) in
    let d = digit_value-digit (n % base) (omega arith) in
    let value : 0 * base + digit_value (digit (n % base)) ≡ n = omega (arith, d, small) in
    ap (λ (x : ℕ). number_from base x acc) value
number-print_digits base (suc fuel) n acc h k enough = elim (Bool-cases (ltb n base)) [
  | inl last ↦
      let lt = ltb→lt n base last in
      let d = digit_value-digit n (omega arith) in
      let value : 0 * base + digit_value (digit n) ≡ n = omega (arith, d) in
      ap (λ l. number_from base 0 l) (if_true _ _ last)
      ∙ ap (λ (x : ℕ). number_from base x acc) value
  | inr more ↦
      let (whole, rest, less) = division base n fuel h enough (ltb→ge n base more) in
      let d = digit_value-digit (n % base) (omega arith) in
      let value : n / base * base + digit_value (digit (n % base)) ≡ n = omega (arith, d, whole) in
      ap (λ l. number_from base 0 l) (if_false _ _ more)
      ∙ (number-print_digits base fuel (n / base) (digit (n % base) ∷ acc) h k less
          ∙ ap (λ (x : ℕ). number_from base x acc) value)
]

-- A number below a power of the base has no more digits than the exponent.
length-print_digits :
    (base fuel n m : ℕ) (acc : Bytes)
    → 1 < base
    → n ≤ fuel
    → n < base ^ suc m
    → length (print_digits base fuel n acc) ≤ suc m + length acc
unfolding print_digits
length-print_digits base zero n m acc h enough small = omega arith
length-print_digits base (suc fuel) n zero acc h enough small =
    let one_digit : base ^ 1 ≡ base = rw (pow-suc base 0, pow-zero base) (omega arith) in
    let last : ltb n base ≡ true = lt→ltb n base (omega (arith, one_digit)) in rw last (omega arith)
length-print_digits base (suc fuel) n (suc m) acc h enough small = elim (Bool-cases (ltb n base)) [
  | inl last ↦ rw last (omega arith)
  | inr more ↦
      let (whole, rest, less) = division base n fuel h enough (ltb→ge n base more) in
      let power : base ^ suc (suc m) ≡ base ^ suc m * base = pow-suc base (suc m) in
      let below : n / base < base ^ suc m = (div-lt_iff_lt-mul (omega arith)).1 (omega arith) in
      let fewer =
        length-print_digits base fuel (n / base) m (digit (n % base) ∷ acc) h less below in
      rw more (omega (arith, fewer))
]

-- The integers of the source have these sizes in bytes.
abbrev pub IsWord : ℕ → Type 0
IsWord n = (n ≡ 1) ⊎ ((n ≡ 2) ⊎ ((n ≡ 4) ⊎ (n ≡ 8)))

decimal_room : (n v : ℕ) → IsWord n → v < 256 ^ n → v < 10 ^ suc (n * 3 - 1)
decimal_room n v (inl e) = rw e (λ h. omega arith)
decimal_room n v (inr (inl e)) = rw e (λ h. omega arith)
decimal_room n v (inr (inr (inl e))) = rw e (λ h. omega arith)
decimal_room n v (inr (inr (inr e))) = rw e (λ h. omega arith)

hex_room : (n v : ℕ) → IsWord n → v < 256 ^ n → v < 16 ^ suc (n * 2 - 1)
hex_room n v (inl e) = rw e (λ h. omega arith)
hex_room n v (inr (inl e)) = rw e (λ h. omega arith)
hex_room n v (inr (inr (inl e))) = rw e (λ h. omega arith)
hex_room n v (inr (inr (inr e))) = rw e (λ h. omega arith)

word_pos : (n : ℕ) → IsWord n → 0 < n
word_pos n w = grind arith

capped_fits : (room : ℕ) (text : Bytes) → length text < room → capped room text ≡ some text
unfolding capped
capped_fits room text h = if_true _ _ (lt→ltb _ _ h)

-- The text of an integer of 1, 2, 4 or 8 bytes, with its sign and a zero byte behind it, fits into
-- the array that it is written to, and the digits of the text read back as its size.
pub stringify_lem :
    (n v : ℕ)
    → IsWord n
    → v < 256 ^ n
    → (text : Bytes) × (stringify n false v ≡ some text)
      × (stringify n true v ≡ some (b'-' ∷ text))
      × (number_from 10 0 text ≡ v)
unfolding stringify
stringify_lem n v w small =
    let text = print_digits 10 v v [] in
    let pos = word_pos n w in
    let short =
      length-print_digits 10 v v (n * 3 - 1) [] (omega arith) (omega arith)
        (decimal_room n v w small) in
    (
      text,
      capped_fits (n * 3 + 2) text (omega arith),
      capped_fits (n * 3 + 2) (b'-' ∷ text) (omega arith),
      number-print_digits 10 v v [] (omega arith) (omega arith) (omega arith),
    )

-- `hex` of an integer of 1, 2, 4 or 8 bytes fits with a zero byte behind it into the array that it
-- is written to, and reads back as the integer.
pub hex_lem :
    (n v : ℕ)
    → IsWord n
    → v < 256 ^ n
    → (text : Bytes) × (hex n v ≡ some text) × (number_from 16 0 text ≡ v)
unfolding hex
hex_lem n v w small =
    let text = print_digits 16 v v [] in
    let pos = word_pos n w in
    let short =
      length-print_digits 16 v v (n * 2 - 1) [] (omega arith) (omega arith)
        (hex_room n v w small) in
    (
      text,
      capped_fits (n * 2 + 1) text (omega arith),
      number-print_digits 16 v v [] (omega arith) (omega arith) (omega arith),
    )
