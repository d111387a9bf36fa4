-- ===== src/Debug/Pieces.antt =====
-- The text of an argument of a macro, as it may be written: characters, string literals and groups in
-- parentheses, in which commas may stand.
use kj.Base.{ℕ, suc, max, ◌≡◌, Bool, true, false, ◌||◌, List, [], ◌∷◌, ◌++◌, ◌==◌}
use kj.Text.{Bytes}
use kj.Debug.{backslash}

-- A character of a literal, and one behind a backslash.
pub data Letter : Type 0 where
  bare : (c : ℕ) → (c == b'"' || c == backslash) ≡ false → Letter
  behind : ℕ → Letter

abbrev pub print_letters : List Letter → Bytes
print_letters [] = []
print_letters (bare c h ∷ ls) = c ∷ print_letters ls
print_letters (behind c ∷ ls) = backslash ∷ c ∷ print_letters ls

abbrev pub is_special : ℕ → Bool
is_special c = c == b'(' || (c == b')' || (c == b'"' || c == b','))

pub data Pieces : Bool → Type 0 where
  nil : {inside : Bool} → Pieces inside
  byte : {inside : Bool} (c : ℕ) → is_special c ≡ false → Pieces inside → Pieces inside
  comma : Pieces true → Pieces true
  literal : {inside : Bool} → List Letter → Pieces inside → Pieces inside
  group : {inside : Bool} → Pieces true → Pieces inside → Pieces inside

abbrev pub print : {inside : Bool} → Pieces inside → Bytes
print nil = []
print (byte c h p) = c ∷ print p
print (comma p) = b',' ∷ print p
print (literal ls p) = b'"' ∷ (print_letters ls ++ b'"' ∷ print p)
print (group q p) = b'(' ∷ (print q ++ b')' ∷ print p)

-- How deep the parentheses are nested.
abbrev pub height : {inside : Bool} → Pieces inside → ℕ
height nil = 0
height (byte c h p) = height p
height (comma p) = height p
height (literal ls p) = height p
height (group q p) = max (suc (height q)) (height p)
