-- ===== src/Debug.antt =====
-- How a macro's message is put together from the text of its arguments and their values (debug.cpp,
-- `makeDescription`).
pub mod Pieces
pub mod Splitting
pub mod Describing
pub mod Described
pub mod Messages
mod Examples
use kj.Base.{
  ℕ, zero, suc, ◌+◌, ◌-◌, ◌%◌, ◌^◌, Bool, true, false, not, ◌&&◌, ◌||◌, Option, none, some, List,
  [], ◌∷◌, ◌++◌, length, leb, ltb, ◌==◌, if◌then◌else◌,
}
use kj.Text.{Bytes}
use kj.Text.Search.{codes}

abbrev pub is_space : ℕ → Bool
is_space c = c == 32 || leb 9 c && leb c 13

abbrev pub backslash : ℕ
backslash = 92

-- Where the scan of the arguments' text is: before a name, in one, in a string literal (`quoted`), or
-- behind a backslash in one.
pub data Mode : Type 0 where
  skipping plain quoted escaped : Mode

-- `name` is the text from `start` on, and `names` are those that are complete.
pub record Scan : Type 0 where
  pub mode : Mode
  pub depth : ℕ
  pub name : Bytes
  pub names : List Bytes

unfoldable pub plain_step : ℕ → Scan → Scan
plain_step c s =
    if c == b'('
    then record {
      mode = plain;
      depth = (s.depth + 1) % 2 ^ 32;
      name = s.name ++ c ∷ [];
      names = s.names;
    }
    else if c == b')'
    then record {
      mode = plain;
      depth = (s.depth + 2 ^ 32 - 1) % 2 ^ 32;
      name = s.name ++ c ∷ [];
      names = s.names;
    }
    else if c == b'"'
    then record { mode = quoted; depth = s.depth; name = s.name ++ c ∷ []; names = s.names }
    else if c == b',' && s.depth == 0
    then record { mode = skipping; depth = s.depth; name = []; names = s.names ++ s.name ∷ [] }
    else record { mode = plain; depth = s.depth; name = s.name ++ c ∷ []; names = s.names }

abbrev pub scan_step : Mode → ℕ → Scan → Scan
scan_step skipping c s = if is_space c then s else plain_step c s
scan_step plain c s = plain_step c s
scan_step quoted c s =
    if c == backslash
    then record s { mode = escaped; name = s.name ++ c ∷ [] }
    else if c == b'"'
    then record s { mode = plain; name = s.name ++ c ∷ [] }
    else record s { name = s.name ++ c ∷ [] }
scan_step escaped c s = record s { mode = quoted; name = s.name ++ c ∷ [] }

unfoldable pub scan : Bytes → Scan → Scan
unfolding plain_step
scan [] s = s
scan (c ∷ cs) s = scan cs (scan_step s.mode c s)

-- The names that `macroArgs` is parsed into, however many values there are.
unfoldable pub split_args : Bytes → List Bytes
unfolding scan
split_args args =
    let s : Scan = scan args (record { mode = skipping; depth = 0; name = []; names = [] }) in
    s.names ++ s.name ∷ []
