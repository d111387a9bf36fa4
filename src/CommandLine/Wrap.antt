-- ===== src/CommandLine/Wrap.antt =====
-- The wrapping of help texts (main.cpp, `MainImpl::wrapText`).
use kj.Base.{
  ℕ, zero, suc, ◌+◌, ◌-◌, ◌%◌, ◌^◌, true, false, not, ◌&&◌, Option, none, some, [], ◌∷◌, ◌++◌,
  length, drop, take, slice, leb, ◌==◌, if◌then◌else◌,
}
use kj.Text.{Bytes}
use kj.Text.Search.{find_first}

abbrev pub space : ℕ
space = b' '

abbrev pub newline : ℕ
newline = 10

-- `text[i]`; the byte behind the text is its NUL.
abbrev pub byte_at : Bytes → ℕ → ℕ
byte_at [] i = 0
byte_at (c ∷ cs) zero = c
byte_at (c ∷ cs) (suc i) = byte_at cs i

-- The loop on `wrapPos`: the last place up to it that has a space behind another character.
unfoldable pub find_wrap : Bytes → ℕ → Option ℕ
find_wrap text zero = none
find_wrap text (suc p) =
    if byte_at text (suc p) == space && not (byte_at text p == space)
    then some (suc p)
    else find_wrap text p

unfoldable pub wrap_pos : Bytes → ℕ → ℕ
wrap_pos text width = elim (find_wrap text width) [ none ↦ width | some p ↦ p ]

-- `while (text[wrapPos] == ' ') ++wrapPos`, on what begins at `wrapPos`.
unfoldable pub skip_spaces : Bytes → Bytes
skip_spaces [] = []
skip_spaces (c ∷ cs) = if c == space then skip_spaces cs else c ∷ cs

abbrev pub skip_newline : Bytes → Bytes
skip_newline [] = []
skip_newline (c ∷ cs) = if c == newline then cs else c ∷ cs

-- The end of the first line, where it is short enough.
unfoldable pub fitting_line : Bytes → ℕ → Option ℕ
fitting_line text width = elim (find_first text newline) [
  | none ↦ none
  | some line_end ↦ if leb line_end width then some line_end else none
]

-- The loop on `text`; `none` where the fuel does not suffice.
unfoldable pub wrap_loop : ℕ → ℕ → Bytes → Bytes → Bytes → Option Bytes
wrap_loop fuel width indent [] output = some output
wrap_loop zero width indent (c ∷ cs) output = none
wrap_loop (suc fuel) width indent (c ∷ cs) output = elim (fitting_line (c ∷ cs) width) [
  | some line_end ↦
      wrap_loop fuel width indent (drop (suc line_end) (c ∷ cs))
        (output ++ (indent ++ slice (c ∷ cs) 0 (suc line_end)))
  | none ↦ elim (leb (length (c ∷ cs)) width) [
    | true ↦ some (output ++ (indent ++ (c ∷ cs ++ newline ∷ [])))
    | false ↦
        wrap_loop fuel width indent
          (skip_newline (skip_spaces (drop (wrap_pos (c ∷ cs) width) (c ∷ cs))))
          (output ++ (indent ++ (take (wrap_pos (c ∷ cs) width) (c ∷ cs) ++ newline ∷ [])))
  ]
]

-- `uint width = 80 - indent.size()`. Every round takes a character, as `width` is not 0.
unfoldable pub wrap_text : Bytes → Bytes → Bytes → Option Bytes
unfolding wrap_loop
wrap_text output indent text =
    wrap_loop (length text) ((2 ^ 32 + 80 - length indent % 2 ^ 32) % 2 ^ 32) indent text output
