-- ===== src/Debug/Describing.antt =====
-- The message that `makeDescription` (debug.cpp) builds in two passes.
use kj.Base.{
  ℕ, suc, ◌+◌, Bool, true, false, not, Option, none, some, List, [], ◌∷◌, length, drop, ltb, ◌==◌,
  if◌then◌else◌, ◌>>=◌,
}
use kj.Text.{Bytes, fill}
use kj.Text.Search.{codes, find_first}
use kj.Text.Filling.{Buffer, heap_string, put, finish}
use kj.Debug.{is_space, split_args}

pub data Style : Type 0 where
  log assertion syscall : Style

unfoldable pub drop_spaces : Bytes → Bytes
drop_spaces [] = []
drop_spaces (c ∷ cs) = if is_space c then drop_spaces cs else c ∷ cs

abbrev pub starts_equals : Bytes → Bool
starts_equals [] = false
starts_equals (c ∷ cs) = c == b'='

-- Where the code begins with an assignment, what is called behind it.
unfoldable pub strip_call : Bytes → Bytes
unfolding drop_spaces find_first
strip_call code = elim (find_first code b'=') [
  | none ↦ code
  | some pos ↦
      if starts_equals (drop (suc pos) code) then code else drop_spaces (drop (suc pos) code)
]

-- The name of each value; a missing one is empty, and those that are too many are left out.
abbrev pub pair_up : List Bytes → List Bytes → List (Bytes × Bytes)
pair_up names [] = []
pair_up [] (value ∷ values) = ([], value) ∷ pair_up [] values
pair_up (name ∷ names) (value ∷ values) = (name, value) ∷ pair_up names values

-- `argNames[i].size() > 0 && argNames[i][0] != '\"'`
abbrev pub is_named : Bytes → Bool
is_named [] = false
is_named (c ∷ cs) = not (c == b'"')

abbrev pub sep : Bytes
sep = codes " = "

abbrev pub delim : Bytes
delim = codes "; "

-- `i > 0 || style != LOG`
abbrev pub delimits : Style → ℕ → Bool
delimits log i = ltb 0 i
delimits assertion i = true
delimits syscall i = true

-- The first pass over the arguments.
unfoldable pub args_size : Style → ℕ → List (Bytes × Bytes) → ℕ → ℕ
args_size style i [] total = total
args_size style i ((name, value) ∷ args) total =
    let delimited : ℕ = if delimits style i then total + length delim else total in
    let named : ℕ = if is_named name then delimited + (length name + length sep) else delimited in
    args_size style (suc i) args (named + length value)

-- The second pass.
unfoldable pub args_fill : Style → ℕ → List (Bytes × Bytes) → Buffer → Option Buffer
args_fill style i [] pos = some pos
args_fill style i ((name, value) ∷ args) pos =
    (((if delimits style i then put delim pos else some pos) >>= λ pos'.
    if is_named name then fill (name ∷ sep ∷ []) pos' else some pos')
      >>= put value)
    >>= args_fill style (suc i) args

abbrev pub head_pieces : Style → Bytes → Bytes → List Bytes
head_pieces log code error = []
head_pieces assertion code error = codes "expected " ∷ code ∷ []
head_pieces syscall code error = code ∷ codes ": " ∷ error ∷ []

abbrev pub head_size : Style → Bytes → Bytes → ℕ
head_size log code error = 0
head_size assertion code error = 9 + length code
head_size syscall code error = length code + 2 + length error

-- `code` is null for a `LOG`, and an assertion without code is one.
abbrev pub style_of : Style → Option Bytes → Style
style_of assertion none = log
style_of assertion (some code) = assertion
style_of log code = log
style_of syscall code = syscall

abbrev pub code_of : Style → Option Bytes → Bytes
code_of style none = []
code_of log (some code) = []
code_of assertion (some code) = code
code_of syscall (some code) = strip_call code

-- `makeDescription`, with the system's text for the error.
unfoldable pub make_description : Style → Option Bytes → Bytes → Bytes → List Bytes → Option Bytes
unfolding args_size args_fill strip_call split_args fill
make_description style maybe_code error macro_args values =
    let args : List (Bytes × Bytes) = pair_up (split_args macro_args) values in
    let code : Bytes = code_of style maybe_code in
    let style' : Style = style_of style maybe_code in
    let size : ℕ = args_size style' 0 args (head_size style' code error) in
    (fill (head_pieces style' code error) (heap_string size) >>= args_fill style' 0 args) >>= finish
