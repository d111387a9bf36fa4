-- ===== src/CommandLine/Spelling.antt =====
-- The spellings of options that the parser of the command line (main.cpp) takes for the same.
use kj.Base.{
  ℕ, ◌-◌, ◌≡◌, refl, ap, ◌∙◌, sym, true, false, none, some, List, [], ◌∷◌, ◌++◌, append_assoc,
  length, drop-append_cons, ◌==◌, Bool-cases, inl, inr, arith, take-append,
}
use mathlib.Core.Path.{fun_ext}
use kj.Text.{Bytes}
use kj.Text.Search.{
  codes, bytes_eq, starts_with, find_first, has_byte, find_first-some, find_first-none,
}
use kj.CommandLine.Types.{Exit, CliOption, Impl, find_short, find_named, checked}
use kj.CommandLine.Options.{long_option, short_options_loop}
use kj.CommandLine.Arguments.{handle_arguments}
use kj.CommandLine.Parser.{parse_param, parse_params}

-- A parameter that the parser takes for an argument.
abbrev pub IsPlain : Bytes → Type 0
IsPlain param = starts_with param (codes "-") ≡ false

abbrev pub AllPlain : List Bytes → Type 0
AllPlain [] = Unit {0}
AllPlain (param ∷ params) = IsPlain param × AllPlain params

abbrev tail : List Bytes → List Bytes
tail [] = []
tail (param ∷ params) = params

module _ {S : Type 0} (impl : Impl S) (program : Bytes) where
  parse_params_step :
      (param : Bytes) (rest arguments : List Bytes) (s : S)
      → parse_params impl program (param ∷ rest) arguments s
        ≡ parse_param impl program param rest arguments
            (parse_params impl program rest)
            (parse_params impl program (tail rest))
            s
  unfolding parse_params
  parse_params_step param [] arguments s = refl
  parse_params_step param (next ∷ rest) arguments s = refl

  parse_param_plain :
      (param : Bytes) (rest arguments : List Bytes) (go_on skip : List Bytes → S → Exit S) (s : S)
      → impl.sub_commands ≡ []
      → IsPlain param
      → parse_param impl program param rest arguments go_on skip s
        ≡ go_on (arguments ++ param ∷ []) s
  unfolding parse_param starts_with bytes_eq
  parse_param_plain [] rest arguments go_on skip s e h = rw e refl
  parse_param_plain (c ∷ cs) rest arguments go_on skip s e h = elim (Bool-cases (c == b'-')) [
    | inl hit ↦ ground arith
    | inr miss ↦ rw (miss, e) refl
  ]

  -- In a program without sub-commands, the parameters up to `--` are arguments where they do not
  -- begin with a dash, and all parameters behind `--` are arguments, whatever they are.
  pub parse_params_separator :
      (plain rest arguments : List Bytes) (s : S)
      → impl.sub_commands ≡ []
      → AllPlain plain
      → parse_params impl program (plain ++ codes "--" ∷ rest) arguments s
        ≡ handle_arguments impl program (arguments ++ (plain ++ rest)) s
  unfolding parse_param bytes_eq
  parse_params_separator [] rest arguments s e h = parse_params_step (codes "--") rest arguments s
  parse_params_separator (param ∷ plain) rest arguments s e (p, h) =
      parse_params_step param (plain ++ codes "--" ∷ rest) arguments s
      ∙ parse_param_plain param (plain ++ codes "--" ∷ rest) arguments
          (parse_params impl program (plain ++ codes "--" ∷ rest))
          (parse_params impl program (tail (plain ++ codes "--" ∷ rest))) s e p
      ∙ parse_params_separator plain rest (arguments ++ param ∷ []) s e h
      ∙ ap (λ (t : List Bytes). handle_arguments impl program t s)
          (append_assoc arguments (param ∷ []) (plain ++ rest))

module _ {S : Type 0} (impl : Impl S) (program : Bytes) where
  -- What `--name=arg` is cut into.
  long_joined :
      (n : ℕ) (name arg : Bytes) (rest arguments : List Bytes)
      (go_on skip : List Bytes → S → Exit S) (s : S)
      → has_byte b'=' (n ∷ name) ≡ false
      → parse_param impl program
          (codes "--" ++ (n ∷ name ++ b'=' ∷ arg))
          rest
          arguments
          go_on
          skip
          s
        ≡ long_option impl program
            (codes "--" ++ (n ∷ name ++ b'=' ∷ arg))
            (n ∷ name)
            (some arg)
            rest
            (go_on arguments)
            (skip arguments)
            s
  unfolding parse_param starts_with bytes_eq
  long_joined n name arg rest arguments go_on skip s h =
      let xs : Bytes = codes "--" ++ n ∷ name in
      let found : find_first (xs ++ b'=' ∷ arg) b'=' ≡ some (length xs) =
        find_first-some b'=' xs arg h in
      let count : length xs - 2 ≡ length (n ∷ name) = omega arith in
      rw (found, count, drop-append_cons xs b'=' arg, take-append (n ∷ name) (b'=' ∷ arg))

  long_bare :
      (n : ℕ) (name : Bytes) (rest arguments : List Bytes) (go_on skip : List Bytes → S → Exit S)
      (s : S)
      → has_byte b'=' (n ∷ name) ≡ false
      → parse_param impl program (codes "--" ++ n ∷ name) rest arguments go_on skip s
        ≡ long_option impl program
            (codes "--" ++ n ∷ name)
            (n ∷ name)
            none
            rest
            (go_on arguments)
            (skip arguments)
            s
  unfolding parse_param starts_with bytes_eq
  long_bare n name rest arguments go_on skip s h =
      rw (find_first-none b'=' (codes "--" ++ n ∷ name) h)

  -- `--name=arg` and `--name arg` mean the same, where `name` is an option that takes an argument,
  -- is not empty and has no equals sign in it, and `arg` does not begin with a dash.
  pub parse_params_long_argument :
      (n : ℕ) (name arg : Bytes) (rest arguments : List Bytes) (s : S) (option : CliOption S)
      → has_byte b'=' (n ∷ name) ≡ false
      → find_named (n ∷ name) impl.long_options ≡ some option
      → option.has_arg ≡ true
      → IsPlain arg
      → parse_params impl program ((codes "--" ++ (n ∷ name ++ b'=' ∷ arg)) ∷ rest) arguments s
        ≡ parse_params impl program ((codes "--" ++ n ∷ name) ∷ arg ∷ rest) arguments s
  unfolding long_option
  parse_params_long_argument n name arg rest arguments s option h found takes plain =
      rw
        (
          parse_params_step impl program (codes "--" ++ (n ∷ name ++ b'=' ∷ arg)) rest arguments s,
          parse_params_step impl program (codes "--" ++ n ∷ name) (arg ∷ rest) arguments s,
          long_joined n name arg rest arguments (parse_params impl program rest)
              (parse_params impl program (tail rest)) s h,
          long_bare n name (arg ∷ rest) arguments (parse_params impl program (arg ∷ rest))
              (parse_params impl program rest) s h,
        )
        (rw (found, long_option) (rw (takes, plain)))

  -- What a group of short options is read as.
  short_group :
      (c : ℕ) (cs : Bytes) (rest arguments : List Bytes) (go_on skip : List Bytes → S → Exit S)
      (s : S)
      → (c == b'-') ≡ false
      → parse_param impl program (codes "-" ++ c ∷ cs) rest arguments go_on skip s
        ≡ short_options_loop impl program (c ∷ cs) rest (go_on arguments) (skip arguments) s
  unfolding parse_param starts_with bytes_eq
  short_group c cs rest arguments go_on skip s h = rw h

  group_step :
      (c : ℕ) (cs : Bytes) (rest arguments : List Bytes) (s : S)
      → (c == b'-') ≡ false
      → parse_params impl program ((codes "-" ++ c ∷ cs) ∷ rest) arguments s
        ≡ short_options_loop impl program
            (c ∷ cs)
            rest
            (parse_params impl program rest arguments)
            (parse_params impl program (tail rest) arguments)
            s
  group_step c cs rest arguments s h = rw (
    parse_params_step impl program (codes "-" ++ c ∷ cs) rest arguments s,
    short_group c cs rest arguments (parse_params impl program rest)
        (parse_params impl program (tail rest)) s h,
  )

  -- `-cARG` and `-c ARG` mean the same, where `c` is an option that takes an argument and is not a
  -- dash, and `ARG` is not empty and does not begin with a dash.
  pub parse_params_short_argument :
      (c d : ℕ) (ds : Bytes) (rest arguments : List Bytes) (s : S) (option : CliOption S)
      → (c == b'-') ≡ false
      → find_short c impl.short_options ≡ some option
      → option.has_arg ≡ true
      → IsPlain (d ∷ ds)
      → parse_params impl program ((codes "-" ++ c ∷ d ∷ ds) ∷ rest) arguments s
        ≡ parse_params impl program ((codes "-" ++ c ∷ []) ∷ (d ∷ ds) ∷ rest) arguments s
  unfolding short_options_loop
  parse_params_short_argument c d ds rest arguments s option h found takes plain =
      rw (group_step c (d ∷ ds) rest arguments s h, group_step c [] ((d ∷ ds) ∷ rest) arguments s h)
        (rw (found, short_options_loop) (rw (takes, plain)))

  -- `-cds` and `-c -ds` mean the same, where `c` is an option that takes no argument, neither `c`
  -- nor `d` is a dash, and `ds` are further letters, or the argument of `d`.
  pub parse_params_grouped :
      (c d : ℕ) (ds : Bytes) (rest arguments : List Bytes) (s : S) (option : CliOption S)
      → (c == b'-') ≡ false
      → (d == b'-') ≡ false
      → find_short c impl.short_options ≡ some option
      → option.has_arg ≡ false
      → parse_params impl program ((codes "-" ++ c ∷ d ∷ ds) ∷ rest) arguments s
        ≡ parse_params impl program
            ((codes "-" ++ c ∷ []) ∷ (codes "-" ++ d ∷ ds) ∷ rest)
            arguments
            s
  unfolding short_options_loop
  parse_params_grouped c d ds rest arguments s option h g found takes =
      rw
        (
          group_step c (d ∷ ds) rest arguments s h,
          group_step c [] ((codes "-" ++ d ∷ ds) ∷ rest) arguments s h,
        )
        (rw (found, short_options_loop)
          (rw takes (
            ap (checked program (codes "-" ++ c ∷ []) (option.func s))
              (fun_ext (λ s'. sym (group_step d ds rest arguments s' g))))))
