-- ===== src/CommandLine/Parser.antt =====
-- The loop over the parameters of the command line (main.cpp, `MainImpl::operator()`).
use kj.Base.{suc, none, some, List, [], ◌∷◌, ◌++◌, drop, slice, if◌then◌else◌}
use kj.Text.{Bytes}
use kj.Text.Search.{codes, bytes_eq, starts_with, find_first}
use kj.CommandLine.Types.{Exit, MainFunc, Impl}
use kj.CommandLine.Options.{long_option, short_options_loop, sub_command}
use kj.CommandLine.Arguments.{handle_arguments}

module _ {S : Type 0} where
  -- One round of the loop over the parameters: `rest` are the parameters behind `param`.
  unfoldable pub parse_param :
      Impl S
      → Bytes
      → Bytes
      → List Bytes
      → List Bytes
      → (List Bytes → S → Exit S)
      → (List Bytes → S → Exit S)
      → S
      → Exit S
  unfolding starts_with bytes_eq
  parse_param impl program param rest arguments go_on skip s =
      if bytes_eq param (codes "--")
      then handle_arguments impl program (arguments ++ rest) s
      else if starts_with param (codes "--")
      then elim (find_first param b'=') [
        | some pos ↦
            long_option impl program param (slice param 2 pos) (some (drop (suc pos) param)) rest
              (go_on arguments) (skip arguments) s
        | none ↦
            long_option impl program param (drop 2 param) none rest (go_on arguments)
              (skip arguments) s
      ]
      else if starts_with param (codes "-")
      then short_options_loop impl program (drop 1 param) rest (go_on arguments) (skip arguments) s
      else elim impl.sub_commands [
        | command ∷ commands ↦ sub_command impl program param rest s
        | [] ↦ go_on (arguments ++ param ∷ []) s
      ]

  unfoldable pub parse_params : Impl S → Bytes → List Bytes → List Bytes → S → Exit S
  unfolding parse_param
  parse_params impl program [] arguments s = handle_arguments impl program arguments s
  parse_params impl program (param ∷ []) arguments s =
      parse_param impl program param [] arguments (parse_params impl program [])
        (parse_params impl program []) s
  parse_params impl program (param ∷ next ∷ rest) arguments s =
      parse_param impl program param (next ∷ rest) arguments
        (parse_params impl program (next ∷ rest)) (parse_params impl program rest) s

  -- `MainImpl::operator()`
  unfoldable pub main_impl : Impl S → MainFunc S
  unfolding parse_params
  main_impl impl program params s = parse_params impl program params [] s
