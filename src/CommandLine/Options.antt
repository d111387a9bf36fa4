-- ===== src/CommandLine/Options.antt =====
-- Options and sub-commands on the command line (main.cpp, `MainImpl::operator()`).
use kj.Base.{ℕ, suc, ◌||◌, Option, none, some, List, [], ◌∷◌, ◌++◌, ltb, ◌==◌, if◌then◌else◌}
use kj.Text.{Bytes}
use kj.Text.Search.{codes, bytes_eq, starts_with}
use kj.CommandLine.Types.{
  Exit, exit_error, exit_info, printed_help, Impl, find_short, find_named, usage_error, checked,
}

-- `i + 1 < params.size() && !params[i + 1].startsWith("-")`
abbrev pub next_argument : List Bytes → Option Bytes
next_argument [] = none
next_argument (next ∷ rest) = if starts_with next (codes "-") then none else some next

-- `param == "help" || param == "--help"`, counted from the front.
unfoldable pub count_helps : List Bytes → ℕ
unfolding bytes_eq
count_helps [] = 0
count_helps (param ∷ rest) =
    let more = count_helps rest in
    if bytes_eq param (codes "help") || bytes_eq param (codes "--help") then suc more else 0

module _ {S : Type 0} where
  -- An option by its long name. `go_on` continues with the next parameter, `skip` with the one
  -- behind it.
  unfoldable pub long_option :
      Impl S
      → Bytes
      → Bytes
      → Bytes
      → Option Bytes
      → List Bytes
      → (S → Exit S)
      → (S → Exit S)
      → S
      → Exit S
  unfolding usage_error find_named starts_with bytes_eq
  long_option impl program param name maybe_arg rest go_on skip s =
      elim (find_named name impl.long_options) [
        | none ↦
            if bytes_eq param (codes "--help")
            then printed_help program s
            else usage_error program (codes "--" ++ (name ++ codes ": unrecognized option")) s
        | some option ↦
            if option.has_arg
            then elim maybe_arg [
              | some arg ↦ checked program param (option.func_with_arg arg s) go_on
              | none ↦ elim (next_argument rest) [
                | some arg ↦
                    checked program (param ++ (codes "=" ++ arg)) (option.func_with_arg arg s) skip
                | none ↦ usage_error program (codes "--" ++ (name ++ codes ": missing argument")) s
              ]
            ]
            else elim maybe_arg [
              | none ↦ checked program param (option.func s) go_on
              | some arg ↦
                  usage_error program
                    (codes "--" ++ (name ++ codes ": option does not accept an argument")) s
            ]
      ]

  -- The loop over the letters of `-abc`, over those that are left.
  unfoldable pub short_options_loop :
      Impl S → Bytes → Bytes → List Bytes → (S → Exit S) → (S → Exit S) → S → Exit S
  unfolding usage_error find_short starts_with
  short_options_loop impl program [] rest go_on skip s = go_on s
  short_options_loop impl program (c ∷ cs) rest go_on skip s =
      let others = λ (s' : S). short_options_loop impl program cs rest go_on skip s' in
      elim (find_short c impl.short_options) [
        | none ↦ usage_error program (codes "-" ++ (c ∷ codes ": unrecognized option")) s
        | some option ↦
            if option.has_arg
            then elim cs [
              | d ∷ ds ↦
                  checked program (codes "-" ++ (c ∷ codes " " ++ (d ∷ ds)))
                    (option.func_with_arg (d ∷ ds) s) go_on
              | [] ↦ elim (next_argument rest) [
                | some arg ↦
                    checked program (codes "-" ++ (c ∷ codes " " ++ arg))
                      (option.func_with_arg arg s) skip
                | none ↦ usage_error program (codes "-" ++ (c ∷ codes ": missing argument")) s
              ]
            ]
            else checked program (codes "-" ++ (c ∷ [])) (option.func s) others
      ]

  -- The answers to `help help ...`.
  unfoldable pub help_about_help : ℕ → S → Exit S
  help_about_help n s =
      if n == 0
      then exit_info (codes "Help about help?  We must go deeper...") s
      else if n == 1
      then exit_info
          (codes
            "Yo dawg, I heard you like help.  So I wrote you some help about how to use help so you can get help on help.")
          s
      else if n == 2
      then exit_info (codes "Help, I'm trapped in a help text factory!") s
      else if ltb n 10
      then exit_error (codes "Killed by signal 911 (SIGHELP)") s
      else exit_info (codes "How to keep an idiot busy...") s

  -- A parameter that is no option, where the program has sub-commands.
  unfoldable pub sub_command : Impl S → Bytes → Bytes → List Bytes → S → Exit S
  unfolding usage_error find_named bytes_eq count_helps help_about_help
  sub_command impl program param rest s = elim (find_named param impl.sub_commands) [
    | some sub_main ↦ sub_main (program ++ (codes " " ++ param)) rest s
    | none ↦
        if bytes_eq param (codes "help")
        then elim rest [
          | [] ↦ printed_help program s
          | topic ∷ more ↦ elim (find_named topic impl.sub_commands) [
            | some sub_main ↦ sub_main (program ++ (codes " " ++ topic)) (codes "--help" ∷ []) s
            | none ↦
                if bytes_eq topic (codes "help")
                then help_about_help (count_helps more) s
                else usage_error program (topic ++ codes ": unknown command") s
          ]
        ]
        else usage_error program (param ++ codes ": unknown command") s
  ]
