-- ===== src/CommandLine/Arguments.antt =====
-- How the arguments on the command line are given to the callbacks (main.cpp, lines 482 to 533).
use kj.Base.{
  ℕ, zero, suc, ◌+◌, ◌-◌, ◌%◌, ◌^◌, ◌&&◌, none, some, List, [], ◌∷◌, ◌++◌, length, ltb,
  if◌then◌else◌,
}
use kj.Text.{Bytes}
use kj.Text.Search.{codes}
use kj.CommandLine.Types.{Validity, Exit, finished, Arg, Impl, usage_error, checked}

module _ {S : Type 0} where
  -- `for (auto& argSpec: impl->args) requiredArgCount += argSpec.minCount;` in a `uint`
  unfoldable pub required_arg_count : List (Arg S) → ℕ → ℕ
  required_arg_count [] count = count
  required_arg_count (spec ∷ specs) count =
      required_arg_count specs ((count + spec.min_count) % 2 ^ 32)

  -- The first loop over one argument spec, where `left` rounds are left. It hands the arguments
  -- behind `argPos` and the count on.
  unfoldable pub take_required :
      Bytes → Arg S → ℕ → List Bytes → ℕ → (List Bytes → ℕ → S → Exit S) → S → Exit S
  unfolding usage_error
  take_required program spec zero arguments required next s = next arguments required s
  take_required program spec (suc left) [] required next s =
      usage_error program (codes "missing argument " ++ spec.title) s
  take_required program spec (suc left) (arg ∷ arguments) required next s =
      checked program arg (spec.callback arg s)
        (take_required program spec left arguments ((required + 2 ^ 32 - 1) % 2 ^ 32) next)

  -- The second loop: arguments that are not needed later, up to the spec's maximum.
  unfoldable pub take_extra :
      Bytes → Arg S → ℕ → List Bytes → ℕ → (List Bytes → S → Exit S) → S → Exit S
  unfolding usage_error
  take_extra program spec i [] required next s = next [] s
  take_extra program spec i (arg ∷ arguments) required next s =
      let more =
        checked program arg (spec.callback arg s)
          (take_extra program spec (suc i) arguments required next) in
      if ltb i spec.max_count && ltb required (suc (length arguments))
      then more
      else next (arg ∷ arguments) s

  unfoldable pub consume :
      Bytes → List (Arg S) → List Bytes → ℕ → (List Bytes → S → Exit S) → S → Exit S
  unfolding take_required take_extra
  consume program [] arguments required next s = next arguments s
  consume program (spec ∷ specs) arguments required next s =
      take_required program spec spec.min_count arguments required
        (λ arguments' required'.
          take_extra program spec spec.min_count arguments' required'
            (λ arguments''. consume program specs arguments'' required' next))
        s

  abbrev pub final_verdict : Bytes → S × Validity → Exit S
  final_verdict program (s, none) = finished s
  final_verdict program (s, some error) = usage_error program error s

  -- From `while (argPos < arguments.end())` on.
  unfoldable pub run_final : Bytes → Impl S → List Bytes → S → Exit S
  unfolding usage_error
  run_final program impl (arg ∷ rest) s =
      usage_error program (arg ++ codes ": too many arguments") s
  run_final program impl [] s = elim impl.final_callback [
    | none ↦ finished s
    | some f ↦ final_verdict program (f s)
  ]

  unfoldable pub handle_arguments : Impl S → Bytes → List Bytes → S → Exit S
  unfolding usage_error required_arg_count consume run_final
  handle_arguments impl program arguments s = elim impl.sub_commands [
    | command ∷ commands ↦ usage_error program (codes "missing command") s
    | [] ↦
        consume program impl.args arguments (required_arg_count impl.args 0)
          (run_final program impl) s
  ]
