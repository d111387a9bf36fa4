-- ===== src/CommandLine/Builder.antt =====
-- The building of a command line's parser (main.cpp, `MainBuilder`). A call that throws returns
-- `none`.
use kj.Base.{ℕ, ◌-◌, ◌^◌, true, false, Option, none, some, List, [], ◌∷◌, ◌++◌, ◌>>=◌}
use kj.Text.{Bytes}
use kj.Text.Search.{codes}
use kj.CommandLine.Types.{Validity, MainFunc, CliOption, Arg, Impl, find_short, find_named}

pub data OptionName : Type 0 where
  short : ℕ → OptionName
  long : Bytes → OptionName

module _ {S : Type 0} where
  unfoldable pub add_name : OptionName → CliOption S → Impl S → Option (Impl S)
  add_name (long name) option impl = elim (find_named name impl.long_options) [
    | none ↦ some (record impl { long_options = (name, option) ∷ impl.long_options })
    | some old ↦ none
  ]
  add_name (short c) option impl = elim (find_short c impl.short_options) [
    | none ↦ some (record impl { short_options = (c, option) ∷ impl.short_options })
    | some old ↦ none
  ]

  unfoldable pub add_names : List OptionName → CliOption S → Impl S → Option (Impl S)
  add_names [] option impl = some impl
  add_names (name ∷ names) option impl = add_name name option impl >>= add_names names option

  -- `Impl::addOption`, with the option that its callers fill in.
  unfoldable pub add_impl_option : List OptionName → CliOption S → Impl S → Option (Impl S)
  unfolding add_names
  add_impl_option [] option impl = none
  add_impl_option (name ∷ names) option impl = add_names (name ∷ names) option impl

  unfoldable pub add_option : List OptionName → (S → S × Validity) → Impl S → Option (Impl S)
  add_option names callback impl =
      add_impl_option names
        (record { has_arg = false; func = callback; func_with_arg = λ arg. callback }) impl

  unfoldable pub add_option_with_arg :
      List OptionName → (Bytes → S → S × Validity) → Impl S → Option (Impl S)
  add_option_with_arg names callback impl =
      add_impl_option names
        (record { has_arg = true; func = callback []; func_with_arg = callback }) impl

  unfoldable pub add_sub_command : Bytes → MainFunc S → Impl S → Option (Impl S)
  add_sub_command name main impl = elim impl.args [
    | spec ∷ specs ↦ none
    | [] ↦ elim impl.final_callback [
      | some f ↦ none
      | none ↦ elim (find_named name impl.sub_commands) [
        | some old ↦ none
        | none ↦ some (record impl { sub_commands = (name, main) ∷ impl.sub_commands })
      ]
    ]
  ]

  -- The constructor of `Impl::Arg`. It initialises `callback` from itself and drops `cb`, so that the
  -- callback that it keeps is whatever that gives: `from_itself`.
  unfoldable pub make_arg :
      (Bytes → S → S × Validity) → Bytes → (Bytes → S → S × Validity) → ℕ → ℕ → Arg S
  make_arg from_itself title cb min_count max_count = record {
    title = title;
    callback = from_itself;
    min_count = min_count;
    max_count = max_count;
  }

  -- What the four functions that follow have in common.
  unfoldable pub add_arg : Arg S → Impl S → Option (Impl S)
  add_arg spec impl = elim impl.sub_commands [
    | command ∷ commands ↦ none
    | [] ↦ some (record impl { args = impl.args ++ spec ∷ [] })
  ]

  unfoldable pub expect_arg :
      (Bytes → S → S × Validity) → Bytes → (Bytes → S → S × Validity) → Impl S → Option (Impl S)
  unfolding make_arg add_arg
  expect_arg from_itself title f = add_arg (make_arg from_itself title f 1 1)

  unfoldable pub expect_optional_arg :
      (Bytes → S → S × Validity) → Bytes → (Bytes → S → S × Validity) → Impl S → Option (Impl S)
  unfolding make_arg add_arg
  expect_optional_arg from_itself title f = add_arg (make_arg from_itself title f 0 1)

  unfoldable pub expect_zero_or_more_args :
      (Bytes → S → S × Validity) → Bytes → (Bytes → S → S × Validity) → Impl S → Option (Impl S)
  unfolding make_arg add_arg
  expect_zero_or_more_args from_itself title f =
      add_arg (make_arg from_itself title f 0 (2 ^ 32 - 1))

  unfoldable pub expect_one_or_more_args :
      (Bytes → S → S × Validity) → Bytes → (Bytes → S → S × Validity) → Impl S → Option (Impl S)
  unfolding make_arg add_arg
  expect_one_or_more_args from_itself title f =
      add_arg (make_arg from_itself title f 1 (2 ^ 32 - 1))

  unfoldable pub call_after_parsing : (S → S × Validity) → Impl S → Option (Impl S)
  call_after_parsing f impl = elim impl.final_callback [
    | some g ↦ none
    | none ↦ elim impl.sub_commands [
      | command ∷ commands ↦ none
      | [] ↦ some (record impl { final_callback = some f })
    ]
  ]

  -- The constructor: `increase` raises the verbosity of the log, and `print` shows the version and
  -- leaves.
  unfoldable pub main_builder : (S → S × Validity) → (S → S × Validity) → Option (Impl S)
  unfolding add_option
  main_builder increase print =
      add_option (long (codes "verbose") ∷ []) increase (record {
        short_options = [];
        long_options = [];
        sub_commands = [];
        args = [];
        final_callback = none;
      })
      >>= add_option (long (codes "version") ∷ []) print
