-- ===== src/CommandLine/Examples.antt =====
-- A program with two options and two argument specs, and its command lines.
use kj.Base.{◌^◌, ◌-◌, ◌≡◌, refl, true, false, none, some, List, [], ◌∷◌, ◌++◌, arith, replicate}
use kj.Text.{Bytes}
use kj.Text.Search.{codes, bytes_eq, find_first}
use kj.CommandLine.Types.{
  Validity, finished, exit_error, CliOption, Arg, Impl, find_short, find_named,
}
use kj.CommandLine.Options.{long_option, short_options_loop}
use kj.CommandLine.Arguments.{handle_arguments}
use kj.CommandLine.Parser.{main_impl}
use kj.CommandLine.Wrap.{space, wrap_text, wrap_pos, find_wrap, skip_spaces, fitting_line}
use kj.CommandLine.Lines.{words, within}
use kj.CommandLine.Wrapped.{wrap_text_lines}
use kj.CommandLine.Builder.{
  OptionName, add_option_with_arg, add_impl_option, add_names, add_name, expect_one_or_more_args,
  make_arg, add_arg, main_builder, add_option,
}
use kj.CommandLine.Built.{Built, Call, IsSound, Built-IsSound}

-- The callbacks keep a log.
abbrev Log : Type 0
Log = List Bytes

abbrev note : Bytes → Bytes → Log → Log × Validity
note title arg log = (log ++ (title ++ arg) ∷ [], none)

abbrev verbose : CliOption Log
verbose = record {
  has_arg = false;
  func = note (codes "v") [];
  func_with_arg = λ arg. note (codes "v") [];
}

abbrev output : CliOption Log
output = record { has_arg = true; func = note (codes "o:") []; func_with_arg = note (codes "o:") }

abbrev input_arg : Arg Log
input_arg = record {
  title = codes "<in>";
  callback = note (codes "i:");
  min_count = 1;
  max_count = 1;
}

abbrev more_arg : Arg Log
more_arg = record {
  title = codes "<more>";
  callback = note (codes "m:");
  min_count = 0;
  max_count = 2;
}

abbrev sample : Impl Log
sample = record {
  short_options = (b'v', verbose) ∷ (b'o', output) ∷ [];
  long_options = (codes "verbose", verbose) ∷ (codes "out", output) ∷ [];
  sub_commands = [];
  args = input_arg ∷ more_arg ∷ [];
  final_callback = none;
}

abbrev prog : Bytes
prog = codes "prog"

whole_line :
    main_impl sample prog (codes "-vofile" ∷ codes "a" ∷ codes "--" ∷ codes "-b" ∷ []) []
    ≡ finished (codes "v" ∷ codes "o:file" ∷ codes "i:a" ∷ codes "m:-b" ∷ [])
unfolding main_impl short_options_loop handle_arguments
whole_line = refl

missing :
    main_impl sample prog (codes "--out" ∷ []) []
    ≡ exit_error (codes "prog: --out: missing argument\nTry 'prog --help' for more information.") []
unfolding main_impl long_option find_first
missing = refl

abbrev three : List Bytes
three = codes "a" ∷ codes "b" ∷ codes "c" ∷ []

abbrev advice : Bytes
advice =
    codes
      "Write the output to the given file, and not to the standard output, which is used otherwise."

wrapped :
    wrap_text [] (codes "        ") advice
    ≡ some (
        codes
          "        Write the output to the given file, and not to the standard output,\n        which is used otherwise.\n")
unfolding wrap_text wrap_pos find_wrap skip_spaces fitting_line find_first
wrapped = refl

wrap_text_lines_example :
    (body : Bytes) × (wrap_text (codes "    -o\n") (replicate 8 space) advice
      ≡ some (codes "    -o\n" ++ body))
    × (within 80 0 body ≡ true)
    × (words body ≡ words advice)
wrap_text_lines_example = wrap_text_lines 8 (codes "    -o\n") advice (omega arith)

-- What the constructor of a builder leaves, and that after two calls.
abbrev quiet : Impl Log
quiet = record {
  short_options = [];
  long_options = (codes "version", verbose) ∷ (codes "verbose", verbose) ∷ [];
  sub_commands = [];
  args = [];
  final_callback = none;
}

abbrev with_color : Impl Log
with_color = record quiet {
  short_options = (b'c', output) ∷ [];
  long_options = (codes "color", output) ∷ quiet.long_options;
}

abbrev many_arg : Arg Log
many_arg = record {
  title = codes "<in>";
  callback = note (codes "?:");
  min_count = 1;
  max_count = 2 ^ 32 - 1;
}

abbrev color_names : List OptionName
color_names = OptionName.short b'c' ∷ OptionName.long (codes "color") ∷ []

Built-IsSound_example : IsSound (record with_color { args = many_arg ∷ [] })
unfolding main_builder add_option add_option_with_arg add_impl_option add_names add_name
    expect_one_or_more_args make_arg add_arg find_named find_short bytes_eq
Built-IsSound_example = Built-IsSound (
    Built.then_call {a = with_color}
      (Built.then_call {a = quiet} (Built.start (note (codes "v") []) (note (codes "v") []) refl)
        (Call.option_with_arg color_names (note (codes "o:")) refl))
      (Call.one_or_more_args (note (codes "?:")) (codes "<in>") (note (codes "i:")) refl))
