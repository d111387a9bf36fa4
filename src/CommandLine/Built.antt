-- ===== src/CommandLine/Built.antt =====
-- What holds of every parser of a command line (main.cpp) that calls of `MainBuilder` have built.
use kj.Base.{
  ◌≤◌, ◌≡◌, ◌⊎◌, inl, inr, sym, subst, ◌∙◌, none, some, List, [], ◌∷◌, ◌++◌, >>=-eq-some, arith,
}
use kj.Text.{Bytes}
use kj.CommandLine.Types.{Validity, MainFunc, CliOption, Arg, Impl}
use kj.CommandLine.Groups.{InOrder}
use kj.CommandLine.Builder.{
  OptionName, add_name, add_names, add_impl_option, add_option, add_option_with_arg, make_arg,
  add_sub_command, add_arg, expect_arg, expect_optional_arg, expect_zero_or_more_args,
  expect_one_or_more_args, call_after_parsing, main_builder,
}

module _ {S : Type 0} where
  -- A successful call on a builder.
  pub data Call : Impl S → Impl S → Type 0 where
    option :
        {a b : Impl S} (names : List OptionName) (f : S → S × Validity)
        → add_option names f a ≡ some b
        → Call a b
    option_with_arg :
        {a b : Impl S} (names : List OptionName) (f : Bytes → S → S × Validity)
        → add_option_with_arg names f a ≡ some b
        → Call a b
    sub_command :
        {a b : Impl S} (name : Bytes) (main : MainFunc S)
        → add_sub_command name main a ≡ some b
        → Call a b
    arg :
        {a b : Impl S} (from_itself : Bytes → S → S × Validity) (title : Bytes)
        (f : Bytes → S → S × Validity)
        → expect_arg from_itself title f a ≡ some b
        → Call a b
    optional_arg :
        {a b : Impl S} (from_itself : Bytes → S → S × Validity) (title : Bytes)
        (f : Bytes → S → S × Validity)
        → expect_optional_arg from_itself title f a ≡ some b
        → Call a b
    zero_or_more_args :
        {a b : Impl S} (from_itself : Bytes → S → S × Validity) (title : Bytes)
        (f : Bytes → S → S × Validity)
        → expect_zero_or_more_args from_itself title f a ≡ some b
        → Call a b
    one_or_more_args :
        {a b : Impl S} (from_itself : Bytes → S → S × Validity) (title : Bytes)
        (f : Bytes → S → S × Validity)
        → expect_one_or_more_args from_itself title f a ≡ some b
        → Call a b
    after_parsing :
        {a b : Impl S} (f : S → S × Validity) → call_after_parsing f a ≡ some b → Call a b

  pub data Built : Impl S → Type 0 where
    start :
        {a : Impl S} (increase print : S → S × Validity)
        → main_builder increase print ≡ some a
        → Built a
    then_call : {a b : Impl S} → Built a → Call a b → Built b

  -- Sub-commands exclude arguments and a final callback, and bounds are in order.
  pub record IsSound (impl : Impl S) : Type 0 where
    pub exclusive : (impl.sub_commands ≡ []) ⊎ ((impl.args ≡ []) × (impl.final_callback ≡ none))
    pub ordered : InOrder impl.args

  -- The fields that options leave alone.
  abbrev SameRest : Impl S → Impl S → Type 0
  SameRest a b =
      (b.sub_commands ≡ a.sub_commands) × (b.args ≡ a.args) × (b.final_callback ≡ a.final_callback)

  add_name-SameRest :
      (name : OptionName) (o : CliOption S) (a : Impl S) {b : Impl S}
      → add_name name o a ≡ some b
      → SameRest a b
  unfolding add_name
  add_name-SameRest (OptionName.long name) o a h = ground arith
  add_name-SameRest (OptionName.short c) o a h = ground arith

  add_names-SameRest :
      (names : List OptionName) (o : CliOption S) (a : Impl S) {b : Impl S}
      → add_names names o a ≡ some b
      → SameRest a b
  unfolding add_names
  add_names-SameRest [] o a h = ground arith
  add_names-SameRest (name ∷ names) o a h =
      let (a', first, rest) = >>=-eq-some (add_name name o a) (add_names names o) h in
      let (p, q, r) = add_name-SameRest name o a first in
      let (p', q', r') = add_names-SameRest names o a' rest in (p' ∙ p, q' ∙ q, r' ∙ r)

  add_impl_option-SameRest :
      (names : List OptionName) (o : CliOption S) (a : Impl S) {b : Impl S}
      → add_impl_option names o a ≡ some b
      → SameRest a b
  unfolding add_impl_option
  add_impl_option-SameRest [] o a h = cc
  add_impl_option-SameRest (name ∷ names) o a h = add_names-SameRest (name ∷ names) o a h

  SameRest-IsSound : (a b : Impl S) → SameRest a b → IsSound a → IsSound b
  SameRest-IsSound a b (p, q, r) v = record {
    exclusive = elim v.exclusive [ inl e ↦ inl (p ∙ e) | inr (e, f) ↦ inr (q ∙ e, r ∙ f) ];
    ordered = subst InOrder (sym q) v.ordered;
  }

  InOrder-append :
      (specs : List (Arg S)) (spec : Arg S)
      → InOrder specs
      → spec.min_count ≤ spec.max_count
      → InOrder (specs ++ spec ∷ [])
  InOrder-append [] spec o h = (h, tt)
  InOrder-append (first ∷ specs) spec (p, o) h = (p, InOrder-append specs spec o h)

  add_arg-IsSound :
      (spec : Arg S) (a : Impl S) {b : Impl S}
      → spec.min_count ≤ spec.max_count
      → add_arg spec a ≡ some b
      → IsSound a
      → IsSound b
  unfolding add_arg
  add_arg-IsSound spec a {b} n h v =
      let empty : b.sub_commands ≡ [] = ground arith in
      let added : b.args ≡ a.args ++ spec ∷ [] = ground arith in
      record {
        exclusive = inl empty;
        ordered = subst InOrder (sym added) (InOrder-append a.args spec v.ordered n);
      }

  add_sub_command-IsSound :
      (name : Bytes) (main : MainFunc S) (a : Impl S) {b : Impl S}
      → add_sub_command name main a ≡ some b
      → IsSound a
      → IsSound b
  unfolding add_sub_command
  add_sub_command-IsSound name main a {b} h v =
      let no_args : b.args ≡ [] = ground arith in
      let no_final : b.final_callback ≡ none = ground arith in
      record { exclusive = inr (no_args, no_final); ordered = subst InOrder (sym no_args) tt }

  call_after_parsing-IsSound :
      (f : S → S × Validity) (a : Impl S) {b : Impl S}
      → call_after_parsing f a ≡ some b
      → IsSound a
      → IsSound b
  unfolding call_after_parsing
  call_after_parsing-IsSound f a {b} h v =
      let empty : b.sub_commands ≡ [] = ground arith in
      let same : b.args ≡ a.args = ground arith in
      record { exclusive = inl empty; ordered = subst InOrder (sym same) v.ordered }

  Call-IsSound : {a b : Impl S} → Call a b → IsSound a → IsSound b
  unfolding add_option add_option_with_arg expect_arg expect_optional_arg expect_zero_or_more_args
      expect_one_or_more_args make_arg
  Call-IsSound {a} {b} (Call.option names f h) v =
      SameRest-IsSound a b (add_impl_option-SameRest names _ a h) v
  Call-IsSound {a} {b} (Call.option_with_arg names f h) v =
      SameRest-IsSound a b (add_impl_option-SameRest names _ a h) v
  Call-IsSound {a} (Call.sub_command name main h) v = add_sub_command-IsSound name main a h v
  Call-IsSound {a} (Call.arg from_itself title f h) v = add_arg-IsSound _ a (omega arith) h v
  Call-IsSound {a} (Call.optional_arg from_itself title f h) v =
      add_arg-IsSound _ a (omega arith) h v
  Call-IsSound {a} (Call.zero_or_more_args from_itself title f h) v =
      add_arg-IsSound _ a (omega arith) h v
  Call-IsSound {a} (Call.one_or_more_args from_itself title f h) v =
      add_arg-IsSound _ a (omega arith) h v
  Call-IsSound {a} (Call.after_parsing f h) v = call_after_parsing-IsSound f a h v

  main_builder-IsSound :
      (increase print : S → S × Validity) {a : Impl S}
      → main_builder increase print ≡ some a
      → IsSound a
  unfolding main_builder add_option
  main_builder-IsSound increase print {a} h =
      let (b, first, second) = >>=-eq-some (add_impl_option _ _ _) (add_impl_option _ _) h in
      let (p, q, r) = add_impl_option-SameRest _ _ _ first in
      let (p', q', r') = add_impl_option-SameRest _ _ b second in
      record { exclusive = inl (p' ∙ p); ordered = subst InOrder (sym (q' ∙ q)) tt }

  -- Of every parser that calls of `MainBuilder` have built: a parser with sub-commands has no
  -- arguments and no final callback, and every argument's least count is at most its greatest.
  pub Built-IsSound : {a : Impl S} → Built a → IsSound a
  Built-IsSound (Built.start increase print h) = main_builder-IsSound increase print h
  Built-IsSound (Built.then_call before call) = Call-IsSound call (Built-IsSound before)
