-- ===== src/CommandLine/Lookup.antt =====
-- Under which names an option is found that a builder (main.cpp, `Impl::addOption`) has added.
use kj.Base.{
  ◌≡◌, ◌∙◌, Bool, true, false, ◌||◌, Option, some, List, [], ◌∷◌, ◌==◌, if◌then◌else◌, >>=-eq-some,
  arith, Bool-cases, inl, inr,
}
use kj.Text.{Bytes}
use kj.Text.Search.{bytes_eq}
use kj.CommandLine.Types.{Validity, CliOption, Impl, find_short, find_named}
use kj.CommandLine.Builder.{OptionName, add_name, add_names, add_impl_option, add_option_with_arg}

abbrev pub same_name : OptionName → OptionName → Bool
same_name (OptionName.short c) (OptionName.short d) = c == d
same_name (OptionName.long m) (OptionName.long n) = bytes_eq m n
same_name (OptionName.short c) (OptionName.long n) = false
same_name (OptionName.long m) (OptionName.short d) = false

abbrev pub is_one_of : OptionName → List OptionName → Bool
is_one_of x [] = false
is_one_of x (name ∷ names) = same_name name x || is_one_of x names

module _ {S : Type 0} where
  abbrev pub find_option : OptionName → Impl S → Option (CliOption S)
  find_option (OptionName.short c) impl = find_short c impl.short_options
  find_option (OptionName.long name) impl = find_named name impl.long_options

  find_option-add_name :
      (name : OptionName) (o : CliOption S) (a : Impl S) {b : Impl S} (x : OptionName)
      → add_name name o a ≡ some b
      → find_option x b ≡ (if same_name name x then some o else find_option x a)
  unfolding add_name find_short find_named
  find_option-add_name (OptionName.long name) o a (OptionName.long x) h = ground arith
  find_option-add_name (OptionName.long name) o a (OptionName.short x) h = ground arith
  find_option-add_name (OptionName.short name) o a (OptionName.long x) h = ground arith
  find_option-add_name (OptionName.short name) o a (OptionName.short x) h = ground arith

  find_option-add_names :
      (names : List OptionName) (o : CliOption S) (a : Impl S) {b : Impl S} (x : OptionName)
      → add_names names o a ≡ some b
      → find_option x b ≡ (if is_one_of x names then some o else find_option x a)
  unfolding add_names
  find_option-add_names [] o a x h = ground arith
  find_option-add_names (name ∷ names) o a {b} x h =
      let (a', first, rest) = >>=-eq-some (add_name name o a) (add_names names o) h in
      let one = find_option-add_name name o a x first in
      let others = find_option-add_names names o a' x rest in
      elim (Bool-cases (same_name name x)) [
        | inl e ↦ elim (Bool-cases (is_one_of x names)) [
          | inl f ↦ rw e (rw f at others)
          | inr f ↦ rw e ((rw f at others) ∙ (rw e at one))
        ]
        | inr e ↦ elim (Bool-cases (is_one_of x names)) [
          | inl f ↦ rw (e, f) (rw f at others)
          | inr f ↦ rw (e, f) ((rw f at others) ∙ (rw e at one))
        ]
      ]

  -- Where `addOptionWithArg` does not throw, the option is found under each of its names, and under
  -- every other name what was found before.
  pub find_option-add_option_with_arg :
      (names : List OptionName) (f : Bytes → S → S × Validity) (a : Impl S) {b : Impl S}
      (x : OptionName)
      → add_option_with_arg names f a ≡ some b
      → find_option x b ≡ (
          if is_one_of x names
          then some (record { has_arg = true; func = f []; func_with_arg = f })
          else find_option x a)
  unfolding add_option_with_arg add_impl_option
  find_option-add_option_with_arg [] f a x h = cc
  find_option-add_option_with_arg (name ∷ names) f a x h =
      find_option-add_names (name ∷ names) _ a x h
