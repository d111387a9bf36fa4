-- ===== src/CommandLine/Distribution.antt =====
-- Which callback of the command line's parser (main.cpp) is given which arguments.
use mathlib.Core.Path.{fun_ext}
use kj.Base.{
  ℕ, zero, suc, ◌+◌, ◌-◌, ◌%◌, ◌^◌, ◌≤◌, ◌<◌, min, ◌≡◌, refl, ap, ◌∙◌, true, ◌&&◌, List, [], ◌∷◌,
  ◌++◌, length, drop, take, ltb, arith,
}
use kj.Text.{Bytes}
use kj.CommandLine.Types.{Validity, Exit, Arg, checked}
use kj.CommandLine.Arguments.{required_arg_count, take_required, take_extra}

module _ {S : Type 0} where
  -- A callback on one argument after another, up to its first error.
  abbrev pub feed : Bytes → (Bytes → S → S × Validity) → List Bytes → (S → Exit S) → S → Exit S
  feed program callback [] next s = next s
  feed program callback (arg ∷ args) next s =
      checked program arg (callback arg s) (feed program callback args next)

  abbrev pub min_total : List (Arg S) → ℕ
  min_total [] = 0
  min_total (spec ∷ specs) = spec.min_count + min_total specs

  abbrev pub max_total : List (Arg S) → ℕ
  max_total [] = 0
  max_total (spec ∷ specs) = spec.max_count + max_total specs

  pub required_arg_count-eq :
      (specs : List (Arg S)) (count : ℕ)
      → count + min_total specs < 2 ^ 32
      → required_arg_count specs count ≡ count + min_total specs
  unfolding required_arg_count
  required_arg_count-eq [] count h = omega arith
  required_arg_count-eq (spec ∷ specs) count h =
      let small : (count + spec.min_count) % 2 ^ 32 ≡ count + spec.min_count = omega arith in
      rw small (omega (arith, required_arg_count-eq specs (count + spec.min_count) (omega arith)))

  pub take_required-feed :
      (program : Bytes) (spec : Arg S) (k : ℕ) (args : List Bytes) (required : ℕ)
      (next : List Bytes → ℕ → S → Exit S) (s : S)
      → k ≤ length args
      → k ≤ required
      → required < 2 ^ 32
      → take_required program spec k args required next s
        ≡ feed program spec.callback (take k args) (next (drop k args) (required - k)) s
  unfolding take_required
  take_required-feed program spec zero args required next s h g small =
      let same : required - 0 ≡ required = omega arith in rw same
  take_required-feed program spec (suc k) [] required next s h g small = absurd (omega arith)
  take_required-feed program spec (suc k) (arg ∷ args) required next s h g small =
      let less : (required + 2 ^ 32 - 1) % 2 ^ 32 ≡ required - 1 = omega arith in
      let whole : required - 1 - k ≡ required - suc k = omega arith in
      rw less (
        ap (checked program arg (spec.callback arg s)) (
          fun_ext (λ s'.
            take_required-feed program spec k args (required - 1) next s' (omega arith)
              (omega arith) (omega arith)
            ∙ ap (λ (t : ℕ). feed program spec.callback (take k args) (next (drop k args) t) s')
                whole)))

  pub take_extra-feed :
      (program : Bytes) (spec : Arg S) (i : ℕ) (args : List Bytes) (required e : ℕ)
      (next : List Bytes → S → Exit S) (s : S)
      → required ≤ length args
      → e ≡ min (spec.max_count - i) (length args - required)
      → take_extra program spec i args required next s
        ≡ feed program spec.callback (take e args) (next (drop e args)) s
  unfolding take_extra
  take_extra-feed program spec i [] required zero next s h g = refl
  take_extra-feed program spec i [] required (suc e) next s h g = absurd (omega arith)
  take_extra-feed program spec i (arg ∷ args) required zero next s h g = ground arith
  take_extra-feed program spec i (arg ∷ args) required (suc e) next s h g =
      let more : (ltb i spec.max_count && ltb required (suc (length args))) ≡ true = ground arith in
      rw more (
        ap (checked program arg (spec.callback arg s)) (
          fun_ext (λ s'.
            take_extra-feed program spec (suc i) args required e next s' (omega arith)
              (omega arith))))

  pub feed-append :
      (program : Bytes) (callback : Bytes → S → S × Validity) (xs ys : List Bytes)
      (next : S → Exit S) (s : S)
      → feed program callback xs (feed program callback ys next) s
        ≡ feed program callback (xs ++ ys) next s
  feed-append program callback [] ys next s = refl
  feed-append program callback (x ∷ xs) ys next s =
      ap (checked program x (callback x s)) (fun_ext (feed-append program callback xs ys next))
