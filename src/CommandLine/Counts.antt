-- ===== src/CommandLine/Counts.antt =====
-- The number of arguments that a command line (main.cpp) must have for the program to run.
use kj.Base.{
  ℕ, zero, suc, ◌+◌, ◌-◌, ◌%◌, ◌^◌, ◌≤◌, ◌<◌, ◌≡◌, refl, ◌∙◌, sym, ◌&&◌, none, some, List, [], ◌∷◌,
  length, drop, ltb, Bool-cases, inl, inr, arith, length-drop, ltb→lt,
}
use kj.Text.{Bytes}
use kj.CommandLine.Types.{Validity, Exit, finished, Arg, Impl, usage_error, checked}
use kj.CommandLine.Arguments.{
  required_arg_count, take_required, take_extra, consume, run_final, handle_arguments,
}
use kj.CommandLine.Distribution.{feed, min_total, max_total, required_arg_count-eq}
use kj.CommandLine.Groups.{InOrder, groups, leftover, feed_all, consume-groups, leftover-cons}

module _ {S : Type 0} (program : Bytes) where
  checked-finished :
      (label : Bytes) (r : S × Validity) (next : S → Exit S) {s : S}
      → checked program label r next ≡ finished s
      → next r.0 ≡ finished s
  unfolding usage_error
  checked-finished label (s', none) next h = h
  checked-finished label (s', some error) next h = cc

  feed-finished :
      (callback : Bytes → S → S × Validity) (args : List Bytes) (next : S → Exit S) (s : S) {s' : S}
      → feed program callback args next s ≡ finished s'
      → (t : S) × (next t ≡ finished s')
  feed-finished callback [] next s h = (s, h)
  feed-finished callback (arg ∷ args) next s h =
      feed-finished callback args next (callback arg s).0
        (checked-finished arg (callback arg s) _ h)

  feed_all-finished :
      (gs : List (Arg S × List Bytes)) (next : S → Exit S) (s : S) {s' : S}
      → feed_all program gs next s ≡ finished s'
      → (t : S) × (next t ≡ finished s')
  feed_all-finished [] next s h = (s, h)
  feed_all-finished ((spec, args) ∷ gs) next s h =
      let (t, e) = feed-finished spec.callback args (feed_all program gs next) s h in
      feed_all-finished gs next t e

  take_required-finished :
      (spec : Arg S) (k : ℕ) (args : List Bytes) (required : ℕ) (next : List Bytes → ℕ → S → Exit S)
      (s : S) {s' : S}
      → take_required program spec k args required next s ≡ finished s'
      → (k ≤ length args) × (r : ℕ) × (t : S) × (next (drop k args) r t ≡ finished s')
  unfolding take_required usage_error
  take_required-finished spec zero args required next s h = (omega arith, required, s, h)
  take_required-finished spec (suc k) [] required next s h = absurd (cc)
  take_required-finished spec (suc k) (arg ∷ args) required next s h =
      let (n, r, t, e) =
        take_required-finished spec k args ((required + 2 ^ 32 - 1) % 2 ^ 32) next
          (spec.callback arg s).0 (checked-finished arg (spec.callback arg s) _ h) in
      (omega arith, r, t, e)

  take_extra-finished :
      (spec : Arg S) (i : ℕ) (args : List Bytes) (required : ℕ) (next : List Bytes → S → Exit S)
      (s : S) {s' : S}
      → take_extra program spec i args required next s ≡ finished s'
      → (k : ℕ) × (t : S) × (next (drop k args) t ≡ finished s')
  unfolding take_extra
  take_extra-finished spec i [] required next s h = (0, s, h)
  take_extra-finished spec i (arg ∷ args) required next s h =
      elim (Bool-cases (ltb i spec.max_count && ltb required (suc (length args)))) [
        | inl more ↦
            let (k, t, e) =
              take_extra-finished spec (suc i) args required next (spec.callback arg s).0
                (checked-finished arg (spec.callback arg s) _ (rw more at h)) in
            (suc k, t, e)
        | inr stop ↦ (0, s, rw stop at h)
      ]

  consume-finished :
      (specs : List (Arg S)) (args : List Bytes) (required : ℕ) (next : List Bytes → S → Exit S)
      (s : S) {s' : S}
      → consume program specs args required next s ≡ finished s'
      → min_total specs ≤ length args
  unfolding consume
  consume-finished [] args required next s h = omega arith
  consume-finished (spec ∷ specs) args required next s h =
      let (n, r, t, e) = take_required-finished spec spec.min_count args required _ s h in
      let (k, u, e') = take_extra-finished spec spec.min_count (drop spec.min_count args) r _ t e in
      omega (
        arith,
        consume-finished specs (drop k (drop spec.min_count args)) r next u e',
        length-drop k (drop spec.min_count args),
        length-drop spec.min_count args,
      )

  run_final-finished :
      (impl : Impl S) (args : List Bytes) (s : S) {s' : S}
      → run_final program impl args s ≡ finished s'
      → length args ≡ 0
  unfolding run_final usage_error
  run_final-finished impl [] s h = refl
  run_final-finished impl (arg ∷ args) s h = absurd (cc)

  -- In a program without sub-commands, whose argument specs have their bounds in order and require
  -- fewer than 2^32 arguments in all: where the program finishes without an error, the number of
  -- arguments lies between the sum of the specs' least counts and the sum of their greatest.
  pub handle_arguments_bounds :
      (impl : Impl S) (arguments : List Bytes) (s : S) {s' : S}
      → impl.sub_commands ≡ []
      → InOrder impl.args
      → min_total impl.args < 2 ^ 32
      → handle_arguments impl program arguments s ≡ finished s'
      → (min_total impl.args ≤ length arguments) × (length arguments ≤ max_total impl.args)
  unfolding handle_arguments
  handle_arguments_bounds impl arguments s {s'} e o small h =
      let required : required_arg_count impl.args 0 ≡ min_total impl.args =
        omega (arith, required_arg_count-eq impl.args 0 (omega arith)) in
      let consumed : consume program impl.args arguments (min_total impl.args)
            (run_final program impl) s
          ≡ finished s' =
        rw (e, required) at h in
      let least = consume-finished impl.args arguments _ _ s consumed in
      let extra : ℕ = length arguments - min_total impl.args in
      let same =
        consume-groups program impl.args arguments (min_total impl.args) extra
          (run_final program impl) s refl small (omega arith) in
      let (t, e') =
        feed_all-finished (groups impl.args arguments extra) _ s (sym same ∙ consumed) in
      let none_left = run_final-finished impl (leftover impl.args arguments extra) t e' in
      (
        least,
        elim (Bool-cases (ltb (max_total impl.args) (length arguments))) [
          | inl many ↦ absurd (
              omega (
                arith,
                leftover-cons impl.args arguments extra o (omega arith) (omega (arith, ltb→lt)),
                none_left,
              ))
          | inr fine ↦ ground arith
        ],
      )
