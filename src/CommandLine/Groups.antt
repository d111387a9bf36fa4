-- ===== src/CommandLine/Groups.antt =====
-- The groups of arguments that the argument specs of a command line (main.cpp) are given.
use mathlib.Core.Path.{fun_ext}
use kj.Base.{
  ℕ, ◌+◌, ◌-◌, ◌^◌, ◌≤◌, ◌<◌, min, ◌≡◌, refl, ap, ◌∙◌, List, [], ◌∷◌, length, drop, take, arith,
  length-drop, drop-drop, take_split,
}
use kj.Text.{Bytes}
use kj.CommandLine.Types.{Exit, Arg}
use kj.CommandLine.Arguments.{take_extra, consume}
use kj.CommandLine.Distribution.{
  feed, feed-append, min_total, max_total, take_required-feed, take_extra-feed,
}

module _ {S : Type 0} where
  -- What a spec is given where `extra` arguments are not required by any.
  abbrev pub group_size : Arg S → ℕ → ℕ
  group_size spec extra = spec.min_count + min (spec.max_count - spec.min_count) extra

  abbrev pub less_extra : Arg S → ℕ → ℕ
  less_extra spec extra = extra - min (spec.max_count - spec.min_count) extra

  abbrev pub groups : List (Arg S) → List Bytes → ℕ → List (Arg S × List Bytes)
  groups [] args extra = []
  groups (spec ∷ specs) args extra =
      (spec, take (group_size spec extra) args)
      ∷ groups specs (drop (group_size spec extra) args) (less_extra spec extra)

  abbrev pub leftover : List (Arg S) → List Bytes → ℕ → List Bytes
  leftover [] args extra = args
  leftover (spec ∷ specs) args extra =
      leftover specs (drop (group_size spec extra) args) (less_extra spec extra)

  abbrev pub feed_all : Bytes → List (Arg S × List Bytes) → (S → Exit S) → S → Exit S
  feed_all program [] next s = next s
  feed_all program ((spec, args) ∷ gs) next s =
      feed program spec.callback args (feed_all program gs next) s

  -- Every spec's bounds are in order.
  abbrev pub InOrder : List (Arg S) → Type 0
  InOrder [] = Unit {0}
  InOrder (spec ∷ specs) = (spec.min_count ≤ spec.max_count) × InOrder specs

  least : (specs : List (Arg S)) → InOrder specs → min_total specs ≤ max_total specs
  least [] o = omega arith
  least (spec ∷ specs) (p, o) = omega (arith, least specs o)

  pub consume-groups :
      (program : Bytes) (specs : List (Arg S)) (args : List Bytes) (required extra : ℕ)
      (next : List Bytes → S → Exit S) (s : S)
      → required ≡ min_total specs
      → required < 2 ^ 32
      → length args ≡ required + extra
      → consume program specs args required next s
        ≡ feed_all program (groups specs args extra) (next (leftover specs args extra)) s
  unfolding consume
  consume-groups program [] args required extra next s h small n = refl
  consume-groups program (spec ∷ specs) args required extra next s h small n =
      let more : ℕ = min (spec.max_count - spec.min_count) extra in
      let rest : ℕ = required - spec.min_count in
      let left : length (drop spec.min_count args) ≡ rest + extra =
        omega (arith, length-drop spec.min_count args) in
      let first =
        take_required-feed program spec spec.min_count args required
          (λ arguments' required'.
            take_extra program spec spec.min_count arguments' required'
              (λ arguments''. consume program specs arguments'' required' next))
          s (omega arith) (omega arith) small in
      let second = λ (s' : S).
        take_extra-feed program spec spec.min_count (drop spec.min_count args) rest more
          (λ arguments''. consume program specs arguments'' rest next) s' (omega arith)
          (omega arith) in
      let third = λ (s' : S).
        consume-groups program specs (drop (spec.min_count + more) args) rest (extra - more) next s'
          (omega arith) (omega arith) (omega (arith, length-drop (spec.min_count + more) args)) in
      first
      ∙ ap (λ f. feed program spec.callback (take spec.min_count args) f s) (fun_ext second)
      ∙ feed-append program spec.callback (take spec.min_count args)
          (take more (drop spec.min_count args)) _ s
      ∙ rw (take_split spec.min_count more args, drop-drop spec.min_count more args)
          (ap (λ f. feed program spec.callback (take (spec.min_count + more) args) f s)
            (fun_ext third))

  pub leftover-cons :
      (specs : List (Arg S)) (args : List Bytes) (extra : ℕ)
      → InOrder specs
      → length args ≡ min_total specs + extra
      → max_total specs < min_total specs + extra
      → 0 < length (leftover specs args extra)
  leftover-cons [] args extra o n h = omega arith
  leftover-cons (spec ∷ specs) args extra (p, o) n h =
      leftover-cons specs (drop (group_size spec extra) args) (less_extra spec extra) o
        (omega (arith, length-drop (group_size spec extra) args)) (omega (arith, least specs o))

  -- How many arguments each group has.
  abbrev pub Shares : List (Arg S × List Bytes) → ℕ → Type 0
  Shares [] extra = Unit {0}
  Shares ((spec, args) ∷ gs) extra =
      (length args ≡ group_size spec extra) × Shares gs (less_extra spec extra)
