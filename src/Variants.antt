-- ===== src/Variants.antt =====
-- Values in space that may be empty: `OneOf` (one-of.h) and `NullableValue`, which is a `Maybe`
-- (common.h), over the run time of Memory.
pub mod Living
pub mod Tags
pub mod Assigning
pub mod Flaws
pub mod Nullable
mod Examples
use kj.Base.{
  ℕ, zero, suc, ◌+◌, Bool, true, false, not, Option, none, some, List, [], ◌∷◌, ◌==◌, if◌then◌else◌,
}
use kj.Memory.{Runtime}

-- The variants of a `OneOf` are numbered from 1; the tag 0 is that of an empty one. `space` is the
-- address of its bytes.
pub record OneOf : Type 0 where
  pub tag : ℕ
  pub space : ℕ

module _ (m : Runtime) where
  -- The object with the state, and whether the call ends by an exception.
  abbrev pub Done : Type 0
  Done = OneOf × m.State × Bool

  abbrev pub unless_thrown : Done → (OneOf → m.State → Done) → Done
  unless_thrown (o, s, true) k = (o, s, true)
  unless_thrown (o, s, false) k = k o s

  -- `destroyVariant` for the variant `i` of type `t`.
  unfoldable pub destroy_variant : Bool → ℕ → ℕ → OneOf → m.State → Done
  destroy_variant unwinding i t o s =
      if o.tag == i
      then (let (s', threw) = m.destroy unwinding t o.space s in (record o { tag = 0 }, s', threw))
      else (o, s, false)

  -- `destroy` for the variants from `i` on.
  unfoldable pub destroy_variants : Bool → ℕ → List ℕ → OneOf → m.State → Done
  unfolding destroy_variant
  destroy_variants unwinding i [] o s = (o, s, false)
  destroy_variants unwinding i (t ∷ ts) o s =
      unless_thrown (destroy_variant unwinding i t o s) (destroy_variants unwinding (suc i) ts)

  -- `copyVariantFrom` and `moveVariantFrom`, which differ in the constructor that they call.
  unfoldable pub copy_variant : OneOf → ℕ → ℕ → OneOf → m.State → Done
  copy_variant other i t o s =
      if other.tag == i
      then (let (s', threw) = m.construct t o.space s in (o, s', threw))
      else (o, s, false)

  unfoldable pub copy_variants : OneOf → ℕ → List ℕ → OneOf → m.State → Done
  unfolding copy_variant
  copy_variants other i [] o s = (o, s, false)
  copy_variants other i (t ∷ ts) o s =
      unless_thrown (copy_variant other i t o s) (copy_variants other (suc i) ts)

  -- `copyFrom` and `moveFrom`
  unfoldable pub copy_from : List ℕ → OneOf → OneOf → m.State → Done
  unfolding copy_variants
  copy_from types other o s = copy_variants other 1 types (record o { tag = other.tag }) s

  -- `if (tag != 0) destroy();`
  unfoldable pub clear_tag : List ℕ → OneOf → m.State → Done
  unfolding destroy_variants
  clear_tag types o s = if o.tag == 0 then (o, s, false) else destroy_variants false 1 types o s

  -- The assignments. Where `other` is none, it is the object itself.
  abbrev pub source_of : Option OneOf → OneOf → OneOf
  source_of none o = o
  source_of (some other) o = other

  unfoldable pub assign_one_of : List ℕ → Option OneOf → OneOf → m.State → Done
  unfolding clear_tag copy_from
  assign_one_of types other o s =
      unless_thrown (clear_tag types o s) (λ o' s'. copy_from types (source_of other o') o' s')

  -- `init<T>`, for the variant `i` of type `t`.
  abbrev pub set_tag : ℕ → Done → Done
  set_tag i (o, s, true) = (o, s, true)
  set_tag i (o, s, false) = (record o { tag = i }, s, false)

  unfoldable pub init_variant : List ℕ → ℕ → ℕ → OneOf → m.State → Done
  unfolding clear_tag
  init_variant types i t o s =
      unless_thrown (clear_tag types o s)
        (λ o' s'. let (s'', threw) = m.construct t o'.space s' in set_tag i (o', s'', threw))

  -- `~OneOf`
  unfoldable pub destroy_one_of : Bool → List ℕ → OneOf → m.State → Done
  unfolding destroy_variants
  destroy_one_of unwinding types o s = destroy_variants unwinding 1 types o s

-- `NullableValue`: whether it is set, and the address of its value.
pub record NullableValue : Type 0 where
  pub is_set : Bool
  pub value : ℕ

module _ (m : Runtime) (t : ℕ) where
  abbrev pub Result : Type 0
  Result = NullableValue × m.State × Bool

  -- `if (isSet) { isSet = false; dtor(value); }`
  unfoldable pub unset : NullableValue → m.State → Result
  unset n s =
      if n.is_set
      then (let (s', threw) = m.destroy false t n.value s in
          (record n { is_set = false }, s', threw))
      else (n, s, false)

  -- `if (other.isSet) { ctor(value, other.value); isSet = true; }`
  unfoldable pub set_from : NullableValue → NullableValue → m.State → Result
  set_from other n s =
      if other.is_set
      then (let (s', threw) = m.construct t n.value s in
          (record n { is_set = not threw }, s', threw))
      else (n, s, false)

  abbrev pub set_unless : Bool → NullableValue → NullableValue → m.State → Result
  set_unless true other n s = (n, s, true)
  set_unless false other n s = set_from other n s

  -- The assignments; where `other` is none, it is the object itself.
  unfoldable pub assign_nullable : Option NullableValue → NullableValue → m.State → Result
  unfolding unset set_from
  assign_nullable none n s = (n, s, false)
  assign_nullable (some other) n s = let (n', s', threw) = unset n s in set_unless threw other n' s'

  -- The constructors from another object, with whether there is an object then.
  unfoldable pub make_nullable : NullableValue → ℕ → m.State → Result
  make_nullable other at s =
      if other.is_set
      then (let (s', threw) = m.construct t at s in
          (record { is_set = true; value = at }, s', threw))
      else (record { is_set = false; value = at }, s, false)

  -- `~NullableValue`
  unfoldable pub destroy_nullable : Bool → NullableValue → m.State → m.State × Bool
  destroy_nullable unwinding n s = if n.is_set then m.destroy unwinding t n.value s else (s, false)
