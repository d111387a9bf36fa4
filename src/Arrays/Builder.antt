-- ===== src/Arrays/Builder.antt =====
-- `ArrayBuilder` (array.h): the elements from `ptr` to `pos`, and room for `capacity`.
use kj.Base.{
  ℕ, ◌+◌, ◌-◌, Bool, Option, none, some, List, [], ◌∷◌, ◌++◌, length, take, ltb, leb, ◌==◌,
  if◌then◌else◌,
}

pub record ArrayBuilder {ℓ} (A : Type ℓ) : Type ℓ where
  pub content : List A
  pub capacity : ℕ

-- A call that the code must not make gives `none`. `add` and `removeLast` test for it by KJ_IREQUIRE,
-- which throws in a build with KJ_DEBUG and is left out of others: there they write or destroy out of
-- bounds.
module _ {ℓ} {A : Type ℓ} where
  abbrev pub size : ArrayBuilder A → ℕ
  size b = length b.content

  unfoldable pub is_full : ArrayBuilder A → Bool
  is_full b = size b == b.capacity

  unfoldable pub builder_add : A → ArrayBuilder A → Option (ArrayBuilder A)
  builder_add x b =
      if ltb (size b) b.capacity then some (record b { content = b.content ++ x ∷ [] }) else none

  -- `addAll` has no test of its own: past the end it writes where it must not, which is `none`.
  unfoldable pub builder_add_all : List A → ArrayBuilder A → Option (ArrayBuilder A)
  builder_add_all xs b =
      if leb (size b + length xs) b.capacity
      then some (record b { content = b.content ++ xs })
      else none

  unfoldable pub builder_remove_last : ArrayBuilder A → Option (ArrayBuilder A)
  builder_remove_last b =
      if ltb 0 (size b) then some (record b { content = take (size b - 1) b.content }) else none

  unfoldable pub finish : ArrayBuilder A → Option (List A × ArrayBuilder A)
  unfolding is_full
  finish b = if is_full b then some (b.content, record { content = []; capacity = 0 }) else none
