-- ===== src/Arrays/Vector.antt =====
-- `Vector` (vector.h). The heap is a parameter: whether it has room for so many elements.
use kj.Base.{
  ℕ, zero, suc, ◌+◌, ◌-◌, ◌*◌, ◌%◌, ◌^◌, min, max, Bool, Option, none, some, List, [], ◌∷◌, length,
  take, ltb, ◌==◌, if◌then◌else◌, ◌>>=◌,
}
use kj.Arrays.Builder.{
  ArrayBuilder, size, is_full, builder_add, builder_add_all, builder_remove_last, finish,
}

module _ {ℓ} {A : Type ℓ} where
  -- `newBuilder.add(mv(builder[i]))` for each of the elements.
  unfoldable pub move_elements : List A → ArrayBuilder A → Option (ArrayBuilder A)
  move_elements [] b = some b
  move_elements (x ∷ xs) b = builder_add x b >>= λ b'. move_elements xs b'

  -- The loops of `resize`, by the number of rounds.
  unfoldable pub add_defaults : ℕ → A → ArrayBuilder A → Option (ArrayBuilder A)
  add_defaults zero x b = some b
  add_defaults (suc n) x b = builder_add x b >>= λ b'. add_defaults n x b'

  unfoldable pub remove_many : ℕ → ArrayBuilder A → Option (ArrayBuilder A)
  remove_many zero b = some b
  remove_many (suc n) b = builder_remove_last b >>= λ b'. remove_many n b'

  module _ (has_room : ℕ → Bool) where
    unfoldable pub heap_array_builder : ℕ → Option (ArrayBuilder A)
    heap_array_builder n = if has_room n then some (record { content = []; capacity = n }) else none

    unfoldable pub set_capacity : ℕ → ArrayBuilder A → Option (ArrayBuilder A)
    unfolding heap_array_builder
    set_capacity new_size b = heap_array_builder new_size >>= λ b'.
        move_elements (take (min new_size (size b)) b.content) b'

    unfoldable pub grow : ℕ → ArrayBuilder A → Option (ArrayBuilder A)
    unfolding set_capacity
    grow min_capacity b =
        set_capacity (max min_capacity (if b.capacity == 0 then 4 else b.capacity * 2 % 2 ^ 64)) b

    unfoldable pub add : A → ArrayBuilder A → Option (ArrayBuilder A)
    unfolding grow
    add x b = (if is_full b then grow 0 b else some b) >>= λ b'. builder_add x b'

    unfoldable pub add_all : List A → ArrayBuilder A → Option (ArrayBuilder A)
    unfolding grow
    add_all xs b =
        let needed = size b + length xs in
        (if ltb b.capacity needed then grow needed b else some b) >>= λ b'. builder_add_all xs b'

    unfoldable pub resize : ℕ → A → ArrayBuilder A → Option (ArrayBuilder A)
    unfolding grow
    resize n x b = (if ltb b.capacity n then grow n b else some b) >>= λ b'.
        add_defaults (n - size b') x b' >>= λ b''. remove_many (size b'' - n) b''

    unfoldable pub release_as_array : ArrayBuilder A → Option (List A × ArrayBuilder A)
    unfolding set_capacity
    release_as_array b = (if is_full b then some b else set_capacity (size b) b) >>= λ b'. finish b'
