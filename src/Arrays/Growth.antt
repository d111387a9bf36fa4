-- ===== src/Arrays/Growth.antt =====
-- What the steps of a vector's calls do to its elements and its room (vector.h, array.h).
use mathlib.Core.Path.{fun_ext}
use kj.Base.{
  ℕ, zero, suc, ◌+◌, ◌-◌, ◌*◌, ◌%◌, ◌^◌, ◌≤◌, ◌<◌, ◌≡◌, refl, sym, ap, ◌∙◌, min, max, Bool, true,
  false, Option, some, List, [], ◌∷◌, ◌++◌, append-nil, append_assoc, length, take, replicate,
  length-append, length-take, take-all, take-take_le, ltb, lt→ltb, ◌==◌, if◌then◌else◌, if_true,
  ◌>>=◌, arith,
}
use kj.Arrays.Builder.{ArrayBuilder, size, builder_add, builder_remove_last}
use kj.Arrays.Vector.{
  move_elements, add_defaults, remove_many, heap_array_builder, set_capacity, grow,
}

module _ {ℓ} {A : Type ℓ} where
  pub move_elements_lem :
      (xs : List A) (b : ArrayBuilder A)
      → size b + length xs ≤ b.capacity
      → move_elements xs b ≡ some (record b { content = b.content ++ xs })
  unfolding move_elements builder_add
  move_elements_lem [] b room =
      ap (λ l. some (record b { content = l })) (sym (append-nil b.content))
  move_elements_lem (x ∷ xs) b room =
      let test : ltb (size b) b.capacity ≡ true = lt→ltb _ _ (omega arith) in
      let b' : ArrayBuilder A = record b { content = b.content ++ x ∷ [] } in
      let more = length-append b.content (x ∷ []) in
      ap (λ r. r >>= λ b'. move_elements xs b') (if_true _ _ test)
      ∙ (move_elements_lem xs b' (omega (arith, more))
          ∙ ap (λ l. some (record b { content = l })) (append_assoc b.content (x ∷ []) xs))

  pub add_defaults_lem :
      (n : ℕ) (x : A) (b : ArrayBuilder A) → add_defaults n x b ≡ move_elements (replicate n x) b
  unfolding move_elements add_defaults
  add_defaults_lem zero x b = refl
  add_defaults_lem (suc n) x b = ap (λ f. builder_add x b >>= f) (fun_ext (add_defaults_lem n x))

  pub remove_many_lem :
      (n : ℕ) (b : ArrayBuilder A)
      → n ≤ size b
      → remove_many n b ≡ some (record b { content = take (size b - n) b.content })
  unfolding remove_many builder_remove_last
  remove_many_lem zero b room =
      ap (λ l. some (record b { content = l }))
        (sym (take-all (size b - 0) b.content (omega arith)))
  remove_many_lem (suc n) b room =
      let test : ltb 0 (size b) ≡ true = lt→ltb _ _ (omega arith) in
      let b' : ArrayBuilder A = record b { content = take (size b - 1) b.content } in
      let fewer = length-take (size b - 1) b.content in
      let left : size b' - n ≡ size b - suc n = omega (arith, fewer) in
      ap (λ r. r >>= λ b'. remove_many n b') (if_true _ _ test)
      ∙ (remove_many_lem n b' (omega (arith, fewer))
          ∙ (ap (λ (k : ℕ). some (record b { content = take k b'.content })) left
              ∙ ap (λ l. some (record b { content = l }))
                  (take-take_le (size b - suc n) (size b - 1) b.content (omega arith))))

  pub length-replicate : (n : ℕ) (x : A) → length (replicate n x) ≡ n
  length-replicate zero x = refl
  length-replicate (suc n) x = omega (arith, length-replicate n x)

  pub take-append-replicate :
      (n : ℕ) (x : A) (xs : List A)
      → take n (xs ++ replicate (n - length xs) x) ≡ take n xs ++ replicate (n - length xs) x
  take-append-replicate n x [] =
      let all : n - 0 ≡ n = omega arith in
      take-all n (replicate (n - 0) x) (omega (arith, length-replicate (n - 0) x))
      ∙ ap (λ l. l ++ replicate (n - 0) x) (sym (take-all n [] (omega arith)))
  take-append-replicate zero x (y ∷ ys) =
      let no_more : 0 - suc (length ys) ≡ 0 = omega arith in
      ap (λ (k : ℕ). replicate k x) (sym no_more)
  take-append-replicate (suc n) x (y ∷ ys) =
      let fewer : suc n - suc (length ys) ≡ n - length ys = omega arith in
      rw fewer (ap (λ l. y ∷ l) (take-append-replicate n x ys))

  -- The vector holds the list, and has room for it.
  pub record Holds (xs : List A) (b : ArrayBuilder A) : Type ℓ where
    pub content : b.content ≡ xs
    pub room : length xs ≤ b.capacity
    pub small : b.capacity < 2 ^ 63

  -- The builder with room for `n` more elements, after the test that every call makes first.
  abbrev pub Held : List A → ℕ → Option (ArrayBuilder A) → Type ℓ
  Held xs n r = (b : ArrayBuilder A) × (r ≡ some b) × Holds xs b × (length xs + n ≤ b.capacity)

  abbrev pub Done : List A → Option (ArrayBuilder A) → Type ℓ
  Done xs r = (b : ArrayBuilder A) × (r ≡ some b) × Holds xs b

module _ {ℓ} {A : Type ℓ} (has_room : ℕ → Bool) (room : (n : ℕ) → has_room n ≡ true) where
  pub set_capacity_lem :
      (n : ℕ) (b : ArrayBuilder A)
      → size b ≤ n
      → set_capacity has_room n b ≡ some (record { content = b.content; capacity = n })
  unfolding set_capacity heap_array_builder
  set_capacity_lem n b fits =
      let count : min n (size b) ≡ size b = omega arith in
      let whole : take (min n (size b)) b.content ≡ b.content =
        take-all _ b.content (omega arith) in
      let less = length-take (min n (size b)) b.content in
      ap (λ r. r >>= λ b'. move_elements (take (min n (size b)) b.content) b')
        (if_true _ _ (room n))
      ∙ (move_elements_lem (take (min n (size b)) b.content) (record { content = []; capacity = n })
            (omega (arith, less))
          ∙ ap (λ l. some (record { content = l; capacity = n })) whole)

  abbrev pub grown : ℕ → ArrayBuilder A → ℕ
  grown n b = max n (if b.capacity == 0 then 4 else b.capacity * 2 % 2 ^ 64)

  grow_lem :
      (n : ℕ) (b : ArrayBuilder A)
      → size b ≤ grown n b
      → grow has_room n b ≡ some (record { content = b.content; capacity = grown n b })
  unfolding grow
  grow_lem n b fits = set_capacity_lem (grown n b) b fits

  -- Growing to `n`, or by one element from a full vector, makes the room that is needed.
  grown_bounds :
      (n : ℕ) (b : ArrayBuilder A)
      → b.capacity < 2 ^ 62
      → n < 2 ^ 63
      → (n ≤ grown n b) × (b.capacity < grown n b) × (grown n b < 2 ^ 63)
  grown_bounds n b h k = ground arith

  pub make_room :
      (t : Bool) (n extra : ℕ) (xs : List A) (b : ArrayBuilder A)
      → Holds xs b
      → (t ≡ false → length xs + extra ≤ b.capacity)
      → (t ≡ true → (length xs + extra ≤ grown n b) × (grown n b < 2 ^ 63))
      → Held xs extra (if t then grow has_room n b else some b)
  make_room false n extra xs b h enough more = (b, refl, h, enough refl)
  make_room true n extra xs b h enough more =
      let same = ap length h.content in
      let (fits, small) = more refl in
      (
        record { content = b.content; capacity = grown n b },
        grow_lem n b (omega (arith, same)),
        record { content = h.content; room = omega arith; small = small },
        fits,
      )
