-- ===== src/Base/Lists.antt =====
-- Lists measured and indexed by native numbers, under the library's names.
use Prim.Native.Nat.{ℕ, zero, suc, ◌+◌, ◌-◌, ◌≤◌, ◌*◌, min}
use mathlib.Core.Path.{◌≡◌, refl, sym, ap, ◌∙◌}
use mathlib.Core.List.{List, [], ◌∷◌, ◌++◌}
use mathlib.Core.Option.{Option, none, some}
use native.Mathlib.Omega.{arith}

module _ {ℓ} {A : Type ℓ} where
  abbrev pub length : List A → ℕ
  length [] = 0
  length (x ∷ xs) = suc (length xs)

  abbrev pub get_elem? : List A → ℕ → Option A
  get_elem? [] i = none
  get_elem? (x ∷ xs) zero = some x
  get_elem? (x ∷ xs) (suc i) = get_elem? xs i

  abbrev pub take : ℕ → List A → List A
  take zero xs = []
  take (suc n) [] = []
  take (suc n) (x ∷ xs) = x ∷ take n xs

  abbrev pub drop : ℕ → List A → List A
  drop zero xs = xs
  drop (suc n) [] = []
  drop (suc n) (x ∷ xs) = drop n xs

  abbrev pub replicate : ℕ → A → List A
  replicate zero a = []
  replicate (suc n) a = a ∷ replicate n a

  abbrev pub concat : List (List A) → List A
  concat [] = []
  concat (x ∷ xs) = x ++ concat xs

  -- The elements from position `i` up to position `j`.
  abbrev pub slice : List A → ℕ → ℕ → List A
  slice xs i j = take (j - i) (drop i xs)

  pub length-append : (xs ys : List A) → length (xs ++ ys) ≡ length xs + length ys
  length-append [] ys = omega arith
  length-append (x ∷ xs) ys = omega (arith, length-append xs ys)

  pub take-append-drop : (n : ℕ) (xs : List A) → take n xs ++ drop n xs ≡ xs
  take-append-drop zero xs = refl
  take-append-drop (suc n) [] = refl
  take-append-drop (suc n) (x ∷ xs) = rw (take-append-drop n xs)

  pub length-take : (n : ℕ) (xs : List A) → length (take n xs) ≡ min n (length xs)
  length-take zero xs = omega arith
  length-take (suc n) [] = omega arith
  length-take (suc n) (x ∷ xs) = omega (arith, length-take n xs)

  pub length-drop : (n : ℕ) (xs : List A) → length (drop n xs) ≡ length xs - n
  length-drop zero xs = omega arith
  length-drop (suc n) [] = omega arith
  length-drop (suc n) (x ∷ xs) = omega (arith, length-drop n xs)

  pub take-all : (n : ℕ) (xs : List A) → length xs ≤ n → take n xs ≡ xs
  take-all zero [] h = refl
  take-all zero (x ∷ xs) h = absurd (omega arith)
  take-all (suc n) [] h = refl
  take-all (suc n) (x ∷ xs) h = ap (λ t. x ∷ t) (take-all n xs (omega arith))

  pub take-nil : (n : ℕ) → take n [] ≡ []
  take-nil zero = refl
  take-nil (suc n) = refl

  pub take_split : (m n : ℕ) (xs : List A) → take m xs ++ take n (drop m xs) ≡ take (m + n) xs
  take_split zero n xs = let start : 0 + n ≡ n = omega arith in rw start
  take_split (suc m) n [] = rw (take-nil n, take-nil (suc m + n))
  take_split (suc m) n (x ∷ xs) =
      let step : suc m + n ≡ suc (m + n) = omega arith in
      rw step (ap (λ t. x ∷ t) (take_split m n xs))

  pub drop-drop : (m n : ℕ) (xs : List A) → drop n (drop m xs) ≡ drop (m + n) xs
  drop-drop zero n xs = let start : 0 + n ≡ n = omega arith in rw start
  drop-drop (suc m) zero [] = let step : suc m + 0 ≡ suc m = omega arith in rw step
  drop-drop (suc m) (suc n) [] = let step : suc m + suc n ≡ suc (m + suc n) = omega arith in rw step
  drop-drop (suc m) n (x ∷ xs) =
      let step : suc m + n ≡ suc (m + n) = omega arith in rw step (drop-drop m n xs)

  pub slice-append :
      (xs : List A) (i j k : ℕ) → i ≤ j → j ≤ k → slice xs i j ++ slice xs j k ≡ slice xs i k
  slice-append xs i j k h g =
      let there : i + (j - i) ≡ j = omega arith in
      let whole : (j - i) + (k - j) ≡ k - i = omega arith in
      let moved : drop j xs ≡ drop (j - i) (drop i xs) =
        sym (drop-drop i (j - i) xs ∙ ap (λ (t : ℕ). drop t xs) there) in
      rw (moved, take_split, whole)

  pub take-append : (xs ys : List A) → take (length xs) (xs ++ ys) ≡ xs
  take-append [] ys = refl
  take-append (x ∷ xs) ys = ap (λ t. x ∷ t) (take-append xs ys)

  pub drop-append : (xs ys : List A) → drop (length xs) (xs ++ ys) ≡ ys
  drop-append [] ys = refl
  drop-append (x ∷ xs) ys = drop-append xs ys

  pub drop-append_cons :
      (xs : List A) (y : A) (ys : List A) → drop (suc (length xs)) (xs ++ y ∷ ys) ≡ ys
  drop-append_cons [] y ys = refl
  drop-append_cons (x ∷ xs) y ys = drop-append_cons xs y ys

  pub take-append_cons :
      (xs : List A) (y : A) (ys : List A) → take (suc (length xs)) (xs ++ y ∷ ys) ≡ xs ++ y ∷ []
  take-append_cons [] y ys = refl
  take-append_cons (x ∷ xs) y ys = ap (λ t. x ∷ t) (take-append_cons xs y ys)

  -- What stands in the middle of a list is the slice there.
  pub slice-append_middle :
      (xs ys zs : List A) → slice (xs ++ (ys ++ zs)) (length xs) (length xs + length ys) ≡ ys
  slice-append_middle xs ys zs =
      let count : length xs + length ys - length xs ≡ length ys = omega arith in
      rw (count, drop-append xs (ys ++ zs)) (take-append ys zs)

  pub slice_empty : (xs : List A) (i : ℕ) → slice xs i i ≡ []
  slice_empty xs i = let count : i - i ≡ 0 = omega arith in rw count

  pub slice_end : (xs : List A) (i : ℕ) → slice xs i (length xs) ≡ drop i xs
  slice_end xs i = take-all _ (drop i xs) (omega (arith, length-drop i xs))

  pub eq_nil_of_length : (xs : List A) → length xs ≡ 0 → xs ≡ []
  eq_nil_of_length [] h = refl
  eq_nil_of_length (x ∷ xs) h = absurd (omega arith)

module _ {ℓ} {A : Type ℓ} where
  pub length-concat-replicate :
      (n : ℕ) (xs : List A) → length (concat (replicate n xs)) ≡ n * length xs
  length-concat-replicate zero xs = omega arith
  length-concat-replicate (suc n) xs =
      omega (arith, length-append xs (concat (replicate n xs)), length-concat-replicate n xs)

module _ {ℓ} {A : Type ℓ} where
  -- A list that is cut in two, by the length of its first part.
  pub drop_cut : (xs ys zs : List A) (k : ℕ) → xs ≡ ys ++ zs → length ys ≡ k → drop k xs ≡ zs
  drop_cut xs ys zs k cut size =
      ap (λ t. drop k t) cut ∙ ap (λ (t : ℕ). drop t (ys ++ zs)) (sym size) ∙ drop-append ys zs

  pub drop-append_le :
      (n : ℕ) (xs ys : List A) → n ≤ length xs → drop n (xs ++ ys) ≡ drop n xs ++ ys
  drop-append_le zero xs ys h = refl
  drop-append_le (suc n) [] ys h = absurd (omega arith)
  drop-append_le (suc n) (x ∷ xs) ys h = drop-append_le n xs ys (omega arith)

  pub drop-append_ge :
      (n : ℕ) (xs ys : List A) → length xs ≤ n → drop n (xs ++ ys) ≡ drop (n - length xs) ys
  drop-append_ge n [] ys h = let same : n ≡ n - 0 = omega arith in ap (λ (t : ℕ). drop t ys) same
  drop-append_ge zero (x ∷ xs) ys h = absurd (omega arith)
  drop-append_ge (suc n) (x ∷ xs) ys h =
      let same : n - length xs ≡ suc n - suc (length xs) = omega arith in
      drop-append_ge n xs ys (omega arith) ∙ ap (λ (t : ℕ). drop t ys) same

  pub take-take_le : (n m : ℕ) (xs : List A) → n ≤ m → take n (take m xs) ≡ take n xs
  take-take_le zero m xs h = refl
  take-take_le (suc n) zero xs h = absurd (omega arith)
  take-take_le (suc n) (suc m) [] h = refl
  take-take_le (suc n) (suc m) (x ∷ xs) h = ap (λ t. x ∷ t) (take-take_le n m xs (omega arith))
