-- ===== src/Arrays/Calls.antt =====
-- A vector behaves as the list of its elements (vector.h).
use kj.Base.{
  ℕ, suc, ◌+◌, ◌-◌, ◌^◌, ◌<◌, ◌≡◌, refl, sym, subst, ap, ◌∙◌, inl, inr, Bool, true, Option, none,
  some, List, [], ◌∷◌, ◌++◌, length, take, replicate, length-append, length-take, leb, ltb, lt→ltb,
  le→leb, le→ltb, ◌==◌, ==_refl, if◌then◌else◌, if_true, if_false, ◌>>=◌, arith, Bool-cases,
}
use kj.Arrays.Builder.{
  ArrayBuilder, size, is_full, builder_add, builder_add_all, builder_remove_last, finish,
}
use kj.Arrays.Vector.{add_defaults, remove_many, add, add_all, resize, release_as_array}
use kj.Arrays.Growth.{
  Holds, Done, move_elements_lem, add_defaults_lem, remove_many_lem, length-replicate,
  take-append-replicate, set_capacity_lem, make_room,
}

pub data Op {ℓ} (A : Type ℓ) : Type ℓ where
  push : A → Op A
  append : List A → Op A
  pop : Op A
  resize_to : ℕ → A → Op A

module _ {ℓ} {A : Type ℓ} where
  -- What the calls do to the list of the elements.
  abbrev pub spec : Op A → List A → Option (List A)
  spec (push x) xs = some (xs ++ x ∷ [])
  spec (append ys) xs = some (xs ++ ys)
  spec pop xs = if ltb 0 (length xs) then some (take (length xs - 1) xs) else none
  spec (resize_to n x) xs = some (take n xs ++ replicate (n - length xs) x)

  -- `b` answers a call like the list: with the changed vector, or by an exception.
  abbrev pub Answers : Option (List A) → Option (ArrayBuilder A) → Type ℓ
  Answers none r = r ≡ none
  Answers (some xs) r = Done xs r

  -- The lists that calls lead through are shorter than 2^62.
  abbrev pub Fits : Op A → List A → Type 0
  Fits (push x) xs = length xs < 2 ^ 62
  Fits (append ys) xs = length xs + length ys < 2 ^ 62
  Fits pop xs = length xs < 2 ^ 62
  Fits (resize_to n x) xs = (length xs < 2 ^ 62) × (n < 2 ^ 62)

  abbrev pub run_spec : List (Op A) → List A → Option (List A)
  run_spec [] xs = some xs
  run_spec (op ∷ ops) xs = spec op xs >>= λ ys. run_spec ops ys

  -- The lists that the calls lead through are shorter than 2^62.
  abbrev pub FitsAll : List (Op A) → Option (List A) → Type 0
  FitsAll ops none = Unit
  FitsAll [] (some xs) = Unit
  FitsAll (op ∷ ops) (some xs) = Fits op xs × FitsAll ops (spec op xs)

module _ {ℓ} {A : Type ℓ} (has_room : ℕ → Bool) (room : (n : ℕ) → has_room n ≡ true) where
  abbrev pub call : Op A → ArrayBuilder A → Option (ArrayBuilder A)
  call (push x) b = add has_room x b
  call (append xs) b = add_all has_room xs b
  call pop b = builder_remove_last b
  call (resize_to n x) b = resize has_room n x b

  add_lem :
      (x : A) (xs : List A) (b : ArrayBuilder A)
      → Holds xs b
      → length xs < 2 ^ 62
      → Done (xs ++ x ∷ []) (add has_room x b)
  unfolding add builder_add is_full
  add_lem x xs b h few =
      let same = ap length h.content in
      let (b', e, h', fits) =
        make_room has_room room (size b == b.capacity) 0 1 xs b h
          (λ open_end. ground (arith, h.room, same)) (λ full. ground (arith, same)) in
      let test : ltb (size b') b'.capacity ≡ true =
        lt→ltb _ _ (omega (arith, ap length h'.content)) in
      (
        record b' { content = b'.content ++ x ∷ [] },
        ap (λ r. r >>= λ b'. builder_add x b') e ∙ if_true _ _ test,
        record {
          content = ap (λ l. l ++ x ∷ []) h'.content;
          room = omega (arith, length-append xs (x ∷ []));
          small = h'.small;
        },
      )

  add_all_lem :
      (ys xs : List A) (b : ArrayBuilder A)
      → Holds xs b
      → length xs + length ys < 2 ^ 62
      → Done (xs ++ ys) (add_all has_room ys b)
  unfolding add_all builder_add_all
  add_all_lem ys xs b h few =
      let same = ap length h.content in
      let (b', e, h', fits) =
        make_room has_room room (ltb b.capacity (size b + length ys)) (size b + length ys)
          (length ys) xs b h (λ short. ground (arith, same))
          (λ long. ground (arith, same, h.room)) in
      let test : leb (size b' + length ys) b'.capacity ≡ true =
        le→leb _ _ (omega (arith, ap length h'.content)) in
      (
        record b' { content = b'.content ++ ys },
        ap (λ r. r >>= λ b'. builder_add_all ys b') e ∙ if_true _ _ test,
        record {
          content = ap (λ l. l ++ ys) h'.content;
          room = omega (arith, length-append xs ys);
          small = h'.small;
        },
      )

  resize_lem :
      (n : ℕ) (x : A) (xs : List A) (b : ArrayBuilder A)
      → Holds xs b
      → length xs < 2 ^ 62
      → n < 2 ^ 62
      → Done (take n xs ++ replicate (n - length xs) x) (resize has_room n x b)
  unfolding resize
  resize_lem n x xs b h few small =
      let same = ap length h.content in
      let (b', e, h', fits) =
        make_room has_room room (ltb b.capacity n) n (n - length xs) xs b h
          (λ short. ground (arith, h.room)) (λ long. ground (arith, same, h.room)) in
      let same' = ap length h'.content in
      let fill = replicate (n - size b') x in
      let filled = length-replicate (n - size b') x in
      let total = length-append b'.content fill in
      let b'' : ArrayBuilder A = record b' { content = b'.content ++ fill } in
      let grown_to =
        add_defaults_lem (n - size b') x b' ∙ move_elements_lem fill b' (omega (arith, filled)) in
      let cut : size b'' - (size b'' - n) ≡ n = omega (arith, total, filled) in
      let kept : take n (b'.content ++ fill) ≡ take n xs ++ replicate (n - length xs) x =
        ap (λ l. take n (l ++ replicate (n - length l) x)) h'.content
        ∙ take-append-replicate n x xs in
      let length_kept = length-append (take n xs) (replicate (n - length xs) x) in
      (
        record b'' { content = take (size b'' - (size b'' - n)) b''.content },
        ap
              (λ r. r >>= λ b'.
                add_defaults (n - size b') x b' >>= λ b''. remove_many (size b'' - n) b'')
              e
            ∙ (ap (λ r. r >>= λ b''. remove_many (size b'' - n) b'') grown_to
                ∙ remove_many_lem (size b'' - n) b'' (omega arith)),
        record {
          content = ap (λ (k : ℕ). take k b''.content) cut ∙ kept;
          room =
              omega
                (arith, length_kept, length-take n xs, length-replicate (n - length xs) x, h'.room);
          small = h'.small;
        },
      )

  pop_lem :
      (xs : List A) (b : ArrayBuilder A)
      → Holds xs b
      → 0 < length xs
      → Done (take (length xs - 1) xs) (builder_remove_last b)
  unfolding builder_remove_last
  pop_lem xs b h some_left =
      let test : ltb 0 (size b) ≡ true = lt→ltb _ _ (omega (arith, ap length h.content)) in
      (
        record b { content = take (size b - 1) b.content },
        if_true _ _ test,
        record {
          content = ap (λ l. take (length l - 1) l) h.content;
          room = omega (arith, length-take (length xs - 1) xs, h.room);
          small = h.small;
        },
      )

  pop_none : (b : ArrayBuilder A) → size b ≡ 0 → builder_remove_last b ≡ none
  unfolding builder_remove_last
  pop_none b none_left = if_false _ _ (le→ltb 0 (size b) (omega arith))

  call_lem :
      (op : Op A) (xs : List A) (b : ArrayBuilder A)
      → Holds xs b
      → Fits op xs
      → Answers (spec op xs) (call op b)
  call_lem (push x) xs b h few = add_lem x xs b h few
  call_lem (append ys) xs b h few = add_all_lem ys xs b h few
  call_lem (resize_to n x) xs b h few = resize_lem n x xs b h few.0 few.1
  call_lem pop [] b h few = pop_none b (ap length h.content)
  call_lem pop (y ∷ ys) b h few =
      let more : ltb 0 (suc (length ys)) ≡ true = lt→ltb _ _ (omega arith) in
      rw more (pop_lem (y ∷ ys) b h (omega arith))

  abbrev pub run : List (Op A) → ArrayBuilder A → Option (ArrayBuilder A)
  run [] b = some b
  run (op ∷ ops) b = call op b >>= λ b'. run ops b'

  run_on :
      (ops : List (Op A)) (o : Option (List A)) (r : Option (ArrayBuilder A))
      → ((ys : List A) (b : ArrayBuilder A)
          → Holds ys b
          → FitsAll ops (some ys)
          → Answers (run_spec ops ys) (run ops b))
      → FitsAll ops o
      → Answers o r
      → Answers (o >>= λ ys. run_spec ops ys) (r >>= λ b. run ops b)
  run_on ops none r rest fits failed = ap (λ r. r >>= λ b. run ops b) failed
  run_on ops (some ys) r rest fits (b, e, holds) =
      subst (λ r. Answers (run_spec ops ys) (r >>= λ b. run ops b)) (sym e) (rest ys b holds fits)

  -- Calls of a vector answer as on the list of its elements: `add`, `addAll`, `removeLast` and
  -- `resize` end with a vector that holds the changed list, and a call fails exactly where the last
  -- element of an empty list is to be removed: by an exception in a build with KJ_DEBUG, and by what
  -- is not defined in others. This is where the heap has room, and for lists that stay shorter than
  -- 2^62.
  pub run-run_spec :
      (ops : List (Op A)) (xs : List A) (b : ArrayBuilder A)
      → Holds xs b
      → FitsAll ops (some xs)
      → Answers (run_spec ops xs) (run ops b)
  run-run_spec [] xs b h fits = (b, refl, h)
  run-run_spec (op ∷ ops) xs b h fits =
      run_on ops (spec op xs) (call op b) (run-run_spec ops) fits.1 (call_lem op xs b h fits.0)

  -- `releaseAsArray` gives exactly the elements, and leaves an empty vector, where the heap has
  -- room.
  pub release_as_array_lem :
      (xs : List A) (b : ArrayBuilder A)
      → Holds xs b
      → release_as_array has_room b ≡ some (xs, record { content = []; capacity = 0 })
  unfolding release_as_array finish is_full
  release_as_array_lem xs b h = elim (Bool-cases (size b == b.capacity)) [
    | inl full ↦
        ap (λ r. r >>= λ b. finish b) (if_true _ _ full)
        ∙ (if_true _ _ full ∙ ap (λ l. some (l, record { content = []; capacity = 0 })) h.content)
    | inr spare ↦
        let exact : ArrayBuilder A = record { content = b.content; capacity = size b } in
        ap (λ r. r >>= λ b. finish b) (if_false _ _ spare)
        ∙ (ap (λ r. r >>= λ b. finish b) (set_capacity_lem has_room room (size b) b (omega arith))
            ∙ (if_true _ _ (==_refl (size exact))
                ∙ ap (λ l. some (l, record { content = []; capacity = 0 })) h.content))
  ]
