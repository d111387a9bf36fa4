-- ===== src/StringTree/Params.antt =====
-- `strTree(params...)` (string-tree.h) builds a valid tree of its parameters' texts.
use kj.Base.{
  ℕ, suc, ◌+◌, ◌≤◌, ◌≡◌, refl, sym, ap, ◌∙◌, some, List, [], ◌∷◌, ◌++◌, map, append_assoc,
  append-nil, arith, length, length-append, slice, concat as flatten, lt→ltb, slice-append_middle,
  slice-append, slice_empty, slice_end, ==_refl,
}
use kj.Text.{Bytes, sum}
use kj.Text.Filling.{Buffer, heap_string, extend, put-extend, finish-heap_string}
use kj.StringTree.{
  StringTree, tree, Branches, nil, cons, size, of_string, Param, chars, string, subtree, param_size,
  flat_size, branch_count, fill_params, concat,
}
use kj.StringTree.Layout.{contents, weave, IsValid, InOrder, sizes}

-- The text of a parameter, the part of it that is copied, and the branches.
abbrev pub param_text : Param → Bytes
param_text (chars s) = s
param_text (string s) = s
param_text (subtree t) = contents t

abbrev copied : List Param → Bytes
copied [] = []
copied (chars s ∷ ps) = s ++ copied ps
copied (string s ∷ ps) = copied ps
copied (subtree t ∷ ps) = copied ps

abbrev placed : ℕ → List Param → Branches
placed pos [] = nil
placed pos (chars s ∷ ps) = placed (pos + length s) ps
placed pos (string s ∷ ps) = cons pos (of_string s) (placed pos ps)
placed pos (subtree t ∷ ps) = cons pos t (placed pos ps)

abbrev count : List Param → ℕ
count [] = 0
count (chars s ∷ ps) = count ps
count (string s ∷ ps) = suc (count ps)
count (subtree t ∷ ps) = suc (count ps)

abbrev pub AllParamsValid : List Param → Type 0
AllParamsValid [] = Unit {0}
AllParamsValid (chars s ∷ ps) = AllParamsValid ps
AllParamsValid (string s ∷ ps) = AllParamsValid ps
AllParamsValid (subtree t ∷ ps) = IsValid t × AllParamsValid ps

fill_params-placed :
    (ps : List Param) (branches : ℕ) (b : Buffer) (index : ℕ)
    → length b.written + length (copied ps) ≡ b.capacity
    → index + count ps ≡ branches
    → fill_params branches ps b index ≡ some (extend b (copied ps), placed (length b.written) ps)
unfolding fill_params
fill_params-placed [] branches b index e f =
    let full : length b.written ≡ b.capacity = omega arith in
    let all : index ≡ branches = omega arith in
    rw (full, all, ==_refl b.capacity, ==_refl branches, append-nil b.written)
fill_params-placed (chars s ∷ ps) branches b index e f =
    let more = length-append b.written s in
    let whole = length-append s (copied ps) in
    rw (
      put-extend s b (omega arith),
      fill_params-placed ps branches (extend b s) index (omega arith) f,
      more,
      append_assoc,
    )
fill_params-placed (string s ∷ ps) branches b index e f = rw (
  lt→ltb index branches (omega arith),
  fill_params-placed ps branches b (suc index) e (omega arith),
)
fill_params-placed (subtree t ∷ ps) branches b index e f = rw (
  lt→ltb index branches (omega arith),
  fill_params-placed ps branches b (suc index) e (omega arith),
)

weave-placed :
    (ps : List Param) (pre text : Bytes) (pos : ℕ)
    → text ≡ pre ++ copied ps
    → pos ≤ length pre
    → weave (placed (length pre) ps) text pos
      ≡ slice text pos (length pre) ++ flatten (map param_text ps)
unfolding contents of_string
weave-placed [] pre text pos e h =
    let whole : text ≡ pre = e ∙ append-nil pre in rw (whole, slice_end pre pos, append-nil)
weave-placed (chars s ∷ ps) pre text pos e h =
    let more = length-append pre s in
    let shape : text ≡ (pre ++ s) ++ copied ps = e ∙ sym (append_assoc pre s (copied ps)) in
    let middle : slice text (length pre) (length pre + length s) ≡ s =
      rw e (slice-append_middle pre s (copied ps)) in
    let front : slice text pos (length pre + length s) ≡ slice text pos (length pre) ++ s =
      sym (slice-append text pos (length pre) (length pre + length s) h (omega arith))
      ∙ ap (◌++◌ (slice text pos (length pre))) middle in
    let rest = rw more at (weave-placed ps (pre ++ s) text pos shape (omega arith)) in
    rw (front, append_assoc) at rest
weave-placed (string s ∷ ps) pre text pos e h =
    ap (λ rest. slice text pos (length pre) ++ (s ++ rest))
      (weave-placed ps pre text (length pre) e (omega arith) ∙ rw (slice_empty text (length pre)))
weave-placed (subtree t ∷ ps) pre text pos e h =
    ap (λ rest. slice text pos (length pre) ++ (contents t ++ rest))
      (weave-placed ps pre text (length pre) e (omega arith) ∙ rw (slice_empty text (length pre)))

placed-InOrder :
    (ps : List Param) (pos place bound : ℕ)
    → pos ≤ place
    → bound ≡ place + length (copied ps)
    → AllParamsValid ps
    → InOrder (placed place ps) bound pos
unfolding of_string
placed-InOrder [] pos place bound h e ok = omega arith
placed-InOrder (chars s ∷ ps) pos place bound h e ok =
    placed-InOrder ps pos (place + length s) bound (omega arith)
      (omega (arith, length-append s (copied ps))) ok
placed-InOrder (string s ∷ ps) pos place bound h e ok =
    (h, (omega arith, omega arith), placed-InOrder ps place place bound (omega arith) e ok)
placed-InOrder (subtree t ∷ ps) pos place bound h e (valid, ok) =
    (h, valid, placed-InOrder ps place place bound (omega arith) e ok)

sum-flat_size : (acc : ℕ) (ps : List Param) → sum acc (map flat_size ps) ≡ acc + length (copied ps)
unfolding sum flat_size
sum-flat_size acc [] = omega arith
sum-flat_size acc (chars s ∷ ps) =
    omega (arith, sum-flat_size (acc + length s) ps, length-append s (copied ps))
sum-flat_size acc (string s ∷ ps) = omega (arith, sum-flat_size (acc + 0) ps)
sum-flat_size acc (subtree t ∷ ps) = omega (arith, sum-flat_size (acc + 0) ps)

sum-branch_count : (acc : ℕ) (ps : List Param) → sum acc (map branch_count ps) ≡ acc + count ps
unfolding sum branch_count
sum-branch_count acc [] = omega arith
sum-branch_count acc (chars s ∷ ps) = omega (arith, sum-branch_count (acc + 0) ps)
sum-branch_count acc (string s ∷ ps) = omega (arith, sum-branch_count (acc + 1) ps)
sum-branch_count acc (subtree t ∷ ps) = omega (arith, sum-branch_count (acc + 1) ps)

sum-param_size :
    (acc place : ℕ) (ps : List Param)
    → sum acc (map param_size ps) ≡ acc + length (copied ps) + sizes (placed place ps)
unfolding sum of_string
sum-param_size acc place [] = omega arith
sum-param_size acc place (chars s ∷ ps) =
    omega
      (arith, sum-param_size (acc + length s) (place + length s) ps, length-append s (copied ps))
sum-param_size acc place (string s ∷ ps) = omega (arith, sum-param_size (acc + length s) place ps)
sum-param_size acc place (subtree t ∷ ps) = omega (arith, sum-param_size (acc + size t) place ps)

-- `strTree(params...)` on valid parameters passes its own check that the text and the branches are
-- full, and gives a valid tree, whose text is the parameters' texts one after another.
pub contents-concat :
    (params : List Param)
    → AllParamsValid params
    → (t : StringTree) × (concat params ≡ some t)
      × IsValid t
      × (contents t ≡ flatten (map param_text params))
unfolding concat contents heap_string
contents-concat params ok =
    let n = sum 0 (map param_size params) in
    let copy_size : sum 0 (map flat_size params) ≡ length (copied params) =
      omega (arith, sum-flat_size 0 params) in
    let branches : sum 0 (map branch_count params) ≡ count params =
      omega (arith, sum-branch_count 0 params) in
    (
      tree n (copied params) (placed 0 params),
      rw (
        copy_size,
        branches,
        fill_params-placed params (count params) (heap_string (length (copied params))) 0
            (omega arith) (omega arith),
        finish-heap_string (length (copied params)) (copied params) refl,
      ),
      (
        omega (arith, sum-param_size 0 0 params),
        placed-InOrder params 0 0 (length (copied params)) (omega arith) (omega arith) ok,
      ),
      weave-placed params [] (copied params) 0 refl (omega arith),
    )
