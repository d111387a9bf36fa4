-- ===== src/StringTree/Flatten.antt =====
-- `flatten` (string-tree.cpp) writes the text that the tree stands for, and every byte of the string
-- exactly once.
use kj.Base.{
  ◌∙◌, ℕ, ◌-◌, ◌≤◌, ◌≡◌, inl, inr, some, ◌++◌, append_assoc, append-nil, arith, drop, take, length,
  length-append, length-drop, slice, ltb, Bool-cases, if◌then◌else◌, take-all,
}
use kj.Text.{Bytes}
use kj.Text.Filling.{Buffer, heap_string, extend, Fits, put-extend, finish-heap_string}
use kj.StringTree.{
  StringTree, tree, Branches, nil, cons, size, visit, visit_branches, copy_run, flatten_to, flatten,
}
use kj.StringTree.Layout.{contents, weave, IsValid, InOrder, InOrder-le, length-contents}

-- A run of the tree's own text is copied if it is not empty.
copy-slice :
    (text : Bytes) (pos index : ℕ) (b : Buffer)
    → pos ≤ index
    → index ≤ length text
    → Fits (slice text pos index) b
    → (if ltb pos index then copy_run (slice text pos index) (some b) else some b)
      ≡ some (extend b (slice text pos index))
copy-slice text pos index b h g room = elim (Bool-cases (ltb pos index)) [
  | inl more ↦ rw (more, put-extend (slice text pos index) b room)
  | inr same ↦
      let none_left : index - pos ≡ 0 = ground arith in rw (same, none_left, append-nil b.written)
]

if-max : (pos index : ℕ) → pos ≤ index → (if ltb pos index then index else pos) ≡ index
if-max pos index h = ground arith

mutual
  unfolding visit contents

  visit-extend :
      (t : StringTree) (b : Buffer)
      → IsValid t
      → Fits (contents t) b
      → visit copy_run t (some b) ≡ some (extend b (contents t))
  visit-extend (tree n text branches) b (e, h) room = visit_branches-extend branches text 0 b h room

  visit_branches-extend :
      (branches : Branches) (text : Bytes) (pos : ℕ) (b : Buffer)
      → InOrder branches (length text) pos
      → Fits (weave branches text pos) b
      → visit_branches copy_run branches text pos (some b)
        ≡ some (extend b (weave branches text pos))
  visit_branches-extend nil text pos b h room =
      let rest : take (length text - pos) (drop pos text) ≡ drop pos text =
        take-all _ (drop pos text) (omega (arith, length-drop pos text)) in
      copy-slice text pos (length text) b h (omega arith) (rw rest room) ∙ rw rest
  visit_branches-extend (cons index content rest) text pos b (rising, ok, h) room =
      let front = slice text pos index in
      let whole = length-append front (contents content ++ weave rest text index) in
      let back = length-append (contents content) (weave rest text index) in
      let first = length-append b.written front in
      let second = length-append (b.written ++ front) (contents content) in
      rw
        (
          if-max pos index rising,
          copy-slice text pos index b rising (InOrder-le rest (length text) index h) (omega arith),
          visit-extend content (extend b front) ok (omega arith),
          visit_branches-extend rest text index (extend (extend b front) (contents content)) h
              (omega arith),
        )
        (simp append_assoc)

-- `flattenTo` stays within a target that has room for `size()` bytes, and appends the tree's text.
pub flatten_to-extend :
    (t : StringTree) (b : Buffer)
    → IsValid t
    → Fits (contents t) b
    → flatten_to t (some b) ≡ some (extend b (contents t))
unfolding flatten_to
flatten_to-extend t b h room = visit-extend t b h room

-- `flatten` of a valid tree returns the tree's text.
pub flatten-contents : (t : StringTree) → IsValid t → flatten t ≡ some (contents t)
unfolding flatten heap_string
flatten-contents t h =
    rw (flatten_to-extend t (heap_string (size t)) h (omega (arith, length-contents t h)))
      (finish-heap_string (size t) (contents t) (length-contents t h))
