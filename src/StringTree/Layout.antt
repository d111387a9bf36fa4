-- ===== src/StringTree/Layout.antt =====
-- Which trees the constructors build, and what text such a tree stands for.
use kj.Base.{
  ℕ, ◌+◌, ◌-◌, ◌≤◌, ◌≡◌, ◌++◌, arith, drop, length, length-append, length-drop, length-take, slice,
}
use kj.Text.{Bytes}
use kj.StringTree.{StringTree, tree, Branches, nil, cons, size}

unfoldable mutual
  -- The text that a tree stands for: each branch's content, at its index.
  pub contents : StringTree → Bytes
  contents (tree n text branches) = weave branches text 0

  pub weave : Branches → Bytes → ℕ → Bytes
  weave nil text pos = drop pos text
  weave (cons index content rest) text pos =
      slice text pos index ++ (contents content ++ weave rest text index)

abbrev pub sizes : Branches → ℕ
sizes nil = 0
sizes (cons index content rest) = size content + sizes rest

abbrev mutual
  -- The indices rise and stay within the text, and `size_` counts the text and all the branches.
  pub IsValid : StringTree → Type 0
  IsValid (tree n text branches) =
      (n ≡ length text + sizes branches) × InOrder branches (length text) 0

  pub InOrder : Branches → ℕ → ℕ → Type 0
  InOrder nil bound pos = pos ≤ bound
  InOrder (cons index content rest) bound pos =
      (pos ≤ index) × IsValid content × InOrder rest bound index

pub InOrder-le : (branches : Branches) (bound pos : ℕ) → InOrder branches bound pos → pos ≤ bound
InOrder-le nil bound pos h = h
InOrder-le (cons index content rest) bound pos h =
    omega (arith, InOrder-le rest bound index h.2, h.0)

mutual
  unfolding contents

  length-contents' : (t : StringTree) → IsValid t → length (contents t) ≡ size t
  length-contents' (tree n text branches) (e, h) = omega (arith, length-weave branches text 0 h)

  length-weave :
      (branches : Branches) (text : Bytes) (pos : ℕ)
      → InOrder branches (length text) pos
      → length (weave branches text pos) + pos ≡ length text + sizes branches
  length-weave nil text pos h = omega (arith, length-drop pos text)
  length-weave (cons index content rest) text pos (rising, ok, h) = omega (
    arith,
    length-append (slice text pos index) (contents content ++ weave rest text index),
    length-append (contents content) (weave rest text index),
    length-contents' content ok,
    length-weave rest text index h,
    InOrder-le rest (length text) index h,
    length-take (index - pos) (drop pos text),
    length-drop pos text,
  )

-- `size()` is the length of the text that the tree stands for.
pub length-contents : (t : StringTree) → IsValid t → length (contents t) ≡ size t
length-contents t h = length-contents' t h
