-- ===== src/StringTree/Examples.antt =====
-- The theorems about text trees at small trees.
use kj.Base.{◌≡◌, some, [], ◌∷◌, arith}
use kj.StringTree.{StringTree, tree, nil, cons, flatten}
use kj.StringTree.Layout.{contents, IsValid}
use kj.StringTree.Flatten.{flatten-contents}

-- "acb", where "c" is a branch.
abbrev nested : StringTree
nested = tree 3 (b'a' ∷ b'b' ∷ []) (cons 1 (tree 1 (b'c' ∷ []) nil) nil)

nested-IsValid : IsValid nested
nested-IsValid = omega arith

flatten-contents_example : flatten nested ≡ some (b'a' ∷ b'c' ∷ b'b' ∷ [])
unfolding contents
flatten-contents_example = flatten-contents nested nested-IsValid
