-- ===== src/StringTree.antt =====
-- string-tree.h and string-tree.cpp: a text held as a tree of strings. A branch says at which index
-- of its parent's own text its content stands.
pub mod Layout
pub mod Flatten
pub mod Examples
pub mod Pieces
pub mod Params
use kj.Base.{
  ℕ, zero, suc, ◌+◌, ◌-◌, ◌*◌, Bool, Option, none, some, List, [], ◌∷◌, ◌++◌, map, length, slice,
  ltb, ◌==◌, ◌&&◌, if◌then◌else◌, ◌>>=◌,
}
use kj.Text.{Bytes, sum}
use kj.Text.Filling.{Buffer, heap_string, put, put_at, finish}

mutual
  -- `size_`, `text` and `branches`
  pub data StringTree : Type 0 where
    tree : ℕ → Bytes → Branches → StringTree

  -- `index` and `content` of each branch, in order
  pub data Branches : Type 0 where
    nil : Branches
    cons : ℕ → StringTree → Branches → Branches

abbrev pub size : StringTree → ℕ
size (tree n text branches) = n

-- `StringTree(String&& text)`
unfoldable pub of_string : Bytes → StringTree
of_string text = tree (length text) text nil

-- What a moved-from tree is left as: the number stays, the text and the branches are gone.
unfoldable pub moved : StringTree → StringTree
moved (tree n text branches) = tree n [] nil

-- `visit`: `func` takes a run of characters and changes what it closes over.
module _ {ℓ} {S : Type ℓ} (func : Bytes → S → S) where
  unfoldable mutual
    pub visit : StringTree → S → S
    visit (tree n text branches) s = visit_branches branches text 0 s

    pub visit_branches : Branches → Bytes → ℕ → S → S
    visit_branches nil text pos s =
        if ltb pos (length text) then func (slice text pos (length text)) s else s
    visit_branches (cons index content rest) text pos s =
        visit_branches rest text (if ltb pos index then index else pos)
          (visit content (if ltb pos index then func (slice text pos index) s else s))

-- The lambda of `flattenTo`: copy the run and move the target.
abbrev pub copy_run : Bytes → Option Buffer → Option Buffer
copy_run text target = target >>= put text

unfoldable pub flatten_to : StringTree → Option Buffer → Option Buffer
flatten_to t = visit copy_run t

unfoldable pub flatten : StringTree → Option Bytes
unfolding flatten_to visit
flatten t = flatten_to t (some (heap_string (size t))) >>= finish

-- The loop of `StringTree(Array<StringTree>&& pieces, StringPtr delim)`, from `i = 1` on, over the
-- pieces that are left. It returns the text, the branches and `size_`.
unfoldable pub join_loop : Bytes → ℕ → List StringTree → Buffer → ℕ → Option (Buffer × Branches × ℕ)
unfolding moved
join_loop delim i [] text n = some (text, nil, n)
join_loop delim i (piece ∷ pieces) text n =
    let copied =
      if ltb 0 (length delim) then put_at ((i - 1) * length delim) delim text else some text in
    copied >>= λ text'.
    join_loop delim (suc i) pieces text' (n + size (moved piece)) >>= λ (text'', rest, n').
    some (text'', cons (i * length delim) piece rest, n')

unfoldable pub of_pieces : List StringTree → Bytes → Option StringTree
unfolding join_loop
of_pieces [] delim = some (tree 0 [] nil)
of_pieces (piece ∷ pieces) delim =
    let text_size =
      if ltb 1 (suc (length pieces)) && ltb 0 (length delim)
      then (suc (length pieces) - 1) * length delim
      else 0 in
    join_loop delim 1 pieces (heap_string text_size) (text_size + size (moved piece))
    >>= λ (text, rest, n). finish text >>= λ text'. some (tree n text' (cons 0 piece rest))

-- A parameter of `concat`: a sequence of characters, or a `String&&` or `StringTree&&` that is
-- taken over without a copy.
pub data Param : Type 0 where
  chars : Bytes → Param
  string : Bytes → Param
  subtree : StringTree → Param

abbrev pub param_size : Param → ℕ
param_size (chars s) = length s
param_size (string s) = length s
param_size (subtree t) = size t

unfoldable pub flat_size : Param → ℕ
flat_size (chars s) = length s
flat_size (string s) = 0
flat_size (subtree t) = 0

unfoldable pub branch_count : Param → ℕ
branch_count (chars s) = 0
branch_count (string s) = 1
branch_count (subtree t) = 1

-- The overloads of `fill`: `pos` is the end of what is written of the text, and `index` counts the
-- branches that are filled in. The last overload checks that both arrays are full.
unfoldable pub fill_params : ℕ → List Param → Buffer → ℕ → Option (Buffer × Branches)
fill_params branches [] pos index =
    if (length pos.written == pos.capacity) && (index == branches) then some (pos, nil) else none
fill_params branches (chars s ∷ rest) pos index =
    put s pos >>= λ pos'. fill_params branches rest pos' index
fill_params branches (string s ∷ rest) pos index =
    if ltb index branches
    then (fill_params branches rest pos (suc index) >>= λ (pos', more).
        some (pos', cons (length pos.written) (of_string s) more))
    else none
fill_params branches (subtree t ∷ rest) pos index =
    if ltb index branches
    then (fill_params branches rest pos (suc index) >>= λ (pos', more).
        some (pos', cons (length pos.written) t more))
    else none

-- `StringTree::concat`, and so `strTree`
unfoldable pub concat : List Param → Option StringTree
unfolding fill_params flat_size branch_count sum
concat params =
    fill_params (sum 0 (map branch_count params)) params
      (heap_string (sum 0 (map flat_size params))) 0
    >>= λ (text, branches).
        finish text >>= λ text'. some (tree (sum 0 (map param_size params)) text' branches)
