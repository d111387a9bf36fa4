-- ===== src/StringTree/Pieces.antt =====
-- `StringTree(pieces, delim)` (string-tree.cpp) builds a valid tree of the pieces with the delimiter
-- between them.
use kj.Base.{
  ℕ, zero, suc, ◌+◌, ◌-◌, ◌*◌, ◌≡◌, refl, sym, subst, ap, ap₂, ◌∙◌, inl, inr, some, List, [], ◌∷◌,
  ◌++◌, map, append_assoc, append-nil, arith, replicate, length, length-append, concat as flatten,
  ltb, lt→ltb, Bool-cases, if◌then◌else◌, ◌&&◌, slice-append_middle, drop-append,
  length-concat-replicate, eq_nil_of_length,
}
use kj.Text.{Bytes}
use kj.Text.Joining.{join, after}
use kj.Text.Filling.{Buffer, heap_string, put_at, extend, Fits, put_at-extend, finish-heap_string}
use kj.StringTree.{StringTree, tree, Branches, nil, cons, size, moved, join_loop, of_pieces}
use kj.StringTree.Layout.{contents, weave, IsValid, InOrder, sizes}

abbrev pub AllValid : List StringTree → Type 0
AllValid [] = Unit {0}
AllValid (t ∷ ts) = IsValid t × AllValid ts

abbrev total : List StringTree → ℕ
total [] = 0
total (t ∷ ts) = size t + total ts

-- The branches from number `i` on.
abbrev joined : ℕ → ℕ → List StringTree → Branches
joined width i [] = nil
joined width i (t ∷ ts) = cons (i * width) t (joined width (suc i) ts)

abbrev delims : Bytes → ℕ → Bytes
delims delim n = flatten (replicate n delim)

sizes-joined : (width i : ℕ) (ts : List StringTree) → sizes (joined width i ts) ≡ total ts
sizes-joined width i [] = refl
sizes-joined width i (t ∷ ts) = ap (λ (n : ℕ). size t + n) (sizes-joined width (suc i) ts)

joined-InOrder :
    (width k bound : ℕ) (ts : List StringTree)
    → bound ≡ k * width + length ts * width
    → AllValid ts
    → InOrder (joined width (suc k) ts) bound (k * width)
joined-InOrder width k bound [] e h = omega arith
joined-InOrder width k bound (t ∷ ts) e (ok, h) =
    (omega arith, ok, joined-InOrder width (suc k) bound ts (omega arith) h)

weave-joined :
    (delim pre text : Bytes) (k : ℕ) (ts : List StringTree)
    → length pre ≡ k * length delim
    → text ≡ pre ++ delims delim (length ts)
    → weave (joined (length delim) (suc k) ts) text (length pre) ≡ after delim (map contents ts)
unfolding contents
weave-joined delim pre text k [] e f = rw f (drop-append pre [])
weave-joined delim pre text k (t ∷ ts) e f =
    let next : suc k * length delim ≡ length pre + length delim = omega arith in
    let more = length-append pre delim in
    let moved_on : length pre + length delim ≡ length (pre ++ delim) = sym more in
    rw next (
      ap₂ ◌++◌ (rw f (slice-append_middle pre delim (delims delim (length ts)))) (
        ap (◌++◌ (contents t)) (
          rw moved_on (
            weave-joined delim (pre ++ delim) text (suc k) ts (omega arith)
              (f ∙ sym (append_assoc pre delim _))))))

size-moved : (t : StringTree) → size (moved t) ≡ size t
unfolding moved
size-moved (tree n text branches) = refl

copy-delim :
    (delim : Bytes) (k : ℕ) (b : Buffer)
    → length b.written ≡ k * length delim
    → Fits delim b
    → (if ltb 0 (length delim) then put_at ((suc k - 1) * length delim) delim b else some b)
      ≡ some (extend b delim)
copy-delim delim k b e h = elim (Bool-cases (ltb 0 (length delim))) [
  | inl some_delim ↦
      let offset : (suc k - 1) * length delim ≡ length b.written =
        let one : suc k - 1 ≡ k = omega arith in rw (one, e) in
      rw (some_delim, put_at-extend ((suc k - 1) * length delim) delim b offset h)
  | inr no_delim ↦
      let empty : delim ≡ [] = eq_nil_of_length delim (ground arith) in
      rw (no_delim, empty, append-nil b.written)
]

join_loop-joined :
    (delim : Bytes) (k : ℕ) (ts : List StringTree) (b : Buffer) (n : ℕ)
    → length b.written ≡ k * length delim
    → Fits (delims delim (length ts)) b
    → join_loop delim (suc k) ts b n
      ≡ some (extend b (delims delim (length ts)), joined (length delim) (suc k) ts, n + total ts)
unfolding join_loop
join_loop-joined delim k [] b n e h =
    let same : n + 0 ≡ n = omega arith in rw (same, append-nil b.written)
join_loop-joined delim k (t ∷ ts) b n e h =
    let rest = delims delim (length ts) in
    let whole = length-append delim rest in
    let more = length-append b.written delim in
    let count : n + (size t + total ts) ≡ n + size t + total ts = omega arith in
    rw
      (
        copy-delim delim k b e (omega arith),
        size-moved t,
        join_loop-joined delim (suc k) ts (extend b delim) (n + size t) (omega arith) (omega arith),
      )
      (rw (count, append_assoc) refl)

text_size_lem : (m d : ℕ) → (if ltb 1 (suc m) && ltb 0 d then (suc m - 1) * d else 0) ≡ m * d
text_size_lem zero d = ground arith
text_size_lem (suc m) zero = ground arith
text_size_lem (suc m) (suc d) =
    let one : suc (suc m) - 1 ≡ suc m = omega arith in
    rw (lt→ltb 1 (suc (suc m)) (omega arith), lt→ltb 0 (suc d) (omega arith), one)

of_pieces_cons :
    (t : StringTree) (ts : List StringTree) (delim : Bytes)
    → let text = delims delim (length ts) in
      of_pieces (t ∷ ts) delim
      ≡ some (
          tree
            (length ts * length delim + size t + total ts)
            text
            (cons 0 t (joined (length delim) 1 ts)))
unfolding of_pieces heap_string
of_pieces_cons t ts delim =
    let width = length-concat-replicate (length ts) delim in
    let start : 0 ≡ 0 * length delim = omega arith in
    rw (
      text_size_lem (length ts) (length delim),
      size-moved t,
      join_loop-joined delim 0 ts (heap_string (length ts * length delim))
          (length ts * length delim + size t) start (omega arith),
      finish-heap_string (length ts * length delim) (delims delim (length ts)) width,
    )

-- `StringTree(pieces, delim)` on valid pieces is a valid tree, whose text is the pieces' texts with
-- the delimiter between each two of them.
pub of_pieces-join :
    (pieces : List StringTree) (delim : Bytes)
    → AllValid pieces
    → (t : StringTree) × (of_pieces pieces delim ≡ some t)
      × IsValid t
      × (contents t ≡ join delim (map contents pieces))
unfolding contents of_pieces
of_pieces-join [] delim h = (tree 0 [] nil, refl, (omega arith, omega arith), refl)
of_pieces-join (p ∷ ps) delim (ok, h) =
    let text = delims delim (length ps) in
    let width = length-concat-replicate (length ps) delim in
    let at_start : 0 * length delim ≡ 0 = omega arith in
    (
      tree (length ps * length delim + size p + total ps) text
          (cons 0 p (joined (length delim) 1 ps)),
      of_pieces_cons p ps delim,
      (
        omega (arith, sizes-joined (length delim) 1 ps, width),
        (
          omega arith,
          ok,
          subst (λ (pos : ℕ). InOrder (joined (length delim) 1 ps) (length text) pos) at_start
              (joined-InOrder (length delim) 0 (length text) ps (omega (arith, width)) h),
        ),
      ),
      ap (◌++◌ (contents p)) (weave-joined delim [] text 0 ps (omega arith) refl),
    )
