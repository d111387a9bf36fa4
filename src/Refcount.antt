-- ===== src/Refcount.antt =====
-- `Refcounted` (refcount.h, refcount.cpp) and the `Own` pointers to such objects (memory.h). The
-- destructors of the objects own nothing of their kind.
pub mod Counting
pub mod Owning
mod Examples
use kj.Base.{
  ℕ, zero, suc, ◌+◌, ◌-◌, ◌%◌, ◌^◌, Bool, true, false, ◌&&◌, Option, none, some, List, [], ◌∷◌,
  length, ltb, ◌==◌, if◌then◌else◌,
}

-- The objects by number: their counts, which of them are alive, and the first number that is free.
pub record Objects : Type 0 where
  pub refcount : ℕ → ℕ
  pub alive : ℕ → Bool
  pub next_object : ℕ

-- How a piece of code ends: `used_null` where it follows a null pointer or names a variable that
-- there is not, `used_freed` where it reaches an object that is deleted, `asserted` where a check of
-- the count throws.
pub data Checked (A : Type 0) : Type 0 where
  fine : A → Checked A
  used_null used_freed asserted : Checked A

unfoldable pub and_then : {A B : Type 0} → Checked A → (A → Checked B) → Checked B
and_then (fine a) f = f a
and_then used_null f = used_null
and_then used_freed f = used_freed
and_then asserted f = asserted

unfoldable pub put_at {ℓ} : {A : Type ℓ} → ℕ → A → (ℕ → A) → ℕ → A
put_at i v f j = if i == j then v else f j

-- `Refcounted::addRefInternal`; the count is a `uint`.
unfoldable pub add_ref_internal : ℕ → Objects → Checked Objects
unfolding put_at
add_ref_internal o s =
    if s.alive o
    then fine (record s { refcount = put_at o ((s.refcount o + 1) % 2 ^ 32) s.refcount })
    else used_freed

-- `refcounted`: the number of the new object.
unfoldable pub refcounted : Objects → Checked (ℕ × Objects)
unfolding add_ref_internal and_then put_at
refcounted s =
    let o = s.next_object in
    let made : Objects = record {
      refcount = put_at o 0 s.refcount;
      alive = put_at o true s.alive;
      next_object = o + 1;
    } in
    and_then (add_ref_internal o made) (λ s'. fine (o, s'))

-- `addRef`
unfoldable pub add_ref : ℕ → Objects → Checked Objects
unfolding add_ref_internal
add_ref o s =
    if s.alive o
    then (if ltb 0 (s.refcount o) then add_ref_internal o s else asserted)
    else used_freed

-- `delete this`, with the check of `~Refcounted`
unfoldable pub delete_object : ℕ → Objects → Checked Objects
unfolding put_at
delete_object o s =
    if s.refcount o == 0 then fine (record s { alive = put_at o false s.alive }) else asserted

-- `Refcounted::disposeImpl`; below zero the `uint` wraps around.
unfoldable pub dispose_impl : ℕ → Objects → Checked Objects
unfolding delete_object put_at
dispose_impl o s =
    let left = (s.refcount o + (2 ^ 32 - 1)) % 2 ^ 32 in
    let s₁ = record s { refcount = put_at o left s.refcount } in
    if s.alive o then (if left == 0 then delete_object o s₁ else fine s₁) else used_freed

-- `Own::dispose` for the pointer that was taken out of the variable.
unfoldable pub dispose_pointer : Option ℕ → Objects → Checked Objects
unfolding dispose_impl
dispose_pointer none s = fine s
dispose_pointer (some o) s = dispose_impl o s

-- The `Own` variables of a program.
pub record Program : Type 0 where
  pub owners : List (Option ℕ)
  pub objects : Objects

abbrev pub pointer : ℕ → List (Option ℕ) → Option ℕ
pointer i [] = none
pointer zero (p ∷ ps) = p
pointer (suc i) (p ∷ ps) = pointer i ps

abbrev pub set_pointer : ℕ → Option ℕ → List (Option ℕ) → List (Option ℕ)
set_pointer i q [] = []
set_pointer zero q (p ∷ ps) = q ∷ ps
set_pointer (suc i) q (p ∷ ps) = p ∷ set_pointer i q ps

-- The end of each assignment: the old object is disposed of when the variables are written.
unfoldable pub replace_owners : Option ℕ → List (Option ℕ) → Objects → Checked Program
unfolding dispose_pointer and_then
replace_owners old ps s =
    and_then (dispose_pointer old s) (λ s'. fine (record { owners = ps; objects = s' }))

-- `Own::operator=(Own&&)` with the value of a call on the right.
unfoldable pub assign : ℕ → ℕ → List (Option ℕ) → Objects → Checked Program
unfolding replace_owners
assign i o ps s = replace_owners (pointer i ps) (set_pointer i (some o) ps) s

-- `Own::operator=(Own&&)` with `mv(j)` on the right; `i` and `j` may be the same.
unfoldable pub move_assign : ℕ → ℕ → List (Option ℕ) → Objects → Checked Program
unfolding replace_owners
move_assign i j ps s =
    replace_owners (pointer i ps) (set_pointer j none (set_pointer i (pointer j ps) ps)) s

-- What a program does with its variables: `i = refcounted<T>()`, `i = addRef(*j)`, `i = mv(j)`, and
-- `i = nullptr`, which is also what the end of its life does.
pub data Statement : Type 0 where
  new clear : ℕ → Statement
  share move : ℕ → ℕ → Statement

-- `i = addRef(*q)`
unfoldable pub assign_shared : ℕ → Option ℕ → Program → Checked Program
unfolding and_then add_ref assign
assign_shared i none p = used_null
assign_shared i (some o) p =
    if ltb i (length p.owners)
    then and_then (add_ref o p.objects) (assign i o p.owners)
    else used_null

unfoldable pub execute : Statement → Program → Checked Program
unfolding and_then refcounted assign assign_shared move_assign replace_owners
execute (new i) p =
    if ltb i (length p.owners)
    then and_then (refcounted p.objects) (λ made. assign i made.0 p.owners made.1)
    else used_null
execute (share i j) p = assign_shared i (pointer j p.owners) p
execute (move i j) p =
    if ltb i (length p.owners) && ltb j (length p.owners)
    then move_assign i j p.owners p.objects
    else used_null
execute (clear i) p =
    if ltb i (length p.owners)
    then replace_owners (pointer i p.owners) (set_pointer i none p.owners) p.objects
    else used_null

unfoldable pub execute_all : List Statement → Program → Checked Program
unfolding execute and_then
execute_all [] p = fine p
execute_all (u ∷ us) p = and_then (execute u p) (execute_all us)
