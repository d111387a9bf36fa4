-- ===== src/Refcount/Owning.antt =====
-- What programs can rely on that use counted pointers (refcount.h, refcount.cpp, memory.h).
use kj.Base.{
  ℕ, zero, suc, ◌+◌, ◌^◌, ◌<◌, ◌≡◌, ◌≢◌, refl, sym, subst, ap, ◌∙◌, ◌⊎◌, inl, inr, Bool, true,
  false, ◌&&◌, Option, none, some, Bool-cases, List, [], ◌∷◌, length, replicate, ltb, ltb→lt,
  ==_refl, if◌then◌else◌, if_true, arith,
}
use kj.Refcount.{
  Objects, Checked, fine, used_null, and_then, Program, pointer, set_pointer, replace_owners,
  assign, assign_shared, move_assign, Statement, new, share, move, clear, execute, execute_all,
}
use kj.Refcount.Counting.{
  held, count_of, Counted, Counted-ext, count_of-le-length, length-set_pointer,
  count_of-set_pointer, pointer-set_pointer, refcounted-Counted, add_ref-Counted,
  dispose_pointer-Counted,
}

-- Every count is the number of the pointers, and an object is alive where it has one.
abbrev pub IsCounted : Program → Type 0
IsCounted p = Counted (λ o. count_of o p.owners) p.objects

abbrev pub is_set : Option ℕ → Bool
is_set none = false
is_set (some o) = true

-- What the statement names is there: the variables, and the object that is shared.
abbrev pub finds : Statement → List (Option ℕ) → Bool
finds (new i) ps = ltb i (length ps)
finds (share i j) ps = ltb i (length ps) && is_set (pointer j ps)
finds (move i j) ps = ltb i (length ps) && ltb j (length ps)
finds (clear i) ps = ltb i (length ps)

-- The variables after the statement, where `o` is the number of the next object.
abbrev pub owners_after : Statement → ℕ → List (Option ℕ) → List (Option ℕ)
owners_after (new i) o ps = set_pointer i (some o) ps
owners_after (share i j) o ps = set_pointer i (pointer j ps) ps
owners_after (move i j) o ps = set_pointer j none (set_pointer i (pointer j ps) ps)
owners_after (clear i) o ps = set_pointer i none ps

-- It ends with these variables.
abbrev pub EndsWith : List (Option ℕ) → Checked Program → Type 0
EndsWith ps r = (p : Program) × (r ≡ fine p) × (p.owners ≡ ps) × IsCounted p

replace_owners-Goes :
    (old : Option ℕ) (ps : List (Option ℕ)) (s : Objects) (n : ℕ)
    → length ps ≡ n
    → n + 1 < 2 ^ 32
    → Counted (λ o. held o old + count_of o ps) s
    → EndsWith ps (replace_owners old ps s)
unfolding replace_owners and_then
replace_owners-Goes old ps s n len room c =
    let (s', ends, c') =
      dispose_pointer-Counted old (λ o. count_of o ps) s c
        (λ o. let few = count_of-le-length o ps in omega arith) in
    (
      record { owners = ps; objects = s' },
      ap (λ r. and_then r (λ s'. fine (record { owners = ps; objects = s' }))) ends,
      refl,
      c',
    )

assign-Goes :
    (i o : ℕ) (ps : List (Option ℕ)) (s : Objects)
    → i < length ps
    → length ps + 1 < 2 ^ 32
    → Counted (λ j. held j (some o) + count_of j ps) s
    → EndsWith (set_pointer i (some o) ps) (assign i o ps s)
unfolding assign
assign-Goes i o ps s inside room c =
    replace_owners-Goes (pointer i ps) (set_pointer i (some o) ps) s (length ps)
      (length-set_pointer i (some o) ps) room
      (Counted-ext _ _ s (λ j. sym (count_of-set_pointer j i (some o) ps inside)) c)

move_assign-Goes :
    (i j : ℕ) (ps : List (Option ℕ)) (s : Objects)
    → i < length ps
    → j < length ps
    → length ps + 1 < 2 ^ 32
    → Counted (λ o. count_of o ps) s
    → EndsWith (set_pointer j none (set_pointer i (pointer j ps) ps)) (move_assign i j ps s)
unfolding move_assign
move_assign-Goes i j ps s inside_i inside_j room c =
    let written = set_pointer i (pointer j ps) ps in
    let same_length = length-set_pointer i (pointer j ps) ps in
    replace_owners-Goes (pointer i ps) (set_pointer j none written) s (length ps)
      (length-set_pointer j none written ∙ same_length) room
      (Counted-ext _ _ s
        (λ o.
          let first = count_of-set_pointer o i (pointer j ps) ps inside_i in
          let second =
            count_of-set_pointer o j none written (subst (λ n. j < n) (sym same_length) inside_j) in
          let there = ap (held o) (pointer-set_pointer i j ps) in omega arith)
        c)

-- A pointer of a variable is one that is counted.
pointer-count_of : (j o : ℕ) (ps : List (Option ℕ)) → pointer j ps ≡ some o → 0 < count_of o ps
pointer-count_of j o [] e = cc
pointer-count_of zero o (p ∷ ps) e =
    let here : held o p ≡ 1 = ap (held o) e ∙ if_true _ _ (==_refl o) in omega arith
pointer-count_of (suc j) o (p ∷ ps) e = let rest = pointer-count_of j o ps e in omega arith

true_ne_false : true ≢ false
true_ne_false e = cc

both_true : (a b : Bool) → (a && b) ≡ true → (a ≡ true) × (b ≡ true)
both_true true true e = (refl, refl)
both_true true false e = (refl, e)
both_true false b e = cc

-- A statement stops where something is missing, and else ends with these variables.
abbrev pub Goes : Bool → List (Option ℕ) → Checked Program → Type 0
Goes there ps r = (there ≡ false → r ≡ used_null) × (there ≡ true → EndsWith ps r)

guarded-Goes :
    (b : Bool) (ps : List (Option ℕ)) (r : Checked Program)
    → (b ≡ true → EndsWith ps r)
    → Goes b ps (if b then r else used_null)
guarded-Goes true ps r goes = (λ e. cc, goes)
guarded-Goes false ps r goes = (λ e. refl, λ e. cc)

and_true : (b : Bool) → (b && true) ≡ b
and_true true = refl
and_true false = refl

and_false : (b : Bool) → (b && false) ≡ false
and_false true = refl
and_false false = refl

assign_shared-Goes :
    (i : ℕ) (q : Option ℕ) (p : Program)
    → ((o : ℕ) → q ≡ some o → 0 < count_of o p.owners)
    → length p.owners + 1 < 2 ^ 32
    → IsCounted p
    → Goes (ltb i (length p.owners) && is_set q) (set_pointer i q p.owners) (assign_shared i q p)
unfolding assign_shared and_then
assign_shared-Goes i none p there room c =
    (λ e. refl, λ e. absurd (true_ne_false (sym e ∙ and_false (ltb i (length p.owners)))))
assign_shared-Goes i (some o) p there room c =
    let few = count_of-le-length o p.owners in
    let (s, ends, c') =
      add_ref-Counted o (λ o. count_of o p.owners) p.objects c (there o refl) (omega arith) in
    subst (λ b. Goes b (set_pointer i (some o) p.owners) (assign_shared i (some o) p))
      (sym (and_true (ltb i (length p.owners))))
      (guarded-Goes (ltb i (length p.owners)) (set_pointer i (some o) p.owners) _ (λ t.
        subst (EndsWith (set_pointer i (some o) p.owners))
          (sym (ap (λ r. and_then r (assign i o p.owners)) ends))
          (assign-Goes i o p.owners s (ltb→lt _ _ t) room c')))

-- In a program of fewer than 2^32 - 1 variables, where every count is the number of the variables that hold the
-- object and exactly the objects that some variable holds are alive, a statement stops where it names a variable that there is not or
-- shares a null pointer. Else it ends with the variables changed as it says, no object is reached that is deleted, no check of a count fails, and
-- the counts and the objects that are alive are right again.
pub execute-EndsWith :
    (u : Statement) (p : Program)
    → length p.owners + 1 < 2 ^ 32
    → IsCounted p
    → (finds u p.owners ≡ false → execute u p ≡ used_null)
      × (finds u p.owners ≡ true
          → EndsWith (owners_after u p.objects.next_object p.owners) (execute u p))
unfolding execute and_then
execute-EndsWith (new i) p room c =
    let (s, ends, c') = refcounted-Counted (λ o. count_of o p.owners) p.objects c in
    let ps = set_pointer i (some p.objects.next_object) p.owners in
    guarded-Goes (ltb i (length p.owners)) ps _ (λ t.
      subst (EndsWith ps)
        (sym (ap (λ r. and_then r (λ made. assign i made.0 p.owners made.1)) ends))
        (assign-Goes i p.objects.next_object p.owners s (ltb→lt _ _ t) room c'))
execute-EndsWith (share i j) p room c =
    assign_shared-Goes i (pointer j p.owners) p (λ o. pointer-count_of j o p.owners) room c
execute-EndsWith (move i j) p room c =
    guarded-Goes (ltb i (length p.owners) && ltb j (length p.owners)) _ _ (λ t.
      let (t_i, t_j) = both_true _ _ t in
      move_assign-Goes i j p.owners p.objects (ltb→lt _ _ t_i) (ltb→lt _ _ t_j) room c)
execute-EndsWith (clear i) p room c = guarded-Goes (ltb i (length p.owners)) _ _ (λ t.
    replace_owners-Goes (pointer i p.owners) (set_pointer i none p.owners) p.objects
      (length p.owners) (length-set_pointer i none p.owners) room
      (Counted-ext (λ o. count_of o p.owners)
        (λ o. held o (pointer i p.owners) + count_of o (set_pointer i none p.owners)) p.objects
        (λ o. let moved = count_of-set_pointer o i none p.owners (ltb→lt _ _ t) in omega arith) c))

length-owners_after :
    (u : Statement) (o : ℕ) (ps : List (Option ℕ)) → length (owners_after u o ps) ≡ length ps
length-owners_after (new i) o ps = length-set_pointer i (some o) ps
length-owners_after (share i j) o ps = length-set_pointer i (pointer j ps) ps
length-owners_after (move i j) o ps =
    length-set_pointer j none (set_pointer i (pointer j ps) ps)
    ∙ length-set_pointer i (pointer j ps) ps
length-owners_after (clear i) o ps = length-set_pointer i none ps

abbrev Runs : Checked Program → Type 0
Runs r = (r ≡ used_null) ⊎ ((p : Program) × (r ≡ fine p) × IsCounted p)

execute_all-Runs :
    (us : List Statement) (p : Program)
    → length p.owners + 1 < 2 ^ 32
    → IsCounted p
    → Runs (execute_all us p)
unfolding execute_all and_then
execute_all-Runs [] p room c = inr (p, refl, c)
execute_all-Runs (u ∷ us) p room c =
    let (stops, goes) = execute-EndsWith u p room c in
    elim (Bool-cases (finds u p.owners)) [
      | inr missing ↦ inl (ap (λ r. and_then r (execute_all us)) (stops missing))
      | inl there ↦
          let (p', ends, after, c') = goes there in
          let same_length =
            ap length after ∙ length-owners_after u p.objects.next_object p.owners in
          subst Runs (sym (ap (λ r. and_then r (execute_all us)) ends))
            (execute_all-Runs us p' (omega arith) c')
    ]

count_of-replicate : (o n : ℕ) → count_of o (replicate n none) ≡ 0
count_of-replicate o zero = refl
count_of-replicate o (suc n) = let rest = count_of-replicate o n in omega arith

length-replicate : (n : ℕ) → length (replicate {A = Option ℕ} n none) ≡ n
length-replicate zero = refl
length-replicate (suc n) = ap (λ k. suc k) (length-replicate n)

-- A program starts with variables that are null, and with no objects.
abbrev pub program_start : ℕ → Program
program_start n = record {
  owners = replicate n none;
  objects = record { refcount = λ _. 0; alive = λ _. false; next_object = 0 };
}

pub program_start-IsCounted : (n : ℕ) → IsCounted (program_start n)
program_start-IsCounted n = record {
  counts = λ o. sym (count_of-replicate o n);
  lives = λ o. rw (count_of-replicate o n);
  unused = λ o _. count_of-replicate o n;
}

-- A program of fewer than 2^32 - 1 variables, which are null at first, never reaches an object that
-- is deleted, and never fails a check of a count: it ends, or stops at a null pointer or a variable
-- that it does not have. Where it ends, every count is the number of variables that hold the object, and
-- exactly the objects that some variable holds are alive.
pub execute_all-counts :
    (us : List Statement) (n : ℕ)
    → n + 1 < 2 ^ 32
    → (execute_all us (program_start n) ≡ used_null)
      ⊎ ((p : Program) × (execute_all us (program_start n) ≡ fine p)
          × ((o : ℕ) → p.objects.refcount o ≡ count_of o p.owners)
          × ((o : ℕ) → p.objects.alive o ≡ ltb 0 (count_of o p.owners)))
execute_all-counts us n room =
    elim (execute_all-Runs us (program_start n)
      (subst (λ k. k + 1 < 2 ^ 32) (sym (length-replicate n)) room) (program_start-IsCounted n)) [
        | inl stopped ↦ inl stopped
        | inr (p, ends, c) ↦ inr (p, ends, c.counts, c.lives)
      ]
