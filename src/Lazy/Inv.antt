-- ===== src/Lazy/Inv.antt =====
-- What holds in every reachable state of a lazy value (mutex.h, mutex.cpp).
use native.Mathlib.Decide.{ℕ_discrete}
use mathlib.Core.Logic.{ite}
use kj.Base.{
  ℕ, ◌+◌, ◌≡◌, ◌≢◌, refl, sym, subst, ap, ◌∙◌, ◌⊎◌, inl, inr, Bool, true, false, Option, none, some,
  some_eq, arith,
}
use kj.Lazy.{
  State, uninitialized, initialized, Lazy, Pc, outside, waiting, locked, running, storing, leaving,
  failing, returned, failed, Move, fast, slow, lock, skip, begin, make, throw, store, unlock,
  unlock_failing, System, update, Step, pick, init, Reach, start, later,
}

true_ne_false : true ≢ false
true_ne_false e = cc

-- The thread holds the mutex.
abbrev pub critical : Pc → Bool
critical locked = true
critical running = true
critical storing = true
critical leaving = true
critical failing = true
critical _ = false

-- What a thread's place says of the object.
abbrev pub Knows : Lazy → Pc → Type 0
Knows l running = (l.state ≡ uninitialized) × (l.made ≡ 0)
Knows l storing = (l.made ≡ 1) × (l.state ≡ uninitialized)
Knows l leaving = l.state ≡ initialized
Knows l returned = l.state ≡ initialized
Knows l _ = Unit

-- A value is made at most once; while none is known to be made, a thread that has made it is
-- before the store, in the mutex.
pub record Inv (l : Lazy) (pc : ℕ → Pc) : Type 0 where
  pub owned : (j : ℕ) → critical (pc j) ≡ true → l.owner ≡ some j
  pub holds : (j : ℕ) → l.owner ≡ some j → critical (pc j) ≡ true
  pub knows : (j : ℕ) → Knows l (pc j)
  pub made_once : l.state ≡ initialized → l.made ≡ 1
  pub kept : l.made ≡ 1 → l.value ≢ none
  pub open_end :
      l.state ≡ uninitialized → (l.made ≡ 0) ⊎ ((j : ℕ) × (l.owner ≡ some j) × (pc j ≡ storing))

at_update {κ} :
    (P : Pc → Type κ) (pc : ℕ → Pc) (i : ℕ) (p : Pc) (j : ℕ)
    → (i ≡ j → P p)
    → (i ≢ j → P (pc j))
    → P (update pc i p j)
at_update P pc i p j self other = elim (ℕ_discrete i j) as (λ d. P (ite d p (pc j))) [
  | yes e ↦ self e
  | no n ↦ other n
]

Knows-mono :
    (l l' : Lazy) (q : Pc)
    → critical q ≡ false
    → (l.state ≡ initialized → l'.state ≡ initialized)
    → Knows l q
    → Knows l' q
Knows-mono l l' outside c grows k = tt
Knows-mono l l' waiting c grows k = tt
Knows-mono l l' locked c grows k = tt
Knows-mono l l' running c grows k = cc
Knows-mono l l' storing c grows k = cc
Knows-mono l l' leaving c grows k = cc
Knows-mono l l' failing c grows k = tt
Knows-mono l l' returned c grows k = grows k
Knows-mono l l' failed c grows k = tt

not_true : (b : Bool) → (b ≡ true → ⊥) → b ≡ false
not_true true n = absurd (n refl)
not_true false n = refl

-- A step that leaves the object as it is.
same_object-Inv :
    (i : ℕ) (l : Lazy) (p p' : Pc) (pc : ℕ → Pc)
    → Inv l pc
    → pc i ≡ p
    → p ≢ storing
    → (critical p' ≡ true → l.owner ≡ some i)
    → (l.owner ≡ some i → critical p' ≡ true)
    → Knows l p'
    → Inv l (update pc i p')
same_object-Inv i l p p' pc inv at other owns holds k = record {
  owned = λ j.
      at_update (λ q. critical q ≡ true → l.owner ≡ some j) pc i p' j
        (λ e c. owns c ∙ ap (λ (x : ℕ). some x) e) (λ _. inv.owned j);
  holds = λ j o.
      at_update (λ q. critical q ≡ true) pc i p' j (λ e. holds (o ∙ ap (λ (x : ℕ). some x) (sym e)))
        (λ _. inv.holds j o);
  knows = λ j. at_update (λ q. Knows l q) pc i p' j (λ _. k) (λ _. inv.knows j);
  made_once = inv.made_once;
  kept = inv.kept;
  open_end = λ u. elim (inv.open_end u) [
    | inl none_made ↦ inl none_made
    | inr (j, owner, stores) ↦ inr (
      j,
      owner,
      at_update (λ q. q ≡ storing) pc i p' j (λ e. absurd (other (sym at ∙ (ap pc e ∙ stores))))
          (λ _. stores),
    )
  ];
}

-- A step by which the only thread in the mutex changes the object.
alone-Inv :
    (i : ℕ) (l l' : Lazy) (p' : Pc) (pc : ℕ → Pc)
    → Inv l pc
    → ((j : ℕ) → i ≢ j → critical (pc j) ≡ false)
    → (l.state ≡ initialized → l'.state ≡ initialized)
    → (critical p' ≡ true → l'.owner ≡ some i)
    → ((j : ℕ) → l'.owner ≡ some j → (i ≡ j) × (critical p' ≡ true))
    → Knows l' p'
    → (l'.state ≡ initialized → l'.made ≡ 1)
    → (l'.made ≡ 1 → l'.value ≢ none)
    → (l'.state ≡ uninitialized → (l'.made ≡ 0) ⊎ ((l'.owner ≡ some i) × (p' ≡ storing)))
    → Inv l' (update pc i p')
alone-Inv i l l' p' pc inv alone grows owns holds k once kept end = record {
  owned = λ j.
      at_update (λ q. critical q ≡ true → l'.owner ≡ some j) pc i p' j
        (λ e c. owns c ∙ ap (λ (x : ℕ). some x) e)
        (λ n c. absurd (true_ne_false (sym c ∙ alone j n)));
  holds = λ j o.
      at_update (λ q. critical q ≡ true) pc i p' j (λ _. (holds j o).1)
        (λ n. absurd (n (holds j o).0));
  knows = λ j.
      at_update (λ q. Knows l' q) pc i p' j (λ _. k)
        (λ n. Knows-mono l l' (pc j) (alone j n) grows (inv.knows j));
  made_once = once;
  kept = kept;
  open_end = λ u. elim (end u) [
    | inl none_made ↦ inl none_made
    | inr (owner, stores) ↦
        inr (i, owner, at_update (λ q. q ≡ storing) pc i p' i (λ _. stores) (λ n. absurd (n refl)))
  ];
}

module _ (i : ℕ) (l : Lazy) (pc : ℕ → Pc) (inv : Inv l pc) where
  -- The thread in the mutex is the only one there.
  alone : (p : Pc) → pc i ≡ p → critical p ≡ true → (j : ℕ) → i ≢ j → critical (pc j) ≡ false
  alone p at c j n =
      not_true (critical (pc j))
        (λ c'. n (some_eq i j (sym (inv.owned i (ap critical at ∙ c)) ∙ inv.owned j c')))

  -- Nobody has made a value where a thread in the mutex finds the state uninitialized.
  none_made :
      (p : Pc) → pc i ≡ p → critical p ≡ true → p ≢ storing → l.state ≡ uninitialized → l.made ≡ 0
  none_made p at c other u = elim (inv.open_end u) [
    | inl zero_made ↦ zero_made
    | inr (j, owner, stores) ↦
        let same : i ≡ j = some_eq i j (sym (inv.owned i (ap critical at ∙ c)) ∙ owner) in
        absurd (other (sym at ∙ (ap pc same ∙ stores)))
  ]

-- A thread that is not in the mutex does not own it.
idle :
    (i : ℕ) (l : Lazy) (pc : ℕ → Pc)
    → Inv l pc
    → (p : Pc) → pc i ≡ p
    → critical p ≡ false
    → l.owner ≢ some i
idle i l pc inv p at c o = true_ne_false (sym (inv.holds i o) ∙ (ap critical at ∙ c))

not_uninitialized : (s : State) → s ≢ uninitialized → s ≡ initialized
not_uninitialized uninitialized n = absurd (n refl)
not_uninitialized initialized n = refl

none_ne_some : {A : Type 0} {a : A} → ◌≢◌ {A = Option A} none (some a)
none_ne_some e = cc

pub states_differ : initialized ≢ uninitialized
states_differ e = cc

pub Move-Inv :
    {i : ℕ} {l l' : Lazy} {p p' : Pc} {pc : ℕ → Pc}
    → Inv l pc
    → pc i ≡ p
    → Move i l p l' p'
    → Inv l' (update pc i p')
Move-Inv {i} {l} {pc = pc} inv at (fast e) =
    same_object-Inv i l outside returned pc inv at (cc) (λ c. cc)
      (λ o. absurd (idle i l pc inv outside at refl o)) e
Move-Inv {i} {l} {pc = pc} inv at (slow e) =
    same_object-Inv i l outside waiting pc inv at (cc) (λ c. cc)
      (λ o. absurd (idle i l pc inv outside at refl o)) tt
Move-Inv {i} {l} {pc = pc} inv at (lock e) =
    alone-Inv i l (record l { owner = some i }) locked pc inv
      (λ j n. not_true (critical (pc j)) (λ c. none_ne_some (sym e ∙ inv.owned j c))) (λ s. s)
      (λ _. refl) (λ j o. (some_eq i j o, refl)) tt inv.made_once inv.kept
      (λ u. elim (inv.open_end u) [
        | inl zero_made ↦ inl zero_made
        | inr (j, owner, stores) ↦ absurd (none_ne_some (sym e ∙ owner))
      ])
Move-Inv {i} {l} {pc = pc} inv at (skip e) =
    same_object-Inv i l locked leaving pc inv at (cc) (λ c. inv.owned i (ap critical at))
      (λ _. refl) (not_uninitialized l.state e)
Move-Inv {i} {l} {pc = pc} inv at (begin e) =
    same_object-Inv i l locked running pc inv at (cc) (λ c. inv.owned i (ap critical at))
      (λ _. refl) (e, none_made i l pc inv locked at refl (cc) e)
Move-Inv {i} {l} {pc = pc} inv at (make v) =
    let (fresh, zero_made) = subst (Knows l) at (inv.knows i) in
    let one_made : l.made + 1 ≡ 1 = omega arith in
    alone-Inv i l (record l { value = some v; made = l.made + 1 }) storing pc inv
      (alone i l pc inv running at refl) (λ s. s) (λ c. inv.owned i (ap critical at))
      (λ j o. (some_eq i j (sym (inv.owned i (ap critical at)) ∙ o), refl)) (one_made, fresh)
      (λ s. one_made) (λ _. cc) (λ u. inr (inv.owned i (ap critical at), refl))
Move-Inv {i} {l} {pc = pc} inv at throw =
    same_object-Inv i l running failing pc inv at (cc) (λ c. inv.owned i (ap critical at))
      (λ _. refl) tt
Move-Inv {i} {l} {pc = pc} inv at store =
    let (one_made, fresh) = subst (Knows l) at (inv.knows i) in
    alone-Inv i l (record l { state = initialized }) leaving pc inv
      (alone i l pc inv storing at refl) (λ s. refl) (λ c. inv.owned i (ap critical at))
      (λ j o. (some_eq i j (sym (inv.owned i (ap critical at)) ∙ o), refl)) refl (λ _. one_made)
      inv.kept (λ u. cc)
Move-Inv {i} {l} {pc = pc} inv at unlock =
    let ready = subst (Knows l) at (inv.knows i) in
    alone-Inv i l (record l { owner = none }) returned pc inv (alone i l pc inv leaving at refl)
      (λ s. s) (λ c. cc) (λ j o. absurd (none_ne_some o)) ready inv.made_once inv.kept
      (λ u. absurd (states_differ (sym ready ∙ u)))
Move-Inv {i} {l} {pc = pc} inv at unlock_failing =
    alone-Inv i l (record l { owner = none }) failed pc inv (alone i l pc inv failing at refl)
      (λ s. s) (λ c. cc) (λ j o. absurd (none_ne_some o)) tt inv.made_once inv.kept
      (λ u. inl (none_made i l pc inv failing at refl (cc) u))

pub Step-Inv : {s t : System} → Step s t → Inv s.object s.pc → Inv t.object t.pc
Step-Inv (pick i m) inv = Move-Inv inv refl m

pub init-Inv : Inv init.object init.pc
init-Inv = record {
  owned = λ j c. cc;
  holds = λ j o. cc;
  knows = λ j. tt;
  made_once = λ e. cc;
  kept = λ e. cc;
  open_end = λ _. inl refl;
}

pub Reach-Inv : {s : System} → Reach s → Inv s.object s.pc
Reach-Inv start = init-Inv
Reach-Inv (later r st) = Step-Inv st (Reach-Inv r)
