-- ===== src/EventLoop/Queue.antt =====
-- The pointers of an event loop as a list of events: `front` holds what was armed depth-first since
-- the current event began to run, `back` what follows.
use kj.Base.{
  ℕ, ◌≡◌, ◌≢◌, refl, Bool, true, false, ◌||◌, Option, none, some, List, [], ◌∷◌, ◌++◌, arith, ◌==◌,
  ap, ◌∙◌,
}
use kj.EventLoop.{Slot, head, next_of, EventLoop, read}

abbrev pub has : ℕ → List ℕ → Bool
has e [] = false
has e (x ∷ xs) = (e == x) || has e xs

abbrev pub Distinct : List ℕ → Type 0
Distinct [] = Unit {0}
Distinct (x ∷ xs) = (has x xs ≡ false) × Distinct xs

pub has-append : (e : ℕ) (xs ys : List ℕ) → has e (xs ++ ys) ≡ (has e xs || has e ys)
has-append e [] ys = refl
has-append e (x ∷ xs) ys = ground (arith, has-append e xs ys)

-- The `next` pointers lead from a slot through the events to a null pointer, and each event's `prev`
-- is the slot that points to it.
abbrev pub Chain : EventLoop → Slot → List ℕ → Type 0
Chain l slot [] = read l slot ≡ none
Chain l slot (e ∷ es) = (read l slot ≡ some e) × (l.prev e ≡ some slot) × Chain l (next_of e) es

-- The slot behind some events.
abbrev pub end_slot : Slot → List ℕ → Slot
end_slot slot [] = slot
end_slot slot (e ∷ es) = end_slot (next_of e) es

-- The slot is not inside one of the events.
abbrev pub Outside : Slot → List ℕ → Type 0
Outside head es = Unit {0}
Outside (next_of e) es = has e es ≡ false

-- A chain stays where its slots and its events' fields stay.
pub Chain-frame :
    (l l' : EventLoop) (slot : Slot) (es : List ℕ)
    → read l' slot ≡ read l slot
    → ((e : ℕ) → has e es ≡ true → (l'.next e ≡ l.next e) × (l'.prev e ≡ l.prev e))
    → Chain l slot es
    → Chain l' slot es
Chain-frame l l' slot [] at same c = at ∙ c
Chain-frame l l' slot (e ∷ es) at same (here, back, rest) =
    let fields = same e (ground arith) in
    (
      at ∙ here,
      fields.1 ∙ back,
      Chain-frame l l' (next_of e) es fields.0 (λ a h. same a (ground arith)) rest,
    )

-- The slot behind some events is inside the last of them.
abbrev pub last_of : ℕ → List ℕ → ℕ
last_of x [] = x
last_of x (y ∷ ys) = last_of y ys

pub end_slot_last :
    (slot : Slot) (x : ℕ) (xs : List ℕ) → end_slot slot (x ∷ xs) ≡ next_of (last_of x xs)
end_slot_last slot x [] = refl
end_slot_last slot x (y ∷ ys) = end_slot_last (next_of x) y ys

pub has-last_of : (x : ℕ) (xs : List ℕ) → has (last_of x xs) (x ∷ xs) ≡ true
has-last_of x [] = ground arith
has-last_of x (y ∷ ys) = ground (arith, has-last_of y ys)

abbrev pub first_of : List ℕ → Option ℕ
first_of [] = none
first_of (x ∷ xs) = some x

pub Chain-first : (l : EventLoop) (es : List ℕ) → Chain l head es → l.first ≡ first_of es
Chain-first l [] c = c
Chain-first l (e ∷ es) c = c.0

pub Chain-end_slot :
    (l : EventLoop) (slot : Slot) (xs ys : List ℕ)
    → Chain l slot (xs ++ ys)
    → read l (end_slot slot xs) ≡ first_of ys
Chain-end_slot l slot [] [] c = c
Chain-end_slot l slot [] (y ∷ ys) c = c.0
Chain-end_slot l slot (x ∷ xs) ys c = Chain-end_slot l (next_of x) xs ys c.2

pub has-ne : (a e : ℕ) (xs : List ℕ) → has a xs ≡ true → has e xs ≡ false → (a == e) ≡ false
has-ne a e xs h new = ground arith

pub has-append_false :
    (e : ℕ) (xs ys : List ℕ) → has e (xs ++ ys) ≡ false → (has e xs ≡ false) × (has e ys ≡ false)
has-append_false e xs ys h = ground (arith, has-append e xs ys)

pub Outside-mem :
    (slot : Slot) (a : ℕ) (xs : List ℕ) → Outside slot xs → has a xs ≡ true → Outside slot (a ∷ [])
Outside-mem head a xs out h = tt
Outside-mem (next_of p) a xs out h = ground arith

pub first_of-ne : (x : ℕ) (ys : List ℕ) → has x ys ≡ false → first_of ys ≢ some x
first_of-ne x [] h e = cc
first_of-ne x (y ∷ ys) h e = ground arith

-- A chain does not depend on the loop's other fields.
read-same :
    (l l' : EventLoop) (slot : Slot)
    → l'.first ≡ l.first
    → l'.next ≡ l.next
    → read l' slot ≡ read l slot
read-same l l' head e f = e
read-same l l' (next_of p) e f = ap (λ next. next p) f

pub Chain-same :
    (l l' : EventLoop) (slot : Slot) (es : List ℕ)
    → l'.first ≡ l.first
    → l'.next ≡ l.next
    → l'.prev ≡ l.prev
    → Chain l slot es
    → Chain l' slot es
Chain-same l l' slot es e f g =
    Chain-frame l l' slot es (read-same l l' slot e f)
      (λ a h. (ap (λ next. next a) f, ap (λ prev. prev a) g))

pub next-Chain :
    (l : EventLoop) (slot : Slot) (e : ℕ) (xs ys : List ℕ)
    → Chain l slot (xs ++ e ∷ ys)
    → l.next e ≡ first_of ys
next-Chain l slot e [] [] c = c.2
next-Chain l slot e [] (y ∷ ys) c = c.2.0
next-Chain l slot e (x ∷ xs) ys c = next-Chain l (next_of x) e xs ys c.2

pub prev-Chain :
    (l : EventLoop) (slot : Slot) (e : ℕ) (xs ys : List ℕ)
    → Chain l slot (xs ++ e ∷ ys)
    → l.prev e ≡ some (end_slot slot xs)
prev-Chain l slot e [] ys c = c.1
prev-Chain l slot e (x ∷ xs) ys c = prev-Chain l (next_of x) e xs ys c.2
