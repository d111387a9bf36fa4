-- ===== src/Memory/Ranges.antt =====
-- Ranges of memory, by address and size.
use kj.Base.{ℕ, ◌+◌, ◌≤◌, ◌⊎◌, inl, inr, arith, List, [], ◌∷◌, ◌++◌}

-- Two ranges, by address and size, have no byte in common.
abbrev pub Apart : ℕ × ℕ → ℕ × ℕ → Type 0
Apart a b = (a.0 + a.1 ≤ b.0) ⊎ (b.0 + b.1 ≤ a.0)

abbrev pub All {ℓ κ} : {A : Type ℓ} → (A → Type κ) → List A → Type κ
All P [] = Unit
All P (x ∷ xs) = P x × All P xs

-- A range that lies in another.
abbrev pub Inside : ℕ × ℕ → ℕ × ℕ → Type 0
Inside a b = (b.0 ≤ a.0) × (a.0 + a.1 ≤ b.0 + b.1)

-- A range that lies in one of the blocks.
abbrev pub Within : ℕ × ℕ → List (ℕ × ℕ) → Type 0
Within a [] = ⊥
Within a (b ∷ bs) = Inside a b ⊎ Within a bs

-- Ranges of which no two have a byte in common.
abbrev pub Pairs : List (ℕ × ℕ) → Type 0
Pairs [] = Unit
Pairs (a ∷ ds) = All (Apart a) ds × Pairs ds

pub Apart-sym : (a b : ℕ × ℕ) → Apart a b → Apart b a
Apart-sym a b (inl h) = inr h
Apart-sym a b (inr h) = inl h

-- What is apart from a range is apart from the ranges inside it.
pub Apart-Inside : (a b c : ℕ × ℕ) → Inside a b → Apart b c → Apart a c
Apart-Inside a b c h (inl k) = inl (omega arith)
Apart-Inside a b c h (inr k) = inr (omega arith)

pub All-Apart-Inside :
    (a b : ℕ × ℕ) (cs : List (ℕ × ℕ)) → Inside a b → All (Apart b) cs → All (Apart a) cs
All-Apart-Inside a b [] h k = tt
All-Apart-Inside a b (c ∷ cs) h k = (Apart-Inside a b c h k.0, All-Apart-Inside a b cs h k.1)

pub Within-Inside : (a b : ℕ × ℕ) (cs : List (ℕ × ℕ)) → Inside a b → Within b cs → Within a cs
Within-Inside a b [] h k = k
Within-Inside a b (c ∷ cs) h (inl k) = inl (omega arith)
Within-Inside a b (c ∷ cs) h (inr k) = inr (Within-Inside a b cs h k)

-- A block that is apart from all blocks is apart from what lies in them.
pub Apart-Within : (a b : ℕ × ℕ) (cs : List (ℕ × ℕ)) → All (Apart a) cs → Within b cs → Apart a b
Apart-Within a b [] h k = absurd k
Apart-Within a b (c ∷ cs) h (inl k) = Apart-sym b a (Apart-Inside b c a k (Apart-sym a c h.0))
Apart-Within a b (c ∷ cs) h (inr k) = Apart-Within a b cs h.1 k

pub All-Apart-Within :
    (a : ℕ × ℕ) (bs cs : List (ℕ × ℕ))
    → All (Apart a) cs
    → All (λ b. Within b cs) bs
    → All (Apart a) bs
All-Apart-Within a [] cs h k = tt
All-Apart-Within a (b ∷ bs) cs h k = (Apart-Within a b cs h k.0, All-Apart-Within a bs cs h k.1)

pub All-more :
    (c : ℕ × ℕ) (bs cs : List (ℕ × ℕ)) → All (λ b. Within b cs) bs → All (λ b. Within b (c ∷ cs)) bs
All-more c [] cs h = tt
All-more c (b ∷ bs) cs h = (inr h.0, All-more c bs cs h.1)

-- A range that is put between two lists of ranges.
pub All-insert {κ} :
    (P : ℕ × ℕ → Type κ) (ds : List (ℕ × ℕ)) (x : ℕ × ℕ) (bs : List (ℕ × ℕ))
    → P x
    → All P (ds ++ bs)
    → All P (ds ++ x ∷ bs)
All-insert P [] x bs h k = (h, k)
All-insert P (a ∷ ds) x bs h k = (k.0, All-insert P ds x bs h k.1)

pub Pairs-insert :
    (ds : List (ℕ × ℕ)) (x : ℕ × ℕ) (bs : List (ℕ × ℕ))
    → All (Apart x) (ds ++ bs)
    → Pairs (ds ++ bs)
    → Pairs (ds ++ x ∷ bs)
Pairs-insert [] x bs h k = (h, k)
Pairs-insert (a ∷ ds) x bs h k =
    (All-insert (Apart a) ds x bs (Apart-sym x a h.0) k.0, Pairs-insert ds x bs h.1 k.1)
