-- ===== src/Variants/Living.antt =====
-- Which object lives at an address after what has happened.
use kj.Base.{
  ℕ, ◌≡◌, refl, ◌∙◌, Option, none, some, List, [], ◌∷◌, ◌++◌, ◌==◌, ==_refl, if◌then◌else◌, if_true,
}
use kj.Memory.{Event, constructed, destroyed}

-- The type of the object that lives at `p`, where `o` did before.
abbrev pub alive_at : ℕ → Option ℕ → List Event → Option ℕ
alive_at p o [] = o
alive_at p o (constructed t q ∷ es) = alive_at p (if q == p then some t else o) es
alive_at p o (destroyed t q ∷ es) = alive_at p (if q == p then none else o) es

-- At `p` no object begins inside another, and none ends that does not live.
abbrev pub Proper : ℕ → Option ℕ → List Event → Type 0
Proper p o [] = Unit
Proper p o (constructed t q ∷ es) = (q ≡ p → o ≡ none) × Proper p (if q == p then some t else o) es
Proper p o (destroyed t q ∷ es) = (q ≡ p → o ≡ some t) × Proper p (if q == p then none else o) es

pub alive_at-append :
    (p : ℕ) (o : Option ℕ) (xs ys : List Event)
    → alive_at p o (xs ++ ys) ≡ alive_at p (alive_at p o xs) ys
alive_at-append p o [] ys = refl
alive_at-append p o (constructed t q ∷ xs) ys =
    alive_at-append p (if q == p then some t else o) xs ys
alive_at-append p o (destroyed t q ∷ xs) ys = alive_at-append p (if q == p then none else o) xs ys

pub Proper-append :
    (p : ℕ) (o : Option ℕ) (xs ys : List Event)
    → Proper p o xs
    → Proper p (alive_at p o xs) ys
    → Proper p o (xs ++ ys)
Proper-append p o [] ys a b = b
Proper-append p o (constructed t q ∷ xs) ys (now, a) b =
    (now, Proper-append p (if q == p then some t else o) xs ys a b)
Proper-append p o (destroyed t q ∷ xs) ys (now, a) b =
    (now, Proper-append p (if q == p then none else o) xs ys a b)

-- A history is proper at an address, and ends there with the object.
pub record Lives (p : ℕ) (now : Option ℕ) (es : List Event) : Type 0 where
  pub proper : Proper p none es
  pub alive : alive_at p none es ≡ now

pub Lives-constructed :
    (p t : ℕ) (es : List Event) → Lives p none es → Lives p (some t) (es ++ constructed t p ∷ [])
Lives-constructed p t es l = record {
  proper = Proper-append p none es (constructed t p ∷ []) l.proper ((λ e. l.alive), tt);
  alive = alive_at-append p none es (constructed t p ∷ []) ∙ if_true _ _ (==_refl p);
}

pub Lives-destroyed :
    (p t : ℕ) (es : List Event) → Lives p (some t) es → Lives p none (es ++ destroyed t p ∷ [])
Lives-destroyed p t es l = record {
  proper = Proper-append p none es (destroyed t p ∷ []) l.proper ((λ e. l.alive), tt);
  alive = alive_at-append p none es (destroyed t p ∷ []) ∙ if_true _ _ (==_refl p);
}

-- A history that ends an object is proper only where it lives.
pub Proper-destroyed :
    (p t : ℕ) (o : Option ℕ) (es : List Event)
    → Proper p o (es ++ destroyed t p ∷ [])
    → alive_at p o es ≡ some t
Proper-destroyed p t o [] (now, _) = now refl
Proper-destroyed p t o (constructed t' q ∷ es) (_, rest) =
    Proper-destroyed p t (if q == p then some t' else o) es rest
Proper-destroyed p t o (destroyed t' q ∷ es) (_, rest) =
    Proper-destroyed p t (if q == p then none else o) es rest
