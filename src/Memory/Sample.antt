-- ===== src/Memory/Sample.antt =====
-- A concrete run time for examples: a heap that gives the next multiple of 16 behind all blocks, and
-- types of which some throw.
use kj.Base.{
  ℕ, ◌+◌, ◌*◌, ◌/◌, ◌%◌, ◌^◌, ◌≤◌, ◌<◌, ◌≡◌, refl, sym, subst, ◌∙◌, inl, inr, max, Bool, not, ◌&&◌,
  Option, none, some, List, [], ◌∷◌, ◌++◌, ltb, ltb→lt, ◌==◌, if◌then◌else◌, if_true, if_false,
  some_eq, arith, Bool-cases,
}
use kj.Memory.{Event, constructed, destroyed, Runtime, Heaps, Behaves, Apart, All, without}

pub record World : Type 0 where
  pub blocks : List (ℕ × ℕ)
  pub events : List Event

abbrev pub top : List (ℕ × ℕ) → ℕ
top [] = 4096
top (b ∷ bs) = max (b.0 + b.1) (top bs)

abbrev pub next : List (ℕ × ℕ) → ℕ
next bs = (top bs + 15) / 16 * 16

-- The heap ends at 2^40.
unfoldable pub new_block : ℕ → World → Option (ℕ × World)
new_block n w =
    if ltb (next w.blocks + n) (2 ^ 40)
    then some (next w.blocks, record w { blocks = (next w.blocks, n) ∷ w.blocks })
    else none

-- The type 8 throws in the constructor at every fourth place of 16 bytes.
unfoldable pub throws : ℕ → ℕ → Bool
throws t p = t == 8 && p % 64 == 32

unfoldable pub begin_object : ℕ → ℕ → World → World × Bool
unfolding throws
begin_object t p w = (
  record w { events = w.events ++ (if throws t p then [] else constructed t p ∷ []) },
  throws t p,
)

-- The type 5 throws in the destructor, but not while an exception is on its way.
unfoldable pub end_object : Bool → ℕ → ℕ → World → World × Bool
end_object unwinding t p w =
    (record w { events = w.events ++ destroyed t p ∷ [] }, not unwinding && t == 5)

abbrev pub sample : Runtime
sample = record {
  State = World;
  live = λ w. w.blocks;
  history = λ w. w.events;
  operator_new = new_block;
  operator_delete = λ p w. record w { blocks = without p w.blocks };
  construct = begin_object;
  destroy = end_object;
}

abbrev pub empty_world : World
empty_world = record { blocks = []; events = [] }

All-below : (p n : ℕ) (bs : List (ℕ × ℕ)) → top bs ≤ p → All (Apart (p, n)) bs
All-below p n [] h = tt
All-below p n (b ∷ bs) h = (inr (omega arith), All-below p n bs (omega arith))

-- What the heap's law says of a result.
abbrev GivenBy : ℕ → World → ℕ × World → Type 0
GivenBy n w r =
    (r.1.blocks ≡ (r.0, n) ∷ w.blocks)
    × (r.1.events ≡ w.events)
    × (r.0 % 16 ≡ 0)
    × (r.0 + n < 2 ^ 63)
    × All (Apart (r.0, n)) w.blocks

new_block-GivenBy : (n : ℕ) (w : World) (r : ℕ × World) → new_block n w ≡ some r → GivenBy n w r
unfolding new_block
new_block-GivenBy n w r e = elim (Bool-cases (ltb (next w.blocks + n) (2 ^ 40))) [
  | inl room ↦
      let lt = ltb→lt _ _ room in
      subst (GivenBy n w) (some_eq _ _ (sym (if_true _ _ room) ∙ e))
        (refl, refl, omega arith, omega arith, All-below (next w.blocks) n w.blocks (omega arith))
  | inr full ↦
      let impossible : ◌≡◌ {A = Option (ℕ × World)} none (some r) = sym (if_false _ _ full) ∙ e in
      cc
]

pub sample-Heaps : Heaps sample
sample-Heaps = record { gives = λ n s e. new_block-GivenBy n s _ e; takes = λ p s. (refl, refl) }

pub sample-Behaves : Behaves sample
unfolding begin_object end_object
sample-Behaves = record {
  constructs = λ t p w. (refl, refl);
  destroys = λ u t p w. (refl, refl);
  holds_back = λ t p w. refl;
}
