-- ===== src/Memory.antt =====
-- What the containers use of the language's run time: the heap, and the constructors and destructors
-- of a program's types, all of which are a parameter.
mod Ranges
pub mod Sample
pub use Ranges.*
use kj.Base.{
  ℕ, ◌+◌, ◌%◌, ◌^◌, ◌≤◌, ◌<◌, ◌≡◌, ◌⊎◌, inl, inr, arith, Bool, true, false, Option, none, some,
  List, [], ◌∷◌, ◌++◌, ◌==◌, if◌then◌else◌,
}

-- An object of a type begins or ends its life at an address.
pub data Event : Type 0 where
  constructed : ℕ → ℕ → Event
  destroyed : ℕ → ℕ → Event

-- `live` lists the blocks of the heap by address and size, `history` what happened to objects.
-- `operator new` gives `none` where it throws; a constructor or destructor says whether it throws,
-- and a destructor is told whether an exception is on its way (what `UnwindDetector` finds out).
pub record Runtime : Type 1 where
  pub State : Type 0
  pub live : State → List (ℕ × ℕ)
  pub history : State → List Event
  pub operator_new : ℕ → State → Option (ℕ × State)
  pub operator_delete : ℕ → State → State
  pub construct : ℕ → ℕ → State → State × Bool
  pub destroy : Bool → ℕ → ℕ → State → State × Bool

-- The blocks without the one at an address.
abbrev pub without : ℕ → List (ℕ × ℕ) → List (ℕ × ℕ)
without p [] = []
without p (b ∷ bs) = if b.0 == p then bs else b ∷ without p bs

-- The heap gives blocks in the lower half of the address space, aligned for the basic
-- types and apart from all that are in use.
pub record Heaps (m : Runtime) : Type 0 where
  pub gives :
      (n : ℕ) (s : m.State) {p : ℕ} {s' : m.State}
      → m.operator_new n s ≡ some (p, s')
      → (m.live s' ≡ (p, n) ∷ m.live s)
        × (m.history s' ≡ m.history s)
        × (p % 16 ≡ 0)
        × (p + n < 2 ^ 63)
        × All (Apart (p, n)) (m.live s)
  pub takes :
      (p : ℕ) (s : m.State)
      → (m.live (m.operator_delete p s) ≡ without p (m.live s))
        × (m.history (m.operator_delete p s) ≡ m.history s)

-- A constructor that throws leaves no object. A destructor ends the object even if it throws, and
-- does not throw while an exception is on its way, as the code requires of destructors.
pub record Behaves (m : Runtime) : Type 0 where
  pub constructs :
      (t p : ℕ) (s : m.State)
      → (m.live (m.construct t p s).0 ≡ m.live s)
        × (m.history (m.construct t p s).0
            ≡ m.history s ++ (if (m.construct t p s).1 then [] else constructed t p ∷ []))
  pub destroys :
      (unwinding : Bool) (t p : ℕ) (s : m.State)
      → (m.live (m.destroy unwinding t p s).0 ≡ m.live s)
        × (m.history (m.destroy unwinding t p s).0 ≡ m.history s ++ destroyed t p ∷ [])
  pub holds_back : (t p : ℕ) (s : m.State) → (m.destroy true t p s).1 ≡ false
