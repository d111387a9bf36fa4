-- ===== src/Arena/Allocating.antt =====
-- Allocation keeps an arena valid (arena.cpp).
use kj.Base.{
  ℕ, ◌+◌, ◌-◌, ◌*◌, ◌%◌, ◌^◌, ◌≤◌, ◌<◌, ◌≡◌, refl, sym, subst, ◌∙◌, ◌⊎◌, inl, inr, max, Bool, true,
  false, Option, none, some, List, ◌∷◌, ◌++◌, leb, leb→le, if_true, if_false, >>=-eq-some, some_eq,
  arith, Bool-cases,
}
use kj.Memory.{Runtime, Heaps}
use kj.Arena.{
  Chunk, Arena, chunk_header_size, object_header_size, align_to, enough_for, allocate_chunk,
  allocate_from, allocate_bytes_internal, allocate_bytes,
}
use kj.Arena.Growing.{
  IsBasic, align_to_lem, max-IsBasic, align_to-chunk, align_to-object, enough_for_lem,
}
use kj.Arena.Bounds.{
  IsValid, Room, heads, mod-basic, new_chunk-IsValid, in_chunk-IsValid, shrink-IsValid,
}

chunk_offset :
    (a : ℕ)
    → (a ≡ 8) ⊎ (a ≡ 16)
    → (align_to chunk_header_size a ≤ 32) × (chunk_header_size ≤ align_to chunk_header_size a)
unfolding align_to
chunk_offset a (inl e) = rw e (omega arith)
chunk_offset a (inr e) = rw e (omega arith)

enough_for_bounds :
    (amount n k : ℕ) → 0 < n → amount ≤ 2 ^ 63 → enough_for amount amount n ≡ some k → amount ≤ k
enough_for_bounds amount n k pos small e =
    let (k', e', fits, _) = enough_for_lem amount amount n pos small (omega arith) in
    subst (λ (x : ℕ). amount ≤ x) (some_eq k' k (sym e' ∙ e)) fits

pub basic_small : (a : ℕ) → IsBasic a → (a ≤ 16) × (0 < a)
basic_small a (inl e) = rw e (omega arith)
basic_small a (inr (inl e)) = rw e (omega arith)
basic_small a (inr (inr (inl e))) = rw e (omega arith)
basic_small a (inr (inr (inr (inl e)))) = rw e (omega arith)
basic_small a (inr (inr (inr (inr e)))) = rw e (omega arith)

IsBasic-max : (a : ℕ) → IsBasic a → IsBasic (max a 8)
IsBasic-max a h = elim (max-IsBasic a h) [
  | inl e ↦ inr (inr (inr (inl e)))
  | inr e ↦ inr (inr (inr (inr e)))
]

object_offset : (a : ℕ) → (a ≡ 8) ⊎ (a ≡ 16) → align_to object_header_size a ≡ 16
unfolding align_to
object_offset a (inl e) = rw e
object_offset a (inr e) = rw e

mod-add : (a p : ℕ) → (a ≡ 8) ⊎ (a ≡ 16) → p % a ≡ 0 → (p + 16) % a ≡ 0
mod-add a p (inl e) = rw e (λ h. omega arith)
mod-add a p (inr e) = rw e (λ h. omega arith)

-- The range of an object and, for one with a destructor, the header before it.
abbrev pub space : ℕ → Bool → ℕ → ℕ × ℕ
space amount false p = (p, amount)
space amount true p = (p - object_header_size, amount + object_header_size)

module _ (m : Runtime) (h : Heaps m) where
  open m use {State, live, history, operator_new}

  -- What an allocation gives: an aligned object, which is apart from all that was given before.
  abbrev pub Given : ℕ → ℕ → List (ℕ × ℕ) → ℕ × Arena × State → Type 0
  Given amount alignment given r =
      (r.0 % alignment ≡ 0)
      × (r.0 + amount < 2 ^ 63)
      × IsValid (live r.2) ((r.0, amount) ∷ given) r.1

  -- The chunk that `allocateBytesInternal` sets up in a block, and the object in it.
  abbrev chunk_at : ℕ → ℕ → ℕ → Arena → ℕ → State → ℕ × Arena × State
  chunk_at amount aligned n a p s' =
      let total = (amount + align_to chunk_header_size aligned) % 2 ^ 64 in
      (
        align_to (p + chunk_header_size) aligned,
        record a {
          next_chunk_size = n * 2 % 2 ^ 64;
          chunk_list = p ∷ a.chunk_list;
          current_chunk = some (record { start = p; pos = p + total; end = p + n });
        },
        s',
      )

  chunk_at-Given :
      (amount alignment n : ℕ) (given : List (ℕ × ℕ)) (a : Arena) (s s' : State) (p : ℕ)
      → IsValid (live s) given a
      → IsBasic alignment
      → amount ≤ 2 ^ 62
      → (amount + align_to chunk_header_size (max alignment 8)) % 2 ^ 64 ≤ n
      → operator_new n s ≡ some (p, s')
      → Given amount alignment given (chunk_at amount (max alignment 8) n a p s')
  chunk_at-Given amount alignment n given a s s' p v basic small fits new =
      let which = max-IsBasic alignment basic in
      let off : ℕ = align_to chunk_header_size (max alignment 8) in
      let (far, behind) = chunk_offset (max alignment 8) which in
      let (blocks, _, multiple, top, fresh) = h.gives n s new in
      let sum : (amount + off) % 2 ^ 64 ≡ amount + off = omega arith in
      let (place, _, even, _) = align_to-chunk (max alignment 8) p which multiple (omega arith) in
      let valid =
        new_chunk-IsValid (live s) given a p n off amount v fresh top behind (omega arith) in
      rw (place, sum, blocks) (mod-basic alignment (p + off) basic even, omega arith, valid)

  allocate_chunk-Given :
      (amount alignment : ℕ) (given : List (ℕ × ℕ)) (a : Arena) (s : State) (r : ℕ × Arena × State)
      → IsValid (live s) given a
      → IsBasic alignment
      → amount ≤ 2 ^ 62
      → allocate_chunk m amount alignment a s ≡ some r
      → Given amount alignment given r
  unfolding allocate_chunk
  allocate_chunk-Given amount alignment given a s r v basic small e =
      let (n, size, rest) = >>=-eq-some (enough_for _ _ a.next_chunk_size) _ e in
      let ((p, s'), new, result) = >>=-eq-some (operator_new n s) _ rest in
      subst (Given amount alignment given) (some_eq _ _ result) (
        chunk_at-Given amount alignment n given a s s' p v basic small
          (enough_for_bounds _ a.next_chunk_size n v.grows (omega arith) size) new)

  allocate_from-Given :
      (o : Option Chunk) (amount alignment : ℕ) (given : List (ℕ × ℕ)) (a : Arena) (s : State)
      (r : ℕ × Arena × State)
      → a.current_chunk ≡ o
      → IsValid (live s) given a
      → IsBasic alignment
      → amount ≤ 2 ^ 62
      → allocate_from m o amount alignment a s ≡ some r
      → Given amount alignment given r
  unfolding allocate_from
  allocate_from-Given none amount alignment given a s r current v basic small e =
      allocate_chunk-Given amount alignment given a s r v basic small e
  allocate_from-Given (some c) amount alignment given a s r current v basic small e =
      let (below, top, _, _) =
        subst (λ o. Room o (given ++ heads a.chunk_list) (live s)) current v.room in
      let q : ℕ = align_to c.pos alignment in
      let (up, near, even) = align_to_lem alignment c.pos basic (omega arith) in
      let alignment_small = basic_small alignment basic in
      elim (Bool-cases (leb ((amount + (q - c.pos)) % 2 ^ 64) (c.end - c.pos))) [
        | inl enough ↦
            let le = leb→le _ _ enough in
            let high : q + amount ≤ c.end = omega arith in
            subst (Given amount alignment given) (some_eq _ _ (sym (if_true _ _ enough) ∙ e))
              (even, omega arith, in_chunk-IsValid (live s) given a c q amount v current up high)
        | inr full ↦
            allocate_chunk-Given amount alignment given a s r v basic small
              (sym (if_false _ _ full) ∙ e)
      ]

  -- `allocateBytesInternal` gives an aligned range, which lies in a chunk and has no byte in common
  -- with what was given before, with a chunk's header or with the space that is left.
  pub allocate_bytes_internal-Given :
      (amount alignment : ℕ) (given : List (ℕ × ℕ)) (a : Arena) (s : State) (r : ℕ × Arena × State)
      → IsValid (live s) given a
      → IsBasic alignment
      → amount ≤ 2 ^ 62
      → allocate_bytes_internal m amount alignment a s ≡ some r
      → Given amount alignment given r
  unfolding allocate_bytes_internal
  allocate_bytes_internal-Given amount alignment given a s r v basic small e =
      allocate_from-Given a.current_chunk amount alignment given a s r refl v basic small e

  object-Given :
      (amount alignment : ℕ) (given : List (ℕ × ℕ)) (r : ℕ × Arena × State)
      → IsBasic alignment
      → amount ≤ 2 ^ 61
      → Given
          ((amount + align_to object_header_size (max alignment 8)) % 2 ^ 64)
          (max alignment 8)
          given
          r
      → (align_to (r.0 + object_header_size) (max alignment 8) % alignment ≡ 0)
        × IsValid
            (live r.2)
            (space amount true (align_to (r.0 + object_header_size) (max alignment 8)) ∷ given)
            r.1
  object-Given amount alignment given r basic small (even, low, v) =
      let which = max-IsBasic alignment basic in
      let header = object_offset (max alignment 8) which in
      let place = align_to-object (max alignment 8) r.0 which even (omega arith) in
      let still = mod-add (max alignment 8) r.0 which even in
      rw place (
        mod-basic alignment (r.0 + 16) basic still,
        shrink-IsValid (live r.2) given r.1 _ (r.0 + 16 - 16, amount + 16) v (omega arith),
      )

  -- `allocateBytes` gives an object at a multiple of its alignment, for which the object and its
  -- header lie in a block that is in use and have no byte in common with the objects that were
  -- given before, with their headers and those of the chunks.
  pub allocate_bytes-IsValid :
      (amount alignment : ℕ) (has_disposer : Bool) (given : List (ℕ × ℕ)) (a : Arena) (s : State)
      (r : ℕ × Arena × State)
      → IsValid (live s) given a
      → IsBasic alignment
      → amount ≤ 2 ^ 61
      → allocate_bytes m amount alignment has_disposer a s ≡ some r
      → (r.0 % alignment ≡ 0) × IsValid (live r.2) (space amount has_disposer r.0 ∷ given) r.1
  unfolding allocate_bytes
  allocate_bytes-IsValid amount alignment false given a s r v basic small e =
      let (even, _, valid) =
        allocate_bytes_internal-Given amount alignment given a s r v basic (omega arith) e in
      (even, valid)
  allocate_bytes-IsValid amount alignment true given a s r v basic small e =
      let aligned : ℕ = max alignment 8 in
      let header = object_offset aligned (max-IsBasic alignment basic) in
      let (t, inner, result) = >>=-eq-some (allocate_bytes_internal m _ aligned a s) _ e in
      let got =
        allocate_bytes_internal-Given _ aligned given a s t v (IsBasic-max alignment basic)
          (omega arith) inner in
      subst
        (λ (r : ℕ × Arena × State).
          (r.0 % alignment ≡ 0) × IsValid (live r.2) (space amount true r.0 ∷ given) r.1)
        (some_eq _ _ result) (object-Given amount alignment given t basic small got)

  -- There is room for a header before an object with a destructor.
  pub allocate_bytes_header :
      (amount alignment : ℕ) (given : List (ℕ × ℕ)) (a : Arena) (s : State) (r : ℕ × Arena × State)
      → IsValid (live s) given a
      → IsBasic alignment
      → amount ≤ 2 ^ 61
      → allocate_bytes m amount alignment true a s ≡ some r
      → object_header_size ≤ r.0
  unfolding allocate_bytes
  allocate_bytes_header amount alignment given a s r v basic small e =
      let aligned : ℕ = max alignment 8 in
      let which = max-IsBasic alignment basic in
      let header = object_offset aligned which in
      let (t, inner, result) = >>=-eq-some (allocate_bytes_internal m _ aligned a s) _ e in
      let (even, low, _) =
        allocate_bytes_internal-Given _ aligned given a s t v (IsBasic-max alignment basic)
          (omega arith) inner in
      let place = align_to-object aligned t.0 which even (omega arith) in
      subst (λ (r : ℕ × Arena × State). object_header_size ≤ r.0) (some_eq _ _ result)
        (subst (λ (x : ℕ). object_header_size ≤ x) (sym place) (omega arith))
