-- ===== src/Arena/Growing.antt =====
-- Alignment, and the loop that makes the next chunk large enough (arena.cpp).
use kj.Base.{
  ℕ, zero, suc, ◌+◌, ◌*◌, ◌%◌, ◌^◌, ◌≤◌, ◌<◌, ◌≡◌, ◌⊎◌, inl, inr, max, some, ltb, arith, Bool-cases,
  ltb→lt,
}
use kj.Arena.{align_to, enough_for, chunk_header_size, object_header_size}

-- The alignments of the basic types.
abbrev pub IsBasic : ℕ → Type 0
IsBasic a = (a ≡ 1) ⊎ ((a ≡ 2) ⊎ ((a ≡ 4) ⊎ ((a ≡ 8) ⊎ (a ≡ 16))))

-- `alignTo` rounds up to the next multiple.
pub align_to_lem :
    (a i : ℕ)
    → IsBasic a
    → i + 16 < 2 ^ 64
    → (i ≤ align_to i a) × (align_to i a < i + a) × (align_to i a % a ≡ 0)
unfolding align_to
align_to_lem a i (inl e) h = rw e (omega arith)
align_to_lem a i (inr (inl e)) h = rw e (omega arith)
align_to_lem a i (inr (inr (inl e))) h = rw e (omega arith)
align_to_lem a i (inr (inr (inr (inl e)))) h = rw e (omega arith)
align_to_lem a i (inr (inr (inr (inr e)))) h = rw e (omega arith)

pub max-IsBasic : (a : ℕ) → IsBasic a → (max a 8 ≡ 8) ⊎ (max a 8 ≡ 16)
max-IsBasic a (inl e) = inl (rw e)
max-IsBasic a (inr (inl e)) = inl (rw e)
max-IsBasic a (inr (inr (inl e))) = inl (rw e)
max-IsBasic a (inr (inr (inr (inl e)))) = inl (rw e)
max-IsBasic a (inr (inr (inr (inr e)))) = inr (rw e)

-- Behind the header of a chunk, the place for an object is found as if the chunk were at 0.
pub align_to-chunk :
    (a p : ℕ)
    → (a ≡ 8) ⊎ (a ≡ 16)
    → p % 16 ≡ 0
    → p + align_to chunk_header_size a < 2 ^ 64
    → (align_to (p + chunk_header_size) a ≡ p + align_to chunk_header_size a)
      × (align_to chunk_header_size a ≤ 32)
      × ((p + align_to chunk_header_size a) % a ≡ 0)
      × (chunk_header_size ≤ align_to chunk_header_size a)
unfolding align_to
align_to-chunk a p (inl e) h = rw e (λ k. omega arith)
align_to-chunk a p (inr e) h = rw e (λ k. omega arith)

-- Behind the header of an object, which starts at a multiple.
pub align_to-object :
    (a p : ℕ)
    → (a ≡ 8) ⊎ (a ≡ 16)
    → p % a ≡ 0
    → p + 64 < 2 ^ 64
    → align_to (p + object_header_size) a ≡ p + 16
unfolding align_to
align_to-object a p (inl e) = rw e (λ h k. omega arith)
align_to-object a p (inr e) = rw e (λ h k. omega arith)

-- The loop ends with a chunk that is large enough, where the amount is at most 2^63.
pub enough_for_lem :
    (fuel amount n : ℕ)
    → 0 < n
    → amount ≤ 2 ^ 63
    → amount ≤ n + fuel
    → (k : ℕ) × (enough_for fuel amount n ≡ some k) × (amount ≤ k) × (0 < k)
unfolding enough_for
enough_for_lem zero amount n pos small enough = (n, ground arith, omega arith, pos)
enough_for_lem (suc fuel) amount n pos small enough = elim (Bool-cases (ltb n amount)) [
  | inl more ↦
      let lt = ltb→lt n amount more in
      rw more (enough_for_lem fuel amount (n * 2 % 2 ^ 64) (omega arith) small (omega arith))
  | inr done ↦ (n, rw done, ground arith, pos)
]
