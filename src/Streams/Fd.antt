-- ===== src/Streams/Fd.antt =====
-- `FdInputStream` and `FdOutputStream` (io.cpp) over the system's files, which are a parameter. Sizes
-- are passed to the system as a `DWORD`.
use kj.Base.{
  ℕ, zero, suc, ◌-◌, ◌%◌, ◌^◌, ◌≤◌, ◌<◌, ◌≡◌, Option, none, some, List, [], ◌∷◌, ◌++◌, length, take,
  drop, ltb, if◌then◌else◌, ◌>>=◌,
}
use kj.Text.{Bytes}

-- `ReadFile` and `WriteFile`; `none` is an error, which `KJ_SYSCALL` throws.
pub record Files : Type 1 where
  pub State : Type 0
  -- What can be read, and what has been written.
  pub source : State → Bytes
  pub sink : State → Bytes
  pub read_file : ℕ → State → Option (Bytes × State)
  pub write_file : Bytes → State → Option (ℕ × State)

-- What the system documents: a read of some bytes gives some of them, and none at the end only.
pub record ReadsFiles (f : Files) : Type 0 where
  pub gives :
      (n : ℕ) (s : f.State)
      → 0 < n
      → 0 < length (f.source s)
      → (bs : Bytes) × (s' : f.State) × (f.read_file n s ≡ some (bs, s'))
        × (0 < length bs)
        × (length bs ≤ n)
        × (f.source s ≡ bs ++ f.source s')
  pub at_end :
      (n : ℕ) (s : f.State)
      → length (f.source s) ≡ 0
      → (s' : f.State) × (f.read_file n s ≡ some ([], s')) × (f.source s' ≡ [])

-- A write that succeeds writes as many of the bytes as it says.
pub record WritesFiles (f : Files) : Type 0 where
  pub takes :
      (bs : Bytes) (s : f.State) {n : ℕ} {s' : f.State}
      → f.write_file bs s ≡ some (n, s')
      → (n ≤ length bs) × (f.sink s' ≡ f.sink s ++ take n bs)

-- A write of some bytes does not fail, and writes some of them.
abbrev pub Works : Files → Type 0
Works f =
    (bs : Bytes) (s : f.State)
    → 0 < length bs
    → (n : ℕ) × (s' : f.State) × (f.write_file bs s ≡ some (suc n, s'))

module _ (f : Files) where
  open f use {State, read_file, write_file}

  -- The loop of `tryRead`, where `got` has been read; `none` also where the fuel does not suffice.
  unfoldable pub fd_read_loop : ℕ → ℕ → ℕ → Bytes → State → Option (Bytes × State)
  fd_read_loop zero lo hi got s = if ltb (length got) lo then none else some (got, s)
  fd_read_loop (suc fuel) lo hi got s =
      if ltb (length got) lo
      then (read_file ((hi - length got) % 2 ^ 32) s >>= λ r. elim r.0 [
        | [] ↦ some (got, r.1)
        | c ∷ cs ↦ fd_read_loop fuel lo hi (got ++ c ∷ cs) r.1
      ])
      else some (got, s)

  -- Every round but the last reads a byte.
  unfoldable pub fd_try_read : ℕ → ℕ → State → Option (Bytes × State)
  unfolding fd_read_loop
  fd_try_read lo hi s = fd_read_loop lo lo hi [] s

  -- The loop of `write`: `WriteFile` is handed the size modulo 2^32.
  unfoldable pub fd_write_loop : ℕ → Bytes → State → Option State
  fd_write_loop fuel [] s = some s
  fd_write_loop zero (c ∷ cs) s = none
  fd_write_loop (suc fuel) (c ∷ cs) s =
      write_file (take (length (c ∷ cs) % 2 ^ 32) (c ∷ cs)) s >>= λ r. elim r.0 [
        | zero ↦ none
        | suc n ↦ fd_write_loop fuel (drop (suc n) (c ∷ cs)) r.1
      ]

  unfoldable pub fd_write : Bytes → State → Option State
  unfolding fd_write_loop
  fd_write bs s = fd_write_loop (length bs) bs s

  -- `write` of pieces: one call of `WriteFile` for each.
  unfoldable pub fd_write_pieces : List Bytes → State → Option State
  fd_write_pieces [] s = some s
  fd_write_pieces (piece ∷ pieces) s = write_file (take (length piece % 2 ^ 32) piece) s >>= λ r.
      elim r.0 [ zero ↦ none | suc n ↦ fd_write_pieces pieces r.1 ]
