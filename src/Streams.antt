-- ===== src/Streams.antt =====
-- Byte streams (io.h, io.cpp): the contracts of `InputStream` and `OutputStream`, and what is built on
-- them alone. A call that throws returns `none`.
pub mod BufferedInput
pub mod Buffering
pub mod Arrays
pub mod Output
pub mod Flushing
pub mod Fd
pub mod Transfer
pub mod Input
mod Examples
use kj.Base.{
  ℕ, zero, suc, ◌+◌, ◌-◌, ◌≤◌, ◌<◌, min, ◌≡◌, Bool, true, false, Option, none, some, List, [], ◌∷◌,
  ◌++◌, length, drop, leb, ltb, ◌==◌, if◌then◌else◌, ◌>>=◌,
}
use kj.Text.{Bytes}

-- What an input stream does, and what it still holds.
pub record InputStream : Type 1 where
  pub State : Type 0
  pub contents : State → Bytes
  pub try_read : ℕ → ℕ → State → Option (Bytes × State)
  pub skip : ℕ → State → Option State

-- A read of at least `lo` and at most `hi` bytes returns the bytes that come next.
abbrev pub Reads : {S : Type 0} → (S → Bytes) → ℕ → ℕ → S → Option (Bytes × S) → Type 0
Reads contents lo hi s result =
    (bs : Bytes) × (s' : _) × (result ≡ some (bs, s'))
    × (lo ≤ length bs)
    × (length bs ≤ hi)
    × (contents s ≡ bs ++ contents s')

-- The contract, where the stream holds enough bytes.
pub record Delivers (i : InputStream) : Type 0 where
  pub reads :
      (lo hi : ℕ) (s : i.State)
      → lo ≤ hi
      → lo ≤ length (i.contents s)
      → Reads i.contents lo hi s (i.try_read lo hi s)
  pub skips :
      (n : ℕ) (s : i.State)
      → n ≤ length (i.contents s)
      → (s' : i.State) × (i.skip n s ≡ some s') × (i.contents s' ≡ drop n (i.contents s))

-- Where it does not, `tryRead` returns what is left.
pub record Ends (i : InputStream) : Type 0 where
  pub ends :
      (lo hi : ℕ) (s : i.State)
      → lo ≤ hi
      → length (i.contents s) < lo
      → (s' : i.State) × (i.try_read lo hi s ≡ some (i.contents s, s')) × (i.contents s' ≡ [])

module _ (i : InputStream) where
  open i use {State, try_read}

  -- `InputStream::read`
  unfoldable pub read : ℕ → ℕ → State → Option (Bytes × State)
  read lo hi s = do (bs, s') ← try_read lo hi s; if leb lo (length bs) then some (bs, s') else none

  -- The loop of `InputStream::skip`; `none` also where the fuel does not suffice.
  unfoldable pub skip_loop : ℕ → ℕ → State → Option State
  unfolding read
  skip_loop fuel zero s = some s
  skip_loop zero (suc bytes) s = none
  skip_loop (suc fuel) (suc bytes) s =
      let amount : ℕ = min (suc bytes) 8192 in
      read amount amount s >>= λ r. skip_loop fuel (suc bytes - amount) r.1

  -- `InputStream::skip`. Every round skips a byte at least.
  unfoldable pub default_skip : ℕ → State → Option State
  unfolding skip_loop
  default_skip bytes s = skip_loop bytes bytes s
