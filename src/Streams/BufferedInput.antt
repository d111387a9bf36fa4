-- ===== src/Streams/BufferedInput.antt =====
-- `BufferedInputStreamWrapper` (io.cpp) over any stream, with a buffer of `cap` bytes.
use kj.Base.{
  ℕ, ◌-◌, min, Option, some, [], ◌++◌, length, take, drop, leb, ◌==◌, if◌then◌else◌, ◌>>=◌,
}
use kj.Text.{Bytes}
use kj.Streams.{InputStream, read}

module _ (i : InputStream) (cap : ℕ) where
  -- `available` is what `bufferAvailable` shows of the buffer.
  pub record Buffered : Type 0 where
    pub inner : i.State
    pub available : Bytes

  abbrev pub buffered_contents : Buffered → Bytes
  buffered_contents b = b.available ++ i.contents b.inner

  -- `tryGetReadBuffer`
  unfoldable pub try_get_read_buffer : Buffered → Option (Bytes × Buffered)
  try_get_read_buffer b =
      if length b.available == 0
      then (i.try_read 1 cap b.inner >>= λ r. some (r.0, record { inner = r.1; available = r.0 }))
      else some (b.available, b)

  -- The bytes that are read on, where the buffer holds `first`, which are too few.
  unfoldable pub refill : Bytes → ℕ → ℕ → i.State → Option (Bytes × Buffered)
  refill first lo hi inner =
      if leb hi cap
      then (read i lo cap inner >>= λ r. some (
        first ++ take (min (length r.0) hi) r.0,
        record { inner = r.1; available = drop (min (length r.0) hi) r.0 },
      ))
      else read i lo hi inner >>= λ r. some (first ++ r.0, record { inner = r.1; available = [] })

  unfoldable pub buffered_try_read : ℕ → ℕ → Buffered → Option (Bytes × Buffered)
  unfolding refill
  buffered_try_read lo hi b =
      if leb lo (length b.available)
      then (let n : ℕ = min (length b.available) hi in
          some (take n b.available, record b { available = drop n b.available }))
      else refill b.available (lo - length b.available) (hi - length b.available) b.inner

  unfoldable pub buffered_skip : ℕ → Buffered → Option Buffered
  buffered_skip bytes b =
      if leb bytes (length b.available)
      then some (record b { available = drop bytes b.available })
      else (let left : ℕ = bytes - length b.available in
          if leb left cap
          then (read i left cap b.inner >>= λ r.
              some (record { inner = r.1; available = drop left r.0 }))
          else i.skip left b.inner >>= λ s. some (record { inner = s; available = [] }))

  abbrev pub buffered_input : InputStream
  buffered_input = record {
    State = Buffered;
    contents = buffered_contents;
    try_read = buffered_try_read;
    skip = buffered_skip;
  }
