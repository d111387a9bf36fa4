-- ===== src/Streams/Output.antt =====
-- `OutputStream` and `BufferedOutputStreamWrapper` (io.h, io.cpp). A call that throws returns `none`.
use kj.Base.{
  ℕ, ◌-◌, ◌≡◌, Option, some, List, [], ◌∷◌, ◌++◌, length, take, drop, leb, ltb, if◌then◌else◌,
  ◌>>=◌,
}
use kj.Text.{Bytes}

-- What an output stream does, and what has been written to it.
pub record OutputStream : Type 1 where
  pub State : Type 0
  pub written : State → Bytes
  pub write : Bytes → State → Option State

-- The contract: a write that does not throw writes all.
pub record WritesAll (o : OutputStream) : Type 0 where
  pub writes :
      (bs : Bytes) (s : o.State) {s' : o.State}
      → o.write bs s ≡ some s'
      → o.written s' ≡ o.written s ++ bs

module _ (o : OutputStream) where
  -- `OutputStream::write` of pieces, in its default implementation
  unfoldable pub write_pieces : List Bytes → o.State → Option o.State
  write_pieces [] s = some s
  write_pieces (piece ∷ pieces) s = o.write piece s >>= write_pieces pieces

module _ (o : OutputStream) (cap : ℕ) where
  -- `filled` is the part of the buffer up to `bufferPos`.
  pub record BufferedOut : Type 0 where
    pub inner : o.State
    pub filled : Bytes

  unfoldable pub flush : BufferedOut → Option BufferedOut
  flush b =
      if ltb 0 (length b.filled)
      then (o.write b.filled b.inner >>= λ s. some (record { inner = s; filled = [] }))
      else some b

  -- `write` of bytes that stand in another place
  unfoldable pub buffered_write : Bytes → BufferedOut → Option BufferedOut
  buffered_write src b =
      let available : ℕ = cap - length b.filled in
      if leb (length src) available
      then some (record b { filled = b.filled ++ src })
      else if leb (length src) cap
      then (o.write (b.filled ++ take available src) b.inner >>= λ s.
          some (record { inner = s; filled = drop available src }))
      else o.write b.filled b.inner >>= λ s.
          o.write src s >>= λ s'. some (record { inner = s'; filled = [] })

  -- `write` of bytes that the caller has put into the buffer that `getWriteBuffer` gave. There is no
  -- test: bytes that do not fit there take the position past the end of the buffer.
  unfoldable pub buffered_commit : Bytes → BufferedOut → Option BufferedOut
  buffered_commit src b = some (record b { filled = b.filled ++ src })

pub data OutCall : Type 0 where
  copied : Bytes → OutCall
  in_place : Bytes → OutCall
  flushed : OutCall

module _ (o : OutputStream) (cap : ℕ) where
  abbrev pub out_call : OutCall → BufferedOut o cap → Option (BufferedOut o cap)
  out_call (copied bs) = buffered_write o cap bs
  out_call (in_place bs) = buffered_commit o cap bs
  out_call flushed = flush o cap

  abbrev pub out_calls : List OutCall → BufferedOut o cap → Option (BufferedOut o cap)
  out_calls [] b = some b
  out_calls (call ∷ calls) b = out_call call b >>= out_calls calls
