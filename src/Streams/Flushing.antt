-- ===== src/Streams/Flushing.antt =====
-- A buffered output stream (io.cpp, `BufferedOutputStreamWrapper`) passes on what is written to it, in
-- its order.
use kj.Base.{
  ℕ, ◌-◌, ◌≤◌, ◌≡◌, refl, ap, subst, sym, ◌∙◌, Option, none, some, List, [], ◌∷◌, ◌++◌,
  append_assoc, append-nil, length, length-append, length-drop, take, drop, take-append-drop,
  concat, leb, ltb, leb→le, Bool-cases, inl, inr, >>=-eq-some, arith, eq_nil_of_length, if_true,
  if_false,
}
use kj.Text.{Bytes}
use kj.Streams.Output.{
  OutputStream, WritesAll, write_pieces, BufferedOut, flush, buffered_write, buffered_commit,
  OutCall, copied, in_place, flushed, out_call, out_calls,
}

-- The bytes of the calls.
abbrev pub bytes_of : List OutCall → Bytes
bytes_of [] = []
bytes_of (copied bs ∷ calls) = bs ++ bytes_of calls
bytes_of (in_place bs ∷ calls) = bs ++ bytes_of calls
bytes_of (flushed ∷ calls) = bytes_of calls

bytes_of-cons :
    (call : OutCall) (calls : List OutCall)
    → bytes_of (call ∷ []) ++ bytes_of calls ≡ bytes_of (call ∷ calls)
bytes_of-cons (copied bs) calls = append_assoc bs [] (bytes_of calls)
bytes_of-cons (in_place bs) calls = append_assoc bs [] (bytes_of calls)
bytes_of-cons flushed calls = refl

module _ (o : OutputStream) (w : WritesAll o) where
  -- Writing pieces is writing their bytes.
  pub write_pieces-concat :
      (pieces : List Bytes) (s : o.State) {s' : o.State}
      → write_pieces o pieces s ≡ some s'
      → o.written s' ≡ o.written s ++ concat pieces
  unfolding write_pieces
  write_pieces-concat [] s h = sym (append-nil (o.written s) ∙ ap o.written (cc))
  write_pieces-concat (piece ∷ pieces) s h =
      let (t, first, rest) = >>=-eq-some (o.write piece s) (write_pieces o pieces) h in
      write_pieces-concat pieces t rest
      ∙ ap (λ x. x ++ concat pieces) (w.writes piece s first)
      ∙ append_assoc (o.written s) piece (concat pieces)

module _ (o : OutputStream) (cap : ℕ) (w : WritesAll o) where
  -- All that was written, whether it was passed on or not.
  abbrev pub all_written : BufferedOut o cap → Bytes
  all_written b = o.written b.inner ++ b.filled

  abbrev Took : BufferedOut o cap → Bytes → BufferedOut o cap → Type 0
  Took b bs b' = (all_written b' ≡ all_written b ++ bs) × (length b'.filled ≤ cap)

  flush-Took :
      (b : BufferedOut o cap) {b' : BufferedOut o cap}
      → length b.filled ≤ cap
      → flush o cap b ≡ some b'
      → (b'.filled ≡ []) × (o.written b'.inner ≡ all_written b)
  unfolding flush
  flush-Took b {b'} fits h = elim (Bool-cases (ltb 0 (length b.filled))) [
    | inl some_left ↦
        let (s, e, r) =
          >>=-eq-some (o.write b.filled b.inner) _ (sym (if_true _ _ some_left) ∙ h) in
        let same : record { inner = s; filled = [] } ≡ b' = cc in
        (
          ap (λ (t : BufferedOut o cap). t.filled) (sym same),
          ap (λ (t : BufferedOut o cap). o.written t.inner) (sym same)
              ∙ w.writes b.filled b.inner e,
        )
    | inr none_left ↦
        let nil : b.filled ≡ [] = eq_nil_of_length b.filled (ground arith) in
        let same : b ≡ b' = cc (sym (if_false _ _ none_left) ∙ h) in
        (
          ap (λ (t : BufferedOut o cap). t.filled) (sym same) ∙ nil,
          ap (λ (t : BufferedOut o cap). o.written t.inner) (sym same)
              ∙ sym (ap (λ t. o.written b.inner ++ t) nil ∙ append-nil (o.written b.inner)),
        )
  ]

  -- What a call leaves, as it is read off an equation.
  left_as :
      (s : o.State) (bs : Bytes) {b' : BufferedOut o cap}
      → ◌≡◌ {A = Option (BufferedOut o cap)} (some (record { inner = s; filled = bs })) (some b')
      → (all_written b' ≡ o.written s ++ bs) × (b'.filled ≡ bs)
  left_as s bs {b'} h =
      let same : record { inner = s; filled = bs } ≡ b' = cc in
      (ap all_written (sym same), ap (λ (t : BufferedOut o cap). t.filled) (sym same))

  buffered_write-Took :
      (bs : Bytes) (b : BufferedOut o cap) {b' : BufferedOut o cap}
      → length b.filled ≤ cap
      → buffered_write o cap bs b ≡ some b'
      → Took b bs b'
  unfolding buffered_write
  buffered_write-Took bs b {b'} fits h =
      let room : ℕ = cap - length b.filled in
      let old : Bytes = o.written b.inner in
      elim (Bool-cases (leb (length bs) room)) [
        | inl small ↦
            let (all, kept) = left_as b.inner (b.filled ++ bs) (sym (if_true _ _ small) ∙ h) in
            (
              all ∙ sym (append_assoc old b.filled bs),
              omega
                  (arith, ap length kept, length-append b.filled bs, leb→le (length bs) room small),
            )
        | inr large ↦ elim (Bool-cases (leb (length bs) cap)) [
          | inl medium ↦
              let (s, e, r) =
                >>=-eq-some (o.write (b.filled ++ take room bs) b.inner) _
                  (sym (if_false _ _ large ∙ if_true _ _ medium) ∙ h) in
              let (all, kept) = left_as s (drop room bs) r in
              (
                all
                    ∙ ap (λ t. t ++ drop room bs) (w.writes (b.filled ++ take room bs) b.inner e)
                    ∙ rw
                        (
                          append_assoc old (b.filled ++ take room bs) (drop room bs),
                          append_assoc b.filled (take room bs) (drop room bs),
                          take-append-drop room bs,
                        )
                        (sym (append_assoc old b.filled bs)),
                omega (arith, ap length kept, length-drop room bs, leb→le (length bs) cap medium),
              )
          | inr huge ↦
              let (s, e, r) =
                >>=-eq-some (o.write b.filled b.inner) _
                  (sym (if_false _ _ large ∙ if_false _ _ huge) ∙ h) in
              let (s', e', r') = >>=-eq-some (o.write bs s) _ r in
              let (all, kept) = left_as s' [] r' in
              (
                all
                    ∙ append-nil (o.written s')
                    ∙ w.writes bs s e'
                    ∙ ap (λ t. t ++ bs) (w.writes b.filled b.inner e),
                omega (arith, ap length kept),
              )
        ]
      ]

  -- Bytes in the buffer stand in the room that `getWriteBuffer` gave.
  abbrev pub InRoom : OutCall → BufferedOut o cap → Type 0
  InRoom (copied bs) b = Unit {0}
  InRoom (in_place bs) b = length bs ≤ cap - length b.filled
  InRoom flushed b = Unit {0}

  -- A property of what a call leaves, if it does not throw.
  abbrev pub Leaves : Option (BufferedOut o cap) → (BufferedOut o cap → Type 0) → Type 0
  Leaves none P = Unit {0}
  Leaves (some m) P = P m

  abbrev pub AllInRoom : List OutCall → BufferedOut o cap → Type 0
  AllInRoom [] b = Unit {0}
  AllInRoom (call ∷ calls) b =
      InRoom call b × Leaves (out_call o cap call b) (λ m. AllInRoom calls m)

  buffered_commit-Took :
      (bs : Bytes) (b : BufferedOut o cap) {b' : BufferedOut o cap}
      → length b.filled ≤ cap
      → length bs ≤ cap - length b.filled
      → buffered_commit o cap bs b ≡ some b'
      → Took b bs b'
  unfolding buffered_commit
  buffered_commit-Took bs b fits room h =
      let (all, kept) = left_as b.inner (b.filled ++ bs) h in
      (
        all ∙ sym (append_assoc (o.written b.inner) b.filled bs),
        omega (arith, ap length kept, length-append b.filled bs),
      )

  out_call-Took :
      (call : OutCall) (b : BufferedOut o cap) {b' : BufferedOut o cap}
      → length b.filled ≤ cap
      → InRoom call b
      → out_call o cap call b ≡ some b'
      → Took b (bytes_of (call ∷ [])) b'
  out_call-Took (copied bs) b fits room h =
      let (all, kept) = buffered_write-Took bs b fits h in
      (all ∙ ap (λ t. all_written b ++ t) (sym (append-nil bs)), kept)
  out_call-Took (in_place bs) b fits room h =
      let (all, kept) = buffered_commit-Took bs b fits room h in
      (all ∙ ap (λ t. all_written b ++ t) (sym (append-nil bs)), kept)
  out_call-Took flushed b {b'} fits room h =
      let (nil, all) = flush-Took b fits h in
      (
        ap (λ t. o.written b'.inner ++ t) nil
            ∙ append-nil (o.written b'.inner)
            ∙ all
            ∙ sym (append-nil (all_written b)),
        omega (arith, ap length nil),
      )

  -- Over a stream whose writes write all, however the calls are mixed and wherever the buffer stands,
  -- where bytes that are written in place stand in the room that `getWriteBuffer` gives:
  -- where no call throws, what has been passed on and the buffer hold the bytes of all calls in their
  -- order, and the buffer has not overflown. A `flush` that does not throw then passes all on and
  -- leaves the buffer empty.
  pub out_calls-flush :
      (calls : List OutCall) (b : BufferedOut o cap) {b' c : BufferedOut o cap}
      → length b.filled ≤ cap
      → AllInRoom calls b
      → out_calls o cap calls b ≡ some b'
      → flush o cap b' ≡ some c
      → (all_written b' ≡ all_written b ++ bytes_of calls)
        × (length b'.filled ≤ cap)
        × (o.written c.inner ≡ all_written b ++ bytes_of calls)
        × (c.filled ≡ [])
  out_calls-flush [] b {b'} fits within h g =
      let same : b ≡ b' = cc in
      let fits' : length b'.filled ≤ cap =
        subst (λ (t : BufferedOut o cap). length t.filled ≤ cap) same fits in
      let all : all_written b' ≡ all_written b ++ [] =
        ap all_written (sym same) ∙ sym (append-nil (all_written b)) in
      let (nil, passed) = flush-Took b' fits' g in (all, fits', passed ∙ all, nil)
  out_calls-flush (call ∷ calls) b {b'} fits (one_fits, within) h g =
      let (m, first, rest) = >>=-eq-some (out_call o cap call b) (out_calls o cap calls) h in
      let (one, fits') = out_call-Took call b fits one_fits first in
      let (all, room, passed, nil) =
        out_calls-flush calls m fits' (subst (λ r. Leaves r (λ t. AllInRoom calls t)) first within)
          rest g in
      let joined : all_written m ++ bytes_of calls ≡ all_written b ++ bytes_of (call ∷ calls) =
        ap (λ t. t ++ bytes_of calls) one
        ∙ append_assoc (all_written b) (bytes_of (call ∷ [])) (bytes_of calls)
        ∙ ap (λ t. all_written b ++ t) (bytes_of-cons call calls) in
      (all ∙ joined, room, passed ∙ joined, nil)
