-- ===== src/Streams/Buffering.antt =====
-- A buffered input stream (io.cpp, `BufferedInputStreamWrapper`) delivers what the stream below does.
use kj.Base.{
  ℕ, ◌-◌, ◌≤◌, ◌<◌, min, ◌≡◌, refl, ap, sym, ◌∙◌, false, none, some, [], ◌++◌, append_assoc,
  append-nil, length, length-append, length-take, take, drop, take-append-drop, leb, ◌==◌, ==_iff,
  if_true, if_false, lt→leb, leb→le, Bool-cases, inl, inr, arith, eq_nil_of_length, drop-append_le,
  drop-append_ge,
}
use kj.Text.{Bytes}
use kj.Streams.{InputStream, Reads, Delivers, Ends}
use kj.Streams.Input.{read-Reads, read-Ends}
use kj.Streams.BufferedInput.{
  Buffered, buffered_contents, try_get_read_buffer, refill, buffered_try_read, buffered_skip,
  buffered_input,
}

module _ (i : InputStream) (cap : ℕ) (d : Delivers i) where
  refill-Reads :
      (first : Bytes) (lo hi : ℕ) (inner : i.State)
      → 0 < lo
      → lo ≤ hi
      → lo ≤ length (i.contents inner)
      → (bs : Bytes) × (b : Buffered i cap) × (refill i cap first lo hi inner
          ≡ some (first ++ bs, b))
        × (lo ≤ length bs)
        × (length bs ≤ hi)
        × (i.contents inner ≡ bs ++ buffered_contents i cap b)
  unfolding refill
  refill-Reads first lo hi inner p h g = elim (Bool-cases (leb hi cap)) [
    | inl small ↦
        let (bs, s', e, least, most, cut) =
          read-Reads i d lo cap inner (omega (arith, leb→le hi cap)) g in
        let n : ℕ = min (length bs) hi in
        (
          take n bs,
          record { inner = s'; available = drop n bs },
          if_true _ _ small ∙ rw e,
          omega (arith, length-take n bs),
          omega (arith, length-take n bs),
          cut
              ∙ ap (λ t. t ++ i.contents s') (sym (take-append-drop n bs))
              ∙ append_assoc (take n bs) (drop n bs) (i.contents s'),
        )
    | inr large ↦
        let (bs, s', e, least, most, cut) = read-Reads i d lo hi inner h g in
        (bs, record { inner = s'; available = [] }, if_false _ _ large ∙ rw e, least, most, cut)
  ]

  buffered_try_read-Reads :
      (lo hi : ℕ) (b : Buffered i cap)
      → lo ≤ hi
      → lo ≤ length (buffered_contents i cap b)
      → Reads (buffered_contents i cap) lo hi b (buffered_try_read i cap lo hi b)
  unfolding buffered_try_read
  buffered_try_read-Reads lo hi b h g =
      let first : Bytes = b.available in
      elim (Bool-cases (leb lo (length first))) [
        | inl held ↦
            let n : ℕ = min (length first) hi in
            let held' : lo ≤ length first = leb→le _ _ held in
            (
              take n first,
              record b { available = drop n first },
              if_true _ _ held,
              omega (arith, length-take n first),
              omega (arith, length-take n first),
              ap (λ t. t ++ i.contents b.inner) (sym (take-append-drop n first))
                  ∙ append_assoc (take n first) (drop n first) (i.contents b.inner),
            )
        | inr few ↦
            let short : length first < lo = ground arith in
            let (bs, b', e, least, most, cut) =
              refill-Reads first (lo - length first) (hi - length first) b.inner (omega arith)
                (omega arith) (omega (arith, length-append first (i.contents b.inner))) in
            (
              first ++ bs,
              b',
              if_false _ _ few ∙ e,
              omega (arith, length-append first bs),
              omega (arith, length-append first bs),
              ap (λ t. first ++ t) cut ∙ sym (append_assoc first bs (buffered_contents i cap b')),
            )
      ]

  buffered_skip-drop :
      (n : ℕ) (b : Buffered i cap)
      → n ≤ length (buffered_contents i cap b)
      → (b' : Buffered i cap) × (buffered_skip i cap n b ≡ some b')
        × (buffered_contents i cap b' ≡ drop n (buffered_contents i cap b))
  unfolding buffered_skip
  buffered_skip-drop n b h =
      let first : Bytes = b.available in
      let left : ℕ = n - length first in
      let size = length-append first (i.contents b.inner) in
      elim (Bool-cases (leb n (length first))) [
        | inl held ↦ (
          record b { available = drop n first },
          if_true _ _ held,
          sym (drop-append_le n first (i.contents b.inner) (leb→le _ _ held)),
        )
        | inr few ↦
            let short : length first < n = ground arith in
            let rest : drop n (first ++ i.contents b.inner) ≡ drop left (i.contents b.inner) =
              drop-append_ge n first (i.contents b.inner) (omega arith) in
            elim (Bool-cases (leb left cap)) [
              | inl small ↦
                  let (bs, s', e, least, most, cut) =
                    read-Reads i d left cap b.inner (leb→le _ _ small) (omega arith) in
                  (
                    record { inner = s'; available = drop left bs },
                    if_false _ _ few ∙ if_true _ _ small ∙ rw e,
                    sym (rest ∙ ap (drop left) cut ∙ drop-append_le left bs (i.contents s') least),
                  )
              | inr large ↦
                  let (s', e, behind) = d.skips left b.inner (omega arith) in
                  (
                    record { inner = s'; available = [] },
                    if_false _ _ few ∙ if_false _ _ large ∙ rw e,
                    behind ∙ sym rest,
                  )
            ]
      ]

  -- Over a stream that delivers what it holds, the buffered stream does so too: reads and skips go
  -- by what the buffer and the stream below hold one after the other, whatever they are.
  pub buffered_input-Delivers : Delivers (buffered_input i cap)
  buffered_input-Delivers = record { reads = buffered_try_read-Reads; skips = buffered_skip-drop }

  -- `tryGetReadBuffer`, over a stream that also tells its end, leaves what is to be read as it is,
  -- shows a prefix of it, and shows nothing only where nothing is left.
  pub try_get_read_buffer_lem :
      (b : Buffered i cap)
      → Ends i
      → 0 < cap
      → (bs : Bytes) × (b' : Buffered i cap) × (try_get_read_buffer i cap b ≡ some (bs, b'))
        × (b'.available ≡ bs)
        × (buffered_contents i cap b' ≡ buffered_contents i cap b)
        × (length bs ≡ 0 → buffered_contents i cap b ≡ [])
  unfolding try_get_read_buffer
  try_get_read_buffer_lem b ends pos = elim (Bool-cases (length b.available == 0)) [
    | inr held ↦ (b.available, b, if_false _ _ held, refl, refl, λ none_left. absurd (ground arith))
    | inl spent ↦
        let nil : b.available ≡ [] = eq_nil_of_length b.available ((==_iff _ 0).0 spent) in
        let all : i.contents b.inner ≡ buffered_contents i cap b =
          ap (λ t. t ++ i.contents b.inner) (sym nil) in
        elim (Bool-cases (leb 1 (length (i.contents b.inner)))) [
          | inl more ↦
              let (bs, s', e, least, most, cut) =
                d.reads 1 cap b.inner (omega arith) (leb→le _ _ more) in
              (
                bs,
                record { inner = s'; available = bs },
                if_true _ _ spent ∙ rw e,
                refl,
                sym cut ∙ all,
                λ none_left. absurd (omega arith),
              )
          | inr end ↦
              let empty : i.contents b.inner ≡ [] = eq_nil_of_length _ (ground arith) in
              let (s', e, gone) = ends.ends 1 cap b.inner (omega arith) (ground arith) in
              (
                i.contents b.inner,
                record { inner = s'; available = i.contents b.inner },
                if_true _ _ spent ∙ rw e,
                refl,
                ap (λ t. i.contents b.inner ++ t) gone ∙ append-nil (i.contents b.inner) ∙ all,
                λ none_left. sym all ∙ empty,
              )
        ]
  ]

  refill-Ends :
      (first : Bytes) (lo hi : ℕ) (inner : i.State)
      → Ends i
      → lo ≤ hi
      → length (i.contents inner) < lo
      → refill i cap first lo hi inner ≡ none
  unfolding refill
  refill-Ends first lo hi inner ends h g = elim (Bool-cases (leb hi cap)) [
    | inl small ↦ rw small (rw (read-Ends i ends lo cap inner (omega (arith, leb→le hi cap)) g))
    | inr large ↦ rw large (rw (read-Ends i ends lo hi inner h g))
  ]

  -- Where the stream below tells its end and holds too few bytes, the buffered stream's `tryRead`
  -- throws, though `tryRead` may return fewer bytes at the end of a stream. So it does not tell its
  -- own end.
  pub buffered_try_read-Ends :
      (lo hi : ℕ) (b : Buffered i cap)
      → Ends i
      → lo ≤ hi
      → length (buffered_contents i cap b) < lo
      → buffered_try_read i cap lo hi b ≡ none
  unfolding buffered_try_read
  buffered_try_read-Ends lo hi b ends h g =
      let size = length-append b.available (i.contents b.inner) in
      let few : leb lo (length b.available) ≡ false = lt→leb _ _ (omega arith) in
      if_false _ _ few
      ∙ refill-Ends b.available (lo - length b.available) (hi - length b.available) b.inner ends
          (omega arith) (omega arith)
