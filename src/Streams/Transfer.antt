-- ===== src/Streams/Transfer.antt =====
-- File streams (io.cpp) against their contracts.
use kj.Base.{
  ℕ, zero, suc, ◌+◌, ◌-◌, ◌%◌, ◌^◌, ◌≤◌, ◌<◌, min, ◌≡◌, ◌≢◌, refl, ap, sym, ◌∙◌, true, Option, some,
  [], ◌∷◌, ◌++◌, append_assoc, append-nil, length, length-append, length-take, length-drop, take,
  drop, take-append-drop, take-all, take-take_le, ltb, ◌==◌, ==_iff, if_true, le→ltb, ltb→lt,
  Bool-cases, inl, inr, arith, eq_nil_of_length,
}
use kj.Text.{Bytes}
use kj.Streams.Fd.{
  Files, ReadsFiles, WritesFiles, fd_read_loop, fd_try_read, fd_write_loop, fd_write,
  fd_write_pieces, Works,
}

module _ (f : Files) (r : ReadsFiles f) where
  -- What a loop that has read `got` returns.
  abbrev Filled : ℕ → ℕ → Bytes → f.State → Option (Bytes × f.State) → Type 0
  Filled lo hi got s result =
      (bs : Bytes) × (s' : f.State) × (result ≡ some (got ++ bs, s'))
      × (min lo (length got + length (f.source s)) ≤ length got + length bs)
      × (length got + length bs ≤ hi)
      × (f.source s ≡ bs ++ f.source s')

  stop :
      (lo hi : ℕ) (got : Bytes) (s : f.State)
      → lo ≤ length got
      → length got ≤ hi
      → Filled lo hi got s (some (got, s))
  stop lo hi got s h g =
      ([], s, ap (λ t. some (t, s)) (sym (append-nil got)), omega arith, omega arith, refl)

  -- A round that reads some bytes, and one at the end.
  round_more :
      (fuel lo hi : ℕ) (got bs : Bytes) (s s' : f.State)
      → ltb (length got) lo ≡ true
      → (hi - length got) % 2 ^ 32 ≡ hi - length got
      → f.read_file (hi - length got) s ≡ some (bs, s')
      → 0 < length bs
      → fd_read_loop f (suc fuel) lo hi got s ≡ fd_read_loop f fuel lo hi (got ++ bs) s'
  unfolding fd_read_loop
  round_more fuel lo hi got [] s s' few size e some_of = absurd (omega arith)
  round_more fuel lo hi got (c ∷ cs) s s' few size e some_of = if_true _ _ few ∙ rw (size, e)

  round_end :
      (fuel lo hi : ℕ) (got : Bytes) (s s' : f.State)
      → ltb (length got) lo ≡ true
      → (hi - length got) % 2 ^ 32 ≡ hi - length got
      → f.read_file (hi - length got) s ≡ some ([], s')
      → fd_read_loop f (suc fuel) lo hi got s ≡ some (got, s')
  unfolding fd_read_loop
  round_end fuel lo hi got s s' few size e = if_true _ _ few ∙ rw (size, e)

  fd_read_loop-Filled :
      (fuel lo hi : ℕ) (got : Bytes) (s : f.State)
      → lo ≤ hi
      → hi < 2 ^ 32
      → length got ≤ hi
      → lo ≤ length got + fuel
      → Filled lo hi got s (fd_read_loop f fuel lo hi got s)
  unfolding fd_read_loop
  fd_read_loop-Filled zero lo hi got s h small room fuel_left =
      rw (le→ltb (length got) lo (omega arith), fd_read_loop) (stop lo hi got s (omega arith) room)
  fd_read_loop-Filled (suc fuel) lo hi got s h small room fuel_left =
      elim (Bool-cases (ltb (length got) lo)) [
        | inr enough ↦ rw (enough, fd_read_loop) (stop lo hi got s (ground arith) room)
        | inl few ↦
            let short : length got < lo = ltb→lt _ _ few in
            let size : (hi - length got) % 2 ^ 32 ≡ hi - length got = omega arith in
            elim (Bool-cases (length (f.source s) == 0)) [
              | inl spent ↦
                  let (s', e, gone) = r.at_end (hi - length got) s ((==_iff _ 0).0 spent) in
                  (
                    [],
                    s',
                    round_end fuel lo hi got s s' few size e
                        ∙ ap (λ t. some (t, s')) (sym (append-nil got)),
                    omega (arith, (==_iff (length (f.source s)) 0).0 spent),
                    omega arith,
                    eq_nil_of_length _ ((==_iff _ 0).0 spent) ∙ sym gone,
                  )
              | inr more ↦
                  let (bs, s', e, some_of, most, cut) =
                    r.gives (hi - length got) s (omega arith) (ground arith) in
                  let total = length-append got bs in
                  let (bs', s'', e', least, fits, cut') =
                    fd_read_loop-Filled fuel lo hi (got ++ bs) s' h small (omega arith)
                      (omega arith) in
                  (
                    bs ++ bs',
                    s'',
                    round_more fuel lo hi got bs s s' few size e some_of
                        ∙ e'
                        ∙ ap (λ t. some (t, s'')) (append_assoc got bs bs'),
                    omega (
                      arith,
                      length-append bs bs',
                      ap length cut,
                      length-append bs (f.source s'),
                    ),
                    omega (arith, length-append bs bs'),
                    cut ∙ ap (λ t. bs ++ t) cut' ∙ sym (append_assoc bs bs' (f.source s'')),
                  )
            ]
      ]

  -- For fewer than 2^32 bytes, `tryRead` of a file ends. It returns the bytes that come next, at most
  -- `hi` of them, and at least `lo` or all that the file holds.
  pub fd_try_read_lem :
      (lo hi : ℕ) (s : f.State)
      → lo ≤ hi
      → hi < 2 ^ 32
      → (bs : Bytes) × (s' : f.State) × (fd_try_read f lo hi s ≡ some (bs, s'))
        × (min lo (length (f.source s)) ≤ length bs)
        × (length bs ≤ hi)
        × (f.source s ≡ bs ++ f.source s')
  unfolding fd_try_read
  fd_try_read_lem lo hi s h small =
      let (bs, s', e, least, most, cut) =
        fd_read_loop-Filled lo lo hi [] s h small (omega arith) (omega arith) in
      (bs, s', e, omega arith, omega arith, cut)

module _ (f : Files) (w : WritesFiles f) where
  -- What a call of `WriteFile` on the first bytes takes off.
  wrote :
      (size n : ℕ) (bs : Bytes) (s s' : f.State)
      → f.write_file (take size bs) s ≡ some (n, s')
      → f.sink s' ++ drop n bs ≡ f.sink s ++ bs
  wrote size n bs s s' e =
      let (fits, passed) = w.takes (take size bs) s e in
      let cut : take n (take size bs) ≡ take n bs =
        take-take_le n size bs (omega (arith, length-take size bs)) in
      ap (λ t. t ++ drop n bs) (passed ∙ ap (λ t. f.sink s ++ t) cut)
      ∙ append_assoc (f.sink s) (take n bs) (drop n bs)
      ∙ ap (λ t. f.sink s ++ t) (take-append-drop n bs)

  fd_write_loop-append :
      (fuel : ℕ) (bs : Bytes) (s : f.State)
      → Works f
      → length bs ≤ fuel
      → length bs < 2 ^ 32
      → (s' : f.State) × (fd_write_loop f fuel bs s ≡ some s') × (f.sink s' ≡ f.sink s ++ bs)
  unfolding fd_write_loop
  fd_write_loop-append fuel [] s works h small = (s, refl, sym (append-nil (f.sink s)))
  fd_write_loop-append zero (c ∷ cs) s works h small = absurd (omega arith)
  fd_write_loop-append (suc fuel) (c ∷ cs) s works h small =
      let size : ℕ = length (c ∷ cs) % 2 ^ 32 in
      let (n, t, e) = works (take size (c ∷ cs)) s (omega (arith, length-take size (c ∷ cs))) in
      let (s', e', all) =
        fd_write_loop-append fuel (drop n cs) t works (omega (arith, length-drop n cs))
          (omega (arith, length-drop n cs)) in
      (s', rw e e', all ∙ wrote size (suc n) (c ∷ cs) s t e)

  -- For fewer than 2^32 bytes, on a system whose writes succeed and write some bytes, `write` to a
  -- file ends and writes all bytes, however few are written at a time.
  pub fd_write_lem :
      (bs : Bytes) (s : f.State)
      → Works f
      → length bs < 2 ^ 32
      → (s' : f.State) × (fd_write f bs s ≡ some s') × (f.sink s' ≡ f.sink s ++ bs)
  unfolding fd_write
  fd_write_lem bs s works small = fd_write_loop-append (length bs) bs s works (omega arith) small

  -- Where the system writes a part of a piece only, `write` of pieces leaves out the rest of it and
  -- returns as if all were written.
  pub fd_write_pieces_short :
      (piece : Bytes) (s s' : f.State) (n : ℕ)
      → length piece < 2 ^ 32
      → f.write_file piece s ≡ some (suc n, s')
      → suc n < length piece
      → (fd_write_pieces f (piece ∷ []) s ≡ some s')
        × (f.sink s' ≡ f.sink s ++ take (suc n) piece)
        × (f.sink s' ≢ f.sink s ++ piece)
  unfolding fd_write_pieces
  fd_write_pieces_short piece s s' n small e short =
      let size : length piece % 2 ^ 32 ≡ length piece = omega arith in
      let whole : take (length piece) piece ≡ piece = take-all (length piece) piece (omega arith) in
      let (fits, passed) = w.takes piece s e in
      let before = length-append (f.sink s) (take (suc n) piece) in
      let after = length-append (f.sink s) piece in
      (
        rw (size, whole, e),
        passed,
        λ same.
            omega
              (arith, ap length same, ap length passed, before, after, length-take (suc n) piece),
      )
