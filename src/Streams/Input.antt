-- ===== src/Streams/Input.antt =====
-- `InputStream::read` and `InputStream::skip` (io.cpp) over any stream that meets the contract.
use kj.Base.{
  ℕ, zero, suc, ◌+◌, ◌-◌, ◌≤◌, ◌<◌, min, ◌≡◌, refl, ap, sym, ◌∙◌, none, some, length, length-append,
  drop, drop_cut, drop-drop, if_true, if_false, le→leb, lt→leb, arith,
}
use kj.Streams.{InputStream, Reads, Delivers, Ends, read, skip_loop, default_skip}

module _ (i : InputStream) (d : Delivers i) where
  open i use {State, contents}

  pub read-Reads :
      (lo hi : ℕ) (s : State)
      → lo ≤ hi
      → lo ≤ length (contents s)
      → Reads contents lo hi s (read i lo hi s)
  unfolding read
  read-Reads lo hi s h g =
      let (bs, s', e, least, most, cut) = d.reads lo hi s h g in
      (bs, s', rw e (if_true _ _ (le→leb _ _ least)), least, most, cut)

  skip_loop-drop :
      (fuel n : ℕ) (s : State)
      → n ≤ fuel
      → n ≤ length (contents s)
      → (s' : State) × (skip_loop i fuel n s ≡ some s') × (contents s' ≡ drop n (contents s))
  unfolding skip_loop
  skip_loop-drop fuel zero s h g = (s, refl, refl)
  skip_loop-drop zero (suc n) s h g = absurd (omega arith)
  skip_loop-drop (suc fuel) (suc n) s h g =
      let amount : ℕ = min (suc n) 8192 in
      let (bs, s', e, least, most, cut) = read-Reads amount amount s (omega arith) (omega arith) in
      let size : length bs ≡ amount = omega arith in
      let behind : contents s' ≡ drop amount (contents s) =
        sym (drop_cut (contents s) bs (contents s') amount cut size) in
      let (t, e', rest) =
        skip_loop-drop fuel (suc n - amount) s' (omega arith)
          (omega (arith, ap length cut, length-append bs (contents s'))) in
      let whole : amount + (suc n - amount) ≡ suc n = omega arith in
      (
        t,
        rw e e',
        rest
            ∙ ap (drop (suc n - amount)) behind
            ∙ drop-drop amount (suc n - amount) (contents s)
            ∙ ap (λ (k : ℕ). drop k (contents s)) whole,
      )

  -- `skip` in its default implementation ends, and skips as many bytes as it is told to, where the
  -- stream holds them.
  pub default_skip-drop :
      (n : ℕ) (s : State)
      → n ≤ length (contents s)
      → (s' : State) × (default_skip i n s ≡ some s') × (contents s' ≡ drop n (contents s))
  unfolding default_skip
  default_skip-drop n s h = skip_loop-drop n n s (omega arith) h

-- `read` throws where the stream ends before the least number of bytes.
pub read-Ends :
    (i : InputStream)
    → Ends i
    → (lo hi : ℕ) (s : i.State) → lo ≤ hi
    → length (i.contents s) < lo
    → read i lo hi s ≡ none
unfolding read
read-Ends i d lo hi s h g =
    let (s', e, gone) = d.ends lo hi s h g in rw e (if_false _ _ (lt→leb _ _ g))
