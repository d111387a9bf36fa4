-- ===== src/Process/Reports.antt =====
-- What `writeLineToFd` (main.cpp) writes.
use kj.Base.{
  ℕ, ◌+◌, ◌-◌, ◌%◌, ◌^◌, ◌<◌, ◌≡◌, refl, ap, sym, ◌∙◌, Bool, true, false, ◌&&◌, [], ◌∷◌, ◌++◌,
  append_assoc, length, take, drop, leb, ◌==◌, if◌then◌else◌, if_true, if_false, take-all,
  length-append, drop_cut, le→leb, arith, Bool-cases, inl, inr,
}
use kj.Text.{Bytes}
use kj.Text.Search.{codes, bytes_eq}
use kj.Process.{
  Handle, System, WritesWhole, ends_with, returned, put_file, checked_write, write_line_to_fd,
  end_line,
}

true_end : (b : Bool) → b && true ≡ b
true_end true = refl
true_end false = refl

pub ends_with-newline : (body : Bytes) (c : ℕ) → ends_with (body ++ c ∷ []) (codes "\n") ≡ (c == 10)
unfolding ends_with bytes_eq
ends_with-newline body c =
    let size = length-append body (c ∷ []) in
    let fits : leb 1 (length (body ++ c ∷ [])) ≡ true =
      le→leb 1 (length (body ++ c ∷ [])) (omega arith) in
    let last : drop (length (body ++ c ∷ []) - 1) (body ++ c ∷ []) ≡ c ∷ [] =
      drop_cut (body ++ c ∷ []) body (c ∷ []) (length (body ++ c ∷ []) - 1) refl (omega arith) in
    if_true _ _ fits ∙ ap (λ t. bytes_eq t (codes "\n")) last ∙ true_end (c == 10)

module _ (y : System) (w : WritesWhole y) where
  pub put_file_whole :
      (h : Handle) (bs : Bytes) (s : y.State)
      → 0 < length bs
      → length bs < 2 ^ 32
      → (s' : y.State) × (put_file y h bs s ≡ (s', returned))
        × (y.written h s' ≡ y.written h s ++ bs)
  unfolding put_file checked_write
  put_file_whole h [] s some_bytes small = absurd (omega arith)
  put_file_whole h (c ∷ cs) s some_bytes small =
      let size : length (c ∷ cs) % 2 ^ 32 ≡ length (c ∷ cs) = omega arith in
      let whole : take (length (c ∷ cs)) (c ∷ cs) ≡ c ∷ cs =
        take-all (length (c ∷ cs)) (c ∷ cs) (omega arith) in
      let (s', e, sink) = w h (c ∷ cs) s some_bytes in (s', rw (size, whole, e), sink)

  write_line_once :
      (h : Handle) (bs : Bytes) (s : y.State)
      → 0 < length bs
      → length bs < 2 ^ 32
      → ends_with bs (codes "\n") ≡ true
      → (s' : y.State) × (write_line_to_fd y h bs s ≡ (s', returned))
        × (y.written h s' ≡ y.written h s ++ bs)
  unfolding write_line_to_fd end_line
  write_line_once h [] s some_bytes small line = absurd (omega arith)
  write_line_once h (c ∷ cs) s some_bytes small line =
      let (s', e, sink) = put_file_whole h (c ∷ cs) s some_bytes small in (s', rw (e, line), sink)

  write_line_twice :
      (h : Handle) (bs : Bytes) (s : y.State)
      → 0 < length bs
      → length bs < 2 ^ 32
      → ends_with bs (codes "\n") ≡ false
      → (s' : y.State) × (write_line_to_fd y h bs s ≡ (s', returned))
        × (y.written h s' ≡ y.written h s ++ (bs ++ bs))
  unfolding write_line_to_fd end_line
  write_line_twice h [] s some_bytes small line = absurd (omega arith)
  write_line_twice h (c ∷ cs) s some_bytes small line =
      let (s', e, sink) = put_file_whole h (c ∷ cs) s some_bytes small in
      let (s2, e2, sink2) = put_file_whole h (c ∷ cs) s' some_bytes small in
      (
        s2,
        rw (e, line, e2),
        sink2 ∙ ap (λ t. t ++ c ∷ cs) sink ∙ append_assoc (y.written h s) (c ∷ cs) (c ∷ cs),
      )

  -- A line that is not empty is written once where it ends with a newline, and twice where it does
  -- not, if the system writes what it is given and the line is shorter than 2^32.
  pub write_line_to_fd_lem :
      (h : Handle) (body : Bytes) (c : ℕ) (s : y.State)
      → length body + 1 < 2 ^ 32
      → (s' : y.State) × (write_line_to_fd y h (body ++ c ∷ []) s ≡ (s', returned))
        × (y.written h s' ≡ y.written h s ++ (body ++ c ∷ (if c == 10 then [] else body ++ c ∷ [])))
  write_line_to_fd_lem h body c s small =
      let size = length-append body (c ∷ []) in
      elim (Bool-cases (c == 10)) [
        | inl newline ↦
            (let (s', e, sink) =
                write_line_once h (body ++ c ∷ []) s (omega arith) (omega arith)
                  (ends_with-newline body c ∙ newline) in
              (
                s',
                e,
                sink ∙ ap (λ t. y.written h s ++ (body ++ c ∷ t)) (sym (if_true _ _ newline)),
              ))
        | inr other ↦
            (let (s', e, sink) =
                write_line_twice h (body ++ c ∷ []) s (omega arith) (omega arith)
                  (ends_with-newline body c ∙ other) in
              (
                s',
                e,
                sink
                    ∙ ap (λ t. y.written h s ++ t) (append_assoc body (c ∷ []) (body ++ c ∷ []))
                    ∙ ap (λ t. y.written h s ++ (body ++ c ∷ t)) (sym (if_false _ _ other)),
              ))
      ]

  -- A line is written without an exception.
  pub write_line_to_fd-returned :
      (h : Handle) (bs : Bytes) (s : y.State)
      → length bs < 2 ^ 32
      → (s' : y.State) × (write_line_to_fd y h bs s ≡ (s', returned))
  unfolding write_line_to_fd
  write_line_to_fd-returned h [] s small = (s, refl)
  write_line_to_fd-returned h (c ∷ cs) s small =
      elim (Bool-cases (ends_with (c ∷ cs) (codes "\n"))) [
        | inl line ↦
            (let (s', e, _) = write_line_once h (c ∷ cs) s (omega arith) small line in (s', e))
        | inr rest ↦
            (let (s', e, _) = write_line_twice h (c ∷ cs) s (omega arith) small rest in (s', e))
      ]
