-- ===== src/CommandLine/Wrapped.antt =====
-- The wrapping of help texts (main.cpp, `MainImpl::wrapText`) ends, keeps lines short, and loses
-- nothing but spaces and newlines.
use kj.Base.{
  ℕ, zero, suc, ◌+◌, ◌-◌, ◌%◌, ◌^◌, ◌≤◌, ◌<◌, ◌≡◌, refl, ap, sym, ◌∙◌, true, false, Option, none,
  some, [], ◌∷◌, ◌++◌, append_assoc, append-nil, length, drop, take, slice, replicate, leb, leb→le,
  Bool-cases, Option-cases, inl, inr, arith, length-drop, length-take, length-append,
  take-append-drop, take-all, take-append_cons, drop-append_cons,
}
use kj.Text.{Bytes}
use kj.Text.Search.{has_byte}
use kj.CommandLine.Wrap.{
  space, newline, wrap_pos, skip_spaces, skip_newline, fitting_line, wrap_loop, wrap_text,
}
use kj.CommandLine.Lines.{
  words, within, words-append, words-replicate, words-skip_spaces, words-skip_newline,
  length-skip_spaces, length-skip_newline, within-replicate, within-line, wrap_pos_bounds, no_line,
  fitting_line_cut,
}

-- What may be written behind `output` for `text`.
abbrev pub Wraps : Option Bytes → Bytes → Bytes → Type 0
Wraps result output text =
    (body : Bytes) × (result ≡ some (output ++ body))
    × (within 80 0 body ≡ true)
    × (words body ≡ words text)

module _ (n width : ℕ) (whole : n + width ≡ 80) (wide : 0 < width) where
  abbrev indent : Bytes
  indent = replicate n space

  -- A line in front of what is already short.
  Wraps-line :
      (result : Option Bytes) (output line text rest : Bytes)
      → has_byte newline line ≡ false
      → length line ≤ width
      → words line ++ words rest ≡ words text
      → Wraps result (output ++ (indent ++ (line ++ newline ∷ []))) rest
      → Wraps result output text
  Wraps-line result output line text rest free short all (body, e, fits, same) =
      let shown : Bytes = indent ++ (line ++ newline ∷ body) in
      let joined : (indent ++ (line ++ newline ∷ [])) ++ body ≡ shown =
        append_assoc indent (line ++ newline ∷ []) body
        ∙ ap (λ t. indent ++ t) (append_assoc line (newline ∷ []) body) in
      let text_of : words shown ≡ words text =
        rw
          (
            words-append indent (line ++ newline ∷ body),
            words-replicate n,
            words-append line (newline ∷ body),
            same,
          )
          all in
      let first : 0 + n ≡ n = omega arith in
      (
        shown,
        e ∙ ap some (append_assoc output _ body ∙ ap (λ t. output ++ t) joined),
        within-replicate 80 0 n (line ++ newline ∷ body) (omega arith)
            ∙ rw first (within-line 80 n line body free (omega arith))
            ∙ fits,
        text_of,
      )

  -- The last line.
  Wraps-last :
      (output text : Bytes)
      → has_byte newline text ≡ false
      → length text ≤ width
      → Wraps (some (output ++ (indent ++ (text ++ newline ∷ [])))) output text
  Wraps-last output text free short =
      Wraps-line _ output text text [] free short (append-nil (words text))
        ([], ap some (sym (append-nil _)), refl, refl)

  free_text :
      (text : Bytes)
      → fitting_line text width ≡ none
      → leb (length text) width ≡ true
      → has_byte newline text ≡ false
  free_text text e last =
      let short : length text ≤ width = leb→le _ _ last in
      ap (has_byte newline) (sym (take-all width text short))
      ∙ no_line text width width e (omega arith)

  step_nil : (fuel : ℕ) (output : Bytes) → wrap_loop fuel width indent [] output ≡ some output
  unfolding wrap_loop
  step_nil fuel output = refl

  -- A round in each of its three cases.
  step_fitting :
      (fuel c : ℕ) (cs output : Bytes) {j : ℕ}
      → fitting_line (c ∷ cs) width ≡ some j
      → wrap_loop (suc fuel) width indent (c ∷ cs) output
        ≡ wrap_loop fuel width indent
            (drop (suc j) (c ∷ cs))
            (output ++ (indent ++ slice (c ∷ cs) 0 (suc j)))
  unfolding wrap_loop
  step_fitting fuel c cs output e = rw (e, wrap_loop)

  step_last :
      (fuel c : ℕ) (cs output : Bytes)
      → fitting_line (c ∷ cs) width ≡ none
      → leb (length (c ∷ cs)) width ≡ true
      → wrap_loop (suc fuel) width indent (c ∷ cs) output
        ≡ some (output ++ (indent ++ (c ∷ cs ++ newline ∷ [])))
  unfolding wrap_loop
  step_last fuel c cs output e last = rw (e, wrap_loop) (rw last)

  step_long :
      (fuel c : ℕ) (cs output : Bytes)
      → fitting_line (c ∷ cs) width ≡ none
      → leb (length (c ∷ cs)) width ≡ false
      → wrap_loop (suc fuel) width indent (c ∷ cs) output
        ≡ wrap_loop fuel width indent
            (skip_newline (skip_spaces (drop (wrap_pos (c ∷ cs) width) (c ∷ cs))))
            (output ++ (indent ++ (take (wrap_pos (c ∷ cs) width) (c ∷ cs) ++ newline ∷ [])))
  unfolding wrap_loop
  step_long fuel c cs output e more = rw (e, wrap_loop) (rw more)

  -- What a round does with a line that fits.
  cut_line :
      (text ys zs : Bytes) (j : ℕ)
      → text ≡ ys ++ newline ∷ zs
      → j ≡ length ys
      → (drop (suc j) text ≡ zs) × (slice text 0 (suc j) ≡ ys ++ newline ∷ [])
  cut_line text ys zs j cut at =
      let all : suc (length ys) - 0 ≡ suc (length ys) = omega arith in
      (
        rw (cut, at) (drop-append_cons ys newline zs),
        rw (cut, at, all) (take-append_cons ys newline zs),
      )

  wrap_loop-Wraps :
      (fuel : ℕ) (text output : Bytes)
      → length text ≤ fuel
      → Wraps (wrap_loop fuel width indent text output) output text
  wrap_loop-Wraps fuel [] output h =
      ([], step_nil fuel output ∙ ap some (sym (append-nil output)), refl, refl)
  wrap_loop-Wraps zero (c ∷ cs) output h = absurd (omega arith)
  wrap_loop-Wraps (suc fuel) (c ∷ cs) output h =
      let text : Bytes = c ∷ cs in
      let pos : ℕ = wrap_pos text width in
      elim (Option-cases (fitting_line text width)) [
        | inr (j, e) ↦
            let (ys, zs, cut, free, at, short) = fitting_line_cut text width e in
            let (behind, line) = cut_line text ys zs j cut at in
            let all : words ys ++ words zs ≡ words text =
              sym (ap words cut ∙ words-append ys (newline ∷ zs)) in
            rw (step_fitting fuel c cs output e, behind, line)
              (Wraps-line _ output ys text zs free (omega arith) all (
                wrap_loop-Wraps fuel zs _
                  (omega (arith, ap length cut, length-append ys (newline ∷ zs)))))
        | inl e ↦ elim (Bool-cases (leb (length text) width)) [
          | inl last ↦
              rw (step_last fuel c cs output e last)
                (Wraps-last output text (free_text text e last) (leb→le _ _ last))
          | inr more ↦
              let (some_of, at_most) = wrap_pos_bounds text width wide in
              let rest : Bytes = skip_newline (skip_spaces (drop pos text)) in
              rw (step_long fuel c cs output e more) (
                Wraps-line _ output (take pos text) text rest (no_line text width pos e at_most)
                  (omega (arith, length-take pos text))
                  (rw
                    (
                      words-skip_newline (skip_spaces (drop pos text)),
                      words-skip_spaces (drop pos text),
                    )
                    (sym (words-append (take pos text) (drop pos text))
                      ∙ ap words (take-append-drop pos text)))
                  (wrap_loop-Wraps fuel rest _ (
                    omega (
                      arith,
                      length-drop pos text,
                      length-skip_spaces (drop pos text),
                      length-skip_newline (skip_spaces (drop pos text)),
                    ))))
        ]
      ]

length-replicate : (n : ℕ) → length (replicate n space) ≡ n
length-replicate zero = refl
length-replicate (suc n) = omega (arith, length-replicate n)

-- Under an indent of fewer than 80 spaces, `wrapText` ends. It writes lines of at most 80
-- characters behind what the output holds, and they have the characters of the text in their
-- order, up to spaces and line ends.
pub wrap_text_lines :
    (n : ℕ) (output text : Bytes)
    → n < 80
    → (body : Bytes) × (wrap_text output (replicate n space) text ≡ some (output ++ body))
      × (within 80 0 body ≡ true)
      × (words body ≡ words text)
unfolding wrap_text
wrap_text_lines n output text h =
    let width : (2 ^ 32 + 80 - length (replicate n space) % 2 ^ 32) % 2 ^ 32 ≡ 80 - n =
      omega (arith, length-replicate n) in
    rw width (
      wrap_loop-Wraps n (80 - n) (omega arith) (omega arith) (length text) text output
        (omega arith))
