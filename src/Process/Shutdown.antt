-- ===== src/Process/Shutdown.antt =====
-- With which code `runMainAndExit` ends (main.cpp).
use kj.Base.{
  ℕ, ◌^◌, ◌<◌, ◌≡◌, refl, ap, sym, ◌∙◌, Bool, true, false, List, ◌∷◌, length, if◌then◌else◌,
  if_true, if_false, Bool-cases, inl, inr,
}
use kj.Text.{Bytes}
use kj.Process.{
  std_output, std_error, System, WritesWhole, Left, returned, threw, shut_down, exited, Ended,
  main_returned, process_exited, Context, exit_code, exit, print_line, error, exit_after, exit_info,
  caught, report, ended, after_main, run_main_and_exit,
}
use kj.Process.Reports.{write_line_to_fd-returned}

-- The end with a code: by return where a clean shutdown is asked for.
abbrev pub end_with : Bool → ℕ → Ended
end_with clean code = if clean then main_returned code else process_exited code

-- The end that is expected of a main function that is left in this way, with `code` for a return.
abbrev pub end_of : Bool → ℕ → Left → Ended
end_of clean code returned = end_with clean code
end_of clean code (threw e) = end_with clean 1
end_of clean code (shut_down n) = end_with clean 1
end_of clean code (exited n) = process_exited n

module _ (y : System) (w : WritesWhole y) (short : (e : Bytes) → length (report y e) < 2 ^ 32) where
  ended-exit :
      (p : Context y) → (ended y (p, exit y p)).1 ≡ end_with p.clean_shutdown (exit_code y p)
  unfolding ended exit
  ended-exit p = elim (Bool-cases p.clean_shutdown) [
    | inl clean ↦ ap (λ t. (ended y (p, t)).1) (if_true _ _ clean) ∙ sym (if_true _ _ clean)
    | inr not_clean ↦
        ap (λ t. (ended y (p, t)).1) (if_false _ _ not_clean) ∙ sym (if_false _ _ not_clean)
  ]

  ended-error :
      (p : Context y) (e : Bytes)
      → (ended y (exit_after y (error y (report y e) p))).1 ≡ end_with p.clean_shutdown 1
  unfolding error print_line exit_after exit_code
  ended-error p e =
      let (s, written) = write_line_to_fd-returned y w std_error (report y e) p.system (short e) in
      rw written (ended-exit (record p { had_errors = true; system = s }))

  ended-after_main :
      (p : Context y) (how : Left)
      → (ended y (after_main y p how)).1 ≡ end_of p.clean_shutdown (exit_code y p) how
  unfolding after_main caught ended
  ended-after_main p returned = ended-exit p
  ended-after_main p (threw e) = ended-error p e
  ended-after_main p (shut_down n) = ended-error p _
  ended-after_main p (exited n) = refl

  -- A run of `runMainAndExit` ends with code 1 where the main function throws, also where what it
  -- throws is the exception for a clean shutdown, whatever the code in that; with 1 where it
  -- returns and has reported an error, with 0 where it has not, and with the code of `_exit` where
  -- it calls that. It returns the code where a clean shutdown is asked for, and ends the process
  -- otherwise. This is for a system that writes what it is given, and for messages on exceptions
  -- that are shorter than 2^32.
  pub run_main_and_exit-end_of :
      (func : Bytes → List Bytes → Context y → Context y × Left) (program : Bytes)
      (params : List Bytes) (p p' : Context y) (how : Left)
      → func program params p ≡ (p', how)
      → (run_main_and_exit y func (program ∷ params) p).1
        ≡ end_of p'.clean_shutdown (if p'.had_errors then 1 else 0) how
  unfolding run_main_and_exit after_main caught exit_code
  run_main_and_exit-end_of func program params p p' how left =
      ap (λ r. (ended y (after_main y r.0 r.1)).1) left ∙ ended-after_main p' how

  -- A main function that ends by `exitInfo`, without errors, ends the process with code 0, but
  -- `runMainAndExit` returns 1 where a clean shutdown is asked for. This is for a system that
  -- writes what it is given, and for messages shorter than 2^32.
  pub run_main_and_exit-exit_info :
      (message program : Bytes) (params : List Bytes) (p : Context y)
      → length message < 2 ^ 32
      → p.had_errors ≡ false
      → (run_main_and_exit y (λ _ _ context. exit_info y message context) (program ∷ params) p).1
        ≡ (if p.clean_shutdown then main_returned 1 else process_exited 0)
  unfolding exit_info print_line exit_after exit exit_code
  run_main_and_exit-exit_info message program params p small no_errors =
      let (s, written) = write_line_to_fd-returned y w std_output message p.system small in
      let q : Context y = record p { system = s } in
      let left : exit_info y message p ≡ (q, exit y q) = rw written refl in
      let run =
        run_main_and_exit-end_of (λ _ _ context. exit_info y message context) program params p q
          (exit y q) left in
      elim (Bool-cases p.clean_shutdown) [
        | inl clean ↦ run ∙ rw clean refl
        | inr not_clean ↦ run ∙ rw (not_clean, no_errors) refl
      ]
