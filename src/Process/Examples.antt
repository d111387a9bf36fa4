-- ===== src/Process/Examples.antt =====
-- A console that takes what it is given, and runs of main functions on it.
use kj.Base.{◌^◌, ◌<◌, ◌≡◌, refl, Bool, true, false, some, List, [], ◌∷◌, ◌++◌, length, arith}
use kj.Text.{Bytes}
use kj.Text.Search.{codes, bytes_eq}
use kj.Process.{
  Handle, std_output, std_error, System, WritesWhole, Left, returned, shut_down, main_returned,
  Context, exit_code, print_line, error, exit_error, report, run_main_and_exit, write_line_to_fd,
  end_line, put_file, checked_write, ends_with, exit_after, exit,
}
use kj.Process.Reports.{write_line_to_fd_lem}
use kj.Process.Shutdown.{run_main_and_exit-end_of}

-- What stands on the two handles.
abbrev Screen : Type 0
Screen = Bytes × Bytes

abbrev shown : Handle → Screen → Bytes
shown std_output s = s.0
shown std_error s = s.1

abbrev show : Handle → Bytes → Screen → Screen
show std_output bs s = (s.0 ++ bs, s.1)
show std_error bs s = (s.0, s.1 ++ bs)

abbrev console : System
console = record {
  State = Screen;
  written = shown;
  write_file = λ h bs s. (show h bs s, some (length bs));
  failed = codes "write failed";
  describe = λ e. [];
}

console-WritesWhole : WritesWhole console
console-WritesWhole std_output bs s some_bytes = (show std_output bs s, refl, refl)
console-WritesWhole std_error bs s some_bytes = (show std_error bs s, refl, refl)

abbrev context : Bool → Context console
context clean = record {
  program_name = codes "app";
  clean_shutdown = clean;
  had_errors = false;
  system = ([], []);
}

reports_short : (e : Bytes) → length (report console e) < 2 ^ 32
unfolding report
reports_short e = omega arith

write_line_to_fd_lem_example :
    (s : Screen) × (write_line_to_fd console std_error (codes "oops") ([], codes "> ")
      ≡ (s, returned))
    × (s.1 ≡ codes "> oopsoops")
write_line_to_fd_lem_example =
    write_line_to_fd_lem console console-WritesWhole std_error (codes "oop") b's' ([], codes "> ")
      (omega arith)

-- A usage error under a clean shutdown.
abbrev failing_main : Bytes → List Bytes → Context console → Context console × Left
failing_main program params p = exit_error console (codes "bad\n") p

abbrev failing_context : Context console
failing_context = record (context true) { had_errors = true; system = ([], codes "bad\n") }

failing_main_left : failing_main (codes "app") [] (context true) ≡ (failing_context, shut_down 1)
unfolding exit_error error print_line write_line_to_fd end_line put_file checked_write ends_with
    exit_after exit exit_code bytes_eq
failing_main_left = refl

run_main_and_exit-end_of_example :
    ((run_main_and_exit console failing_main (codes "app" ∷ []) (context true)).1 ≡ main_returned 1)
run_main_and_exit-end_of_example =
    run_main_and_exit-end_of console console-WritesWhole reports_short failing_main (codes "app") []
      (context true) failing_context (shut_down 1) failing_main_left
