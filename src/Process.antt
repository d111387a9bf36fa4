-- ===== src/Process.antt =====
-- The process context and the frame around a main function (main.cpp: `writeLineToFd`,
-- `TopLevelProcessContext`, `runMainAndExit`). The system's handles are a parameter.
pub mod Reports
pub mod Shutdown
mod Examples
use kj.Base.{
  ℕ, zero, suc, ◌-◌, ◌%◌, ◌^◌, ◌≤◌, ◌<◌, ◌≡◌, Bool, true, false, Option, none, some, List, [], ◌∷◌,
  ◌++◌, length, take, drop, leb, if◌then◌else◌,
}
use kj.Text.{Bytes}
use kj.Text.Search.{codes, bytes_eq}

pub data Handle : Type 0 where
  std_output std_error : Handle

-- `WriteFile` gives the number of bytes that it wrote, or none for an error. `failed` describes the
-- exception that a write of nothing throws. `describe` is the text of an exception with its place
-- and trace.
pub record System : Type 1 where
  pub State : Type 0
  pub written : Handle → State → Bytes
  pub write_file : Handle → Bytes → State → State × Option ℕ
  pub failed : Bytes
  pub describe : Bytes → Bytes

-- Every write that is not empty succeeds in full.
abbrev pub WritesWhole : System → Type 0
WritesWhole y =
    (h : Handle) (bs : Bytes) (s : y.State)
    → 0 < length bs
    → (s' : y.State) × (y.write_file h bs s ≡ (s', some (length bs)))
      × (y.written h s' ≡ y.written h s ++ bs)

-- `endsWith`
unfoldable pub ends_with : Bytes → Bytes → Bool
ends_with text other =
    if leb (length other) (length text)
    then bytes_eq (drop (length text - length other) text) other
    else false

-- How a function is left: it returns, throws an exception of the library, throws a
-- `CleanShutdownException`, or ends the process.
pub data Left : Type 0 where
  returned : Left
  threw : Bytes → Left
  shut_down : ℕ → Left
  exited : ℕ → Left

-- How `runMainAndExit` ends.
pub data Ended : Type 0 where
  main_returned : ℕ → Ended
  process_exited : ℕ → Ended
  uncaught : Bytes → Ended

module _ (y : System) where
  open y use {State, write_file, failed, describe}

  -- `TopLevelProcessContext`
  pub record Context : Type 0 where
    pub program_name : Bytes
    pub clean_shutdown : Bool
    pub had_errors : Bool
    pub system : State

  unfoldable pub checked_write : Option ℕ → Left
  checked_write none = threw failed
  checked_write (some zero) = threw failed
  checked_write (some (suc n)) = returned

  -- A call of `WriteFile`, which is handed the size modulo 2^32, with the tests behind it.
  unfoldable pub put_file : Handle → Bytes → State → State × Left
  put_file h bs s =
      let r = write_file h (take (length bs % 2 ^ 32) bs) s in (r.0, checked_write r.1)

  -- What follows the first write: the same again for a message without a newline.
  unfoldable pub end_line : Handle → Bytes → State × Left → State × Left
  unfolding put_file ends_with
  end_line h message (s, returned) =
      if ends_with message (codes "\n") then (s, returned) else put_file h message s
  end_line h message (s, threw e) = (s, threw e)
  end_line h message (s, shut_down code) = (s, shut_down code)
  end_line h message (s, exited code) = (s, exited code)

  unfoldable pub write_line_to_fd : Handle → Bytes → State → State × Left
  unfolding put_file end_line
  write_line_to_fd h [] s = (s, returned)
  write_line_to_fd h (c ∷ cs) s = end_line h (c ∷ cs) (put_file h (c ∷ cs) s)

  unfoldable pub exit_code : Context → ℕ
  exit_code p = if p.had_errors then 1 else 0

  unfoldable pub exit : Context → Left
  unfolding exit_code
  exit p = if p.clean_shutdown then shut_down (exit_code p) else exited (exit_code p)

  unfoldable pub print_line : Handle → Bytes → Context → Context × Left
  unfolding write_line_to_fd
  print_line h message p =
      let r = write_line_to_fd h message p.system in (record p { system = r.0 }, r.1)

  unfoldable pub warning : Bytes → Context → Context × Left
  unfolding print_line
  warning message p = print_line std_error message p

  unfoldable pub error : Bytes → Context → Context × Left
  unfolding print_line
  error message p = print_line std_error message (record p { had_errors = true })

  unfoldable pub exit_after : Context × Left → Context × Left
  unfolding exit
  exit_after (p, returned) = (p, exit p)
  exit_after (p, threw e) = (p, threw e)
  exit_after (p, shut_down code) = (p, shut_down code)
  exit_after (p, exited code) = (p, exited code)

  unfoldable pub exit_error : Bytes → Context → Context × Left
  unfolding exit_after error
  exit_error message p = exit_after (error message p)

  unfoldable pub exit_info : Bytes → Context → Context × Left
  unfolding exit_after print_line
  exit_info message p = exit_after (print_line std_output message p)

  -- `runCatchingExceptions`: the description of what is caught.
  unfoldable pub caught : Left → Option Bytes
  caught returned = none
  caught (threw e) = some e
  caught (shut_down code) = some (codes "Unknown non-KJ exception.")
  caught (exited code) = none

  -- The message for an exception that the main function throws.
  unfoldable pub report : Bytes → Bytes
  report e = codes "*** Uncaught exception ***\n" ++ describe e

  -- The handler around the whole.
  unfoldable pub ended : Context × Left → Context × Ended
  ended (p, returned) = (p, main_returned 0)
  ended (p, threw e) = (p, uncaught e)
  ended (p, shut_down code) = (p, main_returned code)
  ended (p, exited code) = (p, process_exited code)

  unfoldable pub after_main : Context → Left → Context × Left
  unfolding caught report error exit exit_after
  after_main p (exited code) = (p, exited code)
  after_main p returned = (p, exit p)
  after_main p (threw e) = exit_after (error (report e) p)
  after_main p (shut_down code) = elim (caught (shut_down code)) [
    | none ↦ (p, exit p)
    | some e ↦ exit_after (error (report e) p)
  ]

  unfoldable pub run_main_and_exit :
      (Bytes → List Bytes → Context → Context × Left) → List Bytes → Context → Context × Ended
  unfolding after_main ended
  run_main_and_exit func [] p = (p, uncaught (codes "expected argc > 0"))
  run_main_and_exit func (program ∷ params) p =
      let r = func program params p in ended (after_main r.0 r.1)
