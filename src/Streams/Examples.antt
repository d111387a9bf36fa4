-- ===== src/Streams/Examples.antt =====
-- Streams over memory, and over a system that moves three bytes at most at a time.
use kj.Base.{
  ℕ, suc, ◌≤◌, min, ◌≡◌, ◌≢◌, refl, sym, ap, Option, some, List, [], ◌∷◌, ◌++◌, length, length-take,
  length-drop, take, drop, take-append-drop, eq_nil_of_length, arith,
}
use kj.Text.{Bytes}
use kj.Text.Search.{codes}
use kj.Streams.{Delivers}
use kj.Streams.Arrays.{
  array_input, array_input-Delivers, array_output, array_output-WritesAll, array_write,
}
use kj.Streams.BufferedInput.{Buffered, buffered_input}
use kj.Streams.Buffering.{buffered_input-Delivers}
use kj.Streams.Output.{
  BufferedOut, flush, buffered_write, buffered_commit, OutCall, copied, in_place,
}
use kj.Streams.Flushing.{out_calls-flush, bytes_of, all_written}
use kj.Streams.Fd.{Files, ReadsFiles, WritesFiles, Works, fd_write, fd_write_pieces}
use kj.Streams.Transfer.{fd_write_lem, fd_write_pieces_short}

abbrev hello : Bytes
hello = codes "hello, world"

buffered_input-Delivers_example : Delivers (buffered_input array_input 4)
buffered_input-Delivers_example = buffered_input-Delivers array_input 4 array_input-Delivers

-- Two bytes are held, the others are in the stream below.
abbrev held : Buffered array_input 4
held = record { inner = codes "llo, world"; available = codes "he" }

abbrev spent : Buffered array_input 4
spent = record { inner = hello; available = [] }

abbrev Out : Type 0
Out = BufferedOut (array_output 100) 4

abbrev out_state : Bytes → Bytes → Out
out_state written filled = record { inner = written; filled = filled }

abbrev writes : List OutCall
writes =
    copied (codes "he") ∷ copied (codes "llo") ∷ in_place (codes ",") ∷ copied (codes " world") ∷ []

out_calls-flush_example :
    (all_written (array_output 100) 4 (array_output-WritesAll 100) (out_state hello [])
      ≡ bytes_of writes)
    × (length (out_state hello []).filled ≤ 4)
    × ((out_state hello []).inner ≡ bytes_of writes)
    × ((out_state hello []).filled ≡ [])
unfolding buffered_write buffered_commit flush array_write
out_calls-flush_example =
    out_calls-flush (array_output 100) 4 (array_output-WritesAll 100) writes (out_state [] [])
      {b' = out_state hello []} {c = out_state hello []} (omega arith)
      (tt, (tt, (omega arith, (tt, tt)))) refl refl

-- What is left to read, and what has been written.
abbrev Store : Type 0
Store = Bytes × Bytes

abbrev write_some : Bytes → Store → Option (ℕ × Store)
write_some bs (source, sink) =
    some (min 3 (length bs), (source, sink ++ take (min 3 (length bs)) bs))

abbrev slow_files : Files
slow_files = record {
  State = Store;
  source = λ s. s.0;
  sink = λ s. s.1;
  read_file = λ n s. some (take (min n 3) s.0, (drop (min n 3) s.0, s.1));
  write_file = write_some;
}

slow_files-ReadsFiles : ReadsFiles slow_files
slow_files-ReadsFiles = record {
  gives = λ n s pos more. (
    take (min n 3) s.0,
    (drop (min n 3) s.0, s.1),
    refl,
    omega (arith, length-take (min n 3) s.0),
    omega (arith, length-take (min n 3) s.0),
    sym (take-append-drop (min n 3) s.0),
  );
  at_end = λ n s empty.
      let none_read : take (min n 3) s.0 ≡ [] =
        eq_nil_of_length _ (omega (arith, length-take (min n 3) s.0)) in
      (
        (drop (min n 3) s.0, s.1),
        ap (λ (t : Bytes). some (t, (drop (min n 3) s.0, s.1))) none_read,
        eq_nil_of_length _ (omega (arith, length-drop (min n 3) s.0)),
      );
}

slow_files-WritesFiles : WritesFiles slow_files
slow_files-WritesFiles = record {
  takes = λ bs s h. ground (arith, length-take (min 3 (length bs)) bs);
}

slow_files-Works : Works slow_files
slow_files-Works [] s h = absurd (omega arith)
slow_files-Works (a ∷ []) s h = (0, (s.0, s.1 ++ a ∷ []), refl)
slow_files-Works (a ∷ b ∷ []) s h = (1, (s.0, s.1 ++ a ∷ b ∷ []), refl)
slow_files-Works (a ∷ b ∷ c ∷ rest) s h =
    let three : min 3 (suc (suc (suc (length rest)))) ≡ 3 = omega arith in
    (2, (s.0, s.1 ++ a ∷ b ∷ c ∷ []), rw three)

fd_write_lem_example :
    (s : Store) × (fd_write slow_files hello ([], codes "> ") ≡ some s)
    × (s.1 ≡ codes "> hello, world")
fd_write_lem_example =
    fd_write_lem slow_files slow_files-WritesFiles hello ([], codes "> ") slow_files-Works
      (omega arith)

fd_write_pieces_short_example :
    (fd_write_pieces slow_files (hello ∷ []) ([], []) ≡ some ([], codes "hel"))
    × (codes "hel" ≡ take 3 hello)
    × (codes "hel" ≢ hello)
fd_write_pieces_short_example =
    fd_write_pieces_short slow_files slow_files-WritesFiles hello ([], []) ([], codes "hel") 2
      (omega arith) refl (omega arith)
