-- ===== src/Streams/Arrays.antt =====
-- `ArrayInputStream` and `ArrayOutputStream` (io.cpp): streams over memory.
use kj.Base.{
  ℕ, ◌-◌, min, ◌≡◌, refl, ap, sym, Option, none, some, [], ◌++◌, length, length-take, length-drop,
  take, drop, take-all, take-append-drop, leb, if◌then◌else◌, if_true, le→leb, arith,
  eq_nil_of_length,
}
use kj.Text.{Bytes}
use kj.Streams.{InputStream, Delivers, Ends}
use kj.Streams.Output.{OutputStream, WritesAll}

-- The state is what is left of the array.
unfoldable pub array_try_read : ℕ → ℕ → Bytes → Option (Bytes × Bytes)
array_try_read lo hi array = let n : ℕ = min hi (length array) in some (take n array, drop n array)

-- Where the array is too short, `KJ_REQUIRE` throws.
unfoldable pub array_skip : ℕ → Bytes → Option Bytes
array_skip n array = if leb n (length array) then some (drop n array) else none

abbrev pub array_input : InputStream
array_input = record {
  State = Bytes;
  contents = λ array. array;
  try_read = array_try_read;
  skip = array_skip;
}

pub array_input-Delivers : Delivers array_input
unfolding array_try_read array_skip
array_input-Delivers = record {
  reads = λ lo hi s h g. (
    take (min hi (length s)) s,
    drop (min hi (length s)) s,
    refl,
    omega (arith, length-take (min hi (length s)) s),
    omega (arith, length-take (min hi (length s)) s),
    sym (take-append-drop (min hi (length s)) s),
  );
  skips = λ n s h. (drop n s, if_true _ _ (le→leb _ _ h), refl);
}

pub array_input-Ends : Ends array_input
unfolding array_try_read
array_input-Ends = record {
  ends = λ lo hi s h g.
      let all : take (min hi (length s)) s ≡ s = take-all _ s (omega arith) in
      let gone : drop (min hi (length s)) s ≡ [] =
        eq_nil_of_length _ (omega (arith, length-drop (min hi (length s)) s)) in
      (drop (min hi (length s)) s, ap (λ t. some (t, drop (min hi (length s)) s)) all, gone);
}

-- `ArrayOutputStream::write` for an array of `cap` bytes, of which `filled` have been written. What
-- the caller has put in place is taken without a test, and must fit.
unfoldable pub array_write : ℕ → Bytes → Bytes → Option Bytes
array_write cap src filled =
    if leb (length src) (cap - length filled) then some (filled ++ src) else none

abbrev pub array_output : ℕ → OutputStream
array_output cap = record { State = Bytes; written = λ filled. filled; write = array_write cap }

pub array_output-WritesAll : (cap : ℕ) → WritesAll (array_output cap)
unfolding array_write
array_output-WritesAll cap = record { writes = λ bs s h. ground arith }
