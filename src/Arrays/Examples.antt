-- ===== src/Arrays/Examples.antt =====
-- Arrays on the sample heap, and runs of a vector.
use kj.Base.{ℕ, ◌≡◌, refl, Bool, true, false, none, some, List, [], ◌∷◌, arith}
use kj.Memory.{constructed, destroyed}
use kj.Memory.Sample.{sample, empty_world, new_block, begin_object, end_object}
use kj.Arrays.{allocate_heap, dispose_heap}
use kj.Arrays.Builder.{ArrayBuilder, is_full, builder_add, finish}
use kj.Arrays.Vector.{move_elements, release_as_array}
use kj.Arrays.Growth.{Holds}
use kj.Arrays.Calls.{Op, push, append, pop, resize_to, run, run-run_spec}

-- The third place is one where the type 8 throws; the first two objects are destroyed again.
allocate_heap_run : allocate_heap sample 16 5 5 (some 8) (some 8) empty_world ≡ (
  record {
    blocks = [];
    events = constructed 8 4096 ∷ constructed 8 4112 ∷ destroyed 8 4112 ∷ destroyed 8 4096 ∷ [];
  },
  none,
)
unfolding new_block begin_object end_object allocate_heap
allocate_heap_run = refl

dispose_heap_run :
    dispose_heap sample false 4096 16 2
      (some 5)
      (record { blocks = (4128, 8) ∷ (4096, 32) ∷ []; events = [] })
    ≡ (record { blocks = (4128, 8) ∷ []; events = destroyed 5 4112 ∷ destroyed 5 4096 ∷ [] }, true)
unfolding end_object dispose_heap
dispose_heap_run = refl

abbrev always : ℕ → Bool
always n = true

abbrev empty_vector : ArrayBuilder ℕ
empty_vector = record { content = []; capacity = 0 }

empty_vector-Holds : Holds [] empty_vector
empty_vector-Holds = record { content = refl; room = omega arith; small = omega arith }

abbrev calls : List (Op ℕ)
calls = push 1 ∷ append (2 ∷ 3 ∷ 4 ∷ 5 ∷ []) ∷ pop ∷ resize_to 6 0 ∷ resize_to 3 9 ∷ []

run-run_spec_example :
    (b : ArrayBuilder ℕ) × (run always (λ _. refl) calls empty_vector ≡ some b)
    × Holds (1 ∷ 2 ∷ 3 ∷ []) b
run-run_spec_example =
    run-run_spec always (λ _. refl) calls [] empty_vector empty_vector-Holds (omega arith)

abbrev two : List ℕ
two = 7 ∷ 8 ∷ []

release_run :
    release_as_array always (record { content = two; capacity = 4 })
    ≡ some (two, record { content = []; capacity = 0 })
unfolding release_as_array is_full move_elements builder_add finish
release_run = refl
