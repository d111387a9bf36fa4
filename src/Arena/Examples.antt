-- ===== src/Arena/Examples.antt =====
-- Runs of arenas over the sample heap.
use kj.Base.{ℕ, ◌+◌, ◌≤◌, ◌<◌, ◌≡◌, refl, true, false, none, some, List, [], ◌∷◌, ◌++◌, arith}
use kj.Memory.{constructed, destroyed, All, Within, Pairs}
use kj.Memory.Sample.{
  sample, World, empty_world, sample-Heaps, sample-Behaves, new_block, begin_object, end_object,
}
use kj.Arena.{
  Chunk, Arena, arena, destroy_object, destroy_array, allocate_bytes, enough_for, allocate_chunk,
  destroy_arena,
}
use kj.Arena.Growing.{enough_for_lem}
use kj.Arena.Cleanup.{frees, destroy_arena-Gone}
use kj.Arena.Objects.{Class, allocate_tagged_array}
use kj.Arena.Disjoint.{Request, allocate_all, allocate_all-Pairs, allocate_chunk_overaligned}

abbrev requests : List Request
requests = (10, 8, false) ∷ (3, 1, true) ∷ (2000, 16, false) ∷ []

abbrev spaces : List (ℕ × ℕ)
spaces = (4192, 2000) ∷ (4136, 19) ∷ (4120, 10) ∷ []

abbrev last_arena : Arena
last_arena = record {
  next_chunk_size = 4096;
  chunk_list = 4160 ∷ 4096 ∷ [];
  object_list = [];
  current_chunk = some (record { start = 4160; pos = 6192; end = 6208 });
}

abbrev last_world : World
last_world = record { blocks = (4160, 2048) ∷ (4096, 64) ∷ []; events = [] }

run_requests :
    allocate_all sample requests [] (arena 64) empty_world ≡ some (spaces, last_arena, last_world)
unfolding new_block arena allocate_bytes
run_requests = refl

allocate_all-Pairs_example : Pairs spaces × All (λ x. Within x last_world.blocks) spaces
allocate_all-Pairs_example =
    allocate_all-Pairs sample sample-Heaps requests 64 empty_world (spaces, last_arena, last_world)
      (omega arith) run_requests

enough_for_lem_example : (k : ℕ) × (enough_for 2024 2024 64 ≡ some k) × (2024 ≤ k) × (0 < k)
enough_for_lem_example = enough_for_lem 2024 2024 64 (omega arith) (omega arith) (omega arith)

-- Elements of 16 bytes, of which every fourth cannot be constructed.
abbrev fragile : Class
fragile = record {
  id = 8;
  size = 16;
  align = 8;
  trivial_constructor = false;
  trivial_destructor = false;
}

abbrev array_arena : Arena
array_arena = record {
  next_chunk_size = 512;
  chunk_list = 4096 ∷ [];
  object_list = record { at = 4120; destructor = destroy_array 8 16 8 3 } ∷ [];
  current_chunk = some (record { start = 4096; pos = 4240; end = 4352 });
}

abbrev array_world : World
array_world = record {
  blocks = (4096, 256) ∷ [];
  events = constructed 8 4144 ∷ constructed 8 4160 ∷ constructed 8 4176 ∷ [];
}

run_array :
    allocate_tagged_array sample fragile 6 (arena 64) empty_world
    ≡ some (array_arena, array_world, none)
unfolding new_block begin_object arena allocate_tagged_array allocate_bytes
run_array = refl

-- The destructor of the first of three objects throws.
abbrev objects : Arena
objects = record array_arena {
  object_list =
      record { at = 4120; destructor = destroy_object 1 }
      ∷ record { at = 4100; destructor = destroy_object 5 }
      ∷ record { at = 4080; destructor = destroy_object 2 }
      ∷ [];
}

destroy_arena_run : destroy_arena sample false objects array_world ≡ (
  record {
    blocks = [];
    events = array_world.events ++ destroyed 1 4136 ∷ destroyed 5 4116 ∷ destroyed 2 4096 ∷ [];
  },
  true,
)
unfolding end_object destroy_arena
destroy_arena_run = refl

destroy_arena-Gone_example :
    ((destroy_arena sample false objects array_world).0.events
      ≡ array_world.events ++ destroyed 1 4136 ∷ destroyed 5 4116 ∷ destroyed 2 4096 ∷ [])
    × ((destroy_arena sample false objects array_world).0.blocks ≡ [])
    × (t : World) × (t.events
        ≡ array_world.events ++ destroyed 1 4136 ∷ destroyed 5 4116 ∷ destroyed 2 4096 ∷ [])
    × (t.blocks ≡ array_world.blocks)
    × ((destroy_arena sample false objects array_world).0
        ≡ frees sample sample-Heaps sample-Behaves objects.chunk_list t)
destroy_arena-Gone_example =
    destroy_arena-Gone sample sample-Heaps sample-Behaves false objects array_world

abbrev odd_world : World
odd_world = record { blocks = (4096, 16) ∷ []; events = [] }

abbrev odd_chunk : Chunk
odd_chunk = record { start = 4112; pos = 4244; end = 4368 }

abbrev odd_result : ℕ × Arena × World
odd_result = (
  4160,
  record {
    next_chunk_size = 512;
    chunk_list = 4112 ∷ [];
    object_list = [];
    current_chunk = some odd_chunk;
  },
  record { blocks = (4112, 256) ∷ (4096, 16) ∷ []; events = [] },
)

run_odd : allocate_chunk sample 100 32 (arena 64) odd_world ≡ some odd_result
unfolding new_block arena allocate_chunk
run_odd = refl

odd_size : enough_for 132 132 64 ≡ some 256
unfolding enough_for
odd_size = refl

odd_block : new_block 256 odd_world ≡ some (4112, odd_result.2)
unfolding new_block
odd_block = refl

allocate_chunk_overaligned_example : ◌≡◌ {A = ℕ} (odd_result.0 + 100) (odd_chunk.pos + 16)
unfolding arena
allocate_chunk_overaligned_example =
    allocate_chunk_overaligned sample sample-Heaps 100 (arena 64) odd_world odd_result.2 256 4112
      odd_result odd_chunk (omega arith) odd_size odd_block refl run_odd refl
