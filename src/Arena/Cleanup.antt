-- ===== src/Arena/Cleanup.antt =====
-- The end of an arena: every object is destroyed and every chunk freed (arena.cpp).
use kj.Base.{
  ℕ, ◌+◌, ◌≡◌, refl, sym, subst, ap, ◌∙◌, Bool, true, false, List, [], ◌∷◌, ◌++◌, append-nil,
  append_assoc,
}
use kj.Memory.{Runtime, Event, destroyed, without, Heaps, Behaves}
use kj.Arrays.Destruction.{razed, dispose_elements_lem, dispose_elements_quiet}
use kj.Arena.{
  Destructor, destroy_object, destroy_array, ObjectHeader, Arena, object_header_size,
  run_destructor, destroy_objects, delete_chunks, end_cleanup, cleanup, destroy_arena,
}

-- What happens at the end of one object or array, and of all that are registered.
abbrev pub end_of : ℕ → Destructor → List Event
end_of p (destroy_object t) = destroyed t p ∷ []
end_of p (destroy_array t size prefix tag) = razed t size (p + prefix) tag

abbrev pub ends : List ObjectHeader → List Event
ends [] = []
ends (header ∷ rest) = end_of (header.at + object_header_size) header.destructor ++ ends rest

abbrev pub without_all : List ℕ → List (ℕ × ℕ) → List (ℕ × ℕ)
without_all [] blocks = blocks
without_all (p ∷ ps) blocks = without_all ps (without p blocks)

module _ (m : Runtime) (h : Heaps m) (b : Behaves m) where
  open m use {State, live, history, operator_delete}

  run_destructor_lem :
      (unwinding : Bool) (p : ℕ) (d : Destructor) (s : State)
      → (live (run_destructor m unwinding p d s).0 ≡ live s)
        × (history (run_destructor m unwinding p d s).0 ≡ history s ++ end_of p d)
  unfolding run_destructor
  run_destructor_lem unwinding p (destroy_object t) s = b.destroys unwinding t p s
  run_destructor_lem unwinding p (destroy_array t size prefix tag) s =
      dispose_elements_lem m b unwinding (p + prefix) size tag t s

  run_destructor_quiet :
      (p : ℕ) (d : Destructor) (s : State) → (run_destructor m true p d s).1 ≡ false
  unfolding run_destructor
  run_destructor_quiet p (destroy_object t) s = b.holds_back t p s
  run_destructor_quiet p (destroy_array t size prefix tag) s =
      dispose_elements_quiet m b (p + prefix) size tag t s

  after_object : Bool → List ObjectHeader → State × Bool → List ObjectHeader × State × Bool
  after_object unwinding rest (s, true) = (rest, s, true)
  after_object unwinding rest (s, false) = destroy_objects m unwinding rest s

  split_object :
      (unwinding : Bool) (rest : List ObjectHeader) (r : State × Bool)
      → elim r.1 as (λ _. List ObjectHeader × State × Bool) [
        | true ↦ (rest, r.0, true)
        | false ↦ destroy_objects m unwinding rest r.0
      ]
        ≡ after_object unwinding rest r
  unfolding after_object
  split_object unwinding rest (s, true) = refl
  split_object unwinding rest (s, false) = refl

  -- `r` has ended the objects of a list but for those that it still holds.
  record Ended (objects : List ObjectHeader) (s : State) (r : List ObjectHeader × State × Bool)
      : Type 0 where
    heap : live r.1 ≡ live s
    events : history r.1 ++ ends r.0 ≡ history s ++ ends objects
    finished : r.2 ≡ false → r.0 ≡ []

  after_object-Ended :
      (unwinding : Bool) (header : ObjectHeader) (rest : List ObjectHeader) (s : State)
      (r : State × Bool)
      → live r.0 ≡ live s
      → history r.0 ≡ history s ++ end_of (header.at + object_header_size) header.destructor
      → Ended rest r.0 (destroy_objects m unwinding rest r.0)
      → Ended (header ∷ rest) s (after_object unwinding rest r)
  unfolding after_object
  after_object-Ended unwinding header rest s (s', true) heap events next = record {
    heap = heap;
    events = ap (λ l. l ++ ends rest) events ∙ append_assoc (history s) _ _;
    finished = λ e. cc;
  }
  after_object-Ended unwinding header rest s (s', false) heap events next = record {
    heap = next.heap ∙ heap;
    events = next.events ∙ (ap (λ l. l ++ ends rest) events ∙ append_assoc (history s) _ _);
    finished = next.finished;
  }

  destroy_objects-Ended :
      (unwinding : Bool) (objects : List ObjectHeader) (s : State)
      → Ended objects s (destroy_objects m unwinding objects s)
  unfolding destroy_objects
  destroy_objects-Ended unwinding [] s = record { heap = refl; events = refl; finished = λ _. refl }
  destroy_objects-Ended unwinding (header ∷ rest) s =
      let r = run_destructor m unwinding (header.at + object_header_size) header.destructor s in
      let (heap, events) =
        run_destructor_lem unwinding (header.at + object_header_size) header.destructor s in
      subst (Ended (header ∷ rest) s) (sym (split_object unwinding rest r)) (
        after_object-Ended unwinding header rest s r heap events
          (destroy_objects-Ended unwinding rest r.0))

  next_quiet :
      (rest : List ObjectHeader) (r : State × Bool)
      → r.1 ≡ false
      → (after_object true rest r).2 ≡ (destroy_objects m true rest r.0).2
  unfolding after_object
  next_quiet rest (s, true) e = cc
  next_quiet rest (s, false) e = refl

  destroy_objects_quiet :
      (objects : List ObjectHeader) (s : State) → (destroy_objects m true objects s).2 ≡ false
  unfolding destroy_objects
  destroy_objects_quiet [] s = refl
  destroy_objects_quiet (header ∷ rest) s =
      let r = run_destructor m true (header.at + object_header_size) header.destructor s in
      ap (λ t. t.2) (split_object true rest r)
      ∙ (next_quiet rest r
            (run_destructor_quiet (header.at + object_header_size) header.destructor s)
          ∙ destroy_objects_quiet rest r.0)

  -- The blocks are freed one after another.
  abbrev pub frees : List ℕ → State → State
  frees [] s = s
  frees (p ∷ ps) s = frees ps (operator_delete p s)

  delete_chunks-frees : (chunks : List ℕ) (s : State) → delete_chunks m chunks s ≡ frees chunks s
  unfolding delete_chunks
  delete_chunks-frees [] s = refl
  delete_chunks-frees (p ∷ ps) s = delete_chunks-frees ps (operator_delete p s)

  delete_chunks_lem :
      (chunks : List ℕ) (s : State)
      → (live (delete_chunks m chunks s) ≡ without_all chunks (live s))
        × (history (delete_chunks m chunks s) ≡ history s)
  unfolding delete_chunks
  delete_chunks_lem [] s = (refl, refl)
  delete_chunks_lem (p ∷ ps) s =
      let (freed, kept) = h.takes p s in
      let (rest, same) = delete_chunks_lem ps (operator_delete p s) in
      (rest ∙ ap (λ l. without_all ps l) freed, same ∙ kept)

  -- What the end of the arena `a` in the state `s` leads to: `t` is the state in which the objects are
  -- gone, and all blocks are still there.
  abbrev pub Gone : Arena → State → State → Type 0
  Gone a s s' =
      (history s' ≡ history s ++ ends a.object_list)
      × (live s' ≡ without_all a.chunk_list (live s))
      × (t : State) × (history t ≡ history s ++ ends a.object_list)
      × (live t ≡ live s)
      × (s' ≡ frees a.chunk_list t)

  end_cleanup-Gone :
      (a : Arena) (s : State) (r : List ObjectHeader × State × Bool)
      → Ended a.object_list s r
      → r.2 ≡ false
      → ((end_cleanup m a r).2 ≡ false) × Gone a s (end_cleanup m a r).1
  unfolding end_cleanup
  end_cleanup-Gone a s (rest, s', true) done e = cc
  end_cleanup-Gone a s (rest, s', false) done e =
      let (freed, kept) = delete_chunks_lem a.chunk_list s' in
      let none_left = done.finished refl in
      let ended =
        sym (append-nil (history s'))
        ∙ (ap (λ l. history s' ++ ends l) (sym none_left) ∙ done.events) in
      (
        refl,
        (
          kept ∙ ended,
          freed ∙ ap (λ l. without_all a.chunk_list l) done.heap,
          s',
          ended,
          done.heap,
          delete_chunks-frees a.chunk_list s',
        ),
      )

  cleanup_quiet-Gone :
      (a : Arena) (s : State) → ((cleanup m true a s).2 ≡ false) × Gone a s (cleanup m true a s).1
  unfolding cleanup
  cleanup_quiet-Gone a s =
      end_cleanup-Gone a s (destroy_objects m true a.object_list s)
        (destroy_objects-Ended true a.object_list s) (destroy_objects_quiet a.object_list s)

  after_cleanup : Arena × State × Bool → State × Bool
  after_cleanup (a, s, true) = ((cleanup m true a s).1, true)
  after_cleanup (a, s, false) = (s, false)

  split_cleanup :
      (r : Arena × State × Bool)
      → elim r.2 as (λ _. State × Bool) [
        | true ↦ ((cleanup m true r.0 r.1).1, true)
        | false ↦ (r.1, false)
      ]
        ≡ after_cleanup r
  unfolding after_cleanup
  split_cleanup (a, s, true) = refl
  split_cleanup (a, s, false) = refl

  after_cleanup-Gone :
      (a : Arena) (s : State) (r : List ObjectHeader × State × Bool)
      → Ended a.object_list s r
      → Gone a s (after_cleanup (end_cleanup m a r)).0
  unfolding after_cleanup end_cleanup
  after_cleanup-Gone a s (rest, s', false) done =
      (end_cleanup-Gone a s (rest, s', false) done refl).1
  after_cleanup-Gone a s (rest, s', true) done =
      let (_, (events, freed, t, before, heap, frees_all)) =
        cleanup_quiet-Gone (record a { object_list = rest }) s' in
      (
        events ∙ done.events,
        freed ∙ ap (λ l. without_all a.chunk_list l) done.heap,
        t,
        before ∙ done.events,
        heap ∙ done.heap,
        frees_all,
      )

  -- The end of an arena destroys each registered object once, the last registered first, and the
  -- elements of an array from the last to the first, while all blocks are there, and then frees each of
  -- its chunks; also where destructors throw on the way.
  pub destroy_arena-Gone :
      (unwinding : Bool) (a : Arena) (s : State) → Gone a s (destroy_arena m unwinding a s).0
  unfolding destroy_arena cleanup
  destroy_arena-Gone unwinding a s =
      let r = destroy_objects m unwinding a.object_list s in
      subst (λ (t : State × Bool). Gone a s t.0) (sym (split_cleanup (end_cleanup m a r)))
        (after_cleanup-Gone a s r (destroy_objects-Ended unwinding a.object_list s))
