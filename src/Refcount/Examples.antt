-- ===== src/Refcount/Examples.antt =====
-- Programs with three pointers (refcount.h, refcount.cpp, memory.h).
use kj.Base.{ℕ, ◌≡◌, refl, Bool, true, false, none, some, List, [], ◌∷◌, ◌++◌, arith}
use kj.Refcount.{
  Checked, fine, used_null, Statement, new, share, move, clear, and_then, put_at, execute,
  execute_all,
}
use kj.Refcount.Owning.{finds, EndsWith, execute-EndsWith, program_start, program_start-IsCounted}

abbrev alive_after : List Statement → ℕ → Checked Bool
alive_after us o = and_then (execute_all us (program_start 3)) (λ p. fine (p.objects.alive o))

abbrev shared_and_moved : List Statement
shared_and_moved = new 0 ∷ share 1 0 ∷ move 2 0 ∷ clear 1 ∷ []

still_alive : alive_after shared_and_moved 0 ≡ fine true
unfolding and_then execute_all put_at
still_alive = refl

deleted : alive_after (shared_and_moved ++ clear 2 ∷ []) 0 ≡ fine false
unfolding and_then execute_all put_at
deleted = refl

-- A pointer that is moved to itself is lost.
moved_to_itself : alive_after (new 0 ∷ move 0 0 ∷ []) 0 ≡ fine false
unfolding and_then execute_all put_at
moved_to_itself = refl

execute-EndsWith_example :
    (finds (new 1) (none ∷ none ∷ none ∷ []) ≡ false
      → execute (new 1) (program_start 3) ≡ used_null)
    × (finds (new 1) (none ∷ none ∷ none ∷ []) ≡ true
        → EndsWith (none ∷ some 0 ∷ none ∷ []) (execute (new 1) (program_start 3)))
execute-EndsWith_example =
    execute-EndsWith (new 1) (program_start 3) (omega arith) (program_start-IsCounted 3)
