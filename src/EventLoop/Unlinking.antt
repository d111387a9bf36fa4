-- ===== src/EventLoop/Unlinking.antt =====
-- The end of a loop (`~EventLoop` in async.cpp) in whose queue events are left.
use kj.Base.{ℕ, ◌≡◌, none, List, [], ◌∷◌}
use kj.EventLoop.{EventLoop}
use kj.EventLoop.Queue.{first_of}

-- Both pointers of the event are null.
abbrev pub Unlinked : EventLoop → ℕ → Type 0
Unlinked l a = (l.next a ≡ none) × (l.prev a ≡ none)

-- Each event's `next` is the event behind it.
abbrev pub Linked : EventLoop → List ℕ → Type 0
Linked l [] = Unit {0}
Linked l (e ∷ es) = (l.next e ≡ first_of es) × Linked l es
