-- ===== src/Arena/Bounds.antt =====
-- The objects of an arena lie in its chunks and do not overlap (arena.cpp).
use kj.Base.{
  ℕ, ◌+◌, ◌-◌, ◌*◌, ◌%◌, ◌^◌, ◌≤◌, ◌<◌, ◌≡◌, subst, inl, inr, max, true, Option, none, some, List,
  [], ◌∷◌, ◌++◌, ltb, lt→ltb, arith,
}
use kj.Memory.{
  Apart, All, Inside, Within, Pairs, Apart-sym, Apart-Inside, All-Apart-Inside, Within-Inside,
  All-Apart-Within, All-more, All-insert, Pairs-insert,
}
use kj.Arena.{Chunk, Arena, arena, arena_over, chunk_header_size}
use kj.Arena.Growing.{IsBasic}

-- The headers of the chunks.
abbrev pub heads : List ℕ → List (ℕ × ℕ)
heads [] = []
heads (p ∷ ps) = (p, chunk_header_size) ∷ heads ps

-- The space that is left in the current chunk lies in a block and is apart from what is taken.
abbrev pub Room : Option Chunk → List (ℕ × ℕ) → List (ℕ × ℕ) → Type 0
Room none taken blocks = Unit
Room (some c) taken blocks =
    (c.pos ≤ c.end)
    × (c.end < 2 ^ 63)
    × All (Apart (c.pos, c.end - c.pos)) taken
    × Within (c.pos, c.end - c.pos) blocks

-- An arena, with the heap as it is, out of which the ranges of `given` have been given: these and
-- the headers of chunks lie in blocks that are in use, and no two have a byte in common.
pub record IsValid (blocks given : List (ℕ × ℕ)) (a : Arena) : Type 0 where
  pub apart : Pairs (given ++ heads a.chunk_list)
  pub inside : All (λ g. Within g blocks) (given ++ heads a.chunk_list)
  pub room : Room a.current_chunk (given ++ heads a.chunk_list) blocks
  pub grows : 0 < a.next_chunk_size

pub mod-basic : (a x : ℕ) → IsBasic a → x % max a 8 ≡ 0 → x % a ≡ 0
mod-basic a x (inl e) = rw e (λ h. omega arith)
mod-basic a x (inr (inl e)) = rw e (λ h. omega arith)
mod-basic a x (inr (inr (inl e))) = rw e (λ h. omega arith)
mod-basic a x (inr (inr (inr (inl e)))) = rw e (λ h. h)
mod-basic a x (inr (inr (inr (inr e)))) = rw e (λ h. h)

-- A new chunk at `p`, of the size `n`, for an object of `amount` bytes at the offset `o`.
pub new_chunk-IsValid :
    (blocks given : List (ℕ × ℕ)) (a : Arena) (p n o amount : ℕ)
    → IsValid blocks given a
    → All (Apart (p, n)) blocks
    → p + n < 2 ^ 63
    → chunk_header_size ≤ o
    → amount + o ≤ n
    → IsValid ((p, n) ∷ blocks) ((p + o, amount) ∷ given) (record a {
      next_chunk_size = n * 2 % 2 ^ 64;
      chunk_list = p ∷ a.chunk_list;
      current_chunk = some (record { start = p; pos = p + (amount + o); end = p + n });
    })
new_chunk-IsValid blocks given a p n o amount v fresh top behind fits =
    let old = heads a.chunk_list in
    let head : ℕ × ℕ = (p, chunk_header_size) in
    let object : ℕ × ℕ = (p + o, amount) in
    let free : ℕ × ℕ = (p + (amount + o), p + n - (p + (amount + o))) in
    let new = All-Apart-Within (p, n) (given ++ old) blocks fresh v.inside in
    let in_new =
      λ (r : ℕ × ℕ) (i : Inside r (p, n)). All-Apart-Inside r (p, n) (given ++ old) i new in
    record {
      apart = (
        All-insert (Apart object) given head old (inr (omega arith)) (in_new object (omega arith)),
        Pairs-insert given head old (in_new head (omega arith)) v.apart,
      );
      inside = (
        inl (omega arith),
        All-insert (λ g. Within g ((p, n) ∷ blocks)) given head old (inl (omega arith))
            (All-more (p, n) (given ++ old) blocks v.inside),
      );
      room = (
        omega arith,
        top,
        (
          inr (omega arith),
          All-insert (Apart free) given head old (inr (omega arith)) (in_new free (omega arith)),
        ),
        inl (omega arith),
      );
      grows = omega arith;
    }

-- An object of `amount` bytes at `q` in the space that is left.
pub in_chunk-IsValid :
    (blocks given : List (ℕ × ℕ)) (a : Arena) (c : Chunk) (q amount : ℕ)
    → IsValid blocks given a
    → a.current_chunk ≡ some c
    → c.pos ≤ q
    → q + amount ≤ c.end
    → IsValid blocks
        ((q, amount) ∷ given)
        (record a { current_chunk = some (record c { pos = q + amount }) })
in_chunk-IsValid blocks given a c q amount v current low high =
    let (_, top, apart, within) =
      subst (λ o. Room o (given ++ heads a.chunk_list) blocks) current v.room in
    let all = given ++ heads a.chunk_list in
    let old : ℕ × ℕ = (c.pos, c.end - c.pos) in
    let object : ℕ × ℕ = (q, amount) in
    let free : ℕ × ℕ = (q + amount, c.end - (q + amount)) in
    record {
      apart = (All-Apart-Inside object old all (omega arith) apart, v.apart);
      inside = (Within-Inside object old blocks (omega arith) within, v.inside);
      room = (
        high,
        top,
        (inr (omega arith), All-Apart-Inside free old all (omega arith) apart),
        Within-Inside free old blocks (omega arith) within,
      );
      grows = v.grows;
    }

-- A part of what is given may stand for it.
pub shrink-IsValid :
    (blocks given : List (ℕ × ℕ)) (a : Arena) (x y : ℕ × ℕ)
    → IsValid blocks (x ∷ given) a
    → Inside y x
    → IsValid blocks (y ∷ given) a
shrink-IsValid blocks given a x y v i = record {
  apart = (All-Apart-Inside y x (given ++ heads a.chunk_list) i v.apart.0, v.apart.1);
  inside = (Within-Inside y x blocks i v.inside.0, v.inside.1);
  room = shrink_room a.current_chunk v.room;
  grows = v.grows;
}
  where
    shrink_room :
        (o : Option Chunk)
        → Room o (x ∷ (given ++ heads a.chunk_list)) blocks
        → Room o (y ∷ (given ++ heads a.chunk_list)) blocks
    shrink_room none r = r
    shrink_room (some c) (below, top, apart, within) = (
      below,
      top,
      (Apart-sym y _ (Apart-Inside y x _ i (Apart-sym _ x apart.0)), apart.1),
      within,
    )

pub arena-IsValid : (blocks : List (ℕ × ℕ)) (hint : ℕ) → IsValid blocks [] (arena hint)
unfolding arena
arena-IsValid blocks hint = record { apart = tt; inside = tt; room = tt; grows = omega arith }

-- The arena over a space that lies in a block; the header of its chunk is given.
pub arena_over-IsValid :
    (blocks : List (ℕ × ℕ)) (p n : ℕ)
    → chunk_header_size < n
    → p + n < 2 ^ 63
    → Within (p, n) blocks
    → IsValid blocks ((p, chunk_header_size) ∷ []) (arena_over p n)
unfolding arena_over arena
arena_over-IsValid blocks p n more top w =
    let test : ltb chunk_header_size n ≡ true = lt→ltb _ _ more in
    rw test (record {
      apart = (tt, tt);
      inside = (Within-Inside (p, chunk_header_size) (p, n) blocks (omega arith) w, tt);
      room = (
        omega arith,
        top,
        (inr (omega arith), tt),
        Within-Inside (p + chunk_header_size, p + n - (p + chunk_header_size)) (p, n) blocks
            (omega arith) w,
      );
      grows = omega arith;
    })
