-- ===== src/Arena/Disjoint.antt =====
-- A whole run of allocations, and an alignment that is too large (arena.cpp).
use kj.Base.{
  ℕ, ◌+◌, ◌*◌, ◌%◌, ◌^◌, ◌≤◌, ◌≡◌, sym, subst, ap, ◌∙◌, Bool, Option, some, List, [], ◌∷◌, ◌++◌,
  ◌>>=◌, >>=-eq-some, some_eq, arith,
}
use kj.Memory.{Runtime, Heaps, Apart, All, Within, Pairs}
use kj.Arena.{
  Chunk, Arena, arena, chunk_header_size, align_to, enough_for, allocate_chunk, allocate_bytes,
}
use kj.Arena.Growing.{IsBasic}
use kj.Arena.Bounds.{IsValid, heads, arena-IsValid}
use kj.Arena.Allocating.{space, allocate_bytes-IsValid}

-- What is asked for: the size, the alignment, and whether there is a destructor.
abbrev pub Request : Type 0
Request = ℕ × ℕ × Bool

abbrev pub AllBasic : List Request → Type 0
AllBasic = All (λ (q : Request). IsBasic q.1 × (q.0 ≤ 2 ^ 61))

Pairs-left : (xs ys : List (ℕ × ℕ)) → Pairs (xs ++ ys) → Pairs xs
Pairs-left [] ys h = tt
Pairs-left (x ∷ xs) ys h = (All-left x xs ys h.0, Pairs-left xs ys h.1)
  where
    All-left : (x : ℕ × ℕ) (xs ys : List (ℕ × ℕ)) → All (Apart x) (xs ++ ys) → All (Apart x) xs
    All-left x [] ys h = tt
    All-left x (z ∷ xs) ys h = (h.0, All-left x xs ys h.1)

Within-left :
    (bs xs ys : List (ℕ × ℕ)) → All (λ x. Within x bs) (xs ++ ys) → All (λ x. Within x bs) xs
Within-left bs [] ys h = tt
Within-left bs (x ∷ xs) ys h = (h.0, Within-left bs xs ys h.1)

module _ (m : Runtime) where
  open m use {State, live}

  -- The calls of `allocateBytes` one after another; the spaces that they give are put before those
  -- that have been given.
  abbrev pub allocate_all :
      List Request → List (ℕ × ℕ) → Arena → State → Option (List (ℕ × ℕ) × Arena × State)
  allocate_all [] given a s = some (given, a, s)
  allocate_all (q ∷ qs) given a s =
      allocate_bytes m q.0 q.1 q.2 a s >>= λ r. allocate_all qs (space q.0 q.2 r.0 ∷ given) r.1 r.2

module _ (m : Runtime) (h : Heaps m) where
  open m use {State, live, operator_new}

  allocate_all-IsValid :
      (qs : List Request) (given : List (ℕ × ℕ)) (a : Arena) (s : State)
      (r : List (ℕ × ℕ) × Arena × State)
      → IsValid (live s) given a
      → AllBasic qs
      → allocate_all m qs given a s ≡ some r
      → IsValid (live r.2) r.0 r.1
  allocate_all-IsValid [] given a s r v basic e =
      subst (λ (r : List (ℕ × ℕ) × Arena × State). IsValid (live r.2) r.0 r.1) (some_eq _ _ e) v
  allocate_all-IsValid (q ∷ qs) given a s r v basic e =
      let (t, first, rest) = >>=-eq-some (allocate_bytes m q.0 q.1 q.2 a s) _ e in
      let (_, valid) =
        allocate_bytes-IsValid m h q.0 q.1 q.2 given a s t v basic.0.0 basic.0.1 first in
      allocate_all-IsValid qs (space q.0 q.2 t.0 ∷ given) t.1 t.2 r valid basic.1 rest

  -- Of the objects that a new arena gives in any run of allocations, with the headers of those that
  -- have a destructor, no two have a byte in common, and each lies in a block of the heap that is
  -- in use. This is for alignments of the basic types and sizes of at most 2^61.
  pub allocate_all-Pairs :
      (qs : List Request) (hint : ℕ) (s : State) (r : List (ℕ × ℕ) × Arena × State)
      → AllBasic qs
      → allocate_all m qs [] (arena hint) s ≡ some r
      → Pairs r.0 × All (λ x. Within x (live r.2)) r.0
  allocate_all-Pairs qs hint s r basic e =
      let v = allocate_all-IsValid qs [] (arena hint) s r (arena-IsValid (live s) hint) basic e in
      (
        Pairs-left r.0 (heads r.1.chunk_list) v.apart,
        Within-left (live r.2) r.0 (heads r.1.chunk_list) v.inside,
      )

  -- An object that is aligned to 32 bytes, for which a new chunk is made at an odd multiple of 16,
  -- ends 16 bytes behind the place where the chunk's free space begins.
  pub allocate_chunk_overaligned :
      (amount : ℕ) (a : Arena) (s s' : State) (n p : ℕ) (r : ℕ × Arena × State) (c : Chunk)
      → amount ≤ 2 ^ 61
      → enough_for (amount + 32) (amount + 32) a.next_chunk_size ≡ some n
      → operator_new n s ≡ some (p, s')
      → p % 32 ≡ 16
      → allocate_chunk m amount 32 a s ≡ some r
      → r.1.current_chunk ≡ some c
      → r.0 + amount ≡ c.pos + 16
  unfolding allocate_chunk align_to
  allocate_chunk_overaligned amount a s s' n p r c small size new odd e current =
      let (_, _, _, top, _) = h.gives n s new in
      let sum : (amount + 32) % 2 ^ 64 ≡ amount + 32 = omega arith in
      let chunk : Chunk = record { start = p; pos = p + (amount + 32); end = p + n } in
      let made : ℕ × Arena × State = (
        align_to (p + chunk_header_size) 32,
        record a {
          next_chunk_size = n * 2 % 2 ^ 64;
          chunk_list = p ∷ a.chunk_list;
          current_chunk = some chunk;
        },
        s',
      ) in
      let computed : allocate_chunk m amount 32 a s ≡ some made = rw (sum, size, new) in
      let same = some_eq made r (sym computed ∙ e) in
      let its_chunk =
        some_eq chunk c (ap (λ (r : ℕ × Arena × State). r.1.current_chunk) same ∙ current) in
      omega (arith, ap (λ (r : ℕ × Arena × State). r.0) same, ap (λ (c : Chunk). c.pos) its_chunk)
