-- ===== src/Arena/Lifetime.antt =====
-- Every element of an array in an arena is destroyed that has been constructed (arena.h).
use kj.Base.{
  ℕ, ◌+◌, ◌-◌, ◌*◌, ◌%◌, ◌^◌, ◌≤◌, ◌≡◌, refl, sym, subst, ap, ◌∙◌, max, Bool, true, false, Option,
  none, some, List, ◌++◌, append_assoc, leb, if_true, if_false, >>=-eq-some, some_eq, arith,
  Bool-cases, inl, inr,
}
use kj.Memory.{Runtime, Heaps, Behaves}
use kj.Arrays.{ExceptionSafeArrayUtil, guard_elements, construct_elements}
use kj.Arrays.Destruction.{built, razed}
use kj.Arrays.Construction.{construct_elements-Up}
use kj.Arena.{
  Chunk, Arena, destroy_array, object_header_size, align_to, enough_for, allocate_chunk,
  allocate_from, allocate_bytes_internal, allocate_bytes, set_destructor, destroy_arena,
}
use kj.Arena.Growing.{IsBasic}
use kj.Arena.Bounds.{IsValid}
use kj.Arena.Allocating.{basic_small, allocate_bytes_header}
use kj.Arena.Cleanup.{ends, destroy_arena-Gone}
use kj.Arena.Objects.{Class, construct_all, prefix_size, allocate_tagged_array}

zero_add : (n : ℕ) → 0 + n ≡ n
zero_add n = omega arith

module _ (m : Runtime) (h : Heaps m) (b : Behaves m) where
  open m use {State, live, history, operator_new}

  -- An allocation of bytes has no effect on objects.
  abbrev Quiet : Arena → State → ℕ × Arena × State → Type 0
  Quiet a s r = (history r.2 ≡ history s) × (r.1.object_list ≡ a.object_list)

  allocate_chunk-Quiet :
      (amount alignment : ℕ) (a : Arena) (s : State) (r : ℕ × Arena × State)
      → allocate_chunk m amount alignment a s ≡ some r
      → Quiet a s r
  unfolding allocate_chunk
  allocate_chunk-Quiet amount alignment a s r e =
      let (n, size, rest) = >>=-eq-some (enough_for _ _ a.next_chunk_size) _ e in
      let ((p, s'), new, result) = >>=-eq-some (operator_new n s) _ rest in
      let (_, same, _, _, _) = h.gives n s new in
      subst (Quiet a s) (some_eq _ _ result) (same, refl)

  allocate_from-Quiet :
      (o : Option Chunk) (amount alignment : ℕ) (a : Arena) (s : State) (r : ℕ × Arena × State)
      → allocate_from m o amount alignment a s ≡ some r
      → Quiet a s r
  unfolding allocate_from
  allocate_from-Quiet none amount alignment a s r e = allocate_chunk-Quiet amount alignment a s r e
  allocate_from-Quiet (some c) amount alignment a s r e =
      let q : ℕ = align_to c.pos alignment in
      elim (Bool-cases (leb ((amount + (q - c.pos)) % 2 ^ 64) (c.end - c.pos))) [
        | inl enough ↦ subst (Quiet a s) (some_eq _ _ (sym (if_true _ _ enough) ∙ e)) (refl, refl)
        | inr full ↦ allocate_chunk-Quiet amount alignment a s r (sym (if_false _ _ full) ∙ e)
      ]

  allocate_bytes-Quiet :
      (amount alignment : ℕ) (a : Arena) (s : State) (r : ℕ × Arena × State)
      → allocate_bytes m amount alignment true a s ≡ some r
      → Quiet a s r
  unfolding allocate_bytes allocate_bytes_internal
  allocate_bytes-Quiet amount alignment a s r e =
      let (t, inner, result) =
        >>=-eq-some (allocate_bytes_internal m _ (max alignment 8) a s) _ e in
      subst (Quiet a s) (some_eq _ _ result)
        (allocate_from-Quiet a.current_chunk _ (max alignment 8) a s t inner)

  tagged_end :
      (c : Class) (q k tag : ℕ) (a a₁ : Arena) (s s₁ u : State)
      → history s₁ ≡ history s
      → a₁.object_list ≡ a.object_list
      → object_header_size ≤ q
      → tag ≡ k
      → history u ≡ history s₁ ++ built c.id c.size (q + prefix_size c + c.size * 0) k
      → history
          (destroy_arena m false
            (set_destructor q (destroy_array c.id c.size (prefix_size c) tag) a₁)
            u).0
        ≡ history s
          ++ (built c.id c.size (q + prefix_size c) k
              ++ (razed c.id c.size (q + prefix_size c) k ++ ends a.object_list))
  unfolding set_destructor
  tagged_end c q k tag a a₁ s s₁ u same kept room count events =
      let t = c.id in
      let p : ℕ = q + prefix_size c in
      let d = destroy_array t c.size (prefix_size c) tag in
      let back : q - object_header_size + object_header_size + prefix_size c ≡ p = omega arith in
      let start : p + c.size * 0 ≡ p = omega arith in
      let gone = destroy_arena-Gone m h b false (set_destructor q d a₁) u in
      gone.0
      ∙ (ap (λ (x : ℕ). history u ++ (razed t c.size x tag ++ ends a₁.object_list)) back
          ∙ (ap (λ (n : ℕ). history u ++ (razed t c.size p n ++ ends a₁.object_list)) count
              ∙ (ap (λ l. history u ++ (razed t c.size p k ++ ends l)) kept
                  ∙ (ap (λ l. l ++ (razed t c.size p k ++ ends a.object_list))
                        (events
                          ∙ (ap (λ (x : ℕ). history s₁ ++ built t c.size x k) start
                              ∙ ap (λ l. l ++ built t c.size p k) same))
                      ∙ append_assoc (history s) _ _))))

  -- Where `allocateArray` constructs elements that have a destructor, those that are constructed,
  -- all of them or those before one whose constructor throws, are what the arena destroys first at
  -- its end, from the last to the first, and then come the objects that were registered before.
  pub destroy_arena-allocate_tagged_array :
      (c : Class) (count : ℕ) (given : List (ℕ × ℕ)) (a : Arena) (s : State)
      (r : Arena × State × Option ℕ)
      → IsValid (live s) given a
      → IsBasic c.align
      → c.size * count + 16 ≤ 2 ^ 61
      → c.trivial_constructor ≡ false
      → allocate_tagged_array m c count a s ≡ some r
      → (p : ℕ) × (k : ℕ) × (k ≤ count)
        × (history (destroy_arena m false r.0 r.1).0
            ≡ history s ++ (built c.id c.size p k ++ (razed c.id c.size p k ++ ends a.object_list)))
  unfolding allocate_tagged_array construct_all guard_elements
  destroy_arena-allocate_tagged_array c count given a s r v basic small constructs e =
      let amount : ℕ = (c.size * count + prefix_size c) % 2 ^ 64 in
      let (t, bytes, result) = >>=-eq-some (allocate_bytes m amount c.align true a s) _ e in
      let (same, kept) = allocate_bytes-Quiet amount c.align a s t bytes in
      let p : ℕ = t.0 + prefix_size c in
      let aligned = basic_small c.align basic in
      let room = allocate_bytes_header m h amount c.align given a s t v basic (omega arith) bytes in
      let up = construct_elements-Up m b p c.size 0 count c.id t.2 in
      let u = construct_elements m count (guard_elements p c.size 0 c.id) t.2 in
      let tag : u.0.constructed_element_count ≡ up.k =
        ap (λ g. g.constructed_element_count) up.guard ∙ zero_add up.k in
      (
        p,
        up.k,
        up.bound,
        ap (λ (r : Arena × State × Option ℕ). history (destroy_arena m false r.0 r.1).0)
              (sym (some_eq _ _ result))
            ∙ (ap
                  (λ (w : ExceptionSafeArrayUtil × State × Bool).
                    history
                      (destroy_arena m false
                        (set_destructor t.0
                          (destroy_array c.id c.size (prefix_size c) w.0.constructed_element_count)
                          t.1)
                        w.1).0)
                  (if_false _ _ constructs)
                ∙ tagged_end c t.0 up.k u.0.constructed_element_count a t.1 s t.2 u.1 same kept room
                    tag up.events),
      )
