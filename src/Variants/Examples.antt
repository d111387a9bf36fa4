-- ===== src/Variants/Examples.antt =====
-- Objects at the address 32, where the constructor of type 8 throws (one-of.h, common.h).
use kj.Base.{ℕ, ◌≡◌, refl, Bool, true, false, none, some, List, [], ◌∷◌, arith}
use kj.Memory.{constructed}
use kj.Memory.Sample.{World, sample, sample-Behaves, throws, begin_object, end_object}
use kj.Variants.{
  OneOf, destroy_variant, destroy_variants, clear_tag, assign_one_of, init_variant, destroy_one_of,
  NullableValue, assign_nullable, destroy_nullable,
}
use kj.Variants.Living.{Lives, Proper}
use kj.Variants.Tags.{Holds}
use kj.Variants.Assigning.{assign_one_of_itself, Initialised, OneOf-typed}
use kj.Variants.Flaws.{assign_one_of_flaws}
use kj.Variants.Nullable.{IsKept, Assigned, assign_nullable-IsKept}

abbrev types : List ℕ
types = 3 ∷ 8 ∷ []

abbrev one : OneOf
one = record { tag = 1; space = 32 }

abbrev two : OneOf
two = record { tag = 2; space = 96 }

abbrev world : World
world = record { blocks = []; events = constructed 3 32 ∷ [] }

one-Holds : Holds sample types one world
one-Holds = record {
  lives = record { proper = ((λ e. refl), tt); alive = refl };
  within = omega arith;
}

OneOf-typed_example :
    Initialised sample sample-Behaves types 2 one (init_variant sample types 2 8 one world)
    × ((assign_one_of sample types (some two) one world).2 ≡ false
        → ((assign_one_of sample types (some two) one world).0 ≡ record { tag = 2; space = 32 })
          × Holds sample types
              (assign_one_of sample types (some two) one world).0
              (assign_one_of sample types (some two) one world).1)
    × ((u : Bool) → Lives 32 none (destroy_one_of sample u types one world).1.events)
OneOf-typed_example =
    OneOf-typed sample sample-Behaves types one two world 2 8 one-Holds (omega arith) refl
      (omega arith)

one_ends : (clear_tag sample types one world).2 ≡ false
unfolding clear_tag destroy_variants destroy_variant end_object
one_ends = refl

eight_throws : (sample.construct 8 32 (clear_tag sample types one world).1).1 ≡ true
unfolding begin_object throws
eight_throws = refl

assign_one_of_flaws_example :
    let r = assign_one_of sample types (some two) one world in
    (r.0 ≡ record { tag = 2; space = 32 })
    × Lives 32 none r.1.events
    × (Proper 32 none (destroy_one_of sample false types r.0 r.1).1.events → ⊥)
assign_one_of_flaws_example =
    assign_one_of_flaws sample sample-Behaves types one two world 8 false one-Holds (omega arith)
      refl one_ends eight_throws

abbrev here : NullableValue
here = record { is_set = true; value = 32 }

abbrev there : NullableValue
there = record { is_set = true; value = 96 }

here-IsKept : IsKept sample 3 here world
here-IsKept = record { proper = ((λ e. refl), tt); alive = refl }

assign_nullable-IsKept_example :
    Assigned sample 3 sample-Behaves there here (assign_nullable sample 3 (some there) here world)
    × (assign_nullable sample 3 none here world ≡ (here, world, false))
    × ((u : Bool) → Lives 32 none (destroy_nullable sample 3 u here world).0.events)
assign_nullable-IsKept_example =
    assign_nullable-IsKept sample 3 sample-Behaves here there world here-IsKept

itself_emptied :
    let r = assign_one_of sample types none one world in
    (r.0 ≡ record { tag = 0; space = 32 }) × Lives 32 none r.1.events
itself_emptied = assign_one_of_itself sample sample-Behaves types one world one-Holds
