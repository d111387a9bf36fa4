-- ===== src/Debug/Examples.antt =====
-- Messages of macros at concrete arguments.
use kj.Base.{◌≡◌, refl, false, some, List, [], ◌∷◌, arith}
use kj.Text.{Bytes}
use kj.Text.Search.{codes}
use kj.Text.Filling.{put, heap_string, finish}
use kj.Debug.{split_args}
use kj.Debug.Pieces.{bare, behind, Pieces, nil, byte, comma, literal, group}
use kj.Debug.Splitting.{print_args, split_args-print_args}
use kj.Debug.Describing.{assertion, syscall, strip_call, make_description}
use kj.Debug.Messages.{assigned, of_call, make_description-text}

-- f(x, y)
abbrev call : Pieces false
call = byte b'f' refl (group (byte b'x' refl (comma (byte b' ' refl (byte b'y' refl nil)))) nil)

-- "a,\""
abbrev quote : Pieces false
quote = literal (bare b'a' refl ∷ bare b',' refl ∷ behind b'"' ∷ []) nil

split_args-print_args_example :
    split_args (print_args (call ∷ quote ∷ [])) ≡ codes "f(x, y)" ∷ codes "\"a,\\\"\"" ∷ []
split_args-print_args_example =
    split_args-print_args call (quote ∷ []) (refl, omega arith, (refl, omega arith, tt))

abbrev values : List Bytes
values = codes "3" ∷ codes "oops" ∷ []

abbrev n : Pieces false
n = byte b'n' refl nil

abbrev why : Pieces false
why = literal (bare b'w' refl ∷ bare b'h' refl ∷ bare b'y' refl ∷ []) nil

make_description-text_example :
    make_description syscall
      (some (codes "n = read(fd)"))
      (codes "gone")
      (codes "n, \"why\"")
      values
    ≡ some (codes "read(fd): gone; n = 3; oops")
make_description-text_example =
    make_description-text (codes "gone") syscall (some (codes "n = read(fd)"))
      (some (codes "read(fd): gone")) (n, codes "3") ((why, codes "oops") ∷ [])
      (of_call (codes "n = read(fd)") (codes "read(fd)")
        (assigned (codes "n ") (codes " ") (codes "read(fd)") refl (refl, tt) refl refl))
      (refl, omega arith, (refl, omega arith, tt))

message :
    make_description assertion (some (codes "n < 2")) [] (codes "n, \"why\"") values
    ≡ some (codes "expected n < 2; n = 3; oops")
unfolding make_description put heap_string finish
message = refl

-- An assignment is stripped, an equality test is not, and an inequality is taken for an assignment.
stripped : strip_call (codes "n = read(fd)") ≡ codes "read(fd)"
unfolding strip_call
stripped = refl

stripped_test : strip_call (codes "n == 0") ≡ codes "n == 0"
unfolding strip_call
stripped_test = refl

stripped_inequality : strip_call (codes "close(fd) != -1") ≡ codes "-1"
unfolding strip_call
stripped_inequality = refl
