-- ===== src/Debug/Described.antt =====
-- Both passes of `makeDescription` (debug.cpp) agree, and what the message says.
use kj.Base.{
  ℕ, suc, ◌+◌, ◌≡◌, refl, ap, sym, ◌∙◌, Bool, true, false, Option, some, List, [], ◌∷◌, ◌++◌, map,
  append_assoc, append-nil, length, length-append, lt→ltb, if◌then◌else◌, arith, Bool-cases, inl,
  inr, concat,
}
use kj.Text.{Bytes, fill}
use kj.Text.Search.{codes}
use kj.Text.Filling.{Buffer, heap_string, put, extend, Fits, put-extend, finish-heap_string}
use kj.Text.Joining.{join, after, fill-extend}
use kj.Debug.{split_args}
use kj.Debug.Describing.{
  Style, log, assertion, syscall, pair_up, is_named, sep, delim, delimits, args_size, args_fill,
  head_pieces, head_size, style_of, code_of, make_description,
}

-- What is shown of an argument.
abbrev pub shown : Bytes × Bytes → Bytes
shown (name, value) = (if is_named name then name ++ sep else []) ++ value

-- What the arguments from the `i`th on add.
abbrev part : Style → ℕ → List (Bytes × Bytes) → Bytes
part style i [] = []
part style i (arg ∷ args) =
    (if delimits style i then delim else []) ++ (shown arg ++ part style (suc i) args)

args_size-part :
    (style : Style) (i : ℕ) (args : List (Bytes × Bytes)) (total : ℕ)
    → args_size style i args total ≡ total + length (part style i args)
unfolding args_size
args_size-part style i [] total = omega arith
args_size-part style i ((name, value) ∷ args) total =
    let d : Bytes = if delimits style i then delim else [] in
    let delimited : ℕ = if delimits style i then total + length delim else total in
    let named : ℕ = if is_named name then delimited + (length name + length sep) else delimited in
    let first : delimited ≡ total + length d = elim (Bool-cases (delimits style i)) [
      | inl e ↦ rw e refl
      | inr e ↦ rw e (omega arith)
    ] in
    let second : named + length value ≡ delimited + length (shown (name, value)) =
      elim (Bool-cases (is_named name)) [
        | inl e ↦ rw e (omega (arith, length-append name sep, length-append (name ++ sep) value))
        | inr e ↦ rw e refl
      ] in
    omega (
      arith,
      args_size-part style (suc i) args (named + length value),
      length-append d (shown (name, value) ++ part style (suc i) args),
      length-append (shown (name, value)) (part style (suc i) args),
    )

put_if :
    (test : Bool) (bytes : Bytes) (b : Buffer)
    → Fits (if test then bytes else []) b
    → (if test then put bytes b else some b) ≡ some (extend b (if test then bytes else []))
put_if true bytes b h = put-extend bytes b h
put_if false bytes b h =
    ap (λ (t : Bytes). some (record b { written = t })) (sym (append-nil b.written))

fill_if :
    (test : Bool) (name : Bytes) (b : Buffer)
    → Fits (if test then name ++ sep else []) b
    → (if test then fill (name ∷ sep ∷ []) b else some b)
      ≡ some (extend b (if test then name ++ sep else []))
fill_if true name b h =
    let same : name ++ (sep ++ []) ≡ name ++ sep = refl in fill-extend (name ∷ sep ∷ []) b h
fill_if false name b h =
    ap (λ (t : Bytes). some (record b { written = t })) (sym (append-nil b.written))

args_fill-part :
    (style : Style) (i : ℕ) (args : List (Bytes × Bytes)) (b : Buffer)
    → Fits (part style i args) b
    → args_fill style i args b ≡ some (extend b (part style i args))
unfolding args_fill
args_fill-part style i [] b h =
    ap (λ (t : Bytes). some (record b { written = t })) (sym (append-nil b.written))
args_fill-part style i ((name, value) ∷ args) b h =
    let d : Bytes = if delimits style i then delim else [] in
    let n : Bytes = if is_named name then name ++ sep else [] in
    let rest : Bytes = part style (suc i) args in
    let all = length-append d ((n ++ value) ++ rest) in
    let most = length-append (n ++ value) rest in
    let some_of = length-append n value in
    let one = length-append b.written d in
    let two = length-append (b.written ++ d) n in
    let three = length-append ((b.written ++ d) ++ n) value in
    rw
      (
        put_if (delimits style i) delim b (omega arith),
        fill_if (is_named name) name (extend b d) (omega arith),
        put-extend value (extend (extend b d) n) (omega arith),
        args_fill-part style (suc i) args (extend (extend (extend b d) n) value) (omega arith),
      )
      (ap (λ (t : Bytes). some (record b { written = t }))
        (append_assoc ((b.written ++ d) ++ n) value rest
          ∙ append_assoc (b.written ++ d) n (value ++ rest)
          ∙ append_assoc b.written d (n ++ (value ++ rest))
          ∙ ap (λ (t : Bytes). b.written ++ (d ++ t)) (sym (append_assoc n value rest))))

-- The text before the arguments.
abbrev pub head : Style → Bytes → Bytes → Bytes
head log code error = []
head assertion code error = codes "expected " ++ code
head syscall code error = code ++ (codes ": " ++ error)

-- What a message says: in a log the arguments with `; ` between them, and in the other styles the
-- head, and `; ` before each argument.
abbrev pub described : Style → Bytes → Bytes → List (Bytes × Bytes) → Bytes
described log code error args = join delim (map shown args)
described assertion code error args = head assertion code error ++ after delim (map shown args)
described syscall code error args = head syscall code error ++ after delim (map shown args)

part-after :
    (style : Style) (i : ℕ) (args : List (Bytes × Bytes))
    → part style (suc i) args ≡ after delim (map shown args)
part-after style i [] = refl
part-after log i (arg ∷ args) =
    let test = lt→ltb 0 (suc i) (omega arith) in rw (test, part-after log (suc i) args)
part-after assertion i (arg ∷ args) = rw (part-after assertion (suc i) args)
part-after syscall i (arg ∷ args) = rw (part-after syscall (suc i) args)

head-described :
    (style : Style) (code error : Bytes) (args : List (Bytes × Bytes))
    → head style code error ++ part style 0 args ≡ described style code error args
head-described log code error [] = refl
head-described log code error (arg ∷ args) = rw (part-after log 0 args)
head-described assertion code error [] = refl
head-described assertion code error (arg ∷ args) = rw (part-after assertion 0 args)
head-described syscall code error [] = refl
head-described syscall code error (arg ∷ args) = rw (part-after syscall 0 args)

concat-head_pieces :
    (style : Style) (code error : Bytes)
    → (concat (head_pieces style code error) ≡ head style code error)
      × (length (head style code error) ≡ head_size style code error)
concat-head_pieces log code error = (refl, refl)
concat-head_pieces assertion code error =
    (ap (λ (t : Bytes). codes "expected " ++ t) (append-nil code), omega arith)
concat-head_pieces syscall code error = (
  ap (λ (t : Bytes). code ++ (codes ": " ++ t)) (append-nil error),
  omega (arith, length-append code (codes ": " ++ error)),
)

-- In each style, `makeDescription` fills its string exactly. The message is the head, that is nothing
-- for a log or an assertion without code, `expected` and the code for an assertion, and the stripped
-- call with the system's text for a call, and then the values with the names that the arguments'
-- text gives them, but for names that are string literals.
pub make_description-described :
    (style : Style) (maybe_code : Option Bytes) (error macro_args : Bytes) (values : List Bytes)
    → make_description style maybe_code error macro_args values
      ≡ some (
          described
            (style_of style maybe_code)
            (code_of style maybe_code)
            error
            (pair_up (split_args macro_args) values))
unfolding make_description heap_string
make_description-described style maybe_code error macro_args values =
    let args : List (Bytes × Bytes) = pair_up (split_args macro_args) values in
    let code : Bytes = code_of style maybe_code in
    let style' : Style = style_of style maybe_code in
    let (whole, counted) = concat-head_pieces style' code error in
    let text : Bytes = head style' code error ++ part style' 0 args in
    let total = length-append (head style' code error) (part style' 0 args) in
    let size : args_size style' 0 args (head_size style' code error) ≡ length text =
      omega (arith, args_size-part style' 0 args (head_size style' code error)) in
    let fresh : Buffer = heap_string (length text) in
    rw
      (
        size,
        fill-extend (head_pieces style' code error) fresh (omega (arith, ap length whole)),
        whole,
        args_fill-part style' 0 args (extend fresh (head style' code error)) (omega arith),
      )
      (finish-heap_string (length text) text refl ∙ ap some (head-described style' code error args))
