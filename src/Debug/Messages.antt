-- ===== src/Debug/Messages.antt =====
-- What a message of `makeDescription` (debug.cpp) says, for arguments as they are written in a macro.
use kj.Base.{
  ℕ, suc, ◌≡◌, refl, ap, ◌∙◌, Bool, true, false, Option, none, some, List, [], ◌∷◌, ◌++◌, map,
  length, drop, arith, ap₂, append_assoc, if_true, if_false, ◌==◌, not,
}
use kj.Text.{Bytes}
use kj.Text.Search.{codes, has_byte, find_first-none, find_first-some}
use kj.Text.Joining.{join, after}
use kj.Debug.{is_space}
use kj.Debug.Pieces.{Pieces, nil, byte, literal, group, print, is_special}
use kj.Debug.Splitting.{print_args, AllOk, split_args-print_args}
use kj.Debug.Describing.{
  Style, log, assertion, syscall, drop_spaces, starts_equals, strip_call, pair_up, style_of,
  code_of, make_description,
}
use kj.Debug.Described.{shown, described, make_description-described}

abbrev pub AllSpace : Bytes → Type 0
AllSpace [] = Unit {0}
AllSpace (c ∷ cs) = (is_space c ≡ true) × AllSpace cs

abbrev pub starts_space : Bytes → Bool
starts_space [] = false
starts_space (c ∷ cs) = is_space c

-- What is shown of a call: all of it, where it has no equals sign or the first one begins `==`, and
-- else what is behind the first one and the spaces that follow it.
pub data Called : Bytes → Bytes → Type 0 where
  bare : {code : Bytes} → has_byte b'=' code ≡ false → Called code code
  compared :
      (before rest : Bytes)
      → has_byte b'=' before ≡ false
      → Called (before ++ b'=' ∷ b'=' ∷ rest) (before ++ b'=' ∷ b'=' ∷ rest)
  assigned :
      (before spaces call : Bytes)
      → has_byte b'=' before ≡ false
      → AllSpace spaces
      → starts_space call ≡ false
      → starts_equals (spaces ++ call) ≡ false
      → Called (before ++ b'=' ∷ (spaces ++ call)) call

drop_spaces-append :
    (spaces call : Bytes)
    → AllSpace spaces
    → starts_space call ≡ false
    → drop_spaces (spaces ++ call) ≡ call
unfolding drop_spaces
drop_spaces-append [] [] s h = refl
drop_spaces-append [] (c ∷ cs) s h = if_false _ _ h
drop_spaces-append (c ∷ cs) call s h = if_true _ _ s.0 ∙ drop_spaces-append cs call s.1 h

drop_past : (before rest : Bytes) (c : ℕ) → drop (suc (length before)) (before ++ c ∷ rest) ≡ rest
drop_past [] rest c = refl
drop_past (x ∷ before) rest c = drop_past before rest c

strip_call-Called : (code call : Bytes) → Called code call → strip_call code ≡ call
unfolding strip_call
strip_call-Called code shown_code (bare free) = rw (find_first-none b'=' code free, strip_call)
strip_call-Called code shown_code (compared before rest free) = rw (
  find_first-some b'=' before (b'=' ∷ rest) free,
  drop_past before (b'=' ∷ rest) b'=',
  strip_call,
)
strip_call-Called code shown_code (assigned before spaces call free s h other) =
    rw
      (
        find_first-some b'=' before (spaces ++ call) free,
        drop_past before (spaces ++ call) b'=',
        strip_call,
      )
      (if_false _ _ other ∙ drop_spaces-append spaces call s h)

-- What stands before the arguments, if anything does.
pub data Heading (error : Bytes) : Style → Option Bytes → Option Bytes → Type 0 where
  of_log : {code : Option Bytes} → Heading error log code none
  without_code : Heading error assertion none none
  of_assertion :
      (code : Bytes) → Heading error assertion (some code) (some (codes "expected " ++ code))
  of_call :
      (code call : Bytes)
      → Called code call
      → Heading error syscall (some code) (some (call ++ (codes ": " ++ error)))

abbrev pub text : Option Bytes → List Bytes → Bytes
text none parts = join (codes "; ") parts
text (some heading) parts = heading ++ after (codes "; ") parts

-- An argument with its value: a string literal, and what is missing, is shown by its value alone.
abbrev pub shown_as : Pieces false × Bytes → Bytes
shown_as (nil, value) = value
shown_as (literal letters p, value) = value
shown_as (byte c h p, value) = print (byte c h p) ++ (codes " = " ++ value)
shown_as (group q p, value) = print (group q p) ++ (codes " = " ++ value)

abbrev named : Pieces false × Bytes → Bytes × Bytes
named arg = (print arg.0, arg.1)

abbrev pub pieces : List (Pieces false × Bytes) → List (Pieces false)
pieces [] = []
pieces (arg ∷ args) = arg.0 ∷ pieces args

abbrev pub values : List (Pieces false × Bytes) → List Bytes
values [] = []
values (arg ∷ args) = arg.1 ∷ values args

pair_up-named :
    (args : List (Pieces false × Bytes))
    → pair_up (map print (pieces args)) (values args) ≡ map named args
pair_up-named [] = refl
pair_up-named (arg ∷ args) = ap (λ l. named arg ∷ l) (pair_up-named args)

no_quote : (c : ℕ) → is_special c ≡ false → not (c == b'"') ≡ true
no_quote c h = ground arith

shown-shown_as : (arg : Pieces false × Bytes) → shown (named arg) ≡ shown_as arg
shown-shown_as (nil, value) = refl
shown-shown_as (literal letters p, value) = refl
shown-shown_as (byte c h p, value) =
    rw (no_quote c h) (append_assoc (print (byte c h p)) (codes " = ") value)
shown-shown_as (group q p, value) = append_assoc (print (group q p)) (codes " = ") value

map-shown_as : (args : List (Pieces false × Bytes)) → map shown (map named args) ≡ map shown_as args
map-shown_as [] = refl
map-shown_as (arg ∷ args) = ap₂ (λ x l. x ∷ l) (shown-shown_as arg) (map-shown_as args)

described-text :
    (error : Bytes) (style : Style) (maybe_code heading : Option Bytes)
    (args : List (Bytes × Bytes))
    → Heading error style maybe_code heading
    → described (style_of style maybe_code) (code_of style maybe_code) error args
      ≡ text heading (map shown args)
described-text error style maybe_code heading args of_log = refl
described-text error style maybe_code heading args without_code = refl
described-text error style maybe_code heading args (of_assertion code) = refl
described-text error style maybe_code heading args (of_call code call called) =
    rw (strip_call-Called code call called)

-- `makeDescription` fills its string exactly with the message: where the arguments of the macro, none
-- of which begins with a space or is nested 2^32 deep, have one value each, and a call has its code,
-- this is the heading and each value, with the text of its argument before it if that is not a string
-- literal, and `; ` between them. There is no heading for a log and for an assertion without code;
-- for an assertion it is `expected` with the code, and for a call what is shown of it and the text of
-- the error.
pub make_description-text :
    (error : Bytes) (style : Style) (maybe_code heading : Option Bytes)
    → (arg : Pieces false × Bytes) (args : List (Pieces false × Bytes))
    → Heading error style maybe_code heading
    → AllOk (pieces (arg ∷ args))
    → make_description style maybe_code error
        (print_args (pieces (arg ∷ args)))
        (values (arg ∷ args))
      ≡ some (text heading (map shown_as (arg ∷ args)))
make_description-text error style maybe_code heading arg args h ok =
    let all = arg ∷ args in
    make_description-described style maybe_code error (print_args (pieces all)) (values all)
    ∙ ap
        (λ names. some (
          described (style_of style maybe_code) (code_of style maybe_code) error
            (pair_up names (values all))))
        (split_args-print_args arg.0 (pieces args) ok)
    ∙ ap (λ l. some (described (style_of style maybe_code) (code_of style maybe_code) error l))
        (pair_up-named all)
    ∙ ap (λ t. some t) (described-text error style maybe_code heading (map named all) h)
    ∙ ap (λ l. some (text heading l)) (map-shown_as all)
