-- ===== src/Debug/Splitting.antt =====
-- The arguments of a macro (debug.cpp, `makeDescription`) are told apart.
use kj.Base.{
  ℕ, ◌+◌, ◌-◌, ◌%◌, ◌^◌, ◌<◌, ◌≡◌, refl, ap, sym, ◌∙◌, Bool, true, false, ◌||◌, List, [], ◌∷◌, ◌++◌,
  map, append_assoc, append-nil, ◌==◌, if_false, arith,
}
use kj.Text.{Bytes}
use kj.Debug.{
  is_space, backslash, Mode, skipping, plain, quoted, Scan, plain_step, scan_step, scan, split_args,
}
use kj.Debug.Pieces.{
  Letter, bare, behind, print_letters, is_special, Pieces, nil, byte, comma, literal, group, print,
  height,
}

abbrev state : Mode → ℕ → Bytes → List Bytes → Scan
state mode depth name names = record { mode = mode; depth = depth; name = name; names = names }

step_bare :
    (c d : ℕ) (name : Bytes) (names : List Bytes)
    → (c == b'"' || c == backslash) ≡ false
    → scan_step quoted c (state quoted d name names) ≡ state quoted d (name ++ c ∷ []) names
step_bare c d name names h =
    let no_backslash : (c == backslash) ≡ false = ground arith in
    let no_quote : (c == b'"') ≡ false = ground arith in rw (no_backslash, no_quote)

step_byte :
    (c d : ℕ) (name : Bytes) (names : List Bytes)
    → is_special c ≡ false
    → plain_step c (state plain d name names) ≡ state plain d (name ++ c ∷ []) names
unfolding plain_step
step_byte c d name names h =
    let no_open : (c == b'(') ≡ false = ground arith in
    let no_close : (c == b')') ≡ false = ground arith in
    let no_quote : (c == b'"') ≡ false = ground arith in
    let no_comma : (c == b',') ≡ false = ground arith in rw (no_open, no_close, no_quote, no_comma)

step_comma :
    (d : ℕ) (name : Bytes) (names : List Bytes)
    → 0 < d
    → plain_step b',' (state plain d name names) ≡ state plain d (name ++ b',' ∷ []) names
unfolding plain_step
step_comma d name names h = let inside : (d == 0) ≡ false = ground arith in rw inside

step_open :
    (d : ℕ) (name : Bytes) (names : List Bytes)
    → d + 1 < 2 ^ 32
    → plain_step b'(' (state plain d name names) ≡ state plain (d + 1) (name ++ b'(' ∷ []) names
unfolding plain_step
step_open d name names h = let next : (d + 1) % 2 ^ 32 ≡ d + 1 = omega arith in rw next

step_close :
    (d : ℕ) (name : Bytes) (names : List Bytes)
    → d + 1 < 2 ^ 32
    → plain_step b')' (state plain (d + 1) name names) ≡ state plain d (name ++ b')' ∷ []) names
unfolding plain_step
step_close d name names h = let back : (d + 1 + 2 ^ 32 - 1) % 2 ^ 32 ≡ d = omega arith in rw back

scan-print_letters :
    (ls : List Letter) (rest : Bytes) (d : ℕ) (name : Bytes) (names : List Bytes)
    → scan (print_letters ls ++ b'"' ∷ rest) (state quoted d name names)
      ≡ scan rest (state plain d (name ++ (print_letters ls ++ b'"' ∷ [])) names)
unfolding scan
scan-print_letters [] rest d name names = refl
scan-print_letters (bare c h ∷ ls) rest d name names =
    ap (scan (print_letters ls ++ b'"' ∷ rest)) (step_bare c d name names h)
    ∙ scan-print_letters ls rest d (name ++ c ∷ []) names
    ∙ ap (λ (t : Bytes). scan rest (state plain d t names))
        (append_assoc name (c ∷ []) (print_letters ls ++ b'"' ∷ []))
scan-print_letters (behind c ∷ ls) rest d name names =
    scan-print_letters ls rest d ((name ++ backslash ∷ []) ++ c ∷ []) names
    ∙ ap (λ (t : Bytes). scan rest (state plain d t names))
        (append_assoc (name ++ backslash ∷ []) (c ∷ []) (print_letters ls ++ b'"' ∷ [])
          ∙ append_assoc name (backslash ∷ []) (c ∷ print_letters ls ++ b'"' ∷ []))

-- Inside parentheses the depth is not 0.
abbrev DepthOk : Bool → ℕ → Type 0
DepthOk true d = 0 < d
DepthOk false d = Unit {0}

scan-print :
    {inside : Bool} (p : Pieces inside) (rest : Bytes) (d : ℕ) (name : Bytes) (names : List Bytes)
    → DepthOk inside d
    → d + height p < 2 ^ 32
    → scan (print p ++ rest) (state plain d name names)
      ≡ scan rest (state plain d (name ++ print p) names)
unfolding scan
scan-print nil rest d name names ok small =
    ap (λ (t : Bytes). scan rest (state plain d t names)) (sym (append-nil name))
scan-print (byte c h p) rest d name names ok small =
    ap (scan (print p ++ rest)) (step_byte c d name names h)
    ∙ scan-print p rest d (name ++ c ∷ []) names ok small
    ∙ ap (λ (t : Bytes). scan rest (state plain d t names)) (append_assoc name (c ∷ []) (print p))
scan-print (comma p) rest d name names ok small =
    ap (scan (print p ++ rest)) (step_comma d name names ok)
    ∙ scan-print p rest d (name ++ b',' ∷ []) names ok small
    ∙ ap (λ (t : Bytes). scan rest (state plain d t names))
        (append_assoc name (b',' ∷ []) (print p))
scan-print (literal ls p) rest d name names ok small =
    ap (λ (t : Bytes). scan t (state quoted d (name ++ b'"' ∷ []) names))
      (append_assoc (print_letters ls) (b'"' ∷ print p) rest)
    ∙ scan-print_letters ls (print p ++ rest) d (name ++ b'"' ∷ []) names
    ∙ scan-print p rest d ((name ++ b'"' ∷ []) ++ (print_letters ls ++ b'"' ∷ [])) names ok small
    ∙ ap (λ (t : Bytes). scan rest (state plain d t names))
        (append_assoc (name ++ b'"' ∷ []) (print_letters ls ++ b'"' ∷ []) (print p)
          ∙ append_assoc name (b'"' ∷ []) ((print_letters ls ++ b'"' ∷ []) ++ print p)
          ∙ ap (λ (t : Bytes). name ++ b'"' ∷ t)
              (append_assoc (print_letters ls) (b'"' ∷ []) (print p)))
scan-print (group q p) rest d name names ok small =
    let name' : Bytes = (name ++ b'(' ∷ []) ++ print q in
    ap (λ (t : Bytes). scan t (plain_step b'(' (state plain d name names)))
      (append_assoc (print q) (b')' ∷ print p) rest)
    ∙ ap (scan (print q ++ (b')' ∷ (print p ++ rest)))) (step_open d name names (omega arith))
    ∙ scan-print q (b')' ∷ (print p ++ rest)) (d + 1) (name ++ b'(' ∷ []) names (omega arith)
        (omega arith)
    ∙ ap (scan (print p ++ rest)) (step_close d name' names (omega arith))
    ∙ scan-print p rest d (name' ++ b')' ∷ []) names ok (omega arith)
    ∙ ap (λ (t : Bytes). scan rest (state plain d t names))
        (append_assoc name' (b')' ∷ []) (print p)
          ∙ append_assoc (name ++ b'(' ∷ []) (print q) (b')' ∷ print p)
          ∙ append_assoc name (b'(' ∷ []) (print q ++ b')' ∷ print p))

-- Arguments as they stand in a macro's call.
abbrev pub print_args : List (Pieces false) → Bytes
print_args [] = []
print_args (p ∷ []) = print p
print_args (p ∷ q ∷ ps) = print p ++ b',' ∷ b' ' ∷ print_args (q ∷ ps)

-- A text does not begin with a space.
abbrev pub Leads : Bytes → Type 0
Leads [] = Unit {0}
Leads (c ∷ cs) = is_space c ≡ false

abbrev pub AllOk : List (Pieces false) → Type 0
AllOk [] = Unit {0}
AllOk (p ∷ ps) = Leads (print p) × (height p < 2 ^ 32) × AllOk ps

abbrev finished : Scan → List Bytes
finished s = s.names ++ s.name ∷ []

enter :
    (xs : Bytes) (names : List Bytes)
    → Leads xs
    → finished (scan xs (state skipping 0 [] names)) ≡ finished (scan xs (state plain 0 [] names))
unfolding scan plain_step
enter [] names h = refl
enter (c ∷ cs) names h =
    ap (λ (t : Scan). finished (scan cs t))
      (if_false (state skipping 0 [] names) (plain_step c (state skipping 0 [] names)) h)

Leads-append : (xs ys : Bytes) → Leads xs → Leads ys → Leads (xs ++ ys)
Leads-append [] ys h g = g
Leads-append (x ∷ xs) ys h g = h

scan-print_args :
    (p : Pieces false) (ps : List (Pieces false)) (names : List Bytes)
    → AllOk (p ∷ ps)
    → finished (scan (print_args (p ∷ ps)) (state skipping 0 [] names))
      ≡ names ++ map print (p ∷ ps)
unfolding scan plain_step
scan-print_args p [] names (leads, small, ok) =
    enter (print p) names leads
    ∙ ap (λ (t : Bytes). finished (scan t (state plain 0 [] names))) (sym (append-nil (print p)))
    ∙ ap finished (scan-print p [] 0 [] names tt (omega arith))
scan-print_args p (q ∷ ps) names (leads, small, ok) =
    let rest : Bytes = b',' ∷ b' ' ∷ print_args (q ∷ ps) in
    enter (print p ++ rest) names (Leads-append (print p) rest leads refl)
    ∙ ap finished (scan-print p rest 0 [] names tt (omega arith))
    ∙ scan-print_args q ps (names ++ print p ∷ []) ok
    ∙ append_assoc names (print p ∷ []) (map print (q ∷ ps))

-- The arguments of a macro, as they may be written with string literals and parentheses in them and
-- with `, ` between them, are told apart again, where none begins with a space and the parentheses
-- are nested less than 2^32 deep.
pub split_args-print_args :
    (p : Pieces false) (ps : List (Pieces false))
    → AllOk (p ∷ ps)
    → split_args (print_args (p ∷ ps)) ≡ map print (p ∷ ps)
unfolding split_args
split_args-print_args p ps ok = scan-print_args p ps [] ok
