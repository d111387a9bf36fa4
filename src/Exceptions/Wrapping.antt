-- ===== src/Exceptions/Wrapping.antt =====
-- What a fault becomes on its way through the contexts (exception.cpp, debug.cpp).
use kj.Base.{
  ◌≡◌, refl, sym, ap, ap₂, ◌∙◌, ◌⊎◌, inl, inr, false, Option, none, some, List, [], ◌∷◌, ◌++◌,
  append_assoc, append-nil, arith,
}
use kj.Text.{Bytes}
use kj.Exceptions.{
  Nature, permanent, Line, ContextValue, FilePointer, literal, into_own, Exception, c_str, get_file,
  make_exception, copy_context, copy_exception, move_exception, wrap_context, DebugContext,
  ensure_initialized, on_exception, throws, throw_recoverable, raise_fault,
}

-- What a context says, whether its functor was called already or not.
abbrev pub value_or {ℓ} : {A : Type ℓ} → A → Option A → A
value_or a none = a
value_or a (some v) = v

abbrev pub value_of : DebugContext → ContextValue
value_of c = value_or (c.evaluate c.evaluations) c.value

abbrev pub outermost_first : List DebugContext → List ContextValue
outermost_first [] = []
outermost_first (c ∷ cs) = outermost_first cs ++ value_of c ∷ []

-- The functor of a context has been called once if there is its value, and else never.
abbrev pub IsLazy : DebugContext → Type 0
IsLazy c =
    ((c.value ≡ none) × (c.evaluations ≡ 0)) ⊎ ((c.value ≡ some (value_of c)) × (c.evaluations ≡ 1))

abbrev pub Lazily : List DebugContext → Type 0
Lazily [] = Unit
Lazily (c ∷ cs) = IsLazy c × Lazily cs

ensure_initialized_cases :
    (c : DebugContext) (o : Option ContextValue)
    → c.value ≡ o
    → IsLazy c
    → ((ensure_initialized c).0 ≡ value_of c)
      × (value_of (ensure_initialized c).1 ≡ value_of c)
      × ((ensure_initialized c).1.logged ≡ c.logged)
      × IsLazy (ensure_initialized c).1
unfolding ensure_initialized
ensure_initialized_cases c none e (inl (nothing, never)) =
    rw e (refl, refl, refl, inr (refl, omega arith))
ensure_initialized_cases c none e (inr (there, once)) = cc
ensure_initialized_cases c (some v) e (inl (nothing, never)) = cc
ensure_initialized_cases c (some v) e (inr (there, once)) =
    rw e (refl, refl, refl, inr (refl, once))

pub ensure_initialized_lem :
    (c : DebugContext)
    → IsLazy c
    → ((ensure_initialized c).0 ≡ value_of c)
      × (value_of (ensure_initialized c).1 ≡ value_of c)
      × ((ensure_initialized c).1.logged ≡ c.logged)
      × IsLazy (ensure_initialized c).1
ensure_initialized_lem c lazy = ensure_initialized_cases c c.value refl lazy

-- An exception that reaches the root carries what the contexts say, the outermost first, and is not
-- changed else. The contexts keep what they say, and no functor has been called twice.
pub on_exception-outermost_first :
    (cs : List DebugContext) (e : Exception)
    → Lazily cs
    → ((on_exception cs e).1 ≡ record e { context = outermost_first cs ++ e.context })
      × (outermost_first (on_exception cs e).0 ≡ outermost_first cs)
      × Lazily (on_exception cs e).0
unfolding on_exception wrap_context
on_exception-outermost_first [] e lazy = (refl, refl, tt)
on_exception-outermost_first (c ∷ cs) e (lazy, rest) =
    let (says, keeps, _, lazy') = ensure_initialized_lem c lazy in
    let (gets, all_keep, rest') =
      on_exception-outermost_first cs (wrap_context (ensure_initialized c).0 e) rest in
    (
      gets
          ∙ (ap (λ v. record e { context = outermost_first cs ++ v ∷ e.context }) says
              ∙ ap (λ vs. record e { context = vs })
                  (sym (append_assoc (outermost_first cs) (value_of c ∷ []) e.context))),
      ap₂ (λ vs v. vs ++ v ∷ []) all_keep keeps,
      (lazy', rest'),
    )

-- Outside of an unwinding stack, a fault ends in an exception with the fault's line, nature and
-- description, and with what the contexts say, the outermost first. Its file is empty, whatever
-- the file of the fault. The contexts keep what they say, and no functor has been called twice.
pub raise_fault-outermost_first :
    (cs : List DebugContext) (file : Bytes) (line : Line) (nature : Nature) (description : Bytes)
    → Lazily cs
    → (cs' : List DebugContext) × (e : Exception) × (raise_fault false cs file line nature
          description
        ≡ some (cs', throws e))
      × (e.context ≡ outermost_first cs)
      × (e.line ≡ line)
      × (e.nature ≡ nature)
      × (e.description ≡ description)
      × (get_file e ≡ [])
      × (outermost_first cs' ≡ outermost_first cs)
      × Lazily cs'
unfolding raise_fault throw_recoverable make_exception move_exception get_file c_str
raise_fault-outermost_first cs file line nature description lazy =
    let raised = move_exception (make_exception nature permanent file line description) in
    let (gets, keeps, lazy') = on_exception-outermost_first cs raised lazy in
    (
      (on_exception cs raised).0,
      move_exception (on_exception cs raised).1,
      refl,
      ap (λ (e : Exception). e.context) gets ∙ append-nil (outermost_first cs),
      ap (λ (e : Exception). e.line) gets,
      ap (λ (e : Exception). e.nature) gets,
      ap (λ (e : Exception). e.description) gets,
      ap (λ (e : Exception). c_str e.own_file) gets,
      keeps,
      lazy',
    )

copy_context_lem : (cs : List ContextValue) → copy_context cs ≡ cs
unfolding copy_context
copy_context_lem [] = refl
copy_context_lem (c ∷ cs) = ap (λ rest. c ∷ rest) (copy_context_lem cs)

copy_file_lem :
    (e : Exception) (p : FilePointer)
    → e.file ≡ p
    → (get_file (copy_exception e) ≡ get_file e)
      × ((copy_exception e).description ≡ e.description)
      × ((copy_exception e).context ≡ e.context)
unfolding copy_exception get_file c_str
copy_file_lem e (literal text) at = rw at (refl, refl, copy_context_lem e.context)
copy_file_lem e into_own at = rw at (refl, refl, copy_context_lem e.context)

-- A copy of an exception has its file, its description and its contexts. Moving an exception keeps
-- the file where it is the exception's own text, and leaves the empty text else.
pub get_file-copy_exception :
    (e : Exception)
    → (get_file (copy_exception e) ≡ get_file e)
      × ((copy_exception e).description ≡ e.description)
      × ((copy_exception e).context ≡ e.context)
      × (e.file ≡ into_own → get_file (move_exception e) ≡ get_file e)
      × ((text : Bytes)
          → e.file ≡ literal text
          → e.own_file ≡ none
          → get_file (move_exception e) ≡ [])
unfolding move_exception get_file c_str
get_file-copy_exception e =
    let (file, description, context) = copy_file_lem e e.file refl in
    (file, description, context, λ own. rw own refl, λ text at nothing. rw nothing refl)
