-- ===== src/Exceptions/Logging.antt =====
-- Messages that are logged within contexts (debug.cpp).
use kj.Base.{
  ℕ, zero, suc, ◌+◌, ◌≡◌, refl, sym, subst, ap, ap₂, ◌∙◌, inl, inr, Bool, true, false, ◌&&◌,
  Bool-cases, List, [], ◌∷◌, ◌++◌, length, if◌then◌else◌, if_true, if_false, arith,
}
use kj.Exceptions.{DebugContext, ensure_initialized, Message, context_message, deeper, log_message}
use kj.Exceptions.Wrapping.{value_of, outermost_first, Lazily, ensure_initialized_lem}

abbrev pub all_logged : List DebugContext → Bool
all_logged [] = true
all_logged (c ∷ cs) = c.logged && all_logged cs

-- Where a context was logged, those around it were.
abbrev pub Nested : List DebugContext → Type 0
Nested [] = Unit
Nested (c ∷ cs) = (c.logged ≡ true → all_logged cs ≡ true) × Nested cs

abbrev pub indented : ℕ → Message → Message
indented n m = record m { depth = m.depth + n }

-- The lines of the contexts that were not logged, the outermost first, each indented by the number
-- of contexts around it.
abbrev pub context_lines : List DebugContext → List Message
context_lines [] = []
context_lines (c ∷ cs) =
    if c.logged
    then []
    else context_lines cs ++ indented (length cs) (context_message (value_of c)) ∷ []

-- How logging a message ends.
abbrev pub Logs : List DebugContext → Message → List DebugContext × List Message → Type 0
Logs cs m r =
    (r.1 ≡ context_lines cs ++ indented (length cs) m ∷ [])
    × (all_logged r.0 ≡ true)
    × (outermost_first r.0 ≡ outermost_first cs)
    × Lazily r.0
    × (length r.0 ≡ length cs)

both_true : (a b : Bool) → (a && b) ≡ true → (a ≡ true) × (b ≡ true)
both_true true true e = (refl, refl)
both_true true false e = (refl, e)
both_true false b e = cc

context_lines-all_logged : (cs : List DebugContext) → all_logged cs ≡ true → context_lines cs ≡ []
context_lines-all_logged [] e = refl
context_lines-all_logged (c ∷ cs) e =
    if_true [] (context_lines cs ++ indented (length cs) (context_message (value_of c)) ∷ [])
      (both_true c.logged (all_logged cs) e).0

module _ (n : ℕ) (c : DebugContext) (cs : List DebugContext) (m : Message) where
  log_message_logged :
      c.logged ≡ true
      → log_message (suc n) (c ∷ cs) m
        ≡ (c ∷ (log_message n cs (deeper m)).0, (log_message n cs (deeper m)).1)
  unfolding log_message
  log_message_logged e = simp e refl

  log_message_unlogged :
      c.logged ≡ false
      → let first = log_message n cs (context_message (ensure_initialized c).0) in
        let second = log_message n first.0 (deeper m) in
        log_message (suc n) (c ∷ cs) m
        ≡ (record (ensure_initialized c).1 { logged = true } ∷ second.0, first.1 ++ second.1)
  unfolding log_message
  log_message_unlogged e = simp e refl

indented-deeper : (n : ℕ) (m : Message) → indented n (deeper m) ≡ indented (suc n) m
indented-deeper n m = ap (λ d. record m { depth = d }) (omega arith)

-- Where all contexts are logged, a message is indented once more by each.
log_message-all_logged :
    (n : ℕ) (cs : List DebugContext) (m : Message)
    → length cs ≡ n
    → all_logged cs ≡ true
    → log_message n cs m ≡ (cs, indented n m ∷ [])
unfolding log_message
log_message-all_logged zero [] m len e = ap (λ d. ([], record m { depth = d } ∷ [])) (omega arith)
log_message-all_logged zero (c ∷ cs) m len e = absurd (omega arith)
log_message-all_logged (suc n) [] m len e = absurd (omega arith)
log_message-all_logged (suc n) (c ∷ cs) m len e =
    let (here, rest) = both_true c.logged (all_logged cs) e in
    let below = log_message-all_logged n cs (deeper m) (omega arith) rest in
    log_message_logged n c cs m here
    ∙ (ap (λ r. (c ∷ r.0, r.1)) below ∙ ap (λ k. (c ∷ cs, k ∷ [])) (indented-deeper n m))

log_message-Logs :
    (n : ℕ) (cs : List DebugContext) (m : Message)
    → length cs ≡ n
    → Nested cs
    → Lazily cs
    → Logs cs m (log_message n cs m)
unfolding log_message
log_message-Logs zero [] m len nested lazy =
    (ap (λ d. record m { depth = d } ∷ []) (omega arith), refl, refl, tt, refl)
log_message-Logs zero (c ∷ cs) m len nested lazy = absurd (omega arith)
log_message-Logs (suc n) [] m len nested lazy = absurd (omega arith)
log_message-Logs (suc n) (c ∷ cs) m len (inside, nested) (lazy, rest) = elim (Bool-cases c.logged) [
  | inl e ↦
      let all = ap (λ b. b && all_logged cs) e ∙ inside e in
      subst (Logs (c ∷ cs) m) (sym (log_message-all_logged (suc n) (c ∷ cs) m len all)) (
        ap₂ (λ before (k : ℕ). before ++ indented k m ∷ [])
            (sym (context_lines-all_logged (c ∷ cs) all)) (sym len),
        all,
        refl,
        (lazy, rest),
        refl,
      )
  | inr e ↦
      let (says, keeps, _, lazy') = ensure_initialized_lem c lazy in
      let above = context_message (ensure_initialized c).0 in
      let (lines, logged, values, lazy_above, same) =
        log_message-Logs n cs above (omega arith) nested rest in
      let cs' = (log_message n cs above).0 in
      let second = log_message-all_logged n cs' (deeper m) (omega arith) logged in
      subst (Logs (c ∷ cs) m) (sym (log_message_unlogged n c cs m e)) (
        ap₂ (λ xs ys. xs ++ ys)
            (lines
              ∙ (ap (λ v. context_lines cs ++ indented (length cs) (context_message v) ∷ []) says
                  ∙ sym (if_false [] _ e)))
            (ap (λ r. r.1) second
              ∙ ap (λ k. k ∷ []) (indented-deeper n m ∙ ap (λ k. indented k m) (sym len))),
        ap all_logged (ap (λ r. r.0) second) ∙ logged,
        ap₂ (λ vs v. vs ++ v ∷ []) (ap (λ r. outermost_first r.0) second ∙ values) keeps,
        (lazy', subst (λ r. Lazily r.0) (sym second) lazy_above),
        ap (λ k. suc k) (ap (λ r. length r.0) second ∙ same),
      )
]

-- A message that is logged within contexts, where those around a logged one were logged too, reaches
-- the root behind the lines of the contexts that were not, the outermost first, each indented by the
-- number of contexts around it, and the message by the number of all. A next message comes without
-- such lines. The contexts keep what they say, and no functor has been called twice.
pub log_message-context_lines :
    (cs : List DebugContext) (m m' : Message)
    → Nested cs
    → Lazily cs
    → (cs' : List DebugContext) × (log_message (length cs) cs m
        ≡ (cs', context_lines cs ++ indented (length cs) m ∷ []))
      × (outermost_first cs' ≡ outermost_first cs)
      × Lazily cs'
      × (log_message (length cs') cs' m' ≡ (cs', indented (length cs) m' ∷ []))
log_message-context_lines cs m m' nested lazy =
    let (lines, logged, values, lazy', same) = log_message-Logs (length cs) cs m refl nested lazy in
    let cs' = (log_message (length cs) cs m).0 in
    (
      cs',
      ap (λ out. (cs', out)) lines,
      values,
      lazy',
      log_message-all_logged (length cs') cs' m' refl logged
          ∙ ap (λ k. (cs', indented k m' ∷ [])) same,
    )
