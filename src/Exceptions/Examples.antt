-- ===== src/Exceptions/Examples.antt =====
-- A fault and messages within two contexts (exception.cpp, debug.cpp).
use kj.Base.{ℕ, ◌≡◌, refl, inl, true, false, none, some, List, [], ◌∷◌, ◌++◌, length}
use kj.Text.{Bytes}
use kj.Text.Filling.{put, heap_string, finish}
use kj.Text.Search.{codes}
use kj.Exceptions.{
  local_bug, permanent, Line, Exception, get_file, c_str, make_owning, DebugContext, Message,
  log_message, raise_fault, throws, root_log, stringify_exception,
}
use kj.Exceptions.Wrapping.{outermost_first, Lazily, raise_fault-outermost_first}
use kj.Exceptions.Logging.{context_lines, indented, log_message-context_lines}

abbrev line : ℕ → Line
line n = record { negative = false; number = n }

abbrev says : Bytes → ℕ → DebugContext
says text n = record {
  evaluate = λ _. record { file = codes "a.c++"; line = line n; description = text };
  evaluations = 0;
  value = none;
  logged = false;
}

abbrev contexts : List DebugContext
contexts = says (codes "inner") 7 ∷ says (codes "outer") 3 ∷ []

contexts-Lazily : Lazily contexts
contexts-Lazily = (inl (refl, refl), (inl (refl, refl), tt))

abbrev message : Message
message = record { file = codes "b.c++"; line = line 12; depth = 0; text = codes "hi\\n" }

abbrev owning : Exception
owning = make_owning local_bug permanent (codes "b.c++") (line 12) (codes "broken")

not_logged : {A : Type 0} → false ≡ true → A
not_logged e = cc

printed : root_log (indented 2 message) ≡ some (codes "__b.c++:12: hi\\n")
unfolding root_log put heap_string finish
printed = refl

owning_text : stringify_exception owning ≡ some (codes "b.c++:12: bug in code: broken")
unfolding stringify_exception make_owning put heap_string finish c_str
owning_text = refl

raise_fault-outermost_first_example :
    (cs : List DebugContext) × (e : Exception) × (raise_fault false contexts
        (codes "b.c++")
        (line 12)
        local_bug
        (codes "broken")
      ≡ some (cs, throws e))
    × (e.context ≡ outermost_first contexts)
    × (e.line ≡ line 12)
    × (e.nature ≡ local_bug)
    × (e.description ≡ codes "broken")
    × (get_file e ≡ [])
    × (outermost_first cs ≡ outermost_first contexts)
    × Lazily cs
raise_fault-outermost_first_example =
    raise_fault-outermost_first contexts (codes "b.c++") (line 12) local_bug (codes "broken")
      contexts-Lazily

log_message-context_lines_example :
    (cs : List DebugContext) × (log_message 2 contexts message
      ≡ (cs, context_lines contexts ++ indented 2 message ∷ []))
    × (outermost_first cs ≡ outermost_first contexts)
    × Lazily cs
    × (log_message (length cs) cs message ≡ (cs, indented 2 message ∷ []))
log_message-context_lines_example =
    log_message-context_lines contexts message message (λ e. not_logged e, (λ e. not_logged e, tt))
      contexts-Lazily
