-- ===== src/Exceptions.antt =====
-- `Exception`, the stack of exception callbacks, and the faults and contexts of debug.h (exception.h,
-- exception.cpp, debug.h, debug.cpp), as built without stack traces.
pub mod Wrapping
pub mod Logging
mod Examples
use kj.Base.{
  ℕ, zero, suc, ◌+◌, Bool, true, false, Option, none, some, List, [], ◌∷◌, ◌++◌, length, replicate,
  if◌then◌else◌, ◌>>=◌,
}
use kj.Text.{Bytes, concat, str_array}
use kj.Text.Search.{codes}
use kj.Text.Numbers.{stringify}

pub data Nature : Type 0 where
  precondition local_bug os_error network_failure other : Nature

pub data Durability : Type 0 where
  permanent temporary overloaded : Durability

-- An `int` by its sign and its size.
pub record Line : Type 0 where
  pub negative : Bool
  pub number : ℕ

-- A place and what was going on there: `Exception::Context` without its `next`, and
-- `Debug::Context::Value`.
pub record ContextValue : Type 0 where
  pub file : Bytes
  pub line : Line
  pub description : Bytes

-- What the pointer `file` points to: a text that is not the exception's, or its `ownFile`.
pub data FilePointer : Type 0 where
  literal : Bytes → FilePointer
  into_own : FilePointer

-- The contexts are in the order of the chain; `own_file` is null or a string.
pub record Exception : Type 0 where
  pub own_file : Option Bytes
  pub file : FilePointer
  pub line : Line
  pub nature : Nature
  pub durability : Durability
  pub description : Bytes
  pub context : List ContextValue

-- `String::cStr`
unfoldable pub c_str : Option Bytes → Bytes
c_str none = []
c_str (some text) = text

abbrev pub pointed : FilePointer → Option Bytes → Bytes
pointed (literal text) own = text
pointed into_own own = c_str own

unfoldable pub get_file : Exception → Bytes
get_file e = pointed e.file e.own_file

-- The constructors with a `const char*` and with a `String`.
unfoldable pub make_exception : Nature → Durability → Bytes → Line → Bytes → Exception
make_exception nature durability file line description = record {
  own_file = none;
  file = literal file;
  line = line;
  nature = nature;
  durability = durability;
  description = description;
  context = [];
}

unfoldable pub make_owning : Nature → Durability → Bytes → Line → Bytes → Exception
make_owning nature durability file line description = record {
  own_file = some file;
  file = into_own;
  line = line;
  nature = nature;
  durability = durability;
  description = description;
  context = [];
}

-- `Exception(const Exception&)`; the context is copied by `Context(const Context&)`, node by node.
unfoldable pub copy_context : List ContextValue → List ContextValue
copy_context [] = []
copy_context (c ∷ cs) =
    record { file = c.file; line = c.line; description = c.description } ∷ copy_context cs

abbrev pub copy_file : Exception → FilePointer → Exception
copy_file e (literal text) = record e { own_file = none }
copy_file e into_own = record e { own_file = some (c_str e.own_file); file = into_own }

unfoldable pub copy_exception : Exception → Exception
unfolding copy_context
copy_exception e = record (copy_file e e.file) { context = copy_context e.context }

-- `Exception(Exception&&)`
unfoldable pub move_exception : Exception → Exception
move_exception e = record e { file = into_own }

unfoldable pub wrap_context : ContextValue → Exception → Exception
wrap_context v e = record e { context = v ∷ e.context }

-- A `Debug::Context` with what its functor gives at each call, and how often it was called.
pub record DebugContext : Type 0 where
  pub evaluate : ℕ → ContextValue
  pub evaluations : ℕ
  pub value : Option ContextValue
  pub logged : Bool

unfoldable pub ensure_initialized : DebugContext → ContextValue × DebugContext
ensure_initialized c = elim c.value [
  | some v ↦ (v, c)
  | none ↦
      let v = c.evaluate c.evaluations in
      (v, record c { evaluations = c.evaluations + 1; value = some v })
]

-- `Debug::Context::onRecoverableException` and `onFatalException`, from the innermost callback to the
-- root: the contexts as they are left, and the exception that the root gets.
unfoldable pub on_exception : List DebugContext → Exception → List DebugContext × Exception
unfolding ensure_initialized wrap_context
on_exception [] e = ([], e)
on_exception (c ∷ cs) e =
    let (v, c') = ensure_initialized c in
    let (cs', e') = on_exception cs (wrap_context v e) in (c' ∷ cs', e')

-- A call of `logMessage`.
pub record Message : Type 0 where
  pub file : Bytes
  pub line : Line
  pub depth : ℕ
  pub text : Bytes

abbrev pub context_message : ContextValue → Message
context_message v = record {
  file = v.file;
  line = v.line;
  depth = 0;
  text = codes "context: " ++ (v.description ++ b'\n' ∷ []);
}

abbrev pub deeper : Message → Message
deeper m = record m { depth = m.depth + 1 }

-- `Debug::Context::logMessage` from the innermost callback on, with what reaches the root; the fuel is
-- the number of the contexts.
unfoldable pub log_message : ℕ → List DebugContext → Message → List DebugContext × List Message
unfolding ensure_initialized
log_message zero cs m = (cs, m ∷ [])
log_message (suc fuel) [] m = ([], m ∷ [])
log_message (suc fuel) (c ∷ cs) m = elim c.logged [
  | true ↦ let (cs', out) = log_message fuel cs (deeper m) in (c ∷ cs', out)
  | false ↦
      let (v, c') = ensure_initialized c in
      let (cs₁, first) = log_message fuel cs (context_message v) in
      let (cs₂, second) = log_message fuel cs₁ (deeper m) in
      (record c' { logged = true } ∷ cs₂, first ++ second)
]

-- `RootExceptionCallback::logMessage`: what it writes to the error stream.
unfoldable pub root_log : Message → Option Bytes
unfolding stringify concat
root_log m = do
  line ← stringify 4 m.line.negative m.line.number
  concat (replicate m.depth b'_' ∷ m.file ∷ codes ":" ∷ line ∷ codes ": " ∷ m.text ∷ [])

unfoldable pub nature_text : Nature → Bytes
nature_text precondition = codes "requirement not met"
nature_text local_bug = codes "bug in code"
nature_text os_error = codes "error from OS"
nature_text network_failure = codes "network failure"
nature_text other = codes "error"

abbrev pub temporary_text : Durability → Bytes
temporary_text temporary = codes " (temporary)"
temporary_text _ = []

abbrev pub colon_before : Bytes → Bytes
colon_before [] = []
colon_before (c ∷ cs) = codes ": "

-- The loop of the stringifier of exceptions that fills `contextText`.
unfoldable pub context_texts : List ContextValue → Option (List Bytes)
unfolding stringify concat
context_texts [] = some []
context_texts (c ∷ cs) = do
  line ← stringify 4 c.line.negative c.line.number
  text ← concat (c.file ∷ codes ":" ∷ line ∷ codes ": context: " ∷ c.description ∷ codes "\n" ∷ [])
  rest ← context_texts cs
  some (text ∷ rest)

-- `KJ_STRINGIFY(const Exception&)`
unfoldable pub stringify_exception : Exception → Option Bytes
unfolding stringify concat str_array get_file nature_text context_texts
stringify_exception e = do
  texts ← context_texts e.context
  contexts ← str_array texts []
  line ← stringify 4 e.line.negative e.line.number
  concat (
      contexts
      ∷ get_file e
      ∷ codes ":"
      ∷ line
      ∷ codes ": "
      ∷ nature_text e.nature
      ∷ temporary_text e.durability
      ∷ colon_before e.description
      ∷ e.description
      ∷ [])

-- `RootExceptionCallback::logException`: the message that it logs.
unfoldable pub log_exception : Exception → Option Message
unfolding concat nature_text get_file
log_exception e = do
  text ← concat (
      nature_text e.nature
      ∷ temporary_text e.durability
      ∷ colon_before e.description
      ∷ e.description
      ∷ codes "\n"
      ∷ [])
  some (record { file = get_file e; line = e.line; depth = 0; text = text })

-- How a call of `throwRecoverableException` ends: with an exception, or with messages, where the stack
-- is unwound already.
pub data Raised : Type 0 where
  throws : Exception → Raised
  logs : List Message → Raised

-- `throwRecoverableException`, with `std::uncaught_exception()`.
unfoldable pub throw_recoverable :
    Bool → List DebugContext → Exception → Option (List DebugContext × Raised)
unfolding on_exception move_exception log_exception log_message
throw_recoverable unwinding cs e =
    let (cs', e') = on_exception cs e in
    if unwinding
    then (log_exception e' >>= λ m.
        let (cs'', out) = log_message (length cs') cs' m in some (cs'', logs out))
    else some (cs', throws (move_exception e'))

-- `Debug::Fault::init` with the text of `makeDescription`, and `~Fault`.
unfoldable pub raise_fault :
    Bool → List DebugContext → Bytes → Line → Nature → Bytes → Option (List DebugContext × Raised)
unfolding throw_recoverable make_exception move_exception
raise_fault unwinding cs file line nature description =
    throw_recoverable unwinding cs
      (move_exception (make_exception nature permanent file line description))
