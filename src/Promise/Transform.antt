-- ===== src/Promise/Transform.antt =====
-- `TransformPromiseNode` (async-inl.h, async.cpp): `then`, with what its functions return or throw.
use kj.Base.{◌≡◌, refl, ap, ◌∙◌, Option, none, some}
use kj.Promise.{ExceptionOr, empty_result, value_of, broken, add_exception}

-- How a call ends.
pub data Call (E A : Type 0) : Type 0 where
  returned : A → Call E A
  threw : E → Call E A

-- What an error handler returns: a result, or `PropagateException::Bottom`.
pub data Handled (E T : Type 0) : Type 0 where
  result : T → Handled E T
  bottom : E → Handled E T

abbrev pub propagate : {E T : Type 0} → E → Call E (Handled E T)
propagate e = returned (bottom e)

module _ {E T : Type 0} where
  -- Both overloads of `handle`
  abbrev pub handle : Handled E T → ExceptionOr E T
  handle (result v) = value_of v
  handle (bottom e) = broken e

  -- `runCatchingExceptions`, with `addException` on the output for what it catches: the exception
  -- that leaves the call has left the output as it was.
  unfoldable pub caught : ExceptionOr E T → Call E (ExceptionOr E T) → ExceptionOr E T
  unfolding add_exception
  caught output (returned r) = r
  caught output (threw e) = add_exception e output

  -- The assignments `output.as<T>() = handle(...)`, where the call in them returns.
  abbrev pub assigned : Call E T → Call E (ExceptionOr E T)
  assigned (returned v) = returned (value_of v)
  assigned (threw e) = threw e

  abbrev pub assigned_handled : Call E (Handled E T) → Call E (ExceptionOr E T)
  assigned_handled (returned v) = returned (handle v)
  assigned_handled (threw e) = threw e

-- `getDepResult`: the call of the dependency's `get`, and the exception of its destructor.
unfoldable pub get_dep_result :
    {E D : Type 0} → Call E (ExceptionOr E D) → Option E → Call E (ExceptionOr E D)
unfolding add_exception
get_dep_result (threw e) dropped = threw e
get_dep_result (returned r) none = returned r
get_dep_result (returned r) (some e) = returned (add_exception e r)

module _ {E D T : Type 0} (func : D → Call E T) (error_handler : E → Call E (Handled E T)) where
  -- `getImpl` behind the call of `getDepResult`
  abbrev pub transform : ExceptionOr E T → Option E → Option D → Call E (ExceptionOr E T)
  transform output (some e) value = assigned_handled (error_handler e)
  transform output none (some v) = assigned (func v)
  transform output none none = returned output

  unfoldable pub get_impl :
      Call E (ExceptionOr E D) → Option E → ExceptionOr E T → Call E (ExceptionOr E T)
  unfolding get_dep_result
  get_impl dependency dropped output = elim (get_dep_result dependency dropped) [
    | threw e ↦ threw e
    | returned r ↦ transform output r.exception r.value
  ]

  -- `get`: after `getImpl` there is no dependency left to drop.
  unfoldable pub transform_get :
      Call E (ExceptionOr E D) → Option E → ExceptionOr E T → ExceptionOr E T
  unfolding get_impl caught
  transform_get dependency dropped output = caught output (get_impl dependency dropped output)

-- How `wait` ends with the result of a node: `none` where this has neither a value nor an exception,
-- which the code takes for unreachable.
unfoldable pub wait_end : {E T : Type 0} → Option T → Option E → Option (Call E T)
wait_end (some v) none = some (returned v)
wait_end (some v) (some e) = some (threw e)
wait_end none (some e) = some (threw e)
wait_end none none = none

-- The same on the destruction of the node, which may throw.
abbrev pub with_destructor : {E T : Type 0} → Option E → Option (Call E T) → Option (Call E T)
with_destructor none end = end
with_destructor (some e) none = some (threw e)
with_destructor (some e) (some (returned v)) = some (threw e)
with_destructor (some e) (some (threw first)) = some (threw first)

abbrev pub raised : {E T : Type 0} → Call E (Handled E T) → Call E T
raised (returned (result v)) = returned v
raised (returned (bottom e)) = threw e
raised (threw e) = threw e

-- The function is called on what was returned, and the error handler on what was thrown.
abbrev pub continue :
    {E D T : Type 0}
    → (D → Call E T)
    → (E → Call E (Handled E T))
    → Option (Call E D)
    → Option (Call E T)
continue f h none = none
continue f h (some (returned v)) = some (f v)
continue f h (some (threw e)) = some (raised (h e))

module _ {E D T : Type 0} (f : D → Call E T) (h : E → Call E (Handled E T)) where
  -- How a `wait` ends for this node.
  abbrev ends : Call E (ExceptionOr E T) → Option (Call E T)
  ends c = wait_end (caught empty_result c).value (caught empty_result c).exception

  ends-assigned : (c : Call E T) → ends (assigned c) ≡ some c
  unfolding caught wait_end
  ends-assigned (returned v) = refl
  ends-assigned (threw e) = refl

  ends-assigned_handled : (c : Call E (Handled E T)) → ends (assigned_handled c) ≡ some (raised c)
  unfolding caught wait_end
  ends-assigned_handled (returned (result v)) = refl
  ends-assigned_handled (returned (bottom e)) = refl
  ends-assigned_handled (threw e) = refl

  ends-transform :
      (exception : Option E) (value : Option D)
      → ends (transform f h empty_result exception value) ≡ continue f h (wait_end value exception)
  unfolding caught wait_end
  ends-transform (some e) (some v) = ends-assigned_handled (h e)
  ends-transform (some e) none = ends-assigned_handled (h e)
  ends-transform none (some v) = ends-assigned (f v)
  ends-transform none none = refl

  wait_end-dropped :
      (e : E) (exception : Option E) (value : Option D)
      → let r : ExceptionOr E D = record { exception = exception; value = value } in
        wait_end (add_exception e r).value (add_exception e r).exception
        ≡ with_destructor (some e) (wait_end value exception)
  unfolding wait_end add_exception
  wait_end-dropped e none none = refl
  wait_end-dropped e none (some v) = refl
  wait_end-dropped e (some first) none = refl
  wait_end-dropped e (some first) (some v) = refl

  -- To wait for a node of `then`, whose dependency's `get` does not throw, is to go on from the end of
  -- a `wait` for the dependency: with the function where that returns, and with the error handler
  -- where it throws, which is also where the dependency's destructor throws and nothing did before.
  pub wait_end-transform_get :
      (r : ExceptionOr E D) (dropped : Option E)
      → let r' = transform_get f h (returned r) dropped empty_result in
        wait_end r'.value r'.exception
        ≡ continue f h (with_destructor dropped (wait_end r.value r.exception))
  unfolding transform_get
  wait_end-transform_get r none = ends-transform r.exception r.value
  wait_end-transform_get r (some e) =
      ends-transform (add_exception e r).exception (add_exception e r).value
      ∙ ap (continue f h) (wait_end-dropped e r.exception r.value)
