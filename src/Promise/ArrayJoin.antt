-- ===== src/Promise/ArrayJoin.antt =====
-- `ArrayJoinPromiseNode` (async-inl.h, async.cpp): a promise for the results of an array of promises.
use kj.Base.{ℕ, ◌+◌, ◌-◌, ◌%◌, ◌^◌, Option, none, some, List, [], ◌∷◌, ◌==◌, if◌then◌else◌}
use kj.Promise.{ExceptionOr, empty_result, add_exception, Ready, nobody, already, Arming, init, arm}

pub record JoinNode : Type 0 where
  pub count_left : ℕ
  pub ready : Ready

pub data JoinCall : Type 0 where
  branch_fires : JoinCall
  on_ready : ℕ → JoinCall

-- The constructor, for as many promises. The count is a `uint`.
unfoldable pub make_join : ℕ → JoinNode
make_join n = record { count_left = n % 2 ^ 32; ready = if n == 0 then already else nobody }

-- `onReadyEvent.arm()` of the node
unfoldable pub arm_join : JoinNode → Option (JoinNode × List Arming)
unfolding arm
arm_join n = elim (arm n.ready) [
  | none ↦ none
  | some (ready, armed) ↦ some (record n { ready = ready }, armed)
]

unfoldable pub join_call : JoinCall → JoinNode → Option (JoinNode × List Arming)
unfolding init
join_call branch_fires n =
    let left : ℕ = (n.count_left + 2 ^ 32 - 1) % 2 ^ 32 in
    let fired : JoinNode = record n { count_left = left } in
    if left == 0 then arm_join fired else some (fired, [])
join_call (on_ready e) n =
    let (ready, armed) = init e n.ready in some (record n { ready = ready }, armed)

module _ {E T : Type 0} where
  -- The exceptions of the branches, in their order, are added to the output.
  unfoldable pub gather : List (ExceptionOr E T) → ExceptionOr E (List T) → ExceptionOr E (List T)
  unfolding add_exception
  gather [] output = output
  gather (part ∷ parts) output = elim part.exception [
    | none ↦ gather parts output
    | some e ↦ gather parts (add_exception e output)
  ]

  -- `getNoError`; `none` where a part has no value.
  unfoldable pub values_of : List (ExceptionOr E T) → Option (List T)
  values_of [] = some []
  values_of (part ∷ parts) =
      let rest = values_of parts in
      elim part.value [ none ↦ none | some v ↦ elim rest [ none ↦ none | some vs ↦ some (v ∷ vs) ] ]

  -- `ArrayJoinPromiseNodeBase::get`, on the results of the branches.
  unfoldable pub join_get : List (ExceptionOr E T) → Option (ExceptionOr E (List T))
  unfolding gather values_of
  join_get parts =
      let output = gather parts empty_result in
      elim output.exception [
        | some e ↦ some output
        | none ↦ elim (values_of parts) [
          | none ↦ none
          | some vs ↦ some (record { exception = none; value = some vs })
        ]
      ]
