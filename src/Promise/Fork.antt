-- ===== src/Promise/Fork.antt =====
-- `ForkHubBase` and `ForkBranchBase` (async-inl.h, async.cpp): the branches of a fork in the linked
-- list of its hub, by pointers.
pub mod Branches
pub mod Hub
pub mod Telling
mod Examples
use kj.Base.{ℕ, zero, suc, Bool, true, false, Option, none, some, List, [], ◌∷◌, ◌++◌, ◌>>=◌}
use kj.EventLoop.{Slot, head, next_of, update}
use kj.Promise.{Ready, nobody, Arming, init, arm}

-- The hub with its branches by number: `head` is `headBranch`, a slot is what a `ForkBranchBase**`
-- points to.
pub record ForkHub : Type 0 where
  pub head_branch : Option ℕ
  pub tail_branch : Option Slot
  pub next : ℕ → Option ℕ
  pub prev_ptr : ℕ → Option Slot
  pub ready : ℕ → Ready

abbrev pub fork_hub : ForkHub
fork_hub = record {
  head_branch = none;
  tail_branch = some head;
  next = λ _. none;
  prev_ptr = λ _. none;
  ready = λ _. nobody;
}

-- `*slot = value`
abbrev pub put_branch : Slot → Option ℕ → ForkHub → ForkHub
put_branch head v h = record h { head_branch = v }
put_branch (next_of b) v h = record h { next = update h.next b v }

-- `ForkBranchBase::hubReady`
unfoldable pub hub_ready : ℕ → ForkHub → Option (ForkHub × List Arming)
unfolding arm
hub_ready b h = elim (arm (h.ready b)) [
  | none ↦ none
  | some (r, armed) ↦ some (record h { ready = update h.ready b r }, armed)
]

abbrev pub insert_branch : Option Slot → ℕ → ForkHub → Option (ForkHub × List Arming)
insert_branch none b h = hub_ready b h
insert_branch (some slot) b h =
    let linked =
      put_branch slot (some b) (record h { prev_ptr = update h.prev_ptr b (some slot) }) in
    some (record linked { next = update linked.next b none; tail_branch = some (next_of b) }, [])

-- The constructor of a branch.
unfoldable pub add_branch : ℕ → ForkHub → Option (ForkHub × List Arming)
unfolding hub_ready
add_branch b h = insert_branch h.tail_branch b (record h {
  next = update h.next b none;
  prev_ptr = update h.prev_ptr b none;
  ready = update h.ready b nobody;
})

abbrev pub set_prev_ptr : Option ℕ → Slot → ForkHub → ForkHub
set_prev_ptr none slot h = record h { tail_branch = some slot }
set_prev_ptr (some n) slot h = record h { prev_ptr = update h.prev_ptr n (some slot) }

abbrev pub remove_branch : Option Slot → ℕ → ForkHub → ForkHub
remove_branch none b h = h
remove_branch (some slot) b h = set_prev_ptr (h.next b) slot (put_branch slot (h.next b) h)

-- `~ForkBranchBase`
unfoldable pub destroy_branch : ℕ → ForkHub → ForkHub
destroy_branch b h = remove_branch (h.prev_ptr b) b h

-- `ForkBranchBase::onReady`
unfoldable pub branch_on_ready : ℕ → ℕ → ForkHub → ForkHub × List Arming
unfolding init
branch_on_ready b e h =
    let (r, armed) = init e (h.ready b) in (record h { ready = update h.ready b r }, armed)

abbrev pub release : Option Slot → ℕ → ForkHub → Option ForkHub
release none b h = none
release (some slot) b h =
    let cleared = put_branch slot none h in
    some (record cleared { prev_ptr = update cleared.prev_ptr b none })

-- The loop of `ForkHubBase::fire`; the fuel is the number of branches, and `none` a null pointer.
unfoldable pub fire_loop : ℕ → Option ℕ → ForkHub → Option (ForkHub × List Arming)
unfolding hub_ready
fire_loop fuel none h = some (h, [])
fire_loop zero (some b) h = none
fire_loop (suc fuel) (some b) h = do
  (h₁, armed) ← hub_ready b h
  h₂ ← release (h₁.prev_ptr b) b h₁
  (h₃, rest) ← fire_loop fuel (h₂.next b) h₂
  some (h₃, armed ++ rest)

-- `*tailBranch = nullptr; tailBranch = nullptr;`
abbrev pub close_list : Option Slot → ForkHub → Option ForkHub
close_list none h = none
close_list (some slot) h = some (record (put_branch slot none h) { tail_branch = none })

-- `ForkHubBase::fire` but for the result that it takes from the inner node.
unfoldable pub fire_hub : ℕ → ForkHub → Option (ForkHub × List Arming)
unfolding fire_loop
fire_hub fuel h = do
  (h', armed) ← fire_loop fuel h.head_branch h
  h'' ← close_list h'.tail_branch h'
  some (h'', armed)
