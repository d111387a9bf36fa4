-- ===== src/EventLoop.antt =====
-- async.h and async.cpp: the queue of an event loop, a doubly linked list through the events, with
-- the application's callbacks as a parameter. An event is known by its address.
pub mod Queue
pub mod Refine
pub mod Destroy
pub mod Order
pub mod Run
pub mod Waiting
pub mod Unlinking
pub mod Examples
pub mod Slots
pub mod Insert
pub mod Remove
use kj.Base.{
  ℕ, zero, suc, Bool, true, false, not, Option, none, some, List, [], ◌∷◌, ◌++◌, ◌&&◌, ◌||◌, ◌==◌,
  if◌then◌else◌,
}

-- `Event**`: what points to an event is the loop's `head` or another event's `next`.
pub data Slot : Type 0 where
  head : Slot
  next_of : ℕ → Slot

unfoldable pub same_slot : Slot → Slot → Bool
same_slot head head = true
same_slot head (next_of e) = false
same_slot (next_of e) head = false
same_slot (next_of d) (next_of e) = d == e

-- `first` is the loop's `head`, and `next`, `prev` and `firing` are the events' fields. `current` is
-- `threadLocalEventLoop`, `address` the loop's own address, and `notices` what the port has been
-- told by `setRunnable`, the last first.
pub record EventLoop : Type 0 where
  pub address : ℕ
  pub current : Option ℕ
  pub first : Option ℕ
  pub next : ℕ → Option ℕ
  pub prev : ℕ → Option Slot
  pub firing : ℕ → Bool
  pub tail : Slot
  pub insert_point : Slot
  pub running : Bool
  pub last_runnable : Bool
  pub notices : List Bool

abbrev pub update {ℓ} : {A : Type ℓ} → (ℕ → A) → ℕ → A → ℕ → A
update f k v j = if j == k then v else f j

abbrev pub is_some {ℓ} : {A : Type ℓ} → Option A → Bool
is_some none = false
is_some (some a) = true

-- `*slot`
abbrev pub read : EventLoop → Slot → Option ℕ
read l head = l.first
read l (next_of e) = l.next e

-- `*slot = value`
abbrev pub write : Slot → Option ℕ → EventLoop → EventLoop
write head v l = record l { first = v }
write (next_of e) v l = record l { next = update l.next e v }

-- `if (event != nullptr) event->prev = slot;`
abbrev pub set_prev : Option ℕ → Slot → EventLoop → EventLoop
set_prev none slot l = l
set_prev (some e) slot l = record l { prev = update l.prev e (some slot) }

pub data Failure : Type 0 where
  wrong_thread not_current already_current destroyed_itself events_left : Failure
  still_current already_running nothing_to_wait_for : Failure

pub data Outcome : Type 0 where
  done : EventLoop → Outcome
  failed : Failure → EventLoop → Outcome

-- The loop as it is left, also by a call that throws.
abbrev pub after : Outcome → EventLoop
after (done l) = l
after (failed f l) = l

unfoldable pub set_runnable : Bool → EventLoop → EventLoop
set_runnable runnable l =
    if (runnable && l.last_runnable) || (not runnable && not l.last_runnable)
    then l
    else record l { last_runnable = runnable; notices = runnable ∷ l.notices }

-- `threadLocalEventLoop == &loop || threadLocalEventLoop == nullptr`
abbrev pub is_own_or_null : Option ℕ → ℕ → Bool
is_own_or_null none address = true
is_own_or_null (some a) address = a == address

-- `&loop == threadLocalEventLoop`
abbrev pub is_current : Option ℕ → ℕ → Bool
is_current none address = false
is_current (some a) address = a == address

unfoldable pub on_thread : EventLoop → Bool
on_thread l = is_own_or_null l.current l.address

-- The four assignments by which both arming functions insert an event at a slot.
unfoldable pub link : ℕ → Slot → EventLoop → EventLoop
link e slot l =
    let after = read l slot in
    set_prev after (next_of e) (
      write slot (some e)
        (record l { next = update l.next e after; prev = update l.prev e (some slot) }))

unfoldable pub arm_depth_first : ℕ → EventLoop → Outcome
unfolding on_thread link set_runnable same_slot
arm_depth_first e l =
    if not (on_thread l)
    then failed wrong_thread l
    else if is_some (l.prev e)
    then done l
    else let linked = record (link e l.insert_point l) { insert_point = next_of e } in
      done (
        set_runnable true
          (if same_slot l.tail l.insert_point then record linked { tail = next_of e } else linked))

unfoldable pub arm_breadth_first : ℕ → EventLoop → Outcome
unfolding on_thread link set_runnable
arm_breadth_first e l =
    if not (on_thread l)
    then failed wrong_thread l
    else if is_some (l.prev e)
    then done l
    else done (set_runnable true (record (link e l.tail l) { tail = next_of e }))

-- `*prev = next; if (next != nullptr) next->prev = prev;` for an event whose `prev` is `slot`.
unfoldable pub splice : ℕ → Slot → EventLoop → EventLoop
splice e slot l = set_prev (l.next e) slot (write slot (l.next e) l)

-- The unlinking at the start of `Event::~Event`, where `prev` is not null.
unfoldable pub unlink : ℕ → Slot → EventLoop → EventLoop
unfolding same_slot splice
unlink e slot l =
    let l₁ = if same_slot l.tail (next_of e) then record l { tail = slot } else l in
    splice e slot
      (if same_slot l₁.insert_point (next_of e) then record l₁ { insert_point = slot } else l₁)

-- `event->next = nullptr; event->prev = nullptr;`, which is also how a later event at the address of
-- a destroyed one begins.
abbrev pub forget : ℕ → EventLoop → EventLoop
forget e l = record l { next = update l.next e none; prev = update l.prev e none }

-- `Event::~Event`
unfoldable pub destroy : ℕ → EventLoop → Outcome
unfolding unlink on_thread
destroy e l =
    let gone = forget e (elim (l.prev e) [ none ↦ l | some slot ↦ unlink e slot l ]) in
    if l.firing e
    then failed destroyed_itself gone
    else if on_thread l
    then done gone
    else failed wrong_thread gone

-- `turn` up to the call of `fire`: the event at the head leaves the queue.
unfoldable pub dequeue : ℕ → EventLoop → EventLoop
unfolding same_slot
dequeue e l =
    let l₁ = record (splice e head l) { insert_point = head } in
    forget e (if same_slot l₁.tail (next_of e) then record l₁ { tail = head } else l₁)

-- How `turn` ends: with `false`, with `true`, or by an exception from the destructor of the event
-- that was to be destroyed.
pub data Turn : Type 0 where
  idle : EventLoop → Turn
  turned : EventLoop → Turn
  threw : Failure → EventLoop → Turn

abbrev pub discard : Option ℕ → EventLoop → Turn
discard none l = turned l
discard (some d) l = elim (destroy d l) [ done l' ↦ turned l' | failed f l' ↦ threw f l' ]

-- Whether the event that a turn takes is the one that `waitImpl` waits for.
abbrev pub is_done : ℕ → Option ℕ → Bool
is_done done_event none = false
is_done done_event (some e) = e == done_event

-- `running` is reset when the function is left, also by an exception.
unfoldable pub stop_running : Outcome → Outcome
unfolding set_runnable
stop_running (done l) = done (record (set_runnable (is_some l.first) l) { running = false })
stop_running (failed f l) = failed f (record l { running = false })

-- A callback changes the loop by its calls, and may hand over an event to destroy.
module _ (fire : ℕ → EventLoop → EventLoop × Option ℕ) where
  unfoldable pub turn : EventLoop → Turn
  unfolding dequeue splice destroy
  turn l = elim l.first [
    | none ↦ idle l
    | some e ↦
        let popped = dequeue e l in
        let (l', to_destroy) = fire e (record popped { firing = update popped.firing e true }) in
        discard to_destroy (record l' { firing = update l'.firing e false; insert_point = head })
  ]

  unfoldable pub run_loop : ℕ → EventLoop → Outcome
  run_loop zero l = done l
  run_loop (suc left) l = elim (turn l) [
    | idle l' ↦ done l'
    | turned l' ↦ run_loop left l'
    | threw f l' ↦ failed f l'
  ]

  unfoldable pub run : ℕ → EventLoop → Outcome
  unfolding stop_running
  run max_turn_count l = stop_running (run_loop max_turn_count (record l { running = true }))

  -- The loop of `waitImpl` for a `BoolEvent`, which arms nothing: `none` is an end of the fuel.
  module _ (port_wait : EventLoop → Outcome) (done_event : ℕ) where
    unfoldable pub wait_loop : ℕ → Bool → EventLoop → Option Outcome
    unfolding turn
    wait_loop fuel true l = some (done l)
    wait_loop zero false l = none
    wait_loop (suc fuel) false l = elim (turn l) [
      | turned l' ↦ wait_loop fuel (is_done done_event l.first) l'
      | threw f l' ↦ some (failed f l')
      | idle l' ↦ elim (port_wait l') [
        | done l'' ↦ wait_loop fuel false l''
        | failed f l'' ↦ some (failed f l'')
      ]
    ]

    -- `waitImpl` but for the call of `get` and the end of the node; `on_ready` is that of the node.
    unfoldable pub wait_impl : (EventLoop → Outcome) → ℕ → EventLoop → Option Outcome
    unfolding wait_loop stop_running
    wait_impl on_ready fuel l =
        if not (is_current l.current l.address)
        then some (failed not_current l)
        else if l.running
        then some (failed already_running l)
        else elim (on_ready l) [
          | failed f l' ↦ some (failed f l')
          | done l' ↦ elim (wait_loop fuel false (record l' { running = true })) [
            | none ↦ none
            | some r ↦ some (stop_running r)
          ]
        ]

-- `NullEventPort::wait`
abbrev pub null_port_wait : EventLoop → Outcome
null_port_wait l = failed nothing_to_wait_for l

unfoldable pub enter_scope : EventLoop → Outcome
enter_scope l =
    if is_some l.current
    then failed already_current l
    else done (record l { current = some l.address })

unfoldable pub leave_scope : EventLoop → Outcome
leave_scope l = elim l.current [
  | none ↦ failed not_current l
  | some a ↦ if a == l.address then done (record l { current = none }) else failed not_current l
]

-- `EventLoop::EventLoop`, on a thread whose current loop is `current`.
unfoldable pub fresh : ℕ → Option ℕ → EventLoop
fresh address current = record {
  address = address;
  current = current;
  first = none;
  next = λ e. none;
  prev = λ e. none;
  firing = λ e. false;
  tail = head;
  insert_point = head;
  running = false;
  last_runnable = false;
  notices = [];
}

-- The loop by which `~EventLoop` unlinks the events; the fuel is their number.
unfoldable pub unlink_all : ℕ → Option ℕ → EventLoop → EventLoop
unlink_all fuel none l = l
unlink_all zero (some e) l = l
unlink_all (suc fuel) (some e) l = unlink_all fuel (l.next e) (forget e l)

-- `~EventLoop` after the end of its daemons. A failed check throws when its block has run.
unfoldable pub destroy_loop : ℕ → EventLoop → Outcome
unfolding unlink_all
destroy_loop fuel l =
    if is_some l.first
    then failed events_left (unlink_all fuel l.first l)
    else if is_current l.current l.address
    then failed still_current (record l { current = none })
    else done l
