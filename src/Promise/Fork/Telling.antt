-- ===== src/Promise/Fork/Telling.antt =====
-- What a fork hub does to its branches when its result is there (async.cpp).
use kj.Base.{
  ℕ, ◌≡◌, refl, sym, subst, ap, ◌∙◌, true, Option, none, some, List, [], ◌∷◌, ◌>>=◌, length,
  ==_refl, if_true,
}
use kj.EventLoop.{Slot, head, next_of, update}
use kj.EventLoop.Queue.{has, end_slot, end_slot_last, first_of, Chain-end_slot}
use kj.Promise.{nobody, already, Arming}
use kj.Promise.Fork.{
  ForkHub, put_branch, insert_branch, add_branch, remove_branch, destroy_branch, fire_loop,
  close_list, fire_hub,
}
use kj.Promise.Fork.Branches.{queue_of, hub_ready_cases, armings, fired, head_left, fire_loop-Told}
use kj.Promise.Fork.Hub.{IsOpen, fresh, nobody_ne_already}

-- A branch that is made when the hub was told is ready at once.
late_branch :
    (h : ForkHub) (b : ℕ)
    → h.tail_branch ≡ none
    → (h' : ForkHub) × (add_branch b h ≡ some (h', [])) × (h'.ready b ≡ already)
unfolding add_branch
late_branch h b e =
    let ready_at : (fresh h b).ready b ≡ nobody = if_true _ _ (==_refl b) in
    (
      record (fresh h b) { ready = update (fresh h b).ready b already },
      ap (λ t. insert_branch t b (fresh h b)) e
          ∙ hub_ready_cases b (fresh h b) nobody ready_at nobody_ne_already,
      if_true _ _ (==_refl b),
    )

closed_head :
    (h : ForkHub) (xs : List ℕ) (first : Option ℕ)
    → h.head_branch ≡ head_left head xs first
    → (put_branch (end_slot head xs) none h).head_branch ≡ none
closed_head h [] first e = refl
closed_head h (x ∷ xs) first e =
    subst (λ s. (put_branch s none h).head_branch ≡ none) (sym (end_slot_last head x xs)) e

closed_fields :
    (h : ForkHub) (slot : Slot)
    → ((put_branch slot none h).ready ≡ h.ready) × ((put_branch slot none h).prev_ptr ≡ h.prev_ptr)
closed_fields h head = (refl, refl)
closed_fields h (next_of p) = (refl, refl)

fire_hub_step :
    (fuel : ℕ) (h h₁ : ForkHub) (armed : List Arming) (slot : Slot)
    → fire_loop fuel h.head_branch h ≡ some (h₁, armed)
    → h₁.tail_branch ≡ some slot
    → fire_hub fuel h ≡ some (record (put_branch slot none h₁) { tail_branch = none }, armed)
unfolding fire_hub
fire_hub_step fuel h h₁ armed slot p e =
    rw p (ap (λ o. close_list o h₁ >>= λ h''. some (h'', armed)) e)

-- Telling an open hub arms the events that wait for its branches, in the order in which the branches
-- were made, and makes the other branches ready. The list is empty and closed then: destroying one
-- of those branches changes nothing, and a branch that is made later is ready at once.
pub fire_hub-armings :
    (h : ForkHub) (xs : List ℕ)
    → IsOpen h xs
    → (h' : ForkHub) × (fire_hub (length xs) h ≡ some (h', armings h.ready xs))
      × (h'.head_branch ≡ none)
      × ((b : ℕ) → has b xs ≡ true → (h'.ready b ≡ fired (h.ready b)) × (destroy_branch b h' ≡ h'))
      × ((b : ℕ) → (h'' : ForkHub) × (add_branch b h' ≡ some (h'', [])) × (h''.ready b ≡ already))
unfolding destroy_branch
fire_hub-armings h xs open_hub =
    let slot = end_slot head xs in
    let (h₁, runs, t) =
      fire_loop-Told h head xs tt open_hub.distinct open_hub.chain open_hub.waits in
    let starts : h.head_branch ≡ first_of xs =
      Chain-end_slot (queue_of h) head [] xs open_hub.chain in
    let h' = record (put_branch slot none h₁) { tail_branch = none } in
    let (ready, prev) = closed_fields h₁ slot in
    (
      h',
      fire_hub_step (length xs) h h₁ (armings h.ready xs) slot
          (ap (λ o. fire_loop (length xs) o h) starts ∙ runs) (t.tail_same ∙ open_hub.tail_at),
      closed_head h₁ xs h.head_branch t.head_same,
      λ b m. (
        ap (λ f. f b) ready ∙ (t.armed b ∙ if_true _ _ m),
        ap (λ o. remove_branch o b h') (ap (λ f. f b) prev ∙ (t.alone b ∙ if_true _ _ m)),
      ),
      λ b. late_branch h' b refl,
    )
