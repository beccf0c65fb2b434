-- ===== src/Queue/Interleave.antt =====
-- send_packet and queue_push in two threads: the list, the queue and the order of the packets.
use rnode_linux.Base.{
  ℕ, ◌≡◌, ◌≢◌, refl, sym, ◌∙◌, ap, subst, ◌⊎◌, inl, inr, none, some, List, [], ◌∷◌, ◌++◌,
  Bool-cases, ◌==◌, ==→≡, ==→≢,
}
use rnode_linux.State.{Queue}
use rnode_linux.Queue.Linked.{Linked, link_item, unlink_item, item_data}
use rnode_linux.Queue.Chain.{Placed, Apart, Holds}
use rnode_linux.Queue.Unlinking.{unlink_item-Unlinks}
use rnode_linux.Queue.Threads.{
  Pusher, waits, has_item, Sender, rests, noticed, took, sent_it, Run, IsRun, starts, allocate,
  link, notice, take_head, defer, air, unlink, packets, Implements, unsent,
}
use rnode_linux.Queue.Pushing.{
  own, IsFirst, IsConsistent, begin_run-IsConsistent, link-IsConsistent, allocate-IsConsistent,
  own-Links,
}
use rnode_linux.Queue.Sending.{
  notice-IsConsistent, take_head-IsConsistent, defer-IsConsistent, air-IsConsistent,
  unlink-IsConsistent, first-Unlinks,
}

IsRun-IsConsistent : {q : Queue} {r : Run} → IsRun q r → IsConsistent r
IsRun-IsConsistent {q = q} starts = begin_run-IsConsistent q
IsRun-IsConsistent (allocate {r = r} a garbage buf run is ne free) =
    allocate-IsConsistent r a garbage buf is ne free (IsRun-IsConsistent run)
IsRun-IsConsistent (link {r = r} {a = a} {buf = buf} {l = l} run is e) =
    link-IsConsistent r a buf l is e (IsRun-IsConsistent run)
IsRun-IsConsistent (notice {r = r} run is ne) = notice-IsConsistent r is ne (IsRun-IsConsistent run)
IsRun-IsConsistent (take_head {r = r} run is) = take_head-IsConsistent r is (IsRun-IsConsistent run)
IsRun-IsConsistent (defer {r = r} {a = a} run is) =
    defer-IsConsistent r a is (IsRun-IsConsistent run)
IsRun-IsConsistent (air {r = r} {a = a} {buf = buf} run is e) =
    air-IsConsistent r a buf is e (IsRun-IsConsistent run)
IsRun-IsConsistent (unlink {r = r} {a = a} {l = l} run is e) =
    unlink-IsConsistent r a l is e (IsRun-IsConsistent run)

-- An item of these stands at `a`.
abbrev pub IsIn : ℕ → List Placed → Type 0
IsIn a [] = ⊥
IsIn a (x ∷ xs) = (a ≡ x.0) ⊎ IsIn a xs

IsIn-or_Apart : (a : ℕ) (xs : List Placed) → IsIn a xs ⊎ Apart a xs
IsIn-or_Apart a [] = inr tt
IsIn-or_Apart a (x ∷ xs) = elim (Bool-cases (a == x.0)) [
  | inl at ↦ inl (inl (==→≡ a x.0 at))
  | inr off ↦ elim (IsIn-or_Apart a xs) [
    | inl there ↦ inl (inr there)
    | inr apart ↦ inr (==→≢ a x.0 off, apart)
  ]
]

-- What the pusher does next cannot fault.
abbrev pub PushReturns : Pusher → Linked → Type 0
PushReturns waits l = Unit {0}
PushReturns (has_item a buf) l = (l' : Linked) × (link_item a l ≡ some l')

-- Neither can the sender's next access, and what it reads is the first packet of the queue.
abbrev pub SendReturns : Sender → Linked → Queue → Type 0
SendReturns rests l q = Unit {0}
SendReturns noticed l q = l.head ≢ 0
SendReturns (took a) l q =
    (buf : List ℕ) × (item_data a l ≡ some buf) × (items : List (List ℕ)) × (q.items ≡ buf ∷ items)
SendReturns (sent_it a) l q = (l' : Linked) × (unlink_item a l ≡ some l')

push_returns : (r : Run) (s : Pusher) → r.pusher ≡ s → IsConsistent r → PushReturns s r.linked
push_returns r waits is c = tt
push_returns r (has_item a buf) is c = let u = own-Links r a buf is c in (u.0, u.1)

send_returns :
    (r : Run) (s : Sender) → r.sender ≡ s → IsConsistent r → SendReturns s r.linked r.queue
send_returns r rests is c = tt
send_returns r noticed is c =
    let (x, rest, e) = subst (λ s. IsFirst s c.items) is c.first in
    let held = subst (Holds r.linked) e c.implements.held in
    let at_head = (unlink_item-Unlinks r.linked x rest held).0 in
    λ null. held.placed.0 (sym null ∙ at_head)
send_returns r (took a) is c =
    let (x, rest, e, same, u) = first-Unlinks r a c (subst (λ s. IsFirst s c.items) is c.first) in
    (x.1, ap (λ n. item_data n r.linked) same ∙ u.1, packets rest, c.implements.same ∙ ap packets e)
send_returns r (sent_it a) is c =
    let (x, rest, e, same, u) = first-Unlinks r a c (subst (λ s. IsFirst s c.items) is c.first) in
    (u.2, ap (λ n. unlink_item n r.linked) same ∙ u.3)

-- Whatever the order of the steps of queue_push and send_packet, from the empty queue and whatever
-- malloc leaves in the cells that it gives: the linked list holds the packets of the queue that push_item
-- and pop_item make of the same calls, and its depth is the number of these modulo 2 ^ 16; the next access
-- of either thread to a cell does not fault, and what send_packet has taken is the first packet
-- of that queue; the packets that were linked are those handed to rnode_to_air and then those that
-- still wait, in one order; and a cell is free, or holds a packet of the list, or the one that
-- queue_push is about to link.
pub IsRun-Implements :
    {q : Queue} {r : Run}
    → IsRun q r
    → (items : List Placed) × Implements r.linked r.queue items
      × (r.pushed ≡ r.aired ++ unsent r.sender r.queue.items)
      × PushReturns r.pusher r.linked
      × SendReturns r.sender r.linked r.queue
      × ((a : ℕ) → (r.linked.cell a ≡ none) ⊎ IsIn a (own r.pusher) ⊎ IsIn a items)
IsRun-Implements {r = r} run =
    let c = IsRun-IsConsistent run in
    (
      c.items,
      c.implements,
      c.order,
      push_returns r r.pusher refl c,
      send_returns r r.sender refl c,
      λ a. elim (IsIn-or_Apart a (own r.pusher)) [
        | inl mine ↦ inr (inl mine)
        | inr apart ↦ elim (IsIn-or_Apart a c.items) [
          | inl queued ↦ inr (inr queued)
          | inr away ↦ inl (c.unused a apart away)
        ]
      ],
    )
