-- ===== src/Tests/QueueWitnesses.antt =====
-- The theorems on the queue's two threads at concrete inputs.
use rnode_linux.Base.{ℕ, ◌≡◌, refl, ◌⊎◌, List, [], ◌∷◌, arith, ◌++◌, none}
use rnode_linux.Queue.Items.{push_item}
use rnode_linux.Queue.Linked.{new_item, link_item}
use rnode_linux.Queue.Chain.{Placed}
use rnode_linux.Queue.Pushing.{own}
use rnode_linux.Queue.Threads.{
  Run, begin_run, IsRun, starts, allocate, link, notice, take_head, waits, has_item, noticed, took,
  Implements, unsent,
}
use rnode_linux.Queue.Interleave.{IsIn, PushReturns, SendReturns, IsRun-Implements}
use rnode_linux.Tests.{started}

-- A packet is allocated at 16, linked, and taken by the sender, while another is allocated at 32.
abbrev short_packet : List ℕ
short_packet = 0x41 ∷ 0x42 ∷ []

abbrev allocated : Run
allocated = record (begin_run started.queue) {
  linked = new_item 16 99 short_packet (begin_run started.queue).linked;
  pusher = has_item 16 short_packet;
}

abbrev after_push : Run
after_push = record allocated {
  linked = record allocated.linked { head = 16; tail = 16; queue_depth = 1 };
  queue = push_item short_packet allocated.queue;
  pusher = waits;
  pushed = short_packet ∷ [];
}

abbrev taken : Run
taken = record after_push {
  linked = new_item 32 99 short_packet after_push.linked;
  pusher = has_item 32 short_packet;
  sender = took 16;
}

taken-IsRun : IsRun started.queue taken
unfolding new_item link_item push_item
taken-IsRun =
    allocate {r = record after_push { sender = took 16 }} 32 99 short_packet
      (take_head {r = record after_push { sender = noticed }}
        (notice {r = after_push}
          (link {r = allocated} {a = 16} {buf = short_packet}
            (allocate {r = begin_run started.queue} 16 99 short_packet starts refl (omega arith)
              refl)
            refl refl)
          refl (omega arith))
        refl)
      refl (omega arith) refl

IsRun-Implements_example :
    (items : List Placed) × Implements taken.linked taken.queue items
    × (taken.pushed ≡ taken.aired ++ unsent taken.sender taken.queue.items)
    × PushReturns taken.pusher taken.linked
    × SendReturns taken.sender taken.linked taken.queue
    × ((a : ℕ) → (taken.linked.cell a ≡ none) ⊎ IsIn a (own taken.pusher) ⊎ IsIn a items)
IsRun-Implements_example = IsRun-Implements taken-IsRun
