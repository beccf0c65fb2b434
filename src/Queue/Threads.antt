-- ===== src/Queue/Threads.antt =====
-- send_packet and queue_push in two threads: what the mutex guards is one step, and so is each stretch of
-- code between; the steps of the two come in any order.
use rnode_linux.Base.{ℕ, ◌%◌, ◌≡◌, ◌≢◌, none, some, List, [], ◌∷◌, ◌++◌, length}
use rnode_linux.State.{Queue}
use rnode_linux.Queue.Items.{push_item}
use rnode_linux.Queue.Worker.{pop_item}
use rnode_linux.Queue.Linked.{Linked, new_item, link_item, unlink_item, item_data}
use rnode_linux.Queue.Chain.{Placed, Holds}

-- Where queue_push stands: not called, or with its item allocated and filled.
pub data Pusher : Type 0 where
  waits : Pusher
  has_item : ℕ → List ℕ → Pusher

-- Where send_packet stands: not called; past its test of `head`; with `item` read, and with the item sent.
pub data Sender : Type 0 where
  rests noticed : Sender
  took sent_it : ℕ → Sender

-- The two threads with the list they share; `queue` is the queue as a list of packets, and `pushed` and `aired`
-- are the packets that were linked, and handed to rnode_to_air, so far.
pub record Run : Type 0 where
  pub linked : Linked
  pub queue : Queue
  pub pusher : Pusher
  pub sender : Sender
  pub pushed : List (List ℕ)
  pub aired : List (List ℕ)

-- The static variables at the start, over a heap with no cell in use.
abbrev pub begin_run : Queue → Run
begin_run q = record {
  linked = record { cell = λ a. none; head = 0; tail = 0; queue_depth = 0 };
  queue = record q { items = []; queue_depth = 0 };
  pusher = waits;
  sender = rests;
  pushed = [];
  aired = [];
}

-- The runs that steps lead to. malloc gives any cell that is not in use, whose content it leaves as it was.
pub data IsRun (q : Queue) : Run → Type 0 where
  starts : IsRun q (begin_run q)
  allocate :
      {r : Run} (a garbage : ℕ) (buf : List ℕ)
      → IsRun q r
      → r.pusher ≡ waits
      → a ≢ 0
      → r.linked.cell a ≡ none
      → IsRun q (record r { linked = new_item a garbage buf r.linked; pusher = has_item a buf })
  link :
      {r : Run} {a : ℕ} {buf : List ℕ} {l : Linked}
      → IsRun q r
      → r.pusher ≡ has_item a buf
      → link_item a r.linked ≡ some l
      → IsRun q (record r {
        linked = l;
        queue = push_item buf r.queue;
        pusher = waits;
        pushed = r.pushed ++ buf ∷ [];
      })
  notice :
      {r : Run}
      → IsRun q r
      → r.sender ≡ rests
      → r.linked.head ≢ 0
      → IsRun q (record r { sender = noticed })
  take_head :
      {r : Run}
      → IsRun q r
      → r.sender ≡ noticed
      → IsRun q (record r { sender = took r.linked.head })
  defer : {r : Run} {a : ℕ} → IsRun q r → r.sender ≡ took a → IsRun q (record r { sender = rests })
  air :
      {r : Run} {a : ℕ} {buf : List ℕ}
      → IsRun q r
      → r.sender ≡ took a
      → item_data a r.linked ≡ some buf
      → IsRun q (record r { sender = sent_it a; aired = r.aired ++ buf ∷ [] })
  unlink :
      {r : Run} {a : ℕ} {l : Linked}
      → IsRun q r
      → r.sender ≡ sent_it a
      → unlink_item a r.linked ≡ some l
      → IsRun q (record r { linked = l; queue = pop_item r.queue; sender = rests })

-- The packets of the items.
abbrev pub packets : List Placed → List (List ℕ)
packets [] = []
packets (x ∷ xs) = x.1 ∷ packets xs

-- The linked list stands for the queue.
pub record Implements (l : Linked) (q : Queue) (items : List Placed) : Type 0 where
  pub held : Holds l items
  pub same : q.items ≡ packets items
  pub depth : q.queue_depth ≡ l.queue_depth
  pub count : q.queue_depth ≡ length q.items % 65536

-- What is still to be sent: between the sending and the unlinking the first item stays in the queue.
abbrev pub unsent : Sender → List (List ℕ) → List (List ℕ)
unsent rests items = items
unsent noticed items = items
unsent (took a) items = items
unsent (sent_it a) [] = []
unsent (sent_it a) (item ∷ items) = items
