-- ===== src/Queue/Linked.antt =====
-- src/queue.c: the linked list of the queue, as queue_push and send_packet build it, cell by cell. An
-- address is a number and NULL is 0; a cell that is not allocated, or freed, has no item, and an access
-- to it is a fault.
use rnode_linux.Base.{ℕ, ◌+◌, ◌%◌, ◌&&◌, Option, none, some, List, ◌==◌, if◌then◌else◌}

-- The struct item_t; `len` is the length of `bytes`, its `data`.
pub record Item : Type 0 where
  pub bytes : List ℕ
  pub next : ℕ

-- The heap's cells, and the variables of the file.
pub record Linked : Type 0 where
  pub cell : ℕ → Option Item
  pub head : ℕ
  pub tail : ℕ
  pub queue_depth : ℕ

-- The heap with another content at one address.
unfoldable pub update : (ℕ → Option Item) → ℕ → Option Item → ℕ → Option Item
update cell a content x = if x == a then content else cell x

-- What malloc and memcpy make at the address `a`; malloc does not set `next`.
unfoldable pub new_item : ℕ → ℕ → List ℕ → Linked → Linked
new_item a garbage buf l = record l {
  cell = update l.cell a (some (record { bytes = buf; next = garbage }));
}

-- `tail->next = item; tail = item`
abbrev append_at : ℕ → Linked → Option Item → Option Linked
append_at a l none = none
append_at a l (some item) = some (record l {
  cell = update l.cell l.tail (some (record item { next = a }));
  tail = a;
  queue_depth = (l.queue_depth + 1) % 65536;
})

-- What queue_push does under the mutex.
unfoldable pub link_item : ℕ → Linked → Option Linked
unfolding update
link_item a l =
    if l.head == 0 && l.tail == 0
    then some (record l { head = a; tail = a; queue_depth = (l.queue_depth + 1) % 65536 })
    else append_at a l (l.cell l.tail)

-- `head = head->next`
abbrev next_head : Linked → Option Item → Option Linked
next_head l none = none
next_head l (some item) = some (record l { head = item.next })

unfoldable pub move_head : Linked → Option Linked
move_head l =
    if l.head == l.tail then some (record l { head = 0; tail = 0 }) else next_head l (l.cell l.head)

-- `free(item->data); free(item)`, and the count.
abbrev free_cell : ℕ → Linked → Option Item → Option Linked
free_cell a l none = none
free_cell a l (some item) =
    some (record l { cell = update l.cell a none; queue_depth = (l.queue_depth + 65535) % 65536 })

abbrev free_item : ℕ → Option Linked → Option Linked
free_item a none = none
free_item a (some l) = free_cell a l (l.cell a)

-- What send_packet does under the mutex once it has sent the item at `a`.
unfoldable pub unlink_item : ℕ → Linked → Option Linked
unfolding move_head update
unlink_item a l = free_item a (move_head l)

-- `item->data`
abbrev bytes_of : Option Item → Option (List ℕ)
bytes_of none = none
bytes_of (some item) = some item.bytes

unfoldable pub item_data : ℕ → Linked → Option (List ℕ)
item_data a l = bytes_of (l.cell a)
