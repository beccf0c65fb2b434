-- ===== src/Queue/Items.antt =====
-- src/queue.c: what the other files call. The linked list from `head` to `tail` is the list of its
-- items, each the bytes of its `data`; a list operation is one step, as the mutex makes it.
use rnode_linux.Base.{ℕ, ◌+◌, ◌%◌, ◌^◌, Bool, true, false, List, [], ◌∷◌, ◌++◌}
use rnode_linux.Platform.{Platform}
use rnode_linux.State.{
  Queue, CauseMedium, cause_init, preamble_detected, header_valid, header_err, rx_done, tx_done,
}
use rnode_linux.State.Monad.{M, gets, ◌>>=◌, ◌>>◌, set_queue}
use rnode_linux.Rnode.Report.{rnode_send_stat_queue}
use rnode_linux.Csma.Airtime.{get_time}
use rnode_linux.Csma.Rssi.{csma_set_dcd}

unfoldable pub push_item : List ℕ → Queue → Queue
push_item item q = record q {
  items = q.items ++ item ∷ [];
  queue_depth = (q.queue_depth + 1) % 65536;
}

-- A deadline: uint64_t addition.
unfoldable pub after : ℕ → ℕ → ℕ
after now ms = (now + ms) % 2 ^ 64

-- What queue_medium_state does to the queue's variables, and whether a carrier is detected.
unfoldable pub medium_state : ℕ → CauseMedium → Queue → Queue
unfolding after
medium_state now preamble_detected q = record q {
  tx_enable = false;
  flushing = false;
  tx_disabled = after now q.tx_header_timeout;
}
medium_state now header_valid q = record q {
  tx_enable = false;
  tx_disabled = after now q.tx_data_timeout;
}
medium_state now cause_init q = record q { tx_enable = true }
medium_state now tx_done q = record q { tx_enable = true }
medium_state now rx_done q = record q { tx_enable = true }
medium_state now header_err q = record q { tx_enable = true }

abbrev pub carrier : CauseMedium → Bool
carrier preamble_detected = true
carrier header_valid = true
carrier cause_init = false
carrier tx_done = false
carrier rx_done = false
carrier header_err = false

module _ {p : Platform} where
  unfoldable pub queue_set_busy_timeout : ℕ → ℕ → M p (Unit {0})
  queue_set_busy_timeout header_ms data_ms =
      set_queue (λ q. record q { tx_header_timeout = header_ms; tx_data_timeout = data_ms })

  unfoldable pub queue_push : List ℕ → M p (Unit {0})
  unfolding push_item
  queue_push buf = do
    set_queue (push_item buf)
    depth ← gets (λ d. d.queue.queue_depth)
    rnode_send_stat_queue depth

  unfoldable pub queue_get_depth : M p ℕ
  queue_get_depth = gets (λ d. d.queue.queue_depth)

  unfoldable pub queue_medium_state : CauseMedium → M p (Unit {0})
  unfolding medium_state
  queue_medium_state cause = do
    now ← get_time
    csma_set_dcd (carrier cause)
    set_queue (medium_state now cause)
