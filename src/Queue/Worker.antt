-- ===== src/Queue/Worker.antt =====
-- src/queue.c: send_packet, and one round of queue_worker's loop.
use rnode_linux.Base.{
  ℕ, ◌+◌, ◌-◌, ◌*◌, ◌%◌, ◌^◌, Bool, true, false, not, ◌&&◌, ◌||◌, List, [], ◌∷◌, ltb, leb, ◌==◌,
  if◌then◌else◌,
}
use rnode_linux.Platform.{Platform, usleep}
use rnode_linux.State.{Queue, RadioState, idle, rx_single, rx_continuous, tx}
use rnode_linux.State.Monad.{M, pure, gets, perform, ◌>>=◌, ◌>>◌, when, set_queue}
use rnode_linux.Csma.Airtime.{get_time, csma_get_cw, csma_update_airtime}
use rnode_linux.Csma.Rssi.{
  csma_set_dcd, csma_should_flush, csma_medium_free, csma_get_difs_ms, csma_update_current_rssi,
}
use rnode_linux.Rnode.Report.{rnode_send_stat_queue}
use rnode_linux.Radio.Packet.{sx126x_get_state}
use rnode_linux.Rnode.Air.{rnode_to_air}
use rnode_linux.Rnode.Answers.{rnode_check_airtime_lock}
use rnode_linux.Rnode.Start.{rnode_start}
use rnode_linux.Queue.Items.{after}

-- `now - since` of two uint64_t.
unfoldable pub elapsed : ℕ → ℕ → ℕ
elapsed now since = (now + 2 ^ 64 - since) % 2 ^ 64

-- `head = head->next`, or both pointers NULL at the last item.
unfoldable pub pop_item : Queue → Queue
pop_item q = record q { items = rest q.items; queue_depth = (q.queue_depth + 65535) % 65536 }
  where
    rest : List (List ℕ) → List (List ℕ)
    rest [] = []
    rest (item ∷ items) = items

-- What a round finds: keep listening, or transmit.
pub data Verdict : Type 0 where
  listen transmit : Verdict

-- The contention window has begun: its progress, and whether it is over.
unfoldable pub contend : ℕ → Queue → Queue × Verdict
unfolding elapsed
contend now q =
    let passed =
      if q.cw_wait_start == 0
      then q.cw_wait_passed
      else (q.cw_wait_passed + elapsed now q.cw_wait_start) % 2 ^ 64 in
    if leb q.cw_target passed
    then (
      record q { medium_free_since = 0; cw_wait_start = 0; cw_wait_passed = 0; cw_picked = false },
      transmit,
    )
    else (record q { cw_wait_start = now; cw_wait_passed = passed }, listen)

-- DIFS, then the contention window; a busy medium restarts DIFS and keeps the window's progress.
unfoldable pub listen_before_talk : ℕ → ℕ → Bool → Queue → Queue × Verdict
unfolding contend elapsed
listen_before_talk now difs false q =
    (record q { medium_free_since = 0; cw_wait_start = 0 }, listen)
listen_before_talk now difs true q =
    if q.medium_free_since == 0
    then (record q { medium_free_since = now }, listen)
    else (if ltb (elapsed now q.medium_free_since) difs then (q, listen) else contend now q)

abbrev pub is_tx : RadioState → Bool
is_tx idle = false
is_tx rx_single = false
is_tx rx_continuous = false
is_tx tx = true

abbrev pub is_empty : List (List ℕ) → Bool
is_empty [] = true
is_empty (item ∷ items) = false

module _ {p : Platform} where
  unfoldable pub send_item : List ℕ → M p Bool
  unfolding pop_item after
  send_item item = do
    locked ← rnode_check_airtime_lock
    if locked then pure false else (do
      actual_airtime ← rnode_to_air item
      now ← get_time
      set_queue
          (λ q. pop_item (record q { tx_wait_timeout = after now (actual_airtime * 2 % 2 ^ 32) }))
      depth ← gets (λ d. d.queue.queue_depth)
      rnode_send_stat_queue depth
      csma_update_airtime
      pure true)

  abbrev pub send_first : List (List ℕ) → M p Bool
  send_first [] = pure false
  send_first (item ∷ items) = send_item item

  unfoldable pub send_packet : M p Bool
  send_packet = do items ← gets (λ d. d.queue.items); send_first items

  -- All queued packets back to back, until one is deferred or none is left.
  unfoldable pub flush : M p (Unit {0})
  flush = do
    sent ← send_packet
    items ← gets (λ d. d.queue.items)
    when (not sent || is_empty items) (set_queue (λ q. record q { flushing = false }))

  unfoldable pub pick_cw : M p (Unit {0})
  pick_cw = do
    picked ← gets (λ d. d.queue.cw_picked)
    when (not picked) (do
      target ← csma_get_cw
      set_queue (λ q. record q { cw_target = target; cw_picked = true }))

  abbrev pub act : Verdict → M p (Unit {0})
  act listen = pure tt
  act transmit = do
    should_flush ← csma_should_flush
    when should_flush (set_queue (λ q. record q { flushing = true }))
    _ ← send_packet
    pure tt

  unfoldable pub contend_for_channel : ℕ → M p (Unit {0})
  unfolding listen_before_talk
  contend_for_channel now = do
    pick_cw
    free ← csma_medium_free
    difs ← csma_get_difs_ms
    q ← gets (λ d. d.queue)
    let (q', verdict) = listen_before_talk now difs free q
    set_queue (λ _. q')
    act verdict

  -- A preamble that no packet followed blocks transmission until `tx_disabled`.
  unfoldable pub reenable : ℕ → M p (Unit {0})
  reenable now = do
    q ← gets (λ d. d.queue)
    when (leb q.tx_disabled now)
        (do set_queue (λ q. record q { tx_enable = true }); csma_set_dcd false)

  unfoldable pub serve_queue : ℕ → M p (Unit {0})
  serve_queue now = do
    q ← gets (λ d. d.queue)
    if q.tx_enable && not (is_empty q.items)
        then (if q.flushing then flush else contend_for_channel now)
        else (if q.tx_enable then pure tt else reenable now)

  unfoldable pub update_rssi : ℕ → M p (Unit {0})
  update_rssi now = do
    q ← gets (λ d. d.queue)
    when (ltb q.rssi_delay now)
        (do set_queue (λ q. record q { rssi_delay = after now 25 }); csma_update_current_rssi)

  unfoldable pub queue_worker_round : M p (Unit {0})
  queue_worker_round = do
    now ← get_time
    state ← sx126x_get_state
    if is_tx state
        then (do q ← gets (λ d. d.queue); when (ltb q.tx_wait_timeout now) rnode_start)
        else (do serve_queue now; update_rssi now)
    perform (usleep 1000)
