-- ===== src/Irq.antt =====
-- sx126x/sx126x.c: what irq_worker does at a rising edge of DIO1, with the callbacks that src/main.c
-- registers.
pub mod Crc
use rnode_linux.Base.{ℕ, ◌/◌, ◌%◌, Bool, true, false, ◌==◌, if◌then◌else◌}
use rnode_linux.Radio.Chip.{
  irq_crc_err, irq_preamble_detected, irq_header_valid, irq_header_err, irq_rx_done, irq_tx_done,
}
use rnode_linux.Platform.{Platform, usleep, wait_edge, EdgeResult, no_event, falling, rising}
use rnode_linux.State.{
  RadioState, idle, rx_single, rx_continuous, tx, preamble_detected, header_valid, header_err,
  rx_done, tx_done,
}
use rnode_linux.State.Monad.{M, pure, gets, perform, ◌>>=◌, ◌>>◌, when, set_radio}
use rnode_linux.Radio.Command.{clear_irq_status, get_irq_status, get_rx_buffer_status}
use rnode_linux.Queue.Items.{queue_medium_state}
use rnode_linux.Rnode.Air.{rnode_rx_done, rnode_tx_done}

-- `status & mask` of a mask of one bit.
unfoldable pub has : ℕ → ℕ → Bool
has status mask = status / mask % 2 == 1

abbrev pub is_continuous : RadioState → Bool
is_continuous idle = false
is_continuous rx_single = false
is_continuous rx_continuous = true
is_continuous tx = false

-- `crc_ok` when the interrupt's RX_DONE is looked at: an error clears it, a preamble sets it again.
unfoldable pub crc_after : ℕ → Bool → Bool
unfolding has
crc_after status crc_ok =
    if has status irq_preamble_detected
    then true
    else (if has status irq_crc_err then false else crc_ok)

abbrev pub is_idle : RadioState → Bool
is_idle idle = true
is_idle rx_single = false
is_idle rx_continuous = false
is_idle tx = false

-- Where irq_worker stands: waiting for the radio to be started, or in its loop with `crc_ok`.
pub data IrqPhase : Type 0 where
  starting : IrqPhase
  looping : Bool → IrqPhase

module _ {p : Platform} where
  unfoldable pub clear : ℕ → M p (Unit {0})
  clear mask = do _ ← clear_irq_status mask; pure tt

  unfoldable pub on_rx_done : Bool → M p (Unit {0})
  on_rx_done crc_ok = do
    state ← gets (λ d. d.radio.state)
    when (is_continuous state) (clear irq_rx_done)
    queue_medium_state rx_done
    when crc_ok (do
      len ← get_rx_buffer_status
      set_radio (λ r. record r { payload_tx_rx = len })
      rnode_rx_done len)

  -- The variable `crc_ok` goes in and comes out.
  unfoldable pub irq_round : Bool → M p Bool
  unfolding crc_after
  irq_round crc_ok = do
    status ← get_irq_status
    let ok = crc_after status crc_ok
    when (has status irq_crc_err) (clear irq_crc_err)
    when (has status irq_preamble_detected)
        (do clear irq_preamble_detected; queue_medium_state preamble_detected)
    when (has status irq_header_valid) (do clear irq_header_valid; queue_medium_state header_valid)
    when (has status irq_header_err) (do clear irq_header_err; queue_medium_state header_err)
    when (has status irq_rx_done) (on_rx_done ok)
    when (has status irq_tx_done) (do clear irq_tx_done; queue_medium_state tx_done; rnode_tx_done)
    pure ok

  abbrev pub on_edge : Bool → EdgeResult → M p Bool
  on_edge crc_ok rising = irq_round crc_ok
  on_edge crc_ok falling = pure crc_ok
  on_edge crc_ok no_event = pure crc_ok

  -- A turn of the loop of irq_worker.
  unfoldable pub irq_turn : Bool → M p Bool
  irq_turn crc_ok = do
    perform wait_edge
    edge ← gets (λ d. p.edge_result d.history)
    on_edge crc_ok edge

  -- A turn of irq_worker: a look at the radio's state before the loop, and then a turn of it.
  unfoldable pub irq_worker_turn : IrqPhase → M p IrqPhase
  irq_worker_turn starting = do
    state ← gets (λ d. d.radio.state)
    if is_idle state then (do perform (usleep 1000); pure starting) else pure (looping true)
  irq_worker_turn (looping crc_ok) = do ok ← irq_turn crc_ok; pure (looping ok)
