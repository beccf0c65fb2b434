-- ===== src/System/Interrupt.antt =====
-- irq_worker of sx126x/sx126x.c, with what it calls in src/queue.c and src/rnode.c.
use rnode_linux.Base.{ℕ, Bool}
use rnode_linux.Platform.{Platform, usleep, wait_edge, EdgeResult, no_event, falling, rising}
use rnode_linux.State.{
  Kiss, Queue, CauseMedium, cause_init, preamble_detected, header_valid, header_err, rx_done,
  tx_done,
}
use rnode_linux.State.Monad.{◌>>◌, when}
use rnode_linux.State.Keeps.{Keeps, Keeps-pure, Keeps-gets, Keeps-if, Keeps-bind, Keeps-Gives}
use rnode_linux.Radio.Command.{get_irq_status}
use rnode_linux.Radio.Quiet.{Keeps-clear_irq_status}
use rnode_linux.Radio.Detached.{Keeps-any_event, Detached-Stable, Keeps-set_radio, Keeps-write_read}
use rnode_linux.Radio.Received.{Gives-rx_buffer_status}
use rnode_linux.Queue.Items.{queue_medium_state, medium_state}
use rnode_linux.Irq.{
  IrqPhase, starting, looping, irq_worker_turn, is_idle, on_edge, irq_turn, clear, on_rx_done,
  irq_round, is_continuous,
}
use rnode_linux.System.Sound.{Sound, IsQueued, With-Detached, Keeps-set_queue, AtRest}
use rnode_linux.System.Packets.{Keeps-rx_done}
use rnode_linux.System.Sending.{Keeps-tx_done}
use rnode_linux.System.Round.{Keeps-time, Keeps-dcd}

medium_state-IsQueued :
    (now : ℕ) (cause : CauseMedium) (q : Queue) → IsQueued q → IsQueued (medium_state now cause q)
unfolding medium_state
medium_state-IsQueued now cause_init q i = i
medium_state-IsQueued now preamble_detected q i = i
medium_state-IsQueued now header_valid q i = i
medium_state-IsQueued now header_err q i = i
medium_state-IsQueued now rx_done q i = i
medium_state-IsQueued now tx_done q i = i

module _ {p : Platform} {k : Kiss} where
  pub Keeps-medium_state :
      (cause : CauseMedium) → Keeps (Sound (AtRest k)) (queue_medium_state {p = p} cause)
  unfolding queue_medium_state
  Keeps-medium_state cause =
      Keeps-bind _ _ (Keeps-time (AtRest k))
        λ now. Keeps-bind _ _ (Keeps-dcd _) λ _. Keeps-set_queue _ (medium_state-IsQueued now cause)

  Keeps-clear : (mask : ℕ) → Keeps (Sound (AtRest k)) (clear {p = p} mask)
  unfolding clear
  Keeps-clear mask =
      Keeps-bind _ _ (Keeps-clear_irq_status (Detached-Stable With-Detached) mask)
        λ _. Keeps-pure tt

  Keeps-on_rx_done : (crc_ok : Bool) → Keeps (Sound (AtRest k)) (on_rx_done {p = p} crc_ok)
  unfolding on_rx_done
  Keeps-on_rx_done crc_ok = Keeps-bind _ _ (Keeps-gets _) λ state.
      Keeps-bind _ _ (Keeps-if (is_continuous state) _ _ (Keeps-clear _) (Keeps-pure tt)) λ _.
        Keeps-bind _ _ (Keeps-medium_state rx_done) λ _.
          Keeps-if crc_ok _ _
            (Keeps-Gives _ _ (Gives-rx_buffer_status With-Detached) λ len small.
              Keeps-bind _ _ (Keeps-set_radio With-Detached _) λ _. Keeps-rx_done len small)
            (Keeps-pure tt)

  -- A flag that is cleared and reported.
  Keeps-reported :
      (b : Bool) (mask : ℕ) (cause : CauseMedium)
      → Keeps (Sound (AtRest k)) (when {p = p} b (do clear mask; queue_medium_state cause))
  Keeps-reported b mask cause =
      Keeps-if b _ _ (Keeps-bind _ _ (Keeps-clear mask) λ _. Keeps-medium_state cause)
        (Keeps-pure tt)

  pub Keeps-irq_round : (crc_ok : Bool) → Keeps (Sound (AtRest k)) (irq_round {p = p} crc_ok)
  unfolding irq_round get_irq_status
  Keeps-irq_round crc_ok =
      Keeps-bind _ _ (Keeps-bind _ _ (Keeps-write_read With-Detached _ _) λ ans. Keeps-pure _)
        λ status. Keeps-bind _ _ (Keeps-if _ _ _ (Keeps-clear _) (Keeps-pure tt)) λ _.
          Keeps-bind _ _ (Keeps-reported _ _ _) λ _. Keeps-bind _ _ (Keeps-reported _ _ _) λ _.
            Keeps-bind _ _ (Keeps-reported _ _ _) λ _.
              Keeps-bind _ _ (Keeps-if _ _ _ (Keeps-on_rx_done _) (Keeps-pure tt)) λ _.
                Keeps-bind _ _
                  (Keeps-if _ _ _
                    (Keeps-bind _ _ (Keeps-clear _)
                      λ _. Keeps-bind _ _ (Keeps-medium_state tx_done) λ _. Keeps-tx_done)
                    (Keeps-pure tt))
                  λ _. Keeps-pure _

  Keeps-on_edge :
      (crc_ok : Bool) (edge : EdgeResult) → Keeps (Sound (AtRest k)) (on_edge {p = p} crc_ok edge)
  Keeps-on_edge crc_ok rising = Keeps-irq_round crc_ok
  Keeps-on_edge crc_ok falling = Keeps-pure crc_ok
  Keeps-on_edge crc_ok no_event = Keeps-pure crc_ok

  Keeps-irq_turn : (crc_ok : Bool) → Keeps (Sound (AtRest k)) (irq_turn {p = p} crc_ok)
  unfolding irq_turn
  Keeps-irq_turn crc_ok =
      Keeps-bind _ _ (Keeps-any_event With-Detached wait_edge)
        λ _. Keeps-bind _ _ (Keeps-gets _) λ edge. Keeps-on_edge crc_ok edge

  pub Keeps-irq_worker_turn :
      (phase : IrqPhase) → Keeps (Sound (AtRest k)) (irq_worker_turn {p = p} phase)
  unfolding irq_worker_turn
  Keeps-irq_worker_turn starting = Keeps-bind _ _ (Keeps-gets _) λ state.
      Keeps-if (is_idle state) _ _
        (Keeps-bind _ _ (Keeps-any_event With-Detached (usleep 1000)) λ _. Keeps-pure _)
        (Keeps-pure _)
  Keeps-irq_worker_turn (looping crc_ok) = Keeps-bind _ _ (Keeps-irq_turn crc_ok) λ ok. Keeps-pure _
