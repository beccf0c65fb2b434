-- ===== src/Irq/Crc.antt =====
-- irq_worker on a frame whose checksum is wrong.
use rnode_linux.Base.{ℕ, ◌≡◌, refl, ◌∙◌, Bool, true, false, sym, ap, Option, none, some}
use rnode_linux.Platform.{Platform}
use rnode_linux.State.{
  Daemon, Rnode, CauseMedium, preamble_detected, header_valid, header_err, rx_done, tx_done,
}
use rnode_linux.State.Monad.{◌>>◌, when, bind-at}
use rnode_linux.State.Keeps.{Keeps, Keeps-pure, Keeps-gets, Keeps-modify, Keeps-if, Keeps-bind}
use rnode_linux.Csma.Rssi.{csma_set_dcd}
use rnode_linux.Queue.Items.{queue_medium_state}
use rnode_linux.Radio.Command.{get_irq_status}
use rnode_linux.Radio.Quiet.{Stable, Keeps-clear_irq_status, Keeps-write_read_bytes}
use rnode_linux.Radio.Reports.{Keeps-get_time}
use rnode_linux.Irq.{has, is_continuous, crc_after, clear, on_rx_done, irq_round}
use rnode_linux.Rnode.Air.{rnode_tx_done}

module _ {p : Platform} where
  abbrev RnodeIs : Rnode p.Float → Daemon p → Type 0
  RnodeIs r d = d.rnode ≡ r

  module _ {r : Rnode p.Float} where
    RnodeIs-Stable : Stable (RnodeIs r)
    RnodeIs-Stable = record {
      tcp = λ d t h. h;
      state = λ d s h. h;
      recovering = λ d b h. h;
      event = λ d e q h. h;
    }

    Keeps-status : Keeps (RnodeIs r) (get_irq_status {p = p})
    unfolding get_irq_status
    Keeps-status =
        Keeps-bind _ _ (Keeps-write_read_bytes RnodeIs-Stable _ _ _ refl) λ _. Keeps-pure _

    Keeps-clear : (mask : ℕ) → Keeps (RnodeIs r) (clear {p = p} mask)
    unfolding clear
    Keeps-clear mask =
        Keeps-bind _ _ (Keeps-clear_irq_status RnodeIs-Stable mask) λ _. Keeps-pure tt

    Keeps-medium : (cause : CauseMedium) → Keeps (RnodeIs r) (queue_medium_state {p = p} cause)
    unfolding queue_medium_state csma_set_dcd
    Keeps-medium cause =
        Keeps-bind _ _ (Keeps-get_time RnodeIs-Stable)
          λ now. Keeps-bind _ _ (Keeps-modify _ (λ d h. h)) λ _. Keeps-modify _ (λ d h. h)

    Keeps-both :
        (b : Bool) (mask : ℕ) (cause : CauseMedium)
        → Keeps (RnodeIs r) (when b (do clear {p = p} mask; queue_medium_state cause))
    Keeps-both b mask cause =
        Keeps-if b _ _ (Keeps-bind _ _ (Keeps-clear mask) λ _. Keeps-medium cause) (Keeps-pure tt)

    Keeps-on_rx_done : Keeps (RnodeIs r) (on_rx_done {p = p} false)
    unfolding on_rx_done
    Keeps-on_rx_done = Keeps-bind _ _ (Keeps-gets _) λ state.
        Keeps-bind _ _ (Keeps-if (is_continuous state) _ _ (Keeps-clear 0x02) (Keeps-pure tt))
          λ _. Keeps-bind _ _ (Keeps-medium rx_done) λ _. Keeps-pure tt

    Keeps-received :
        (status : ℕ) (crc_ok : Bool)
        → has status 0x40 ≡ true
        → has status 0x04 ≡ false
        → Keeps (RnodeIs r) (when (has status 0x02) (on_rx_done {p = p} (crc_after status crc_ok)))
    unfolding crc_after
    Keeps-received status crc_ok error preamble =
        rw (preamble, error) (Keeps-if (has status 0x02) _ _ Keeps-on_rx_done (Keeps-pure tt))

    Keeps-sent :
        (status : ℕ)
        → has status 0x01 ≡ false
        → Keeps (RnodeIs r) (
            when
              (has status 0x01)
              (do clear {p = p} 0x01; queue_medium_state tx_done; rnode_tx_done))
    Keeps-sent status sent = rw sent (Keeps-pure tt)

  -- Reading the status changes nothing in them.
  status-rnode :
      (d d1 : Daemon p) (status : ℕ) → get_irq_status d ≡ some (status, d1) → d1.rnode ≡ d.rnode
  status-rnode d d1 status e =
      let (r, e', k) = Keeps-status.at d refl in
      ap (λ (o : Option (ℕ × Daemon p)). elim o [ none ↦ d.rnode | some x ↦ x.1.rnode ])
        (sym e ∙ e')
      ∙ k

  -- An interrupt that reports a checksum error, and neither a new preamble nor the end of a transmission,
  -- returns and changes nothing in the protocol's variables: no part of a packet is stored and no packet
  -- is counted, be a reception reported with it or not.
  pub irq_round-crc :
      (d d1 : Daemon p) (crc_ok : Bool) (status : ℕ)
      → get_irq_status d ≡ some (status, d1)
      → has status 0x40 ≡ true
      → has status 0x04 ≡ false
      → has status 0x01 ≡ false
      → (ok : Bool) × (d' : Daemon p) × (irq_round crc_ok d ≡ some (ok, d')) × (d'.rnode ≡ d.rnode)
  unfolding irq_round
  irq_round-crc d d1 crc_ok status e error preamble sent =
      let rest =
        Keeps-bind _ _ (Keeps-if (has status 0x40) _ _ (Keeps-clear 0x40) (Keeps-pure tt)) λ _.
          Keeps-bind _ _ (Keeps-both (has status 0x04) 0x04 preamble_detected) λ _.
            Keeps-bind _ _ (Keeps-both (has status 0x10) 0x10 header_valid) λ _.
              Keeps-bind _ _ (Keeps-both (has status 0x20) 0x20 header_err) λ _.
                Keeps-bind _ _ (Keeps-received status crc_ok error preamble) λ _.
                  Keeps-bind _ _ (Keeps-sent status sent)
                    λ _. Keeps-pure (crc_after status crc_ok) in
      let (r, e', k) = rest.at d1 (status-rnode d d1 status e) in
      (r.0, r.1, bind-at get_irq_status _ e ∙ e', k)
