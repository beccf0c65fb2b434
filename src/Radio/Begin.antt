-- ===== src/Radio/Begin.antt =====
-- sx126x/sx126x.c: waiting for the BUSY line, and bringing the radio up after a reset. wait_on_busy
-- calls sx126x_begin once the line has been busy for a second, and sx126x_begin waits in turn; the
-- static `recovering` keeps the inner wait from a second recovery.
use rnode_linux.Base.{
  ℕ, zero, suc, Bool, true, false, not, [], ◌∷◌, ◌==◌, ◌||◌, if◌then◌else◌, bit_and, bit_or,
}
use rnode_linux.Base.Bytes.{byte, byte1}
use rnode_linux.Radio.Chip.{
  irq_header_valid, irq_tx_done, irq_rx_done, irq_header_err, irq_crc_err, irq_preamble_detected,
  standby_xosc, standby_rc, dio3_output_1_8, txco_delay_10, status_mode_stdby_xosc,
  status_mode_stdby_rc, lora_modem,
}
use rnode_linux.Platform.{Platform, gpio, rst, busy_read, usleep}
use rnode_linux.State.{idle}
use rnode_linux.State.Monad.{M, pure, gets, perform, ◌>>=◌, ◌>>◌, when, set_radio}
use rnode_linux.Rnode.Report.{rnode_report_error, error_init_radio}
use rnode_linux.Radio.Spi.{write_bytes}
use rnode_linux.Radio.Command.{
  set_standby, set_packet_type, calibrate, irq_setup, switch_ant, sx126x_get_status_mode,
}

-- `timeout`, in steps of 100 µs
abbrev pub busy_steps : ℕ
busy_steps = 10000

module _ {p : Platform} where
  unfoldable pub read_busy : M p Bool
  read_busy = do perform busy_read; gets (λ d. p.busy d.history)

  -- The loop, with the rounds left until the timeout; `true` if it ended by the timeout.
  unfoldable pub busy_loop : ℕ → M p Bool
  busy_loop zero = pure true
  busy_loop (suc left) = do
    high ← read_busy
    elim high [ true ↦ (do _ ← perform (usleep 100); busy_loop left) | false ↦ pure false ]

  unfoldable pub wait_on_busy_by : M p Bool → M p (Unit {0})
  wait_on_busy_by begin = do
    timed_out ← busy_loop busy_steps
    recovering ← gets (λ d. d.radio.recovering)
    when timed_out (
        when (not recovering) (do
          set_radio (λ r. record r { recovering = true })
          _ ← begin
          rnode_report_error error_init_radio
          set_radio (λ r. record r { recovering = false })))

  -- The wait inside a recovery.
  unfoldable pub wait_recovering : M p (Unit {0})
  wait_recovering = wait_on_busy_by (pure false)

abbrev pub irq_mask : ℕ
irq_mask =
    bit_or
      (bit_or (bit_or (bit_or (bit_or irq_header_valid irq_tx_done) irq_rx_done) irq_header_err)
        irq_crc_err)
      irq_preamble_detected

module _ {p : Platform} (wait_on_busy : M p (Unit {0})) where
  unfoldable pub set_irq_mask_by : M p (Unit {0})
  set_irq_mask_by = do wait_on_busy; _ ← irq_setup irq_mask irq_mask 0 0; pure tt

  unfoldable pub set_dio3_txco_ctrl_by : ℕ → ℕ → M p (Unit {0})
  set_dio3_txco_ctrl_by voltage delay = do
    wait_on_busy
    _ ← write_bytes (0x97 ∷ voltage ∷ 0 ∷ byte1 delay ∷ byte delay ∷ [])
    perform (usleep delay)
    wait_on_busy
    _ ← set_standby standby_xosc
    wait_on_busy
    _ ← calibrate 0xFF
    wait_on_busy
    _ ← write_bytes (0x93 ∷ 0x40 ∷ [])
    pure tt

  -- From the first status on.
  unfoldable pub begin_rest_by : M p Bool
  begin_rest_by = do
    set_dio3_txco_ctrl_by dio3_output_1_8 txco_delay_10
    mode ← sx126x_get_status_mode
    let status = bit_and mode 0x70
    if not (status == status_mode_stdby_xosc || status == status_mode_stdby_rc)
        then pure false
        else (do
          typed ← set_packet_type lora_modem
          if not typed then pure false else (do
            wait_on_busy
            _ ← write_bytes (0x8F ∷ 0 ∷ 0 ∷ [])
            set_irq_mask_by
            pure true))

  unfoldable pub sx126x_begin_by : M p Bool
  sx126x_begin_by = do
    perform (gpio rst false)
    perform (usleep 100000)
    perform (gpio rst true)
    perform (usleep 100000)
    set_radio (λ r. record r { state = idle })
    switch_ant
    perform (usleep 10000)
    high ← read_busy
    when high wait_on_busy
    standby ← set_standby standby_rc
    if not standby then pure false else (do
      initial ← sx126x_get_status_mode
      if initial == 0x00 then pure false else begin_rest_by)

module _ {p : Platform} where
  unfoldable pub wait_on_busy : M p (Unit {0})
  wait_on_busy = wait_on_busy_by (sx126x_begin_by wait_recovering)

  unfoldable pub sx126x_begin : M p Bool
  sx126x_begin = sx126x_begin_by wait_on_busy

  unfoldable pub set_irq_mask : M p (Unit {0})
  set_irq_mask = set_irq_mask_by wait_on_busy
