-- ===== src/Radio/Quiet.antt =====
-- What bringing up and waiting for the radio leaves alone, whatever the devices answer: such an action
-- cannot fault, sends the radio no command for a packet or a setting, and changes only the driver's `state` and `recovering`
-- and the connection to the client.
use rnode_linux.Base.{ℕ, zero, suc, ◌≡◌, refl, Bool, true, false, ◌||◌, List, [], ◌∷◌, ◌==◌, arith}
use rnode_linux.Platform.{Platform, Event, spi, usleep, close, SendResult, sent, again, failed}
use rnode_linux.State.{Daemon, Tcp, RadioState, idle, rx_single, rx_continuous, tx}
use rnode_linux.State.Monad.{M, pure, perform, ◌>>=◌, set_radio}
use rnode_linux.State.Keeps.{
  Keeps, Keeps-pure, Keeps-modify, Keeps-perform, Keeps-bind, keeps_rules,
}
use rnode_linux.Tcp.{tcp_send, drop_client}
use rnode_linux.Kiss.Frame.{frame, kiss_encode_small}
use rnode_linux.Rnode.Report.{rnode_report_error}
use rnode_linux.Radio.Spi.{transfer, write_bytes, write_read_bytes, read_bytes}
use rnode_linux.Radio.Command.{
  set_standby, set_packet_type, calibrate, clear_irq_status, irq_setup, switch_ant, antenna,
  sx126x_get_status_mode,
}
use rnode_linux.Radio.Begin.{
  read_busy, busy_loop, wait_on_busy_by, wait_recovering, set_irq_mask_by, set_dio3_txco_ctrl_by,
  begin_rest_by, sx126x_begin_by, wait_on_busy, sx126x_begin, set_irq_mask,
}

-- The commands of a transmission, WriteBuffer, SetPacketParams and SetTx, and those with the settings
-- and for reception: SetRx, SetRfFrequency, CalibrateImage, SetPaConfig, SetRegulatorMode,
-- WriteRegister, SetTxParams and SetModulationParams.
abbrev pub is_tracked : Event → Bool
is_tracked (spi (op ∷ args) n) =
    op == 0x0E
    || op == 0x8C
    || op == 0x83
    || op == 0x82
    || op == 0x86
    || op == 0x98
    || op == 0x95
    || op == 0x96
    || op == 0x0D
    || op == 0x8E
    || op == 0x8B
is_tracked _ = false

pub record Stable {p : Platform} (P : Daemon p → Type 0) : Type 0 where
  pub tcp : (d : Daemon p) (t : Tcp) → P d → P (record d { tcp = t })
  pub state :
      (d : Daemon p) (s : RadioState) → P d → P (record d { radio = record d.radio { state = s } })
  pub recovering :
      (d : Daemon p) (b : Bool) → P d → P (record d { radio = record d.radio { recovering = b } })
  pub event :
      (d : Daemon p) (e : Event)
      → is_tracked e ≡ false
      → P d
      → P (record d { history = e ∷ d.history })

module _ {p : Platform} {P : Daemon p → Type 0} (s : Stable P) where
  pub Keeps-event : (e : Event) → is_tracked e ≡ false → Keeps P (perform e)
  Keeps-event e h = Keeps-perform e (λ d. s.event d e h)

  Keeps-state : (x : RadioState) → Keeps P (set_radio (λ r. record r { state = x }))
  Keeps-state x = Keeps-modify _ (λ d. s.state d x)

  Keeps-recovering : (b : Bool) → Keeps P (set_radio (λ r. record r { recovering = b }))
  Keeps-recovering b = Keeps-modify _ (λ d. s.recovering d b)

  Keeps-drop_client : (fd : ℕ) (r : SendResult) → Keeps P (drop_client fd r)
  Keeps-drop_client fd (sent n) = Keeps-pure tt
  Keeps-drop_client fd again = Keeps-pure tt
  Keeps-drop_client fd failed =
      Keeps-bind (perform (close fd)) _ (Keeps-event (close fd) refl)
        (λ _. Keeps-modify _ (λ d. s.tcp d (record d.tcp { client_fd = 0 })))

  pub Keeps-tcp_send : (buf : List ℕ) → Keeps P (tcp_send buf)
  unfolding tcp_send
  Keeps-tcp_send buf = search (keeps_rules, Keeps-event, Keeps-drop_client) depth 8

  pub Keeps-transfer : (e : Event) (n : ℕ) → is_tracked e ≡ false → Keeps P (transfer e n)
  unfolding transfer
  Keeps-transfer e n h = search (keeps_rules, Keeps-event) depth 16

  pub Keeps-write_bytes :
      (op : ℕ) (args : List ℕ)
      → is_tracked (spi (op ∷ args) 0) ≡ false
      → Keeps P (write_bytes (op ∷ args))
  unfolding write_bytes
  Keeps-write_bytes op args h = search (keeps_rules, Keeps-transfer)

  pub Keeps-write_read_bytes :
      (op : ℕ) (args : List ℕ) (n : ℕ)
      → is_tracked (spi (op ∷ args) n) ≡ false
      → Keeps P (write_read_bytes (op ∷ args) n)
  unfolding write_read_bytes
  Keeps-write_read_bytes op args n h = search (keeps_rules, Keeps-transfer)

  pub Keeps-status : Keeps P sx126x_get_status_mode
  unfolding sx126x_get_status_mode read_bytes
  Keeps-status = search (keeps_rules, Keeps-transfer) depth 8

  pub Keeps-clear_irq_status : (mask : ℕ) → Keeps P (clear_irq_status mask)
  unfolding clear_irq_status
  Keeps-clear_irq_status mask = search Keeps-write_bytes

  pub Keeps-irq_setup : (mask a b c : ℕ) → Keeps P (irq_setup mask a b c)
  unfolding irq_setup
  Keeps-irq_setup mask a b c = search (keeps_rules, Keeps-clear_irq_status, Keeps-write_bytes)

  Keeps-antenna : (x : RadioState) → Keeps P (antenna x)
  Keeps-antenna idle = search (keeps_rules, Keeps-event)
  Keeps-antenna rx_single = search (keeps_rules, Keeps-event)
  Keeps-antenna rx_continuous = search (keeps_rules, Keeps-event)
  Keeps-antenna tx = search (keeps_rules, Keeps-event)

  pub Keeps-switch_ant : Keeps P switch_ant
  unfolding switch_ant
  Keeps-switch_ant = search (keeps_rules, Keeps-antenna)

  Keeps-read_busy : Keeps P read_busy
  unfolding read_busy
  Keeps-read_busy = search (keeps_rules, Keeps-event)

  Keeps-busy_loop : (left : ℕ) → Keeps P (busy_loop left)
  unfolding busy_loop
  Keeps-busy_loop zero = Keeps-pure true
  Keeps-busy_loop (suc left) = Keeps-bind read_busy _ Keeps-read_busy λ high.
      elim high
        as (λ b.
          Keeps {A = Bool} P (elim b [
            | true ↦ (do _ ← perform (usleep 100); busy_loop left)
            | false ↦ pure false
          ])) [
            | true ↦ Keeps-bind _ _ (Keeps-event (usleep 100) refl) (λ _. Keeps-busy_loop left)
            | false ↦ Keeps-pure false
          ]

  pub Keeps-report : (code : ℕ) → Keeps P (rnode_report_error code)
  unfolding rnode_report_error
  Keeps-report code = record {
    at = λ d h.
        rw (kiss_encode_small d (0x90 ∷ code ∷ []) (omega arith))
          ((Keeps-tcp_send (frame (0x90 ∷ code ∷ []))).at d h);
  }

  Keeps-wait_on_busy_by : (begin : M p Bool) → Keeps P begin → Keeps P (wait_on_busy_by begin)
  unfolding wait_on_busy_by
  Keeps-wait_on_busy_by begin k =
      search (keeps_rules, Keeps-busy_loop, Keeps-recovering, Keeps-report) depth 12

  Keeps-wait_recovering : Keeps P (wait_recovering {p = p})
  unfolding wait_recovering
  Keeps-wait_recovering = Keeps-wait_on_busy_by (pure false) (Keeps-pure false)

  module _ (wait : M p (Unit {0})) (k : Keeps P wait) where
    Keeps-set_irq_mask_by : Keeps P (set_irq_mask_by wait)
    unfolding set_irq_mask_by
    Keeps-set_irq_mask_by = search (keeps_rules, Keeps-irq_setup)

    Keeps-txco : (voltage delay : ℕ) → Keeps P (set_dio3_txco_ctrl_by wait voltage delay)
    unfolding set_dio3_txco_ctrl_by set_standby calibrate
    Keeps-txco voltage delay = search (keeps_rules, Keeps-event, Keeps-write_bytes) depth 20

    Keeps-begin_rest_by : Keeps P (begin_rest_by wait)
    unfolding begin_rest_by set_packet_type
    Keeps-begin_rest_by =
        search (keeps_rules, Keeps-txco, Keeps-status, Keeps-write_bytes, Keeps-set_irq_mask_by)
          depth 16

    Keeps-begin_by : Keeps P (sx126x_begin_by wait)
    unfolding sx126x_begin_by set_standby
    Keeps-begin_by =
        search
          (
            keeps_rules, Keeps-event, Keeps-state, Keeps-switch_ant, Keeps-read_busy,
            Keeps-write_bytes, Keeps-status, Keeps-begin_rest_by,
          )
          depth 24

  pub Keeps-wait_on_busy : Keeps P (wait_on_busy {p = p})
  unfolding wait_on_busy
  Keeps-wait_on_busy =
      Keeps-wait_on_busy_by (sx126x_begin_by wait_recovering)
        (Keeps-begin_by wait_recovering Keeps-wait_recovering)

  pub Keeps-begin : Keeps P (sx126x_begin {p = p})
  unfolding sx126x_begin
  Keeps-begin = Keeps-begin_by wait_on_busy Keeps-wait_on_busy

  pub Keeps-set_irq_mask : Keeps P (set_irq_mask {p = p})
  unfolding set_irq_mask
  Keeps-set_irq_mask = Keeps-set_irq_mask_by wait_on_busy Keeps-wait_on_busy
