-- ===== src/Radio/Detached.antt =====
-- The driver's calls keep each property that is not about the radio, the connection or the history.
use rnode_linux.Base.{ℕ, List, ◌∷◌}
use rnode_linux.Platform.{Platform, Event, History}
use rnode_linux.State.{Daemon, Tcp, Radio, Bw, Cr, HeaderType, Crc}
use rnode_linux.State.Monad.{perform, set_radio}
use rnode_linux.State.Keeps.{
  Keeps, Keeps-pure, Keeps-gets, Keeps-modify, Keeps-perform, Keeps-bind, keeps_rules,
}
use rnode_linux.Radio.Spi.{transfer, write_bytes, write_read_bytes}
use rnode_linux.Radio.Command.{
  calibrate_image, write_reg, write_buffer, set_tx, set_rx, set_packet_params_lora,
  get_packet_status, get_rx_buffer_status, switch_ant,
}
use rnode_linux.Radio.Begin.{wait_on_busy, set_irq_mask}
use rnode_linux.Radio.Packet.{
  sx126x_begin_packet, sx126x_write, send_packet_params, sx126x_end_packet, sx126x_request,
  sx126x_packet_signal_raw, sx126x_air_time,
}
use rnode_linux.Radio.Settings.{
  sx126x_set_freq, sx126x_set_tx_power, sx126x_set_lora_modulation, sx126x_set_lora_packet,
  sx126x_set_sync_word,
}
use rnode_linux.Radio.Quiet.{Stable, Keeps-wait_on_busy, Keeps-set_irq_mask, Keeps-switch_ant}

pub record Detached {p : Platform} (P : Daemon p → Type 0) : Type 0 where
  pub tcp : (d : Daemon p) (t : Tcp) → P d → P (record d { tcp = t })
  pub radio : (d : Daemon p) (r : Radio) → P d → P (record d { radio = r })
  pub history : (d : Daemon p) (h : History) → P d → P (record d { history = h })

pub Detached-Stable : {p : Platform} {P : Daemon p → Type 0} → Detached P → Stable P
Detached-Stable s = record {
  tcp = s.tcp;
  state = λ d x. s.radio d (record d.radio { state = x });
  recovering = λ d b. s.radio d (record d.radio { recovering = b });
  event = λ d e q. s.history d (e ∷ d.history);
}

module _ {p : Platform} {P : Daemon p → Type 0} (s : Detached P) where
  pub Keeps-any_event : (e : Event) → Keeps P (perform e)
  Keeps-any_event e = Keeps-perform e (λ d. s.history d (e ∷ d.history))

  pub Keeps-set_radio : (f : Radio → Radio) → Keeps P (set_radio f)
  Keeps-set_radio f = Keeps-modify _ (λ d. s.radio d (f d.radio))

  Keeps-any_transfer : (e : Event) (n : ℕ) → Keeps P (transfer e n)
  unfolding transfer
  Keeps-any_transfer e n = search (keeps_rules, Keeps-any_event) depth 16

  Keeps-write : (buf : List ℕ) → Keeps P (write_bytes buf)
  unfolding write_bytes
  Keeps-write buf = search (keeps_rules, Keeps-any_transfer)

  pub Keeps-write_read : (buf : List ℕ) (n : ℕ) → Keeps P (write_read_bytes buf n)
  unfolding write_read_bytes
  Keeps-write_read buf n = search (keeps_rules, Keeps-any_transfer)

  pub Keeps-wait : Keeps P (wait_on_busy {p = p})
  Keeps-wait = Keeps-wait_on_busy (Detached-Stable s)

  Keeps-irq_mask : Keeps P (set_irq_mask {p = p})
  Keeps-irq_mask = Keeps-set_irq_mask (Detached-Stable s)

  Keeps-ant : Keeps P (switch_ant {p = p})
  Keeps-ant = Keeps-switch_ant (Detached-Stable s)

  pub Keeps-begin_packet : Keeps P (sx126x_begin_packet {p = p})
  unfolding sx126x_begin_packet
  Keeps-begin_packet = Keeps-set_radio _

  pub Keeps-sx126x_write : (buf : List ℕ) (n : ℕ) → Keeps P (sx126x_write buf n)
  unfolding sx126x_write write_buffer
  Keeps-sx126x_write buf n = Keeps-bind _ _ Keeps-wait λ _.
      Keeps-bind _ _
        (Keeps-bind _ _ (Keeps-gets _) λ _. Keeps-bind _ _ (Keeps-set_radio _) λ _. Keeps-write _)
        λ _. Keeps-set_radio _

  Keeps-params : (len : ℕ) → Keeps P (send_packet_params len)
  unfolding send_packet_params set_packet_params_lora
  Keeps-params len = search (keeps_rules, Keeps-write)

  pub Keeps-end_packet : Keeps P (sx126x_end_packet {p = p})
  unfolding sx126x_end_packet set_tx
  Keeps-end_packet = Keeps-bind _ _ (Keeps-set_radio _) λ _.
      search (keeps_rules, Keeps-wait, Keeps-params, Keeps-irq_mask, Keeps-ant, Keeps-write) depth
        16

  pub Keeps-request : (timeout : ℕ) → Keeps P (sx126x_request timeout)
  unfolding sx126x_request set_rx
  Keeps-request timeout = Keeps-bind _ _ (Keeps-set_radio _) λ _.
      search (keeps_rules, Keeps-wait, Keeps-params, Keeps-irq_mask, Keeps-ant, Keeps-write) depth
        16

  pub Keeps-packet_signal : Keeps P (sx126x_packet_signal_raw {p = p})
  unfolding sx126x_packet_signal_raw get_packet_status
  Keeps-packet_signal = search (keeps_rules, Keeps-wait, Keeps-write_read)

  pub Keeps-air_time : (len : ℕ) → Keeps P (sx126x_air_time len)
  unfolding sx126x_air_time
  Keeps-air_time len = search keeps_rules

  pub Keeps-set_freq : (x : ℕ) → Keeps P (sx126x_set_freq x)
  unfolding sx126x_set_freq calibrate_image
  Keeps-set_freq x = search (keeps_rules, Keeps-wait, Keeps-write) depth 12

  pub Keeps-set_tx_power : (db : ℕ) → Keeps P (sx126x_set_tx_power db)
  unfolding sx126x_set_tx_power write_reg
  Keeps-set_tx_power db = search (keeps_rules, Keeps-wait, Keeps-write) depth 16

  pub Keeps-modulation :
      (sf : ℕ) (bw : Bw) (cr : Cr) → Keeps P (sx126x_set_lora_modulation sf bw cr)
  unfolding sx126x_set_lora_modulation
  Keeps-modulation sf bw cr =
      Keeps-bind _ _ (Keeps-set_radio _) λ _. search (keeps_rules, Keeps-wait, Keeps-write)

  pub Keeps-lora_packet :
      (header_type : HeaderType) (preamble payload : ℕ) (crc : Crc)
      → Keeps P (sx126x_set_lora_packet header_type preamble payload crc)
  unfolding sx126x_set_lora_packet set_packet_params_lora
  Keeps-lora_packet header_type preamble payload crc =
      Keeps-bind _ _ Keeps-wait λ _. Keeps-bind _ _ (Keeps-write _) λ _. Keeps-set_radio _

  pub Keeps-sync_word : (x : ℕ) → Keeps P (sx126x_set_sync_word x)
  unfolding sx126x_set_sync_word write_reg
  Keeps-sync_word x = search (keeps_rules, Keeps-wait, Keeps-write)

  pub Keeps-rx_buffer_status : Keeps P (get_rx_buffer_status {p = p})
  unfolding get_rx_buffer_status
  Keeps-rx_buffer_status =
      Keeps-bind _ _ (Keeps-write_read _ _)
        λ _. Keeps-bind _ _ (Keeps-set_radio _) λ _. Keeps-pure _
