-- ===== src/Radio/Transmit.antt =====
-- A transmission, end to end in the driver: what reaches the chip when a packet is begun, written and
-- ended, however long the chip is busy and whatever its recovery does meanwhile.
use rnode_linux.Base.{
  ℕ, ◌+◌, ◌%◌, ◌<◌, ◌≡◌, refl, ap, Bool, true, false, List, [], ◌∷◌, arith, length, some, take_all,
}
use rnode_linux.Base.Bytes.{byte, byte1}
use rnode_linux.Platform.{Platform, Event, spi, gpio, usleep, cs}
use rnode_linux.State.{Daemon, Radio}
use rnode_linux.State.Monad.{perform, ◌>>◌, set_radio}
use rnode_linux.State.Keeps.{Keeps-pure, Keeps-gets, Keeps-modify}
use rnode_linux.Radio.Spi.{transfer, write_bytes}
use rnode_linux.Radio.Command.{header_code, crc_code, set_packet_params_lora, write_buffer, set_tx}
use rnode_linux.Radio.Begin.{wait_on_busy, sx126x_begin}
use rnode_linux.Radio.Packet.{
  sx126x_begin_packet, sx126x_write, sx126x_end_packet, send_packet_params,
}
use rnode_linux.Radio.Quiet.{
  is_tracked, Keeps-wait_on_busy, Keeps-begin, Keeps-set_irq_mask, Keeps-switch_ant, Keeps-event,
}
use rnode_linux.Radio.Moves.{
  core, core-Stable, Moves, Moves-bind, Moves-gets, Moves-Keeps, Moves-set_radio,
}

-- The commands of a transmission: the packet at the start of the chip's buffer, its length among the
-- packet's parameters, and the start.
abbrev pub write_event : List ℕ → Event
write_event buf = spi (0x0E ∷ 0 ∷ buf) 0

abbrev pub params_event : Radio → ℕ → Event
params_event r len =
    spi
      (0x8C
        ∷ byte1 r.save_preamble_len
        ∷ byte r.save_preamble_len
        ∷ header_code r.save_header_type
        ∷ len
        ∷ crc_code r.save_crc
        ∷ 0
        ∷ 0
        ∷ 0
        ∷ 0
        ∷ [])
      0

abbrev pub start_event : Event
start_event = spi (0x83 ∷ 0 ∷ 0 ∷ 0 ∷ []) 0

module _ {p : Platform} where
  -- The daemon with one more event.
  abbrev pub with_event : Event → Daemon p → Daemon p
  with_event e d = record d { history = e ∷ d.history }

  perform-quiet : (v : Daemon p) (e : Event) → is_tracked e ≡ false → Moves v (perform e) v
  perform-quiet v e h = Moves-Keeps (Keeps-event (core-Stable v) e h)

  perform-tracked :
      (v : Daemon p) (e : Event) → is_tracked e ≡ true → Moves v (perform e) (with_event e v)
  unfolding perform
  perform-tracked v e h = record {
    at = λ d k. ((tt, record d { history = e ∷ d.history }), refl, rw h (ap (with_event e) k));
  }

  transfer-tracked :
      (v : Daemon p) (e : Event) (n : ℕ)
      → is_tracked e ≡ true
      → Moves v (transfer e n) (with_event e v)
  unfolding transfer
  transfer-tracked v e n h = Moves-bind _ _ (perform-quiet v (gpio cs false) refl) λ _.
      Moves-bind _ _ (perform-quiet v (usleep 1) refl) λ _.
        Moves-bind _ _ (perform-tracked v e h) λ _. Moves-bind _ _ (Moves-Keeps (Keeps-gets _)) λ _.
          Moves-bind _ _ (Moves-Keeps (Keeps-gets _)) λ _.
            Moves-bind _ _ (perform-quiet _ (usleep 1) refl) λ _.
              Moves-bind _ _ (perform-quiet _ (gpio cs true) refl) λ _. Moves-Keeps (Keeps-pure _)

  pub write_bytes-tracked :
      (v : Daemon p) (buf : List ℕ)
      → is_tracked (spi buf 0) ≡ true
      → Moves v (write_bytes buf) (with_event (spi buf 0) v)
  unfolding write_bytes
  write_bytes-tracked v buf h =
      Moves-bind _ _ (transfer-tracked v (spi buf 0) 0 h) λ _. Moves-Keeps (Keeps-pure _)

  pub wait : (v : Daemon p) → Moves v (wait_on_busy {p = p}) v
  wait v = Moves-Keeps (Keeps-wait_on_busy (core-Stable v))

  -- The core after the transmission of `buf`.
  unfoldable pub transmitted : List ℕ → Daemon p → Daemon p
  transmitted buf d = record d {
    radio = record d.radio { payload_tx_rx = length buf; fifo_tx_addr_ptr = length buf };
    history = start_event ∷ params_event d.radio (length buf) ∷ write_event buf ∷ d.history;
  }

  -- The daemon with the driver's two counters set.
  abbrev counted : ℕ → ℕ → Daemon p → Daemon p
  counted payload ptr v = record v {
    radio = record v.radio { payload_tx_rx = payload; fifo_tx_addr_ptr = ptr };
  }

  begin_packet : (v : Daemon p) → Moves v sx126x_begin_packet (counted 0 0 v)
  unfolding sx126x_begin_packet
  begin_packet v = Moves-set_radio v _ (λ d. refl)

  write_at_start :
      (v : Daemon p) (buf : List ℕ)
      → length buf < 256
      → Moves
          (counted 0 0 v)
          (write_buffer buf)
          (with_event (write_event buf) (counted 0 (length buf) v))
  unfolding write_buffer
  write_at_start v buf h =
      Moves-gets (λ d. d.radio.fifo_tx_addr_ptr) _ (λ d. refl)
        (Moves-bind _ _ moved λ _. write_bytes-tracked _ (0x0E ∷ 0 ∷ buf) refl)
    where
      len : (0 + length buf) % 256 ≡ length buf
      len = omega arith

      moved :
          Moves
            (counted 0 0 v)
            (set_radio
              (λ r. record r { fifo_tx_addr_ptr = (r.fifo_tx_addr_ptr + length buf) % 256 }))
            (counted 0 (length buf) v)
      moved = rw len at (
          Moves-set_radio (counted 0 0 v)
            (λ r. record r { fifo_tx_addr_ptr = (r.fifo_tx_addr_ptr + length buf) % 256 })
            (λ d. refl))

  write_packet :
      (v : Daemon p) (buf : List ℕ)
      → length buf < 256
      → Moves
          (counted 0 0 v)
          (sx126x_write buf (length buf))
          (with_event (write_event buf) (counted (length buf) (length buf) v))
  unfolding sx126x_write
  write_packet v buf h =
      rw (small, take_all (length buf) buf (omega arith))
        (Moves-bind _ _ (wait _) λ _. Moves-bind _ _ (write_at_start v buf h) λ _. moved)
    where
      small : length buf % 256 ≡ length buf
      small = omega arith

      len : (0 + length buf) % 256 ≡ length buf
      len = omega arith

      moved :
          Moves
            (with_event (write_event buf) (counted 0 (length buf) v))
            (set_radio (λ r. record r { payload_tx_rx = (r.payload_tx_rx + length buf) % 256 }))
            (with_event (write_event buf) (counted (length buf) (length buf) v))
      moved = rw len at (
          Moves-set_radio (with_event (write_event buf) (counted 0 (length buf) v))
            (λ r. record r { payload_tx_rx = (r.payload_tx_rx + length buf) % 256 }) (λ d. refl))

  pub params :
      (v : Daemon p) (len : ℕ)
      → Moves v (send_packet_params len) (with_event (params_event v.radio len) v)
  unfolding send_packet_params set_packet_params_lora
  params v len =
      Moves-gets (λ d. d.radio.save_preamble_len) _ (λ d. refl)
        (Moves-gets (λ d. d.radio.save_header_type) _ (λ d. refl)
          (Moves-gets (λ d. d.radio.save_crc) _ (λ d. refl)
            (Moves-bind _ _ (write_bytes-tracked v _ refl) λ _. Moves-Keeps (Keeps-pure _))))

  end_packet :
      (v : Daemon p)
      → Moves v sx126x_end_packet
          (with_event start_event (with_event (params_event v.radio v.radio.fifo_tx_addr_ptr) v))
  unfolding sx126x_end_packet set_tx
  end_packet v = Moves-bind _ _ (Moves-Keeps (Keeps-modify _ (λ d h. h))) λ _.
      Moves-bind _ _ (wait v) λ _.
        Moves-gets (λ d. d.radio.fifo_tx_addr_ptr) _ (λ d. refl)
          (Moves-bind _ _ (params v v.radio.fifo_tx_addr_ptr) λ _.
            Moves-bind _ _ (Moves-Keeps (Keeps-set_irq_mask (core-Stable _))) λ _.
              Moves-bind _ _ (Moves-Keeps (Keeps-switch_ant (core-Stable _))) λ _.
                Moves-bind _ _ (wait _) λ _.
                  Moves-bind _ _ (write_bytes-tracked _ (0x83 ∷ 0 ∷ 0 ∷ 0 ∷ []) refl) λ _. wait _)

  pub Moves-transmitted :
      (v : Daemon p) (buf : List ℕ)
      → length buf < 256
      → Moves v
          (do sx126x_begin_packet; sx126x_write buf (length buf); sx126x_end_packet)
          (transmitted buf v)
  unfolding transmitted
  Moves-transmitted v buf h =
      Moves-bind _ _ (begin_packet v) λ _. Moves-bind _ _ (write_packet v buf h) λ _. end_packet _

  pub core-transmitted :
      (d : Daemon p) (buf : List ℕ)
      → length buf < 256
      → (d' : Daemon p) × ((do
        sx126x_begin_packet
        sx126x_write buf (length buf)
        sx126x_end_packet)
            d
          ≡ some (tt, d'))
        × (core d' ≡ transmitted buf (core d))
  core-transmitted d buf h =
      let (r, e, k) = (Moves-transmitted (core d) buf h).at d refl in (r.1, e, k)

  pub core-wait_on_busy :
      (d : Daemon p) → (d' : Daemon p) × (wait_on_busy d ≡ some (tt, d')) × (core d' ≡ core d)
  core-wait_on_busy d =
      let (r, e, k) = (Keeps-wait_on_busy (core-Stable (core d))).at d refl in (r.1, e, k)

  pub core-sx126x_begin :
      (d : Daemon p)
      → (ok : Bool) × (d' : Daemon p) × (sx126x_begin d ≡ some (ok, d')) × (core d' ≡ core d)
  core-sx126x_begin d =
      let (r, e, k) = (Keeps-begin (core-Stable (core d))).at d refl in (r.0, r.1, e, k)
