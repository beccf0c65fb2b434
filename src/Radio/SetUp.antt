-- ===== src/Radio/SetUp.antt =====
-- What each call that sets the radio up sends to it, however long the chip is busy and whatever its
-- recovery does meanwhile.
use rnode_linux.Base.{ℕ, ◌+◌, ◌%◌, refl, [], ◌∷◌, ltb, if◌then◌else◌, ◌++◌}
use rnode_linux.Base.Bytes.{byte, byte1, byte2, byte3}
use rnode_linux.Platform.{Platform, Event, History, spi}
use rnode_linux.State.{Daemon, Radio, Bw, Cr, HeaderType, Crc}
use rnode_linux.State.Keeps.{Keeps-pure, Keeps-modify}
use rnode_linux.Radio.Command.{calibrate_image, write_reg, set_packet_params_lora, set_rx}
use rnode_linux.Radio.Settings.{
  bw_code, cr_code, bw_hz, image_band, freq_word, sync_word_bytes, sx126x_set_freq,
  sx126x_set_tx_power, sx126x_set_lora_modulation, sx126x_set_lora_packet, sx126x_set_sync_word,
}
use rnode_linux.Radio.Packet.{sx126x_request, rx_timeout}
use rnode_linux.Radio.Quiet.{Keeps-set_irq_mask, Keeps-switch_ant}
use rnode_linux.Radio.Moves.{
  core-Stable, Moves, Moves-bind, Moves-gets, Moves-Keeps, Moves-set_radio,
}
use rnode_linux.Radio.Transmit.{write_bytes-tracked, wait, params, params_event}

-- CalibrateImage and SetRfFrequency, newest first.
abbrev pub freq_events : ℕ → History
freq_events x =
    spi
      (0x86
        ∷ byte3 (freq_word x)
        ∷ byte2 (freq_word x)
        ∷ byte1 (freq_word x)
        ∷ byte (freq_word x)
        ∷ [])
      0
    ∷ spi (0x98 ∷ (image_band x).0 ∷ (image_band x).1 ∷ []) 0
    ∷ []

-- SetPaConfig, SetRegulatorMode, the overcurrent protection and SetTxParams, with up to 22 dBm.
abbrev pub power_events : ℕ → History
power_events db =
    spi (0x8E ∷ (if ltb 22 db then 22 else db) ∷ 0x02 ∷ []) 0
    ∷ spi (0x0D ∷ 0x08 ∷ 0xE7 ∷ 0x38 ∷ []) 0
    ∷ spi (0x96 ∷ 0x01 ∷ []) 0
    ∷ spi (0x95 ∷ 0x04 ∷ 0x07 ∷ 0x00 ∷ 0x01 ∷ []) 0
    ∷ []

abbrev pub modulation_event : ℕ → Bw → Cr → Event
modulation_event sf bw cr = spi (0x8B ∷ sf ∷ bw_code bw ∷ cr_code cr ∷ 0 ∷ 0 ∷ 0 ∷ 0 ∷ 0 ∷ []) 0

abbrev pub sync_word_event : ℕ → Event
sync_word_event x = spi (0x0D ∷ 0x07 ∷ 0x40 ∷ sync_word_bytes x) 0

abbrev pub receive_event : ℕ → Event
receive_event t = spi (0x82 ∷ byte2 t ∷ byte1 t ∷ byte t ∷ []) 0

-- The driver's variables with a modulation.
abbrev pub modulated : ℕ → Bw → Cr → Radio → Radio
modulated sf bw cr r = record r { save_sf = sf; save_cr = cr_code cr + 4; save_bw = bw_hz bw }

-- And with a packet's parameters.
abbrev pub packeted : HeaderType → ℕ → ℕ → Crc → Radio → Radio
packeted header_type preamble payload crc r = record r {
  save_preamble_len = preamble % 256;
  save_header_type = header_type;
  save_payload_len = payload % 256;
  save_crc = crc;
}

module _ {p : Platform} where
  abbrev pub with_events : History → Daemon p → Daemon p
  with_events h d = record d { history = h ++ d.history }

  pub Moves-set_freq :
      (v : Daemon p) (x : ℕ) → Moves v (sx126x_set_freq x) (with_events (freq_events x) v)
  unfolding sx126x_set_freq calibrate_image
  Moves-set_freq v x = Moves-bind _ _ (wait v) λ _.
      Moves-bind _ _ (write_bytes-tracked v _ refl) λ _.
        Moves-bind _ _ (wait _)
          λ _. Moves-bind _ _ (write_bytes-tracked _ _ refl) λ _. Moves-Keeps (Keeps-pure _)

  pub Moves-set_tx_power :
      (v : Daemon p) (db : ℕ) → Moves v (sx126x_set_tx_power db) (with_events (power_events db) v)
  unfolding sx126x_set_tx_power write_reg
  Moves-set_tx_power v db = Moves-bind _ _ (wait v) λ _.
      Moves-bind _ _ (write_bytes-tracked v _ refl) λ _. Moves-bind _ _ (wait _) λ _.
        Moves-bind _ _ (write_bytes-tracked _ _ refl) λ _. Moves-bind _ _ (wait _) λ _.
          Moves-bind _ _ (write_bytes-tracked _ _ refl) λ _.
            Moves-bind _ _ (wait _)
              λ _. Moves-bind _ _ (write_bytes-tracked _ _ refl) λ _. Moves-Keeps (Keeps-pure _)

  pub Moves-modulation :
      (v : Daemon p) (sf : ℕ) (bw : Bw) (cr : Cr)
      → Moves v (sx126x_set_lora_modulation sf bw cr) (record v {
        radio = modulated sf bw cr v.radio;
        history = modulation_event sf bw cr ∷ v.history;
      })
  unfolding sx126x_set_lora_modulation
  Moves-modulation v sf bw cr =
      Moves-bind _ _ (Moves-set_radio v (modulated sf bw cr) (λ d. refl)) λ _.
        Moves-bind _ _ (wait _)
          λ _. Moves-bind _ _ (write_bytes-tracked _ _ refl) λ _. Moves-Keeps (Keeps-pure _)

  pub Moves-lora_packet :
      (v : Daemon p) (header_type : HeaderType) (preamble payload : ℕ) (crc : Crc)
      → let r = packeted header_type preamble payload crc v.radio in
        Moves v
          (sx126x_set_lora_packet header_type preamble payload crc)
          (record v { radio = r; history = params_event r (payload % 256) ∷ v.history })
  unfolding sx126x_set_lora_packet set_packet_params_lora
  Moves-lora_packet v header_type preamble payload crc = Moves-bind _ _ (wait v) λ _.
      Moves-bind _ _ (write_bytes-tracked v _ refl)
        λ _. Moves-set_radio _ (packeted header_type preamble payload crc) (λ d. refl)

  pub Moves-sync_word :
      (v : Daemon p) (x : ℕ)
      → Moves v (sx126x_set_sync_word x) (with_events (sync_word_event x ∷ []) v)
  unfolding sx126x_set_sync_word write_reg
  Moves-sync_word v x =
      Moves-bind _ _ (wait v)
        λ _. Moves-bind _ _ (write_bytes-tracked v _ refl) λ _. Moves-Keeps (Keeps-pure _)

  pub Moves-request :
      (v : Daemon p) (timeout : ℕ)
      → Moves v (sx126x_request timeout) (
          with_events
            (receive_event (rx_timeout timeout) ∷ params_event v.radio v.radio.payload_tx_rx ∷ [])
            v)
  unfolding sx126x_request set_rx
  Moves-request v timeout = Moves-bind _ _ (Moves-Keeps (Keeps-modify _ (λ d h. h))) λ _.
      Moves-bind _ _ (wait v) λ _.
        Moves-gets (λ d. d.radio.payload_tx_rx) _ (λ d. refl)
          (Moves-bind _ _ (params v v.radio.payload_tx_rx) λ _.
            Moves-bind _ _ (Moves-Keeps (Keeps-set_irq_mask (core-Stable _))) λ _.
              Moves-bind _ _ (Moves-Keeps (Keeps-switch_ant (core-Stable _))) λ _.
                Moves-bind _ _ (wait _) λ _.
                  Moves-bind _ _ (write_bytes-tracked _ _ refl) λ _. Moves-Keeps (Keeps-pure _))
