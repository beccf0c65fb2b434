-- ===== src/Radio/Packet.antt =====
-- sx126x/sx126x.c: sending and receiving packets, signal levels and time on air.
use rnode_linux.Base.{
  ℕ, ℤ, ◌+◌, ◌-◌, ◌*◌, ◌%◌, ◌^◌, List, take, ltb, ◌==◌, if◌then◌else◌, wrap_ℤ, int8, sub_ℕ,
  pos_part, neg_part, quot_ℤ,
}
use rnode_linux.Platform.{Platform}
use rnode_linux.State.{tx, rx_continuous, rx_single, Radio, RadioState}
use rnode_linux.State.Monad.{M, pure, gets, ◌>>=◌, ◌>>◌, set_radio}
use rnode_linux.Radio.Command.{
  set_packet_params_lora, set_tx, set_rx, switch_ant, write_buffer, read_buffer, get_packet_status,
  get_current_rssi,
}
use rnode_linux.Radio.Begin.{wait_on_busy, set_irq_mask}

-- RX_CONTINUOUS
abbrev pub rx_forever : ℕ
rx_forever = 0xFFFFFF

-- `-raw / 2` of the raw level as an int8_t, rounded towards zero.
unfoldable pub rssi_of_raw : ℕ → ℤ
rssi_of_raw raw = let x = int8 raw in quot_ℤ (sub_ℕ (neg_part x) (pos_part x)) 2

-- A timeout that does not fit in 24 bits after the shift is sent as RX_SINGLE, 0.
unfoldable pub rx_timeout : ℕ → ℕ
rx_timeout timeout =
    if timeout == rx_forever
    then timeout
    else (let t = timeout * 64 % 2 ^ 32 in if ltb 0xFFFFFF t then 0 else t)

-- The preamble and the data of a packet of `len` bytes, in ms.
module _ (p : Platform) (r : Radio) where
  unfoldable pub symbol_ms : p.Float
  symbol_ms = p.mul (p.div (p.powf 2 r.save_sf) (p.float r.save_bw)) (p.float 1000)

  unfoldable pub payload_symbols : ℕ → ℕ
  payload_symbols len =
      let start = p.sub (p.mul (p.float 8) (p.float len)) (p.mul (p.float 4) (p.float r.save_sf)) in
      let bits = p.add (p.add (p.add start (p.float 8)) (p.float 16)) (p.float 20) in
      let blocks = p.ceil (p.widen (p.div (p.div bits (p.float 4)) (p.float r.save_sf))) in
      let symbols = p.add_double (p.mul_double blocks (p.double r.save_cr)) (p.double 8) in
      wrap_ℤ 65536 (p.trunc_double symbols)

  unfoldable pub preamble_ms : ℕ
  unfolding symbol_ms
  preamble_ms =
      wrap_ℤ (2 ^ 32)
        (p.trunc (p.mul (p.add (p.float r.save_preamble_len) (p.quarters 17)) symbol_ms))

  unfoldable pub data_ms : ℕ → ℕ
  unfolding symbol_ms payload_symbols
  data_ms len = wrap_ℤ (2 ^ 32) (p.trunc (p.mul (p.float (payload_symbols len)) symbol_ms))

module _ {p : Platform} where
  unfoldable pub sx126x_begin_packet : M p (Unit {0})
  sx126x_begin_packet = set_radio (λ r. record r { payload_tx_rx = 0; fifo_tx_addr_ptr = 0 })

  -- `len` is uint8_t: of a buffer whose length is `n` the first `n % 256` bytes are written.
  unfoldable pub sx126x_write : List ℕ → ℕ → M p (Unit {0})
  sx126x_write buf n = do
    let len = n % 256
    wait_on_busy
    _ ← write_buffer (take len buf)
    set_radio (λ r. record r { payload_tx_rx = (r.payload_tx_rx + len) % 256 })

  -- set_packet_params_loRa with the saved parameters and a payload length.
  unfoldable pub send_packet_params : ℕ → M p (Unit {0})
  send_packet_params len = do
    preamble_len ← gets (λ d. d.radio.save_preamble_len)
    header_type ← gets (λ d. d.radio.save_header_type)
    crc ← gets (λ d. d.radio.save_crc)
    _ ← set_packet_params_lora preamble_len header_type len crc
    pure tt

  unfoldable pub sx126x_end_packet : M p (Unit {0})
  sx126x_end_packet = do
    set_radio (λ r. record r { state = tx })
    wait_on_busy
    len ← gets (λ d. d.radio.fifo_tx_addr_ptr)
    send_packet_params len
    set_irq_mask
    switch_ant
    wait_on_busy
    _ ← set_tx 0
    wait_on_busy

  unfoldable pub sx126x_request : ℕ → M p (Unit {0})
  sx126x_request timeout = do
    set_radio (λ r. record r { state = if timeout == rx_forever then rx_continuous else rx_single })
    wait_on_busy
    len ← gets (λ d. d.radio.payload_tx_rx)
    send_packet_params len
    set_irq_mask
    switch_ant
    wait_on_busy
    _ ← set_rx (rx_timeout timeout)
    pure tt

  unfoldable pub sx126x_read : ℕ → M p (List ℕ)
  sx126x_read len = do
    wait_on_busy
    buf ← read_buffer len
    set_radio (λ r. record r {
      payload_tx_rx = if ltb len r.payload_tx_rx then r.payload_tx_rx - len else 0;
    })
    pure buf

  unfoldable pub sx126x_packet_signal_raw : M p (ℕ × ℕ × ℕ)
  sx126x_packet_signal_raw = do wait_on_busy; get_packet_status

  abbrev pub sx126x_get_state : M p RadioState
  sx126x_get_state = gets (λ d. d.radio.state)

  unfoldable pub sx126x_current_rssi : M p ℤ
  unfolding rssi_of_raw
  sx126x_current_rssi = do wait_on_busy; raw ← get_current_rssi; pure (rssi_of_raw raw)

  unfoldable pub sx126x_air_time : ℕ → M p ℕ
  unfolding preamble_ms data_ms
  sx126x_air_time len = do
    r ← gets (λ d. d.radio)
    pure ((preamble_ms p r + data_ms p r len) % 2 ^ 32)
