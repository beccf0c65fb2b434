-- ===== src/Radio/Command.antt =====
-- sx126x/sx126x.c: the commands of the chip that are one transfer each, an opcode with its parameters,
-- and the antenna switch. The lines of the switch are taken as requested, since main ends the program
-- where requesting one fails. set_packet_params_loRa also computes `preamble_symbols`, which nothing
-- reads.
use rnode_linux.Base.{ℕ, ◌+◌, ◌%◌, Bool, true, false, List, [], ◌∷◌, drop, get_or, length}
use rnode_linux.Base.Bytes.{byte, byte1, byte2, u16}
use rnode_linux.Radio.Chip.{irq_all}
use rnode_linux.Platform.{Platform, usleep, gpio, rx_en, tx_en}
use rnode_linux.State.{
  HeaderType, header_explicit, header_implicit, Crc, crc_off, crc_on, idle, rx_single,
  rx_continuous, tx, RadioState,
}
use rnode_linux.State.Monad.{M, pure, gets, perform, ◌>>=◌, ◌>>◌, set_radio}
use rnode_linux.Radio.Spi.{write_bytes, write_read_bytes, read_bytes}

abbrev pub header_code : HeaderType → ℕ
header_code header_explicit = 0x00
header_code header_implicit = 0x01

abbrev pub crc_code : Crc → ℕ
crc_code crc_off = 0x00
crc_code crc_on = 0x01

module _ {p : Platform} where
  unfoldable pub set_standby : ℕ → M p Bool
  set_standby x = write_bytes (0x80 ∷ x ∷ [])

  unfoldable pub set_packet_type : ℕ → M p Bool
  set_packet_type x = write_bytes (0x8A ∷ x ∷ [])

  unfoldable pub calibrate : ℕ → M p Bool
  calibrate x = write_bytes (0x89 ∷ x ∷ [])

  unfoldable pub calibrate_image : ℕ → ℕ → M p Bool
  calibrate_image min max = write_bytes (0x98 ∷ min ∷ max ∷ [])

  -- The preamble's length is a byte here, so that its high byte is 0.
  unfoldable pub set_packet_params_lora : ℕ → HeaderType → ℕ → Crc → M p Bool
  set_packet_params_lora preamble_len header_type payload_len crc = write_bytes (
      0x8C
      ∷ byte1 preamble_len
      ∷ byte preamble_len
      ∷ header_code header_type
      ∷ payload_len
      ∷ crc_code crc
      ∷ 0
      ∷ 0
      ∷ 0
      ∷ 0
      ∷ [])

  unfoldable pub clear_irq_status : ℕ → M p Bool
  clear_irq_status irq_mask = write_bytes (0x02 ∷ byte1 irq_mask ∷ byte irq_mask ∷ [])

  unfoldable pub irq_setup : ℕ → ℕ → ℕ → ℕ → M p Bool
  irq_setup irq_mask dio1 dio2 dio3 = do
    _ ← clear_irq_status irq_all
    write_bytes (
        0x08
        ∷ byte1 irq_mask
        ∷ byte irq_mask
        ∷ byte1 dio1
        ∷ byte dio1
        ∷ byte1 dio2
        ∷ byte dio2
        ∷ byte1 dio3
        ∷ byte dio3
        ∷ [])

  unfoldable pub get_irq_status : M p ℕ
  get_irq_status = do
    ans ← write_read_bytes (0x12 ∷ []) 3
    pure (u16 (get_or ans 1 0) (get_or ans 2 0))

  unfoldable pub get_rx_buffer_status : M p ℕ
  get_rx_buffer_status = do
    ans ← write_read_bytes (0x13 ∷ []) 3
    set_radio (λ r. record r { fifo_rx_addr_ptr = get_or ans 2 0 })
    pure (get_or ans 1 0)

  -- rssi, snr and signal_rssi, as bytes
  unfoldable pub get_packet_status : M p (ℕ × ℕ × ℕ)
  get_packet_status = do
    ans ← write_read_bytes (0x14 ∷ []) 4
    pure (get_or ans 1 0, get_or ans 2 0, get_or ans 3 0)

  -- The answer is one byte long here, the first that the chip clocks out.
  unfoldable pub get_current_rssi : M p ℕ
  get_current_rssi = do ans ← write_read_bytes (0x15 ∷ []) 1; pure (get_or ans 0 0)

  unfoldable pub set_tx : ℕ → M p Bool
  set_tx timeout = write_bytes (0x83 ∷ byte2 timeout ∷ byte1 timeout ∷ byte timeout ∷ [])

  unfoldable pub set_rx : ℕ → M p Bool
  set_rx timeout = write_bytes (0x82 ∷ byte2 timeout ∷ byte1 timeout ∷ byte timeout ∷ [])

  -- `reg` is 16 bits wide.
  unfoldable pub write_reg : ℕ → List ℕ → M p Bool
  write_reg reg buf = write_bytes (0x0D ∷ byte1 reg ∷ byte reg ∷ buf)

  -- The address is the pointer before the loop moves it by one for each byte.
  unfoldable pub write_buffer : List ℕ → M p Bool
  write_buffer buf = do
    start ← gets (λ d. d.radio.fifo_tx_addr_ptr)
    set_radio (λ r. record r { fifo_tx_addr_ptr = (r.fifo_tx_addr_ptr + length buf) % 256 })
    write_bytes (0x0E ∷ start ∷ buf)

  unfoldable pub read_buffer : ℕ → M p (List ℕ)
  read_buffer len = do
    r ← gets (λ d. d.radio)
    ans ← write_read_bytes (0x1E ∷ r.fifo_rx_addr_ptr ∷ []) (len + 1)
    pure (drop 1 ans)

  unfoldable pub sx126x_get_status_mode : M p ℕ
  sx126x_get_status_mode = do res ← read_bytes (0xC0 ∷ 0x00 ∷ []); pure (get_or res 1 0)

  abbrev pub antenna : RadioState → M p (Unit {0})
  antenna idle = do perform (gpio rx_en false); perform (gpio tx_en false)
  antenna tx = do perform (gpio rx_en false); perform (usleep 100); perform (gpio tx_en true)
  antenna rx_single = do perform (gpio tx_en false); perform (usleep 100); perform (gpio rx_en true)
  antenna rx_continuous = do
    perform (gpio tx_en false)
    perform (usleep 100)
    perform (gpio rx_en true)

  unfoldable pub switch_ant : M p (Unit {0})
  switch_ant = do state ← gets (λ d. d.radio.state); antenna state
