-- ===== src/Radio/Settings.antt =====
-- sx126x/sx126x.c: frequency, power, modulation, packet parameters and sync word. The variables
-- `symbol_rate`, `symbol_time_ms`, `bitrate` and `save_ldro` are left out: nothing reads them.
use rnode_linux.Base.{
  ℕ, ◌+◌, ◌*◌, ◌/◌, ◌%◌, List, [], ◌∷◌, ltb, leb, if◌then◌else◌, bit_and, bit_or,
}
use rnode_linux.Base.Bytes.{byte, byte1, byte2, byte3}
use rnode_linux.Radio.Chip.{
  cal_img_430, cal_img_440, cal_img_470, cal_img_510, cal_img_779, cal_img_787, cal_img_863,
  cal_img_870, cal_img_902, cal_img_928, reg_ocp_configuration, pa_ramp_40u, reg_lora_sync_word_msb,
  ldro_off,
}
use rnode_linux.Platform.{Platform}
use rnode_linux.State.{
  Bw, bw_7800, bw_10400, bw_15600, bw_20800, bw_31250, bw_41700, bw_62500, bw_125000, bw_250000,
  bw_500000, Cr, cr_4_4, cr_4_5, cr_4_6, cr_4_7, cr_4_8, HeaderType, Crc,
}
use rnode_linux.State.Monad.{M, pure, ◌>>=◌, ◌>>◌, set_radio}
use rnode_linux.Radio.Spi.{write_bytes}
use rnode_linux.Radio.Command.{calibrate_image, set_packet_params_lora, write_reg}
use rnode_linux.Radio.Begin.{wait_on_busy}

-- The values of bw_t and cr_t.
abbrev pub bw_code : Bw → ℕ
bw_code bw_7800 = 0x00
bw_code bw_10400 = 0x08
bw_code bw_15600 = 0x01
bw_code bw_20800 = 0x09
bw_code bw_31250 = 0x02
bw_code bw_41700 = 0x0A
bw_code bw_62500 = 0x03
bw_code bw_125000 = 0x04
bw_code bw_250000 = 0x05
bw_code bw_500000 = 0x06

abbrev pub cr_code : Cr → ℕ
cr_code cr_4_4 = 0
cr_code cr_4_5 = 1
cr_code cr_4_6 = 2
cr_code cr_4_7 = 3
cr_code cr_4_8 = 4

-- The switch of sx126x_set_lora_modulation; every bw_t has a case.
abbrev pub bw_hz : Bw → ℕ
bw_hz bw_7800 = 7800
bw_hz bw_10400 = 10400
bw_hz bw_15600 = 15600
bw_hz bw_20800 = 20800
bw_hz bw_31250 = 31250
bw_hz bw_41700 = 41700
bw_hz bw_62500 = 62500
bw_hz bw_125000 = 125000
bw_hz bw_250000 = 250000
bw_hz bw_500000 = 500000

-- The image calibration band of a frequency, CAL_IMG_ constants.
unfoldable pub image_band : ℕ → ℕ × ℕ
image_band x =
    if ltb x 446000000
    then (cal_img_430, cal_img_440)
    else (if ltb x 734000000
        then (cal_img_470, cal_img_510)
        else (if ltb x 828000000
            then (cal_img_779, cal_img_787)
            else (if ltb x 877000000
                then (cal_img_863, cal_img_870)
                else (cal_img_902, cal_img_928))))

-- The chip's frequency word, in steps of 32 MHz / 2^25; the product is taken in 64 bits.
unfoldable pub freq_word : ℕ → ℕ
freq_word x = x * 33554432 % 18446744073709551616 / 32000000

-- Both bytes of the register: a sync word of one byte is spread over two.
unfoldable pub sync_word_bytes : ℕ → List ℕ
sync_word_bytes x =
    if leb x 0xFF
    then bit_or (bit_and x 0xF0) 0x04 ∷ bit_or (x * 16 % 256) 0x04 ∷ []
    else byte1 x ∷ byte x ∷ []

module _ {p : Platform} where
  unfoldable pub sx126x_set_freq : ℕ → M p (Unit {0})
  unfolding image_band freq_word
  sx126x_set_freq x = do
    wait_on_busy
    let (min, max) = image_band x
    _ ← calibrate_image min max
    let freq = freq_word x
    wait_on_busy
    _ ← write_bytes (0x86 ∷ byte3 freq ∷ byte2 freq ∷ byte1 freq ∷ byte freq ∷ [])
    pure tt

  unfoldable pub sx126x_set_tx_power : ℕ → M p (Unit {0})
  sx126x_set_tx_power db = do
    let level = if ltb 22 db then 22 else db
    wait_on_busy
    _ ← write_bytes (0x95 ∷ 0x04 ∷ 0x07 ∷ 0x00 ∷ 0x01 ∷ [])
    wait_on_busy
    _ ← write_bytes (0x96 ∷ 0x01 ∷ [])
    wait_on_busy
    _ ← write_reg reg_ocp_configuration (0x38 ∷ [])
    wait_on_busy
    _ ← write_bytes (0x8E ∷ level ∷ pa_ramp_40u ∷ [])
    pure tt

  -- The caller always passes LDRO_OFF.
  unfoldable pub sx126x_set_lora_modulation : ℕ → Bw → Cr → M p (Unit {0})
  sx126x_set_lora_modulation sf bw cr = do
    set_radio (λ r. record r { save_sf = sf; save_cr = cr_code cr + 4; save_bw = bw_hz bw })
    wait_on_busy
    _ ← write_bytes (0x8B ∷ sf ∷ bw_code bw ∷ cr_code cr ∷ ldro_off ∷ 0 ∷ 0 ∷ 0 ∷ 0 ∷ [])
    pure tt

  -- `preamble_len` and `payload_len` are uint8_t: an argument is cut to its low byte.
  unfoldable pub sx126x_set_lora_packet : HeaderType → ℕ → ℕ → Crc → M p (Unit {0})
  sx126x_set_lora_packet header_type preamble_arg payload_arg crc = do
    let preamble_len = preamble_arg % 256
    let payload_len = payload_arg % 256
    wait_on_busy
    _ ← set_packet_params_lora preamble_len header_type payload_len crc
    set_radio (λ r. record r {
      save_preamble_len = preamble_len;
      save_header_type = header_type;
      save_payload_len = payload_len;
      save_crc = crc;
    })

  unfoldable pub sx126x_set_sync_word : ℕ → M p (Unit {0})
  unfolding sync_word_bytes
  sx126x_set_sync_word x = do
    wait_on_busy
    _ ← write_reg reg_lora_sync_word_msb (sync_word_bytes x)
    pure tt
