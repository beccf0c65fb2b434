-- ===== src/Rnode/Settings.antt =====
-- src/rnode.c: the commands that set and report the radio's settings. `param` is the decoder's buffer
-- behind the command byte; it may be longer than the command's own parameters.
use rnode_linux.Base.{
  ℕ, ◌+◌, Bool, true, false, not, List, [], ◌∷◌, ◌==◌, if◌then◌else◌, get_or, int8, wrap_ℤ,
}
use rnode_linux.Base.Bytes.{byte, byte1, byte2, byte3, u16, u32}
use rnode_linux.Platform.{Platform}
use rnode_linux.Rnode.Commands.{
  cmd_bandwidth, cmd_cr, cmd_frequency, cmd_implicit, cmd_preamble, cmd_radio_state,
  cmd_rssi_offset, cmd_sf, cmd_txpower,
}
use rnode_linux.State.{
  Bw, bw_7800, bw_10400, bw_15600, bw_20800, bw_31250, bw_41700, bw_62500, bw_125000, bw_250000,
  bw_500000, Cr, cr_4_4, cr_4_5, cr_4_6, cr_4_7, cr_4_8, crc_on,
}
use rnode_linux.State.Monad.{M, gets, ◌>>=◌, ◌>>◌, when, set_rnode}
use rnode_linux.Kiss.Encode.{kiss_encode}
use rnode_linux.Csma.Params.{csma_update_radio_params}
use rnode_linux.Radio.Settings.{
  sx126x_set_freq, sx126x_set_tx_power, sx126x_set_lora_modulation, sx126x_set_lora_packet, bw_hz,
  cr_code,
}
use rnode_linux.Rnode.Start.{rnode_start, header_type}

-- Every bw_t has a case.
abbrev pub bw_to_hz : Bw → ℕ
bw_to_hz bw_7800 = 7800
bw_to_hz bw_10400 = 10400
bw_to_hz bw_15600 = 15600
bw_to_hz bw_20800 = 20800
bw_to_hz bw_31250 = 31250
bw_to_hz bw_41700 = 41700
bw_to_hz bw_62500 = 62500
bw_to_hz bw_125000 = 125000
bw_to_hz bw_250000 = 250000
bw_to_hz bw_500000 = 500000

-- The bandwidth for a number of hertz; any other number keeps the current one.
unfoldable pub bw_of_hz : ℕ → Bw → Bw
bw_of_hz hz current =
    if hz == 7800
    then bw_7800
    else (if hz == 10400
        then bw_10400
        else (if hz == 15600
            then bw_15600
            else (if hz == 20800
                then bw_20800
                else (if hz == 31250
                    then bw_31250
                    else (if hz == 41700
                        then bw_41700
                        else (if hz == 62500
                            then bw_62500
                            else (if hz == 125000
                                then bw_125000
                                else (if hz == 250000
                                    then bw_250000
                                    else (if hz == 500000 then bw_500000 else current)))))))))

-- The coding rate for 4 to 8; any other number keeps the current one.
unfoldable pub cr_of_param : ℕ → Cr → Cr
cr_of_param cr current =
    if cr == 4
    then cr_4_4
    else (if cr == 5
        then cr_4_5
        else (if cr == 6
            then cr_4_6
            else (if cr == 7 then cr_4_7 else (if cr == 8 then cr_4_8 else current))))

-- `param[i]`
abbrev pub at : List ℕ → ℕ → ℕ
at param i = get_or param i 0

abbrev pub at_u16 : List ℕ → ℕ
at_u16 param = u16 (at param 0) (at param 1)

abbrev pub at_u32 : List ℕ → ℕ
at_u32 param = u32 (at param 0) (at param 1) (at param 2) (at param 3)

-- A 32-bit and a 16-bit number behind a command byte.
abbrev pub ans_u32 : ℕ → ℕ → List ℕ
ans_u32 cmd x = cmd ∷ byte3 x ∷ byte2 x ∷ byte1 x ∷ byte x ∷ []

abbrev pub ans_u16 : ℕ → ℕ → List ℕ
ans_u16 cmd x = cmd ∷ byte1 x ∷ byte x ∷ []

abbrev pub flag : Bool → ℕ
flag b = if b then 0x01 else 0x00

module _ {p : Platform} where
  unfoldable pub update_modulation : M p (Unit {0})
  update_modulation = do
    r ← gets (λ d. d.rnode)
    when r.radio_online (sx126x_set_lora_modulation r.current_sf r.current_bw r.current_cr)

  unfoldable pub update_packet : M p (Unit {0})
  update_packet = do
    r ← gets (λ d. d.rnode)
    when r.radio_online
        (sx126x_set_lora_packet (header_type r.header_implicit) r.preamble_length 15 crc_on)

  unfoldable pub ans_frequency : List ℕ → M p (Unit {0})
  ans_frequency param = do
    let freq = at_u32 param
    when (not (freq == 0)) (do
      set_rnode (λ r. record r { current_freq = freq })
      online ← gets (λ d. d.rnode.radio_online)
      when online (sx126x_set_freq freq))
    current ← gets (λ d. d.rnode.current_freq)
    kiss_encode (ans_u32 cmd_frequency current)

  unfoldable pub ans_bandwidth : List ℕ → M p (Unit {0})
  unfolding bw_of_hz
  ans_bandwidth param = do
    set_rnode (λ r. record r { current_bw = bw_of_hz (at_u32 param) r.current_bw })
    r ← gets (λ d. d.rnode)
    kiss_encode (ans_u32 cmd_bandwidth (bw_hz r.current_bw))
    csma_update_radio_params r.current_sf (bw_to_hz r.current_bw)
    update_modulation

  unfoldable pub ans_txpower : List ℕ → M p (Unit {0})
  ans_txpower param = do
    let db = at param 0
    when (not (db == 0)) (do
      set_rnode (λ r. record r { current_tx_power = db })
      online ← gets (λ d. d.rnode.radio_online)
      when online (sx126x_set_tx_power db))
    power ← gets (λ d. d.rnode.current_tx_power)
    kiss_encode (cmd_txpower ∷ power ∷ [])

  unfoldable pub ans_sf : List ℕ → M p (Unit {0})
  ans_sf param = do
    let sf = at param 0
    when (not (sf == 0)) (set_rnode (λ r. record r { current_sf = sf }))
    r ← gets (λ d. d.rnode)
    kiss_encode (cmd_sf ∷ r.current_sf ∷ [])
    csma_update_radio_params r.current_sf (bw_to_hz r.current_bw)
    update_modulation

  unfoldable pub ans_cr : List ℕ → M p (Unit {0})
  unfolding cr_of_param
  ans_cr param = do
    set_rnode (λ r. record r { current_cr = cr_of_param (at param 0) r.current_cr })
    r ← gets (λ d. d.rnode)
    kiss_encode (cmd_cr ∷ (cr_code r.current_cr + 4) ∷ [])
    update_modulation

  -- 0x01 turns the radio on, 0x00 off; any other value, 0xFF among them, asks.
  unfoldable pub ans_radio_state : List ℕ → M p (Unit {0})
  ans_radio_state param = do
    let request = at param 0
    when (request == 0x01) (do rnode_start; set_rnode (λ r. record r { radio_online = true }))
    when (request == 0x00) (set_rnode (λ r. record r { radio_online = false }))
    online ← gets (λ d. d.rnode.radio_online)
    kiss_encode (cmd_radio_state ∷ flag online ∷ [])

  unfoldable pub ans_rssi_offset : List ℕ → M p (Unit {0})
  ans_rssi_offset param = do
    let offset = at param 0
    when (not (offset == 0)) (set_rnode (λ r. record r { rssi_offset = int8 offset }))
    current ← gets (λ d. d.rnode.rssi_offset)
    kiss_encode (cmd_rssi_offset ∷ wrap_ℤ 256 current ∷ [])

  unfoldable pub ans_preamble : List ℕ → M p (Unit {0})
  ans_preamble param = do
    let preamble = at_u16 param
    when (not (preamble == 0))
        (do set_rnode (λ r. record r { preamble_length = preamble }); update_packet)
    current ← gets (λ d. d.rnode.preamble_length)
    kiss_encode (ans_u16 cmd_preamble current)

  unfoldable pub ans_implicit : List ℕ → M p (Unit {0})
  ans_implicit param = do
    set_rnode (λ r. record r { header_implicit = not (at param 0 == 0) })
    update_packet
    implicit ← gets (λ d. d.rnode.header_implicit)
    kiss_encode (cmd_implicit ∷ flag implicit ∷ [])
