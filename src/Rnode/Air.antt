-- ===== src/Rnode/Air.antt =====
-- src/rnode.c: packets between the air and the client. A packet of more than 254 bytes goes out in two
-- frames, and what comes in two frames is put together. A frame is a header byte, with the sequence in
-- its high half and FLAG_SPLIT in its lowest bit, and up to 254 bytes.
use rnode_linux.Base.{
  ℕ, ◌+◌, ◌*◌, ◌/◌, ◌%◌, ◌^◌, not, List, [], ◌∷◌, ltb, leb, ◌==◌, if◌then◌else◌, length, take, drop,
  copy_at, ◌+ℤ◌, pos, wrap_ℤ, bit_or,
}
use rnode_linux.Platform.{Platform}
use rnode_linux.Rnode.Commands.{cmd_data, cmd_stat_rssi, cmd_stat_snr}
use rnode_linux.State.Monad.{M, pure, fault, gets, ◌>>=◌, ◌>>◌, when, set_rnode}
use rnode_linux.Kiss.Encode.{kiss_encode}
use rnode_linux.Csma.Airtime.{random, csma_add_airtime}
use rnode_linux.Radio.Packet.{
  sx126x_begin_packet, sx126x_write, sx126x_end_packet, sx126x_air_time, sx126x_request,
  sx126x_read, sx126x_packet_signal_raw, rx_forever,
}

abbrev pub single_mtu : ℕ
single_mtu = 255

abbrev pub data_mtu : ℕ
data_mtu = 254

abbrev pub seq_unset : ℕ
seq_unset = 0xFF

abbrev pub flag_split : ℕ
flag_split = 0x01

-- What the reassembly does with the bytes of a frame.
pub data Part : Type 0 where
  first second whole : Part

-- The branch of rnode_from_air, from the variable `seq` and the frame's header.
unfoldable pub part_of : ℕ → ℕ → Part
part_of seq header =
    if header % 2 == 1
    then (if seq == seq_unset then first else (if seq == header / 16 then second else first))
    else whole

module _ {p : Platform} where
  -- `memcpy(&buf_in[len_in], buf, len); len_in += len;`
  unfoldable pub append_buf : List ℕ → M p (Unit {0})
  append_buf buf = do
    r ← gets (λ d. d.rnode)
    if leb (r.len_in + length buf) (length r.buf_in)
        then set_rnode (λ r. record r {
          buf_in = copy_at r.buf_in r.len_in buf;
          len_in = r.len_in + length buf;
        })
        else fault

  unfoldable pub count_rx : M p (Unit {0})
  count_rx = set_rnode (λ r. record r { stat_rx = (r.stat_rx + 1) % 2 ^ 32 })

  unfoldable pub count_tx : M p (Unit {0})
  count_tx = set_rnode (λ r. record r { stat_tx = (r.stat_tx + 1) % 2 ^ 32 })

  -- The end of rnode_from_air, at a packet that is ready.
  unfoldable pub hand_over : M p (Unit {0})
  hand_over = do
    r ← gets (λ d. d.rnode)
    kiss_encode (cmd_data ∷ take r.len_in r.buf_in)
    set_rnode (λ r. record r { len_in = 0 })
    count_rx

  unfoldable pub reassemble : Part → ℕ → List ℕ → M p (Unit {0})
  reassemble first sequence buf = do
    set_rnode (λ r. record r { len_in = 0 })
    append_buf buf
    set_rnode (λ r. record r { seq = sequence })
  reassemble second sequence buf = do
    append_buf buf
    set_rnode (λ r. record r { seq = seq_unset })
    hand_over
  reassemble whole sequence buf = do
    r ← gets (λ d. d.rnode)
    when (not (r.seq == seq_unset)) (set_rnode (λ r. record r { len_in = 0; seq = seq_unset }))
    append_buf buf
    hand_over

  -- An empty frame has no header to read.
  unfoldable pub from_air_frame : List ℕ → M p (Unit {0})
  unfolding part_of
  from_air_frame [] = fault
  from_air_frame (header ∷ buf) = do
    r ← gets (λ d. d.rnode)
    reassemble (part_of r.seq header) (header / 16) buf

  unfoldable pub rnode_from_air : List ℕ → M p (Unit {0})
  rnode_from_air buf = do
    promisc ← gets (λ d. d.rnode.promisc)
    if promisc then (do kiss_encode (cmd_data ∷ buf); count_rx) else from_air_frame buf

  unfoldable pub tx_buf : List ℕ → ℕ → M p (Unit {0})
  tx_buf buf flag = do
    seq_tx ← gets (λ d. d.rnode.seq_tx)
    sx126x_begin_packet
    sx126x_write (bit_or seq_tx flag ∷ buf) (length buf + 1)
    sx126x_end_packet

  -- A packet that fits in one frame.
  unfoldable pub to_air_whole : List ℕ → M p ℕ
  to_air_whole buf = do
    tx_buf buf 0
    set_rnode (λ r. record r { len_tx = 0 })
    sx126x_air_time (length buf % 65536)

  -- Any other: the tail is saved in `buf_tx`, for rnode_tx_done, and the first part goes out.
  unfoldable pub to_air_split : List ℕ → M p ℕ
  to_air_split buf = do
    let tail = drop data_mtu buf
    if leb (length tail) single_mtu
        then (do
          set_rnode (λ r. record r { len_tx = length tail; buf_tx = copy_at r.buf_tx 0 tail })
          tail_time ← sx126x_air_time (length tail % 65536)
          tx_buf (take data_mtu buf) flag_split
          first_time ← sx126x_air_time data_mtu
          pure ((tail_time + first_time) % 2 ^ 32))
        else fault

  unfoldable pub to_air_raw : List ℕ → M p ℕ
  to_air_raw buf = do
    sx126x_begin_packet
    sx126x_write buf (length buf)
    sx126x_end_packet
    sx126x_air_time (length buf % 65536)

  -- `random() & 0xF0` is the second nibble of the number, in its place.
  unfoldable pub to_air_framed : List ℕ → M p ℕ
  to_air_framed buf = do
    r ← random
    set_rnode (λ s. record s { seq_tx = r / 16 % 16 * 16 })
    if leb (length buf) data_mtu then to_air_whole buf else to_air_split buf

  unfoldable pub rnode_to_air : List ℕ → M p ℕ
  rnode_to_air buf = do
    promisc ← gets (λ d. d.rnode.promisc)
    air_time ← (if promisc then to_air_raw buf else to_air_framed buf)
    csma_add_airtime air_time
    count_tx
    pure air_time

  unfoldable pub rnode_tx_done : M p (Unit {0})
  rnode_tx_done = do
    r ← gets (λ d. d.rnode)
    if ltb 0 r.len_tx
        then (do
          tx_buf (take r.len_tx r.buf_tx) flag_split
          set_rnode (λ r. record r { len_tx = 0 }))
        else sx126x_request rx_forever

  -- `signal_rssi` is calibrated too, and not sent.
  unfoldable pub rnode_signal_stat : ℕ → ℕ → M p (Unit {0})
  rnode_signal_stat rssi snr = do
    offset ← gets (λ d. d.rnode.rssi_offset)
    kiss_encode (cmd_stat_rssi ∷ wrap_ℤ 256 (pos rssi +ℤ offset) ∷ [])
    kiss_encode (cmd_stat_snr ∷ snr ∷ [])

  unfoldable pub rnode_rx_done : ℕ → M p (Unit {0})
  rnode_rx_done len = when (ltb 0 len) (do
    (rssi, snr, signal_rssi) ← sx126x_packet_signal_raw
    buf ← sx126x_read len
    rnode_signal_stat rssi snr
    rnode_from_air buf)
