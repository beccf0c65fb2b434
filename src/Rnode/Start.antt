-- ===== src/Rnode/Start.antt =====
-- src/rnode.c: rnode_start, which brings the radio up with the current settings.
use rnode_linux.Base.{ℕ, ◌*◌, ◌/◌, ◌%◌, ◌^◌, Bool, true, false, not, if◌then◌else◌}
use rnode_linux.Platform.{Platform}
use rnode_linux.State.{HeaderType, header_explicit, header_implicit, crc_on}
use rnode_linux.State.Monad.{M, gets, ◌>>=◌, ◌>>◌}
use rnode_linux.Rnode.Report.{rnode_report_error, error_init_radio}
use rnode_linux.Radio.Begin.{sx126x_begin}
use rnode_linux.Radio.Settings.{
  sx126x_set_freq, sx126x_set_tx_power, sx126x_set_lora_modulation, sx126x_set_lora_packet,
  sx126x_set_sync_word,
}
use rnode_linux.Radio.Packet.{sx126x_request, rx_forever, preamble_ms, data_ms}
use rnode_linux.Queue.Items.{queue_set_busy_timeout}

abbrev pub header_type : Bool → HeaderType
header_type true = header_implicit
header_type false = header_explicit

-- `x * 3 / 2` of a uint32_t
abbrev pub and_a_half : ℕ → ℕ
and_a_half x = x * 3 % 2 ^ 32 / 2

module _ {p : Platform} where
  unfoldable pub rnode_start : M p (Unit {0})
  unfolding preamble_ms data_ms
  rnode_start = do
    up ← sx126x_begin
    if not up then rnode_report_error error_init_radio else (do
      r ← gets (λ d. d.rnode)
      sx126x_set_freq r.current_freq
      sx126x_set_tx_power r.current_tx_power
      sx126x_set_lora_modulation r.current_sf r.current_bw r.current_cr
      sx126x_set_lora_packet (header_type r.header_implicit) r.preamble_length 15 crc_on
      sx126x_set_sync_word 0x1424
      sx126x_request rx_forever
      radio ← gets (λ d. d.radio)
      queue_set_busy_timeout (and_a_half (preamble_ms p radio)) (and_a_half (data_ms p radio 255)))
