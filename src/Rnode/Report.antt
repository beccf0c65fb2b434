-- ===== src/Rnode/Report.antt =====
-- src/rnode.c: the reports that the other files ask for. The numbers are the protocol's CMD_ codes.
use rnode_linux.Base.{ℕ, ◌+ℤ◌, wrap_ℤ, [], ◌∷◌, if◌then◌else◌}
use rnode_linux.Base.Bytes.{byte, byte1}
use rnode_linux.Platform.{Platform}
use rnode_linux.Rnode.Commands.{
  cmd_reset, cmd_reset_byte, cmd_stat_chtm, cmd_stat_csma, cmd_stat_queue,
}
use rnode_linux.State.{Cw, Channel}
use rnode_linux.Csma.Queries.{csma_get_interference}
use rnode_linux.State.Monad.{M, gets, ◌>>=◌}
use rnode_linux.Kiss.Encode.{kiss_encode}

-- RNode's error codes that the program uses.
abbrev pub cmd_error : ℕ
cmd_error = 0x90

abbrev pub error_init_radio : ℕ
error_init_radio = 0x01

abbrev pub error_invalid_command : ℕ
error_invalid_command = 0x07

-- `(uint16_t)(x * 100 * 100)`
abbrev pub basis_points : (p : Platform) → p.Float → ℕ
basis_points p x = wrap_ℤ 65536 (p.trunc (p.mul (p.mul x (p.float 100)) (p.float 100)))

module _ {p : Platform} where
  unfoldable pub rnode_report_error : ℕ → M p (Unit {0})
  rnode_report_error error_code = kiss_encode (cmd_error ∷ error_code ∷ [])

  unfoldable pub rnode_send_stat_csma : Cw → M p (Unit {0})
  rnode_send_stat_csma cw = kiss_encode (cmd_stat_csma ∷ cw.band ∷ cw.min ∷ cw.max ∷ [])

  unfoldable pub rnode_send_stat_queue : ℕ → M p (Unit {0})
  rnode_send_stat_queue depth = kiss_encode (cmd_stat_queue ∷ byte1 depth ∷ byte depth ∷ [])

  unfoldable pub rnode_indicate_reset : M p (Unit {0})
  rnode_indicate_reset = kiss_encode (cmd_reset ∷ cmd_reset_byte ∷ [])

  unfoldable pub rnode_send_stat_channel : Channel p.Float → M p (Unit {0})
  rnode_send_stat_channel channel = do
    interference ← csma_get_interference
    offset ← gets (λ d. d.rnode.rssi_offset)
    let ats = basis_points p channel.airtime
    let atl = basis_points p channel.longterm_airtime
    let cls = basis_points p channel.total_channel_util
    let cll = basis_points p channel.longterm_channel_util
    let crs = wrap_ℤ 256 channel.current_rssi
    let nfl = wrap_ℤ 256 channel.noise_floor
    let ntf = if interference then wrap_ℤ 256 (channel.current_rssi +ℤ offset) else 0xFF
    kiss_encode (
        cmd_stat_chtm
        ∷ byte1 ats
        ∷ byte ats
        ∷ byte1 atl
        ∷ byte atl
        ∷ byte1 cls
        ∷ byte cls
        ∷ byte1 cll
        ∷ byte cll
        ∷ crs
        ∷ nfl
        ∷ ntf
        ∷ [])
