-- ===== src/Tests/ChannelWitnesses.antt =====
-- The theorems on the channel, the settings and the interrupts at concrete inputs.
use rnode_linux.Base.{
  ℕ, pos, ◌+◌, ◌*◌, ◌≤◌, ◌<◌, ◌≡◌, refl, Bool, true, false, some, [], ◌∷◌, length-replicate, not,
  leb, arith,
}
use rnode_linux.State.{
  Daemon, preamble_detected, rx_continuous, bw_31250, bw_125000, cr_4_5, cr_4_8,
}
use rnode_linux.State.Monad.{◌>>=◌, ◌>>◌}
use rnode_linux.Kiss.Encode.{kiss_encode}
use rnode_linux.Radio.Moves.{command_log}
use rnode_linux.Base.Bytes.{u32, byte, byte1, byte2, byte3}
use rnode_linux.Platform.{clock_read, gpio, cs, usleep, spi}
use rnode_linux.Radio.Settings.{freq_word}
use rnode_linux.Radio.Codes.{freq_word_lem}
use rnode_linux.Queue.Worker.{contend_for_channel, serve_queue}
use rnode_linux.Queue.Busy.{contend_for_channel-busy}
use rnode_linux.Queue.Items.{queue_medium_state, after}
use rnode_linux.Queue.Blocked.{serve_queue-preamble, time_at}
use rnode_linux.Csma.Rssi.{csma_update_current_rssi}
use rnode_linux.Csma.Sampling.{IsSampling}
use rnode_linux.Csma.Kept.{csma_update_current_rssi-IsSampling}
use rnode_linux.Radio.Settings.{bw_hz, cr_code}
use rnode_linux.Rnode.Settings.{ans_frequency, ans_u32, bw_of_hz, cr_of_param}
use rnode_linux.Rnode.SetQuery.{of_param-codes, ans_frequency-query}
use rnode_linux.Radio.Spi.{transfer, write_read_bytes}
use rnode_linux.Radio.Command.{get_irq_status}
use rnode_linux.Irq.{has, irq_round}
use rnode_linux.Irq.Crc.{irq_round-crc}
use rnode_linux.Tests.Witnesses.{loaded}
use rnode_linux.Tests.{bench, started}

freq_word_lem_example :
    (u32
        (byte3 (freq_word 868000000))
        (byte2 (freq_word 868000000))
        (byte1 (freq_word 868000000))
        (byte (freq_word 868000000))
      ≡ freq_word 868000000)
    × (freq_word 868000000 * 32000000 ≤ 868000000 * 33554432)
    × (868000000 * 33554432 < (freq_word 868000000 + 1) * 32000000)
freq_word_lem_example = freq_word_lem 868000000 (omega arith)

-- The daemon while a carrier is detected.
abbrev carrying : Daemon bench
carrying = record loaded { csma = record loaded.csma { dcd = true } }

contend_for_channel-busy_example :
    (d' : Daemon bench) × (contend_for_channel 7000 carrying ≡ some (tt, d'))
    × (command_log d'.history ≡ command_log carrying.history)
    × (d'.queue.items ≡ carrying.queue.items)
    × (d'.queue.medium_free_since ≡ 0)
    × (d'.queue.cw_wait_passed ≡ carrying.queue.cw_wait_passed)
contend_for_channel-busy_example = contend_for_channel-busy carrying 7000 refl

serve_queue-preamble_example :
    (d' : Daemon bench) × ((do queue_medium_state preamble_detected; serve_queue 7100) loaded
      ≡ some (tt, d'))
    × (d'.history ≡ clock_read ∷ loaded.history)
    × (d'.queue.items ≡ loaded.queue.items)
    × (d'.queue.tx_enable
        ≡ leb
            (after (time_at bench (clock_read ∷ loaded.history)) loaded.queue.tx_header_timeout)
            7100)
    × (d'.csma.dcd
        ≡ not (
            leb
              (after (time_at bench (clock_read ∷ loaded.history)) loaded.queue.tx_header_timeout)
              7100))
serve_queue-preamble_example = serve_queue-preamble loaded 7100

-- The daemon while its radio receives.
abbrev receiving : Daemon bench
receiving = record started { radio = record started.radio { state = rx_continuous } }

receiving-IsSampling : IsSampling receiving.csma
receiving-IsSampling = record {
  noise = length-replicate 128 (pos 0);
  noise_at = omega arith;
  util = length-replicate 2500 false;
  util_at = omega arith;
  bins = length-replicate {A = ℕ} 480 0;
  longterm = length-replicate {A = ℕ} 480 0;
}

csma_update_current_rssi-IsSampling_example :
    (d' : Daemon bench) × (csma_update_current_rssi receiving ≡ some (tt, d')) × IsSampling d'.csma
csma_update_current_rssi-IsSampling_example =
    csma_update_current_rssi-IsSampling receiving receiving-IsSampling

of_param-codes_example :
    (bw_of_hz (bw_hz bw_31250) bw_125000 ≡ bw_31250)
    × (cr_of_param (cr_code cr_4_8 + 4) cr_4_5 ≡ cr_4_8)
of_param-codes_example = of_param-codes bw_31250 bw_125000 cr_4_8 cr_4_5

-- The daemon with its frequency set to 433.775 MHz.
abbrev tuned : Daemon bench
tuned = record started { rnode = record started.rnode { current_freq = 433775000 } }

ans_frequency-query_example :
    (ans_frequency
        (byte3 433775000 ∷ byte2 433775000 ∷ byte1 433775000 ∷ byte 433775000 ∷ [])
        started
      ≡ kiss_encode (ans_u32 0x01 433775000) tuned)
    × (ans_frequency (0 ∷ 0 ∷ 0 ∷ 0 ∷ []) tuned ≡ kiss_encode (ans_u32 0x01 433775000) tuned)
ans_frequency-query_example = ans_frequency-query started 433775000 (omega arith) (omega arith) refl

-- The daemon after it has read the interrupt status.
abbrev status_read : Daemon bench
status_read = record started {
  history =
      gpio cs true ∷ usleep 1 ∷ spi (0x12 ∷ []) 3 ∷ usleep 1 ∷ gpio cs false ∷ started.history;
}

status_read_lem : get_irq_status started ≡ some (0x42, status_read)
unfolding get_irq_status write_read_bytes transfer ◌>>=◌
status_read_lem = refl

irq_round-crc_example :
    (ok : Bool) × (d' : Daemon bench) × (irq_round true started ≡ some (ok, d'))
    × (d'.rnode ≡ started.rnode)
unfolding has
irq_round-crc_example = irq_round-crc started status_read true 0x42 status_read_lem refl refl refl
