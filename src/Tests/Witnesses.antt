-- ===== src/Tests/Witnesses.antt =====
-- The theorems at concrete inputs, on the daemon of Tests.antt.
use rnode_linux.Base.{
  ℕ, pos, ◌+◌, ◌-◌, ◌*◌, ◌≤◌, ◌<◌, ◌≡◌, refl, inl, Bool, true, false, none, some, List, [], ◌∷◌,
  ◌++◌, ◌⊎◌, ◌%◌, drop, replicate, length, take, leb, if◌then◌else◌, arith,
}
use rnode_linux.State.{Daemon, Queue}
use rnode_linux.State.Monad.{◌>>=◌, ◌>>◌, set_kiss}
use rnode_linux.Tcp.{tcp_send}
use rnode_linux.Kiss.Encode.{mtu, kiss_encode}
use rnode_linux.Kiss.Decode.{kiss_decode}
use rnode_linux.Kiss.Frame.{frame, kiss_encode-frame}
use rnode_linux.Kiss.RoundTrip.{IsIdle, kiss_decode-frame}
use rnode_linux.Csma.Airtime.{
  band_of_airtime, window_of_band, cw_delay, bin_of_time, bin_before, bin_after, airtime_bins_count,
}
use rnode_linux.Csma.Window.{
  band_of_airtime_mono, window_of_band_adjacent, cw_delay_bounds, bin_of_time_bounds,
}
use rnode_linux.Queue.Worker.{listen_before_talk, contend, elapsed}
use rnode_linux.Queue.Listen.{FreeSince, start, round, listen_before_talk-FreeSince}
use rnode_linux.Radio.Begin.{wait_on_busy, sx126x_begin}
use rnode_linux.Radio.Packet.{sx126x_begin_packet, sx126x_write, sx126x_end_packet}
use rnode_linux.Radio.Moves.{core, command_log}
use rnode_linux.Radio.Transmit.{transmitted, core-transmitted, core-wait_on_busy, core-sx126x_begin}
use rnode_linux.Rnode.Air.{rnode_from_air, rnode_to_air, rnode_tx_done, data_mtu}
use rnode_linux.Rnode.Receive.{deliver, holding, rnode_from_air-split}
use rnode_linux.Rnode.Send.{on_air}
use rnode_linux.Rnode.Split.{rnode_to_air-split}
use rnode_linux.Rnode.First.{first_frame}
use rnode_linux.Rnode.Answers.{rnode_check_airtime_lock}
use rnode_linux.Queue.Items.{queue_push}
use rnode_linux.Queue.Worker.{send_packet}
use rnode_linux.Queue.Head.{queue_push-items, send_packet-head}
use rnode_linux.Rnode.Dispatch.{rnode_from_channel}
use rnode_linux.Rnode.Reassembly.{IsReassembling, rnode_from_air-IsReassembling}
use rnode_linux.Kiss.Bounds.{HasRoom, kiss_decode-HasRoom}
use rnode_linux.Rnode.Report.{rnode_report_error}
use rnode_linux.Radio.Quiet.{Stable, Keeps-report}
use rnode_linux.Tests.{bench, started}

-- Bytes that the frame escapes, and one that it does not.
abbrev packet : List ℕ
packet = 0x00 ∷ 0xC0 ∷ 0xDB ∷ 0x41 ∷ []

-- the same with the header of a first part
abbrev part_in : List ℕ
part_in = 0xC0 ∷ 0xDB ∷ 0x41 ∷ []

started-IsIdle : IsIdle started.kiss
started-IsIdle = record { whole = refl; no_escape = refl; at_start = inl refl }

started-IsReassembling : IsReassembling started.rnode
started-IsReassembling = record { space = refl; part = inl (refl, refl) }

kiss_encode-frame_example :
    kiss_encode packet started
    ≡ (if leb (length (frame packet)) mtu then tcp_send (frame packet) started else none)
kiss_encode-frame_example = kiss_encode-frame started packet

kiss_decode-frame_example :
    (b : List ℕ) × (length b ≡ mtu)
    × (take (length packet) b ≡ packet)
    × (kiss_decode rnode_from_channel (frame packet) started
        ≡ (rnode_from_channel b (length packet) >>= λ _.
              set_kiss (λ k. record k { len_in = 0; sync = true }))
            (record started {
              kiss = record { buf_in = b; len_in = length packet; sync = true; escape = false };
            }))
kiss_decode-frame_example =
    kiss_decode-frame rnode_from_channel started packet started-IsIdle (omega arith) (omega arith)

rnode_from_air-IsReassembling_example :
    (d' : Daemon bench) × (rnode_from_air (0x21 ∷ part_in) started ≡ some (tt, d'))
    × IsReassembling d'.rnode
rnode_from_air-IsReassembling_example =
    rnode_from_air-IsReassembling started 0x21 part_in started-IsReassembling (omega arith)
      (omega arith)

core-transmitted_example :
    (d' : Daemon bench) × ((do
      sx126x_begin_packet
      sx126x_write packet (length packet)
      sx126x_end_packet)
        started
      ≡ some (tt, d'))
    × (core d' ≡ transmitted packet (core started))
core-transmitted_example = core-transmitted started packet (omega arith)

core-wait_on_busy_example :
    (d' : Daemon bench) × (wait_on_busy started ≡ some (tt, d')) × (core d' ≡ core started)
core-wait_on_busy_example = core-wait_on_busy started

core-sx126x_begin_example :
    (ok : Bool) × (d' : Daemon bench) × (sx126x_begin started ≡ some (ok, d'))
    × (core d' ≡ core started)
core-sx126x_begin_example = core-sx126x_begin started

band_of_airtime_mono_example : band_of_airtime (pos 20) ≤ band_of_airtime (pos 70)
band_of_airtime_mono_example = band_of_airtime_mono (pos 20) (pos 70) (omega arith)

window_of_band_adjacent_example :
    ((window_of_band 2).max + 1 ≡ (window_of_band 3).min)
    × ((window_of_band 2).min + 14 ≡ (window_of_band 2).max)
window_of_band_adjacent_example = window_of_band_adjacent 2 (omega arith)

cw_delay_bounds_example :
    (k : ℕ) × (cw_delay (window_of_band (band_of_airtime (pos 40))) 24 1000 ≡ k * 24)
    × ((band_of_airtime (pos 40) - 1) * 15 ≤ k)
    × (k ≤ band_of_airtime (pos 40) * 15 - 1)
cw_delay_bounds_example = cw_delay_bounds (pos 40) 24 1000 (omega arith)

bin_of_time_bounds_example :
    (bin_of_time 3599999 < airtime_bins_count)
    × (bin_before (bin_of_time 3599999) < airtime_bins_count)
    × (bin_after (bin_of_time 3599999) < airtime_bins_count)
    × (bin_before (bin_after (bin_of_time 3599999)) ≡ bin_of_time 3599999)
    × (bin_after (bin_before (bin_of_time 3599999)) ≡ bin_of_time 3599999)
bin_of_time_bounds_example = bin_of_time_bounds 3599999

abbrev waiting : Queue
waiting = record started.queue { cw_target = 24; cw_picked = true }

listen_before_talk-FreeSince_example :
    (t : ℕ) × FreeSince t ((1080, true) ∷ (1048, true) ∷ (1000, true) ∷ []) × (t + 48 ≤ 1080)
unfolding listen_before_talk contend elapsed
listen_before_talk-FreeSince_example =
    listen_before_talk-FreeSince 1080 48 true
      (round 1048 48 true (round 1000 48 true (start {q = waiting} refl) (omega arith))
        (omega arith))
      (omega arith) (omega arith) refl

rnode_from_air-split_example :
    (b : List ℕ) × (length b ≡ mtu)
    × ((do rnode_from_air ((2 * 16 + 1) ∷ packet); rnode_from_air ((2 * 16 + 1) ∷ part_in)) started
        ≡ deliver (packet ++ part_in) (holding b (length packet + length part_in) started))
rnode_from_air-split_example =
    rnode_from_air-split started 2 packet part_in refl refl (omega arith) (λ e. omega arith)
      (omega arith) (omega arith)

-- a packet of two frames
abbrev long_packet : List ℕ
long_packet = replicate 300 0x41

rnode_to_air-split_example :
    (k : ℕ) × (k < 16)
    × (d' : Daemon bench) × ((do _ ← rnode_to_air long_packet; rnode_tx_done) started
        ≡ some (tt, d'))
    × (command_log d'.history
        ≡ on_air started.radio ((k * 16 + 1) ∷ drop data_mtu long_packet)
          ++ (on_air started.radio ((k * 16 + 1) ∷ take data_mtu long_packet)
              ++ command_log started.history))
    × (d'.rnode.len_tx ≡ 0)
rnode_to_air-split_example =
    rnode_to_air-split started long_packet refl refl (omega arith) (omega arith)

queue_push-items_example :
    (d' : Daemon bench) × (queue_push packet started ≡ some (tt, d'))
    × (d'.queue.items ≡ started.queue.items ++ packet ∷ [])
    × (d'.queue.queue_depth ≡ length d'.queue.items % 65536)
queue_push-items_example = queue_push-items started packet refl

-- The daemon with two packets in the queue.
abbrev pub loaded : Daemon bench
loaded = record started {
  queue = record started.queue { items = packet ∷ part_in ∷ []; queue_depth = 2 };
}

send_packet-head_example :
    ((rnode_check_airtime_lock loaded ≡ some (true, loaded))
      × (send_packet loaded ≡ some (false, loaded)))
    ⊎ ((rnode_check_airtime_lock loaded ≡ some (false, loaded))
        × (k : ℕ) × (k < 16)
        × (d' : Daemon bench) × (send_packet loaded ≡ some (true, d'))
        × (command_log d'.history
            ≡ on_air loaded.radio (first_frame k packet) ++ command_log loaded.history)
        × (d'.queue.items ≡ part_in ∷ [])
        × (d'.queue.queue_depth ≡ length d'.queue.items % 65536))
send_packet-head_example =
    send_packet-head loaded packet (part_in ∷ []) refl refl refl (omega arith)

-- Bytes that are no frame: an escape, an end, and an escape that the end does not finish.
abbrev noise : List ℕ
noise = 0xDB ∷ 0xC0 ∷ 0x08 ∷ 0xDB ∷ 0xC0 ∷ 0xDC ∷ []

started-HasRoom : HasRoom started.kiss
started-HasRoom = record { whole = refl; room = omega arith }

HasRoom-Stable : Stable {p = bench} (λ d. HasRoom d.kiss)
HasRoom-Stable = record {
  tcp = λ d t r. record { whole = r.whole; room = r.room };
  state = λ d s r. record { whole = r.whole; room = r.room };
  recovering = λ d b r. record { whole = r.whole; room = r.room };
  event = λ d e q r. record { whole = r.whole; room = r.room };
}

kiss_decode-HasRoom_example :
    (d' : Daemon bench) × (kiss_decode (λ buf len. rnode_report_error len) noise started
      ≡ some (tt, d'))
    × HasRoom d'.kiss
kiss_decode-HasRoom_example =
    kiss_decode-HasRoom (λ buf len. rnode_report_error len)
      (λ buf len. Keeps-report HasRoom-Stable len) started noise started-HasRoom
