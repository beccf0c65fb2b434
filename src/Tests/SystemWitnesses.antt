-- ===== src/Tests/SystemWitnesses.antt =====
-- The theorems on the whole daemon at concrete inputs.
use rnode_linux.Base.{
  ℕ, pos, ◌≡◌, refl, ◌⊎◌, inl, true, false, some, List, [], ◌∷◌, length-replicate, replicate, take,
  arith,
}
use rnode_linux.State.{Daemon, Queue}
use rnode_linux.State.Monad.{M, perform, ◌>>=◌}
use rnode_linux.Kiss.RoundTrip.{IsIdle}
use rnode_linux.Kiss.Streams.{
  IsQuiet, Delivered, frames, closed, kiss_decode-frames, kiss_decode-resync,
}
use rnode_linux.Kiss.Decode.{kiss_decode}
use rnode_linux.Rnode.Dispatch.{rnode_from_channel, decode}
use rnode_linux.Irq.{starting, irq_worker_turn}
use rnode_linux.Tcp.Read.{tcp_read}
use rnode_linux.System.Stream.{IsPolite, IsServing, ends, goes_on, next, kiss_decode-IsServing}
use rnode_linux.System.Turn.{IsPoliteTo, tcp_read-IsServing}
use rnode_linux.System.Steps.{main_loop, IsReached, interrupt, GoesOn, begun, IsReached-returns}
use rnode_linux.Platform.{usleep, send, close, accept_call, set_nonblocking, failed}
use rnode_linux.Radio.Begin.{wait_on_busy, wait_on_busy_by, sx126x_begin, sx126x_begin_by}
use rnode_linux.Radio.Recursion.{wait_on_busy-sx126x_begin}
use rnode_linux.Queue.Worker.{transmit}
use rnode_linux.Queue.Progress.{free_rounds, Follows, free_rounds-transmits}
use rnode_linux.Tcp.Read.{accept_client}
use rnode_linux.Tcp.Accept.{reset_frame, serving, accept_client-replaces}
use rnode_linux.Base.{length}
use rnode_linux.Kiss.Encode.{mtu}
use rnode_linux.Radio.Moves.{command_log}
use rnode_linux.Rnode.Receive.{deliver, holding}
use rnode_linux.Rnode.Link.{put_on_air, receive, aired, rnode_to_air-rnode_from_air}
use rnode_linux.Base.{zero, suc, All}
use rnode_linux.Csma.Rssi.{csma_update_current_rssi}
use rnode_linux.Csma.Range.{IsLevel, HasLevels}
use rnode_linux.Csma.Levels.{csma_update_current_rssi-HasLevels}
use rnode_linux.Base.{Bool, if◌then◌else◌}
use rnode_linux.Radio.Moves.{core}
use rnode_linux.Rnode.Start.{rnode_start}
use rnode_linux.Rnode.SetUp.{set_up, rnode_start-core}
use rnode_linux.Tests.{bench, started}

started-IsServing : IsServing started
started-IsServing = (
  record {
    held = record {
      space = length-replicate {A = ℕ} 1024 0;
      tail_space = length-replicate {A = ℕ} 255 0;
      tail_fits = omega arith;
      spread = omega arith;
      hash_fits = omega (arith, length-replicate {A = ℕ} 16 0);
    };
    part = inl (refl, refl);
    others = (refl, record { depth = refl; short = tt });
    sampling = record {
      noise = length-replicate 128 (pos 0);
      noise_at = omega arith;
      util = length-replicate 2500 false;
      util_at = omega arith;
      bins = length-replicate {A = ℕ} 480 0;
      longterm = length-replicate {A = ℕ} 480 0;
    };
  },
  record { whole = length-replicate {A = ℕ} 1024 0; room = omega arith },
)

-- The command that starts the radio.
abbrev start_radio : List ℕ
start_radio = 0xC0 ∷ 0x06 ∷ 0x01 ∷ 0xC0 ∷ []

start_radio-IsPolite : IsPolite started.kiss start_radio
unfolding IsPolite ends goes_on next decode
start_radio-IsPolite = (
  λ e. absurd cc,
  λ _. (
    λ e. absurd cc,
    λ _. (
      λ e. absurd cc,
      λ _. (λ e. record { spread = λ e. absurd cc; short = λ e. absurd cc }, λ _. tt),
    ),
  ),
)

started-IsPoliteTo : IsPoliteTo started
started-IsPoliteTo = λ h e. start_radio-IsPolite

kiss_decode-IsServing_example :
    (d' : Daemon bench) × (kiss_decode rnode_from_channel start_radio started ≡ some (tt, d'))
    × IsServing d'
kiss_decode-IsServing_example =
    kiss_decode-IsServing start_radio started started-IsServing start_radio-IsPolite

tcp_read-IsServing_example : (d' : Daemon bench) × (tcp_read started ≡ some (tt, d')) × IsServing d'
tcp_read-IsServing_example = tcp_read-IsServing started started-IsServing started-IsPoliteTo

-- irq_worker has found the radio idle, and the main loop is next.
abbrev after_wait : Daemon bench
after_wait = record started { history = usleep 1000 ∷ [] }

after_wait-IsReached : IsReached started after_wait starting
unfolding irq_worker_turn ◌>>=◌
after_wait-IsReached = interrupt begun refl

IsReached-returns_example : IsServing after_wait × GoesOn main_loop starting after_wait
IsReached-returns_example =
    IsReached-returns started-IsServing after_wait-IsReached main_loop (λ h e. start_radio-IsPolite)

wait_on_busy-sx126x_begin_example :
    (wait_on_busy started ≡ wait_on_busy_by sx126x_begin started)
    × (sx126x_begin started ≡ sx126x_begin_by wait_on_busy started)
wait_on_busy-sx126x_begin_example = wait_on_busy-sx126x_begin started

-- A window of one slot of 24 ms, and rounds every 10 ms.
abbrev contending : Queue
contending = record started.queue { cw_target = 24; cw_picked = true }

free_rounds-transmits_example :
    (free_rounds 20 (100 ∷ 110 ∷ 120 ∷ 130 ∷ 140 ∷ 150 ∷ 160 ∷ []) contending).1 ≡ transmit
free_rounds-transmits_example =
    free_rounds-transmits 20 10 100 (110 ∷ 120 ∷ 130 ∷ 140 ∷ 150 ∷ 160 ∷ []) contending refl refl
      (omega arith) (omega arith) follows (omega arith) (omega arith)
  where
    follows : Follows 10 100 (110 ∷ 120 ∷ 130 ∷ 140 ∷ 150 ∷ 160 ∷ [])
    follows = ground arith

-- A second client connects.
abbrev connected : Daemon bench
connected = record started { tcp = record { server_fd = 3; client_fd = 4 } }

accept_client-replaces_example :
    let h = send 5 reset_frame ∷ set_nonblocking 5 ∷ close 4 ∷ accept_call ∷ [] in
    (accept_client connected ≡ some (tt, serving 5 h connected))
    ⊎ ((bench.send_result h ≡ failed)
        × (accept_client connected ≡ some (tt, serving 0 (close 5 ∷ h) connected)))
accept_client-replaces_example = accept_client-replaces connected 5 refl (omega arith)

-- A handler that passes each packet on.
abbrev pass_on : List ℕ → ℕ → M bench (Unit {0})
pass_on buf n = perform (send 9 (take n buf))

pass_on-IsQuiet : IsQuiet pass_on
unfolding perform
pass_on-IsQuiet = record {
  returns = λ buf n d. (record d { history = send 9 (take n buf) ∷ d.history }, refl, refl);
}

-- Two packets, one of which needs escapes.
abbrev two_packets : List (List ℕ)
two_packets = (0x08 ∷ 0x73 ∷ []) ∷ (0x00 ∷ 0xC0 ∷ 0xDB ∷ []) ∷ []

kiss_decode-frames_example :
    (d' : Daemon bench) × (kiss_decode pass_on (frames two_packets) started ≡ some (tt, d'))
    × Delivered pass_on two_packets started d'
    × IsIdle d'.kiss
kiss_decode-frames_example =
    kiss_decode-frames pass_on two_packets started pass_on-IsQuiet
      (record { whole = length-replicate {A = ℕ} 1024 0; no_escape = refl; at_start = inl refl })
      ((omega arith, omega arith), ((omega arith, omega arith), tt))

-- The decoder is in the midst of a frame of two bytes so far.
abbrev cut_off : Daemon bench
cut_off = record started {
  kiss = record { buf_in = replicate 1024 7; len_in = 2; sync = true; escape = false };
}

kiss_decode-resync_example :
    (d1 : Daemon bench) × (pass_on (replicate 1024 7) 2 cut_off ≡ some (tt, d1))
    × ((d' : Daemon bench) × (kiss_decode pass_on (0xC0 ∷ frames two_packets) cut_off
          ≡ some (tt, d'))
        × Delivered pass_on two_packets (closed pass_on d1) d')
kiss_decode-resync_example =
    kiss_decode-resync pass_on two_packets cut_off pass_on-IsQuiet (length-replicate {A = ℕ} 1024 7)
      refl ((omega arith, omega arith), ((omega arith, omega arith), tt))

-- A packet that takes two frames.
abbrev two_frames : List ℕ
two_frames = replicate 300 0x41

rnode_to_air-rnode_from_air_example :
    (aired_frames : List (List ℕ)) × (d' : Daemon bench) × (put_on_air two_frames started
      ≡ some (tt, d'))
    × (command_log d'.history ≡ aired started.radio aired_frames (command_log started.history))
    × (b : List ℕ) × (length b ≡ mtu)
    × (receive aired_frames started ≡ deliver two_frames (holding b (length two_frames) started))
rnode_to_air-rnode_from_air_example =
    rnode_to_air-rnode_from_air started started two_frames refl refl refl refl refl refl
      (omega arith)

-- Each of the samples at the start is 0.
zeros-IsLevel : (n : ℕ) → All IsLevel (replicate n (pos 0))
zeros-IsLevel zero = tt
zeros-IsLevel (suc n) = ((omega arith, omega arith), zeros-IsLevel n)

started-HasLevels : HasLevels started.csma
started-HasLevels = record {
  size = length-replicate 128 (pos 0);
  samples = zeros-IsLevel 128;
  floor = inl refl;
  current = inl refl;
  calm = refl;
}

csma_update_current_rssi-HasLevels_example :
    (d' : Daemon bench) × (csma_update_current_rssi started ≡ some (tt, d')) × HasLevels d'.csma
csma_update_current_rssi-HasLevels_example =
    csma_update_current_rssi-HasLevels started started-HasLevels

rnode_start-core_example :
    (up : Bool) × (d1 : Daemon bench) × (sx126x_begin started ≡ some (up, d1))
    × (d' : Daemon bench) × (rnode_start started ≡ some (tt, d'))
    × (core d' ≡ (if up then set_up (core started) else core started))
rnode_start-core_example = rnode_start-core started
