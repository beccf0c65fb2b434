-- ===== src/Rnode/Link.antt =====
-- Two daemons: what rnode_to_air and rnode_tx_done of one put on the air, rnode_from_air of the other
-- takes.
use rnode_linux.Base.{
  ℕ, ◌+◌, ◌*◌, ◌/◌, ◌≤◌, ◌<◌, ◌≡◌, ◌∙◌, ap, inl, inr, false, some, List, [], ◌∷◌, ◌++◌, arith,
  length, take, drop, length-take, length-drop, take-append-drop, copy_at, length-copy_at, zero_add,
  take-copy_at_start, Bool-cases, ltb, leb,
}
use rnode_linux.Platform.{Platform, History}
use rnode_linux.State.{Daemon, Radio}
use rnode_linux.State.Monad.{M, pure, gets, ◌>>=◌, ◌>>◌, when}
use rnode_linux.Kiss.Encode.{mtu}
use rnode_linux.Radio.Moves.{command_log}
use rnode_linux.Radio.Transmit.{transmitted}
use rnode_linux.Rnode.Air.{
  whole, part_of, reassemble, rnode_from_air, rnode_to_air, rnode_tx_done, seq_unset, data_mtu,
  single_mtu,
}
use rnode_linux.Rnode.Send.{on_air, rnode_to_air-core}
use rnode_linux.Rnode.First.{rnode_to_air-whole}
use rnode_linux.Rnode.Split.{rnode_to_air-split}
use rnode_linux.Rnode.Reassembly.{append_buf_lem, framed_lem}
use rnode_linux.Rnode.Receive.{deliver, holding, hand_over-deliver, rnode_from_air-split}

-- The sending of a packet: the driver's report of the end of a frame sends the tail, if there is one.
unfoldable pub put_on_air : {p : Platform} → List ℕ → M p (Unit {0})
put_on_air packet = do
  _ ← rnode_to_air packet
  tail ← gets (λ d. d.rnode.len_tx)
  when (ltb 0 tail) rnode_tx_done

-- The reception of frames, one after the other.
unfoldable pub receive : {p : Platform} → List (List ℕ) → M p (Unit {0})
receive [] = pure tt
receive (frame ∷ frames) = do rnode_from_air frame; receive frames

-- The transmission commands of frames, on top of those before.
abbrev pub aired : Radio → List (List ℕ) → History → History
aired r [] log = log
aired r (frame ∷ frames) log = aired r frames (on_air r frame ++ log)

part_of-whole : (seq k : ℕ) → k < 16 → part_of seq (k * 16 + 0) ≡ whole
unfolding part_of
part_of-whole seq k lt = ground arith

module _ {p : Platform} where
  whole-deliver :
      (d : Daemon p) (sequence : ℕ) (packet : List ℕ)
      → d.rnode.seq ≡ seq_unset
      → d.rnode.len_in ≡ 0
      → length d.rnode.buf_in ≡ mtu
      → length packet ≤ data_mtu
      → reassemble whole sequence packet d
        ≡ deliver packet (holding (copy_at d.rnode.buf_in 0 packet) (length packet) d)
  unfolding reassemble ◌>>=◌
  whole-deliver d sequence packet unset empty room h = ground (
    arith,
    append_buf_lem d packet,
    zero_add (length packet),
    hand_over-deliver (holding (copy_at d.rnode.buf_in 0 packet) (length packet) d) packet
        (take-copy_at_start d.rnode.buf_in packet (omega (arith, room, h))) (omega (arith, h)),
  )

  to_air_first :
      (d : Daemon p) (packet : List ℕ) (t : ℕ) (d' : Daemon p)
      → rnode_to_air packet d ≡ some (t, d')
      → 0 < d'.rnode.len_tx
      → put_on_air packet d ≡ (do _ ← rnode_to_air packet; rnode_tx_done) d
  unfolding put_on_air ◌>>=◌
  to_air_first d packet t d' e lo = ground (arith, e)

  put_on_air-split :
      (d : Daemon p) (packet : List ℕ)
      → d.rnode.promisc ≡ false
      → data_mtu < length packet
      → length packet ≤ 508
      → put_on_air packet d ≡ (do _ ← rnode_to_air packet; rnode_tx_done) d
  unfolding transmitted
  put_on_air-split d packet off lo h =
      let (k, small, t, d1, s, c) = rnode_to_air-core d packet off lo h in
      let n = ap (λ (w : Daemon p). w.rnode.len_tx) c in
      to_air_first d packet t d1 s (omega (arith, n, length-drop data_mtu packet))

  to_air_only :
      (d : Daemon p) (packet : List ℕ) (t : ℕ) (d' : Daemon p)
      → rnode_to_air packet d ≡ some (t, d')
      → d'.rnode.len_tx ≡ 0
      → put_on_air packet d ≡ some (tt, d')
  unfolding put_on_air ◌>>=◌
  to_air_only d packet t d' e n = ground (arith, e)

  then_done : (m : M p (Unit {0})) (d : Daemon p) → (do m; pure tt) d ≡ m d
  unfolding ◌>>=◌ pure
  then_done m d = ground arith

  receive_two :
      (d : Daemon p) (f g : List ℕ)
      → receive (f ∷ g ∷ []) d ≡ (do rnode_from_air f; rnode_from_air g) d
  unfolding receive
  receive_two d f g =
      ap (λ (m : M p (Unit {0})). (do rnode_from_air f; m) d)
        (λ i x. then_done (rnode_from_air g) x i)

  -- From the frames the daemon delivers the packet.
  abbrev Takes : List (List ℕ) → List ℕ → Daemon p → Type 0
  Takes frames packet e =
      (b : List ℕ) × (length b ≡ mtu)
      × (receive frames e ≡ deliver packet (holding b (length packet) e))

  Takes-whole :
      (e : Daemon p) (k : ℕ) (packet : List ℕ)
      → e.rnode.promisc ≡ false
      → length e.rnode.buf_in ≡ mtu
      → e.rnode.seq ≡ seq_unset
      → e.rnode.len_in ≡ 0
      → k < 16
      → length packet ≤ data_mtu
      → Takes (((k * 16 + 0) ∷ packet) ∷ []) packet e
  unfolding receive
  Takes-whole e k packet off room unset empty small h = (
    copy_at e.rnode.buf_in 0 packet,
    length-copy_at e.rnode.buf_in 0 packet (omega (arith, room, h)) ∙ room,
    then_done (rnode_from_air ((k * 16 + 0) ∷ packet)) e
        ∙ framed_lem e (k * 16 + 0) packet off
        ∙ rw (part_of-whole e.rnode.seq k small)
            (whole-deliver e ((k * 16 + 0) / 16) packet unset empty room h),
  )

  Takes-split :
      (e : Daemon p) (k : ℕ) (packet : List ℕ)
      → e.rnode.promisc ≡ false
      → length e.rnode.buf_in ≡ mtu
      → e.rnode.seq ≡ seq_unset
      → k < 16
      → data_mtu < length packet
      → length packet ≤ 508
      → Takes
          (((k * 16 + 1) ∷ take data_mtu packet) ∷ ((k * 16 + 1) ∷ drop data_mtu packet) ∷ [])
          packet
          e
  Takes-split e k packet off room unset small lo h =
      let (b, len, t) =
        rnode_from_air-split e k (take data_mtu packet) (drop data_mtu packet) off room small
          (λ same. omega (arith, same, unset, small)) (omega (arith, length-take data_mtu packet))
          (omega (arith, length-drop data_mtu packet)) in
      (
        b,
        len,
        receive_two e _ _
            ∙ t
            ∙ ap
                (λ x.
                  deliver x
                    (holding b (length (take data_mtu packet) + length (drop data_mtu packet)) e))
                (take-append-drop data_mtu packet)
            ∙ ap (λ n. deliver packet (holding b n e))
                (omega (arith, length-take data_mtu packet, length-drop data_mtu packet)),
      )

module _ {p q : Platform} where
  -- A packet of up to 508 bytes that one daemon transmits outside promiscuous mode, with its tail
  -- buffer of 255 bytes, goes on the air as frames of which another daemon makes the same packet: in
  -- one that is outside promiscuous mode, with no part awaited and an empty reassembly buffer of 1,024 bytes,
  -- receiving the frames in order is handing the client the packet, in one KISS data frame, and counting
  -- it once. Neither side faults, whatever the devices of either answer.
  pub rnode_to_air-rnode_from_air :
      (d : Daemon p) (e : Daemon q) (packet : List ℕ)
      → d.rnode.promisc ≡ false
      → length d.rnode.buf_tx ≡ single_mtu
      → e.rnode.promisc ≡ false
      → length e.rnode.buf_in ≡ mtu
      → e.rnode.seq ≡ seq_unset
      → e.rnode.len_in ≡ 0
      → length packet ≤ 508
      → (frames : List (List ℕ)) × (d' : Daemon p) × (put_on_air packet d ≡ some (tt, d'))
        × (command_log d'.history ≡ aired d.radio frames (command_log d.history))
        × (b : List ℕ) × (length b ≡ mtu)
        × (receive frames e ≡ deliver packet (holding b (length packet) e))
  rnode_to_air-rnode_from_air d e packet off space quiet room unset empty h =
      elim (Bool-cases (leb (length packet) data_mtu)) [
        | inl short ↦
            let le : length packet ≤ data_mtu = ground arith in
            let (k, small, t, d', s, log, _, n) = rnode_to_air-whole d packet off le in
            let (b, len, got) = Takes-whole e k packet quiet room unset empty small le in
            (((k * 16 + 0) ∷ packet) ∷ [], d', to_air_only d packet t d' s n, log, b, len, got)
        | inr long ↦
            let lo : data_mtu < length packet = ground arith in
            let (k, small, d', s', log, _) = rnode_to_air-split d packet off space lo h in
            let (b, len, got) = Takes-split e k packet quiet room unset small lo h in
            (
              ((k * 16 + 1) ∷ take data_mtu packet) ∷ ((k * 16 + 1) ∷ drop data_mtu packet) ∷ [],
              d',
              put_on_air-split d packet off lo h ∙ s',
              log,
              b,
              len,
              got,
            )
      ]
