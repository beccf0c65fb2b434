-- ===== src/Rnode/Receive.antt =====
-- rnode_from_air on the two frames of one packet.
use rnode_linux.Base.{
  ℕ, ◌+◌, ◌*◌, ◌/◌, ◌≤◌, ◌<◌, ◌≡◌, ◌≢◌, refl, ◌∙◌, ap, false, some, List, ◌∷◌, ◌++◌, arith, length,
  take, copy_at, length-append, length-copy_at, take-copy_at, take-copy_at_start,
}
use rnode_linux.Platform.{Platform}
use rnode_linux.State.{Daemon}
use rnode_linux.State.Monad.{M, ◌>>=◌, ◌>>◌, set_rnode, bind-at, set_rnode-at}
use rnode_linux.Tcp.{tcp_send}
use rnode_linux.Kiss.Encode.{mtu}
use rnode_linux.Kiss.Frame.{frame, kiss_encode_small}
use rnode_linux.Rnode.Air.{
  first, second, part_of, append_buf, reassemble, hand_over, rnode_from_air, count_rx, seq_unset,
  data_mtu,
}
use rnode_linux.Rnode.Reassembly.{append_buf_lem, first_lem, framed_lem}

part_of-first : (seq s : ℕ) → seq ≢ s → s < 16 → part_of seq (s * 16 + 1) ≡ first
unfolding part_of
part_of-first seq s ne lt = ground arith

part_of-second : (s : ℕ) → s < 16 → part_of s (s * 16 + 1) ≡ second
unfolding part_of
part_of-second s lt = ground arith

header_sequence : (s : ℕ) → (s * 16 + 1) / 16 ≡ s
header_sequence s = omega arith

module _ {p : Platform} where
  -- What is done with a packet that is whole.
  abbrev pub deliver : List ℕ → M p (Unit {0})
  deliver packet = do
    tcp_send (frame (0x00 ∷ packet))
    set_rnode (λ r. record r { len_in = 0 })
    count_rx

  -- The daemon with `n` bytes in the reassembly buffer `b`, and no part awaited.
  abbrev pub holding : List ℕ → ℕ → Daemon p → Daemon p
  holding b n d = record d { rnode = record d.rnode { buf_in = b; len_in = n; seq = seq_unset } }

  pub hand_over-deliver :
      (d : Daemon p) (packet : List ℕ)
      → take d.rnode.len_in d.rnode.buf_in ≡ packet
      → length packet ≤ 510
      → hand_over d ≡ deliver packet d
  unfolding hand_over ◌>>=◌
  hand_over-deliver d packet e h =
      ground (arith, e, kiss_encode_small d (0x00 ∷ packet) (omega arith))

  second-deliver :
      (d : Daemon p) (sequence : ℕ) (xs ys : List ℕ)
      → length d.rnode.buf_in ≡ mtu
      → take d.rnode.len_in d.rnode.buf_in ≡ xs
      → length xs ≤ data_mtu
      → d.rnode.len_in ≡ length xs
      → length ys ≤ data_mtu
      → reassemble second sequence ys d
        ≡ deliver
            (xs ++ ys)
            (holding (copy_at d.rnode.buf_in d.rnode.len_in ys) (d.rnode.len_in + length ys) d)
  unfolding reassemble
  second-deliver d sequence xs ys room e hx n hy =
      bind-at (append_buf ys) _ (append_buf_lem d ys (omega arith))
      ∙ set_rnode-at (λ r. record r { seq = seq_unset }) hand_over _
      ∙ hand_over-deliver
          (holding (copy_at d.rnode.buf_in d.rnode.len_in ys) (d.rnode.len_in + length ys) d)
          (xs ++ ys) same (omega (arith, length-append xs ys))
    where
      same : take (d.rnode.len_in + length ys) (copy_at d.rnode.buf_in d.rnode.len_in ys) ≡ xs ++ ys
      same = take-copy_at d.rnode.buf_in d.rnode.len_in ys (omega arith) ∙ ap (λ l. l ++ ys) e

  -- Outside promiscuous mode, two frames of up to 254 bytes each with the same sequence number, of
  -- which the first meets a reassembly that waits for no part of that number, send the client one
  -- packet, the bytes of the first and then those of the second, and count it once. The buffer
  -- keeps its size and is empty after it.
  pub rnode_from_air-split :
      (d : Daemon p) (s : ℕ) (xs ys : List ℕ)
      → d.rnode.promisc ≡ false
      → length d.rnode.buf_in ≡ mtu
      → s < 16
      → d.rnode.seq ≢ s
      → length xs ≤ data_mtu
      → length ys ≤ data_mtu
      → (b : List ℕ) × (length b ≡ mtu)
        × ((do rnode_from_air ((s * 16 + 1) ∷ xs); rnode_from_air ((s * 16 + 1) ∷ ys)) d
            ≡ deliver (xs ++ ys) (holding b (length xs + length ys) d))
  rnode_from_air-split d s xs ys off room lt ne hx hy =
      let d1 : Daemon p = record d {
        rnode = record d.rnode {
          buf_in = copy_at d.rnode.buf_in 0 xs;
          len_in = length xs;
          seq = s;
        };
      } in
      let whole = length-copy_at d.rnode.buf_in 0 xs (omega arith) in
      (
        copy_at d1.rnode.buf_in (length xs) ys,
        length-copy_at d1.rnode.buf_in (length xs) ys (omega arith) ∙ whole ∙ room,
        bind-at (rnode_from_air ((s * 16 + 1) ∷ xs)) _ (received_first d s xs off room lt ne hx)
            ∙ received_second d1 s ys off lt refl
            ∙ second-deliver d1 s xs ys (whole ∙ room)
                (take-copy_at_start d.rnode.buf_in xs (omega arith)) hx refl hy,
      )
    where
      received_first :
          (d : Daemon p) (s : ℕ) (xs : List ℕ)
          → d.rnode.promisc ≡ false
          → length d.rnode.buf_in ≡ mtu
          → s < 16
          → d.rnode.seq ≢ s
          → length xs ≤ data_mtu
          → rnode_from_air ((s * 16 + 1) ∷ xs) d
            ≡ some (
              tt,
              record d {
                rnode = record d.rnode {
                  buf_in = copy_at d.rnode.buf_in 0 xs;
                  len_in = length xs;
                  seq = s;
                };
              },
            )
      received_first d s xs off room lt ne hx =
          framed_lem d (s * 16 + 1) xs off
          ∙ rw (part_of-first d.rnode.seq s ne lt, header_sequence s)
              (first_lem d s xs (omega arith))

      received_second :
          (d : Daemon p) (s : ℕ) (ys : List ℕ)
          → d.rnode.promisc ≡ false
          → s < 16
          → d.rnode.seq ≡ s
          → rnode_from_air ((s * 16 + 1) ∷ ys) d ≡ reassemble second s ys d
      received_second d s ys off lt e =
          framed_lem d (s * 16 + 1) ys off ∙ rw (e, part_of-second s lt, header_sequence s) refl
