-- ===== src/Rnode/Reassembly.antt =====
-- rnode_from_air: no frame overruns the reassembly buffer or the encoder's, and the two frames of a
-- packet give the packet.
use rnode_linux.Base.{
  ℕ, ◌+◌, ◌/◌, ◌%◌, ◌^◌, ◌≤◌, ◌<◌, ◌≡◌, refl, ◌∙◌, ap, ◌⊎◌, inl, inr, true, false, some, List, ◌∷◌,
  arith, length, take, zero_add, copy_at, length-copy_at, length-take, Bool-cases,
}
use rnode_linux.Platform.{Platform}
use rnode_linux.State.{Daemon, Rnode}
use rnode_linux.State.Monad.{◌>>=◌}
use rnode_linux.Kiss.Encode.{mtu, kiss_encode}
use rnode_linux.Kiss.Frame.{frame, kiss_encode_small}
use rnode_linux.Radio.Quiet.{Keeps-tcp_send}
use rnode_linux.Radio.Moves.{core, core-Stable}
use rnode_linux.Rnode.Air.{
  Part, first, second, whole, part_of, append_buf, reassemble, hand_over, from_air_frame,
  rnode_from_air, count_rx, seq_unset, data_mtu,
}

-- Between two parts of a packet the buffer holds the first one; else it is empty.
pub record IsReassembling {F : Type 0} (r : Rnode F) : Type 0 where
  pub space : length r.buf_in ≡ mtu
  pub part : ((r.seq ≡ seq_unset) × (r.len_in ≡ 0)) ⊎ ((r.seq < 16) × (r.len_in ≤ data_mtu))

-- The variables after a packet that ends with `buf`.
abbrev pub delivered : {F : Type 0} → List ℕ → Rnode F → Rnode F
delivered buf r = record r {
  buf_in = copy_at r.buf_in r.len_in buf;
  len_in = 0;
  seq = seq_unset;
  stat_rx = (r.stat_rx + 1) % 2 ^ 32;
}

module _ {p : Platform} where
  -- A frame's worth of bytes, or two, are encoded without a fault, and no setting changes.
  encode-rnode :
      (d : Daemon p) (buf : List ℕ)
      → length buf ≤ 511
      → (d' : Daemon p) × (kiss_encode buf d ≡ some (tt, d')) × (d'.rnode ≡ d.rnode)
  encode-rnode d buf h =
      let (r, e, k) = (Keeps-tcp_send (core-Stable (core d)) (frame buf)).at d refl in
      (r.1, kiss_encode_small d buf h ∙ e, ap (λ (x : Daemon p). x.rnode) k)

  pub append_buf_lem :
      (d : Daemon p) (buf : List ℕ)
      → d.rnode.len_in + length buf ≤ length d.rnode.buf_in
      → append_buf buf d
        ≡ some (
          tt,
          record d {
            rnode = record d.rnode {
              buf_in = copy_at d.rnode.buf_in d.rnode.len_in buf;
              len_in = d.rnode.len_in + length buf;
            };
          },
        )
  unfolding append_buf ◌>>=◌
  append_buf_lem d buf h = ground arith

  hand_over_lem :
      (d : Daemon p)
      → d.rnode.len_in ≤ 510
      → d.rnode.len_in ≤ length d.rnode.buf_in
      → (d' : Daemon p) × (hand_over d ≡ some (tt, d'))
        × (d'.rnode ≡ record d.rnode { len_in = 0; stat_rx = (d.rnode.stat_rx + 1) % 2 ^ 32 })
  unfolding hand_over count_rx ◌>>=◌
  hand_over_lem d h le =
      let buf = 0x00 ∷ take d.rnode.len_in d.rnode.buf_in in
      let (d', e, k) =
        encode-rnode d buf (omega (arith, length-take d.rnode.len_in d.rnode.buf_in)) in
      (
        record d' {
          rnode = record d'.rnode { len_in = 0; stat_rx = (d'.rnode.stat_rx + 1) % 2 ^ 32 };
        },
        ground (arith, e),
        ap (λ (r : Rnode p.Float). record r { len_in = 0; stat_rx = (r.stat_rx + 1) % 2 ^ 32 }) k,
      )

  -- The three ways to take a frame's bytes.
  pub first_lem :
      (d : Daemon p) (sequence : ℕ) (buf : List ℕ)
      → length buf ≤ length d.rnode.buf_in
      → reassemble first sequence buf d
        ≡ some (
          tt,
          record d {
            rnode = record d.rnode {
              buf_in = copy_at d.rnode.buf_in 0 buf;
              len_in = length buf;
              seq = sequence;
            };
          },
        )
  unfolding reassemble ◌>>=◌
  first_lem d sequence buf h = ground (
    arith,
    append_buf_lem (record d { rnode = record d.rnode { len_in = 0 } }) buf,
    zero_add (length buf),
  )

  second_lem :
      (d : Daemon p) (sequence : ℕ) (buf : List ℕ)
      → length d.rnode.buf_in ≡ mtu
      → d.rnode.len_in ≤ data_mtu
      → length buf ≤ data_mtu
      → (d' : Daemon p) × (reassemble second sequence buf d ≡ some (tt, d'))
        × (d'.rnode ≡ delivered buf d.rnode)
  unfolding reassemble ◌>>=◌
  second_lem d sequence buf h lo hi =
      let stored : Daemon p = record d {
        rnode = record d.rnode {
          buf_in = copy_at d.rnode.buf_in d.rnode.len_in buf;
          len_in = d.rnode.len_in + length buf;
          seq = seq_unset;
        };
      } in
      let room = length-copy_at d.rnode.buf_in d.rnode.len_in buf (omega arith) in
      let (d', e, k) = hand_over_lem stored (omega arith) (omega arith) in
      (d', ground (arith, e, append_buf_lem d buf), k)

  whole_lem :
      (d : Daemon p) (sequence : ℕ) (buf : List ℕ)
      → IsReassembling d.rnode
      → length buf ≤ data_mtu
      → (d' : Daemon p) × (reassemble whole sequence buf d ≡ some (tt, d'))
        × (d'.rnode ≡ delivered buf (record d.rnode { len_in = 0 }))
  unfolding reassemble ◌>>=◌
  whole_lem d sequence buf i hi =
      let clean : Daemon p = record d { rnode = record d.rnode { len_in = 0; seq = seq_unset } } in
      let stored : Daemon p = record clean {
        rnode = record clean.rnode {
          buf_in = copy_at d.rnode.buf_in 0 buf;
          len_in = 0 + length buf;
        };
      } in
      let room = length-copy_at d.rnode.buf_in 0 buf (omega arith) in
      let (d', e, k) = hand_over_lem stored (omega arith) (omega arith) in
      (d', ground (arith, e, append_buf_lem clean buf), k)

  reassemble-IsReassembling :
      (part : Part) (d : Daemon p) (sequence : ℕ) (buf : List ℕ)
      → IsReassembling d.rnode
      → sequence < 16
      → length buf ≤ data_mtu
      → (d' : Daemon p) × (reassemble part sequence buf d ≡ some (tt, d')) × IsReassembling d'.rnode
  reassemble-IsReassembling first d sequence buf i s h = (
    _,
    first_lem d sequence buf (omega arith),
    record {
      space = omega (arith, length-copy_at d.rnode.buf_in 0 buf);
      part = inr (s, omega arith);
    },
  )
  reassemble-IsReassembling second d sequence buf i s h =
      let (d', e, k) = second_lem d sequence buf i.space (omega arith) h in
      (
        d',
        e,
        rw k (record {
          space = omega (arith, length-copy_at d.rnode.buf_in d.rnode.len_in buf);
          part = inl (refl, refl);
        }),
      )
  reassemble-IsReassembling whole d sequence buf i s h =
      let (d', e, k) = whole_lem d sequence buf i h in
      (
        d',
        e,
        rw k (record {
          space = omega (arith, length-copy_at d.rnode.buf_in 0 buf);
          part = inl (refl, refl);
        }),
      )

  promisc_lem :
      (d : Daemon p) (buf : List ℕ)
      → d.rnode.promisc ≡ true
      → length buf ≤ 255
      → (d' : Daemon p) × (rnode_from_air buf d ≡ some (tt, d'))
        × (d'.rnode ≡ record d.rnode { stat_rx = (d.rnode.stat_rx + 1) % 2 ^ 32 })
  unfolding rnode_from_air count_rx ◌>>=◌
  promisc_lem d buf e h =
      let (d', q, k) = encode-rnode d (0x00 ∷ buf) (omega arith) in
      (
        record d' { rnode = record d'.rnode { stat_rx = (d'.rnode.stat_rx + 1) % 2 ^ 32 } },
        ground (arith, q),
        ap (λ (r : Rnode p.Float). record r { stat_rx = (r.stat_rx + 1) % 2 ^ 32 }) k,
      )

  pub framed_lem :
      (d : Daemon p) (header : ℕ) (buf : List ℕ)
      → d.rnode.promisc ≡ false
      → rnode_from_air (header ∷ buf) d
        ≡ reassemble (part_of d.rnode.seq header) (header / 16) buf d
  unfolding rnode_from_air from_air_frame ◌>>=◌
  framed_lem d header buf e = ground arith

  -- From a valid reassembly, a frame of a header and up to 254 bytes makes rnode_from_air return
  -- without a fault, in either mode and at each stage of the reassembly, and leaves the reassembly
  -- valid.
  pub rnode_from_air-IsReassembling :
      (d : Daemon p) (header : ℕ) (buf : List ℕ)
      → IsReassembling d.rnode
      → header < 256
      → length buf ≤ data_mtu
      → (d' : Daemon p) × (rnode_from_air (header ∷ buf) d ≡ some (tt, d'))
        × IsReassembling d'.rnode
  rnode_from_air-IsReassembling d header buf i hb h = elim (Bool-cases d.rnode.promisc) [
    | inl on ↦
        let (d', e, k) = promisc_lem d (header ∷ buf) on (omega arith) in
        (d', e, rw k (record { space = i.space; part = i.part }))
    | inr off ↦
        let (d', e, k) =
          reassemble-IsReassembling (part_of d.rnode.seq header) d (header / 16) buf i (omega arith)
            h in
        (d', framed_lem d header buf off ∙ e, k)
  ]
