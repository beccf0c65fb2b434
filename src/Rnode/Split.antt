-- ===== src/Rnode/Split.antt =====
-- rnode_to_air and rnode_tx_done on a packet of two frames: what reaches the radio.
use rnode_linux.Base.{
  ℕ, ◌+◌, ◌*◌, ◌≤◌, ◌<◌, ◌≡◌, ◌∙◌, ap, false, some, List, ◌∷◌, ◌++◌, arith, length, take, drop,
  length-drop, take-copy_at_start, lt→ltb, bit_or,
}
use rnode_linux.Platform.{Platform}
use rnode_linux.State.{Daemon}
use rnode_linux.State.Monad.{◌>>=◌, set_rnode, bind-at}
use rnode_linux.Radio.Moves.{core, command_log}
use rnode_linux.Radio.Transmit.{transmitted}
use rnode_linux.Rnode.Air.{data_mtu, single_mtu, flag_split, tx_buf, rnode_to_air, rnode_tx_done}
use rnode_linux.Rnode.Send.{on_air, header_flag, tx_buf-core, rnode_to_air-core}

module _ {p : Platform} where
  -- The saved tail goes out, with the header of the frame before it.
  rnode_tx_done-core :
      (d : Daemon p)
      → 0 < d.rnode.len_tx
      → length (take d.rnode.len_tx d.rnode.buf_tx) ≤ data_mtu
      → (d' : Daemon p) × (rnode_tx_done d ≡ some (tt, d'))
        × (let last =
              transmitted
                (bit_or d.rnode.seq_tx flag_split ∷ take d.rnode.len_tx d.rnode.buf_tx)
                (core d) in
            core d' ≡ record last { rnode = record last.rnode { len_tx = 0 } })
  unfolding rnode_tx_done transmitted ◌>>=◌
  rnode_tx_done-core d lo h =
      let (d', e, c) = tx_buf-core d (take d.rnode.len_tx d.rnode.buf_tx) flag_split h in
      (
        record d' { rnode = record d'.rnode { len_tx = 0 } },
        rw (lt→ltb 0 d.rnode.len_tx lo) (
            bind-at (tx_buf (take d.rnode.len_tx d.rnode.buf_tx) flag_split)
              (λ _. set_rnode (λ r. record r { len_tx = 0 })) e),
        ap (λ (w : Daemon p). record w { rnode = record w.rnode { len_tx = 0 } }) c,
      )

  -- Outside promiscuous mode, a packet of 255 to 508 bytes goes to the radio in two frames, when
  -- rnode_tx_done follows rnode_to_air, whatever the devices answer: the first 254 bytes and then
  -- the rest, each behind a header with the same sequence number in its high half and the split
  -- flag. No tail is left, and no other command for a packet or a setting is sent.
  pub rnode_to_air-split :
      (d : Daemon p) (buf : List ℕ)
      → d.rnode.promisc ≡ false
      → length d.rnode.buf_tx ≡ single_mtu
      → data_mtu < length buf
      → length buf ≤ 508
      → (k : ℕ) × (k < 16)
        × (d' : Daemon p) × ((do _ ← rnode_to_air buf; rnode_tx_done) d ≡ some (tt, d'))
        × (command_log d'.history
            ≡ on_air d.radio ((k * 16 + 1) ∷ drop data_mtu buf)
              ++ (on_air d.radio ((k * 16 + 1) ∷ take data_mtu buf) ++ command_log d.history))
        × (d'.rnode.len_tx ≡ 0)
  unfolding transmitted
  rnode_to_air-split d buf off room lo h =
      let (k, small, t, d1, e, c) = rnode_to_air-core d buf off lo h in
      let n = ap (λ (w : Daemon p). w.rnode.len_tx) c in
      let tail : take d1.rnode.len_tx d1.rnode.buf_tx ≡ drop data_mtu buf =
        ap (λ (w : Daemon p). take w.rnode.len_tx w.rnode.buf_tx) c
        ∙ take-copy_at_start d.rnode.buf_tx (drop data_mtu buf)
            (omega (arith, length-drop data_mtu buf)) in
      let (d', e', c') =
        rnode_tx_done-core d1 (omega (arith, n, length-drop data_mtu buf))
          (omega (arith, ap length tail, length-drop data_mtu buf)) in
      let frame = (k * 16 + 1) ∷ drop data_mtu buf in
      let same : bit_or d1.rnode.seq_tx flag_split ∷ take d1.rnode.len_tx d1.rnode.buf_tx ≡ frame =
        ap (λ s. bit_or s flag_split ∷ take d1.rnode.len_tx d1.rnode.buf_tx)
          (ap (λ (w : Daemon p). w.rnode.seq_tx) c)
        ∙ ap (λ x. x ∷ take d1.rnode.len_tx d1.rnode.buf_tx) (header_flag k small)
        ∙ ap (λ l. (k * 16 + 1) ∷ l) tail in
      (
        k,
        small,
        d',
        bind-at (rnode_to_air buf) (λ _. rnode_tx_done) e ∙ e',
        ap (λ (w : Daemon p). w.history) c'
            ∙ ap
                (λ (w : Daemon p).
                  on_air w.radio
                    (bit_or d1.rnode.seq_tx flag_split ∷ take d1.rnode.len_tx d1.rnode.buf_tx)
                  ++ w.history)
                c
            ∙ ap
                (λ x.
                  on_air d.radio x
                  ++ (on_air d.radio ((k * 16 + 1) ∷ take data_mtu buf) ++ command_log d.history))
                same,
        ap (λ (w : Daemon p). w.rnode.len_tx) c',
      )
