-- ===== src/Rnode/First.antt =====
-- rnode_to_air on any packet of up to 508 bytes: the frame that it sends at once.
use rnode_linux.Base.{
  ℕ, ◌+◌, ◌*◌, ◌/◌, ◌%◌, ◌≤◌, ◌<◌, ◌≡◌, refl, ◌∙◌, ap, true, false, inl, inr, some, List, ◌∷◌, ◌++◌,
  arith, length, take, take_all, Bool-cases, leb, le→leb, gt→leb, sym, if◌then◌else◌,
}
use rnode_linux.Platform.{Platform, random_drawn}
use rnode_linux.State.{Daemon}
use rnode_linux.State.Monad.{◌>>=◌, ◌>>◌, bind-at, set_rnode}
use rnode_linux.Csma.Airtime.{random}
use rnode_linux.Radio.Packet.{sx126x_air_time}
use rnode_linux.Radio.Moves.{command_log}
use rnode_linux.Radio.Transmit.{transmitted}
use rnode_linux.Rnode.Air.{data_mtu, tx_buf, to_air_whole, to_air_framed, rnode_to_air}
use rnode_linux.Rnode.Send.{
  on_air, air_ms, tx_buf-core, account-core, rnode_to_air-core, header_plain,
}

-- The split flag says whether the packet goes on in another frame.
abbrev pub first_frame : ℕ → List ℕ → List ℕ
first_frame k buf = (k * 16 + (if leb (length buf) data_mtu then 0 else 1)) ∷ take data_mtu buf

first_frame-short :
    (k : ℕ) (buf : List ℕ) → length buf ≤ data_mtu → first_frame k buf ≡ (k * 16 + 0) ∷ buf
first_frame-short k buf h = rw (le→leb (length buf) data_mtu h, take_all data_mtu buf h) refl

first_frame-long :
    (k : ℕ) (buf : List ℕ)
    → data_mtu < length buf
    → first_frame k buf ≡ (k * 16 + 1) ∷ take data_mtu buf
first_frame-long k buf h = rw (gt→leb (length buf) data_mtu h) refl

module _ {p : Platform} where
  pub to_air_framed-whole :
      (d : Daemon p) (buf : List ℕ)
      → length buf ≤ data_mtu
      → (k : ℕ) × (k < 16)
        × (t : ℕ) × (d' : Daemon p) × (to_air_framed buf d ≡ some (t, d'))
        × (command_log d'.history ≡ on_air d.radio ((k * 16 + 0) ∷ buf) ++ command_log d.history)
        × (d'.queue ≡ d.queue)
        × (d'.rnode.len_tx ≡ 0)
  unfolding to_air_framed to_air_whole random sx126x_air_time transmitted ◌>>=◌
  to_air_framed-whole d buf h =
      let drawn = random_drawn ∷ d.history in
      let k = p.random drawn / 16 % 16 in
      let d1 : Daemon p = record d {
        rnode = record d.rnode { seq_tx = k * 16 };
        history = drawn;
      } in
      let (d2, e, c) = tx_buf-core d1 buf 0 h in
      let d' : Daemon p = record d2 { rnode = record d2.rnode { len_tx = 0 } } in
      (
        k,
        omega arith,
        air_ms p d2.radio (length buf % 65536),
        d',
        rw whole (
            bind-at (tx_buf buf 0)
              (λ _. do
                set_rnode (λ r. record r { len_tx = 0 })
                sx126x_air_time (length buf % 65536))
              e),
        ap (λ (w : Daemon p). w.history) c
            ∙ ap (λ x. on_air d.radio (x ∷ buf) ++ command_log d.history)
                (header_plain k (omega arith)),
        ap (λ (w : Daemon p). w.queue) c,
        refl,
      )
    where
      whole : leb (length buf) data_mtu ≡ true
      whole = le→leb _ _ h

  -- A packet that fits in one frame leaves no tail.
  pub rnode_to_air-whole :
      (d : Daemon p) (buf : List ℕ)
      → d.rnode.promisc ≡ false
      → length buf ≤ data_mtu
      → (k : ℕ) × (k < 16)
        × (t : ℕ) × (d' : Daemon p) × (rnode_to_air buf d ≡ some (t, d'))
        × (command_log d'.history ≡ on_air d.radio ((k * 16 + 0) ∷ buf) ++ command_log d.history)
        × (d'.queue ≡ d.queue)
        × (d'.rnode.len_tx ≡ 0)
  unfolding rnode_to_air transmitted ◌>>=◌
  rnode_to_air-whole d buf off le =
      let (k, small, t, d1, e, c, q, n) = to_air_framed-whole d buf le in
      let (d', e', c') = account-core d1 t in
      (
        k,
        small,
        t,
        d',
        ground (arith, e, e', off),
        ap (λ (w : Daemon p). w.history) c' ∙ c,
        ap (λ (w : Daemon p). w.queue) c' ∙ q,
        ap (λ (w : Daemon p). w.rnode.len_tx) c' ∙ n,
      )

  -- A packet of up to 508 bytes puts exactly one frame on the air at once: a header with a sequence number
  -- and the split flag where more than 254 bytes are to go, and up to 254 bytes of the packet.
  pub rnode_to_air-first :
      (d : Daemon p) (buf : List ℕ)
      → d.rnode.promisc ≡ false
      → length buf ≤ 508
      → (k : ℕ) × (k < 16)
        × (t : ℕ) × (d' : Daemon p) × (rnode_to_air buf d ≡ some (t, d'))
        × (command_log d'.history ≡ on_air d.radio (first_frame k buf) ++ command_log d.history)
        × (d'.queue ≡ d.queue)
  unfolding transmitted
  rnode_to_air-first d buf off h = elim (Bool-cases (leb (length buf) data_mtu)) [
    | inl short ↦
        let le : length buf ≤ data_mtu = ground arith in
        let (k, small, t, d', e, c, q, n) = rnode_to_air-whole d buf off le in
        (
          k,
          small,
          t,
          d',
          e,
          c
              ∙ ap (λ x. on_air d.radio x ++ command_log d.history)
                  (sym (first_frame-short k buf le)),
          q,
        )
    | inr long ↦
        let lo : data_mtu < length buf = ground arith in
        let (k, small, t, d', e, c) = rnode_to_air-core d buf off lo h in
        (
          k,
          small,
          t,
          d',
          e,
          ap (λ (w : Daemon p). w.history) c
              ∙ ap (λ x. on_air d.radio x ++ command_log d.history)
                  (sym (first_frame-long k buf lo)),
          ap (λ (w : Daemon p). w.queue) c,
        )
  ]
