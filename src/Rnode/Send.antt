-- ===== src/Rnode/Send.antt =====
-- The frames that rnode_to_air sends, and what it leaves for rnode_tx_done.
use rnode_linux.Base.{
  ℕ, zero, suc, ◌+◌, ◌*◌, ◌/◌, ◌%◌, ◌^◌, ◌≤◌, ◌<◌, ◌≡◌, refl, ◌∙◌, ap, Bool, true, false, ◌&&◌,
  some, List, [], ◌∷◌, arith, length, take, drop, copy_at, length-take, length-drop, leb, le→leb,
  ◌==◌, bit_or,
}
use rnode_linux.Platform.{Platform, random_drawn, History}
use rnode_linux.State.{Daemon, Radio}
use rnode_linux.State.Monad.{pure, ◌>>=◌, ◌>>◌, bind-at}
use rnode_linux.Csma.Airtime.{random, csma_add_airtime, current_airtime_bin, get_time}
use rnode_linux.Radio.Packet.{sx126x_air_time, preamble_ms, data_ms}
use rnode_linux.Radio.Moves.{core}
use rnode_linux.Radio.Transmit.{
  transmitted, core-transmitted, start_event, params_event, write_event,
}
use rnode_linux.Rnode.Air.{
  data_mtu, single_mtu, flag_split, tx_buf, to_air_split, to_air_framed, rnode_to_air, count_tx,
}

-- The header of a frame, at the first `n` sequence numbers.
headers_agree : ℕ → ℕ → Bool
headers_agree flag zero = true
headers_agree flag (suc n) = bit_or (n * 16) flag == n * 16 + flag && headers_agree flag n

header_lem :
    (flag n k : ℕ) → headers_agree flag n ≡ true → k < n → bit_or (k * 16) flag ≡ k * 16 + flag
unfolding headers_agree
header_lem flag zero k h lt = omega arith
header_lem flag (suc n) k h lt = ground (arith, header_lem flag n k)

pub header_flag : (k : ℕ) → k < 16 → bit_or (k * 16) 1 ≡ k * 16 + 1
unfolding headers_agree
header_flag k = header_lem 1 16 k refl

pub header_plain : (k : ℕ) → k < 16 → bit_or (k * 16) 0 ≡ k * 16 + 0
unfolding headers_agree
header_plain k = header_lem 0 16 k refl

-- What sx126x_air_time returns.
abbrev pub air_ms : (p : Platform) → Radio → ℕ → ℕ
air_ms p r len = (preamble_ms p r + data_ms p r len) % 2 ^ 32

-- The three commands that put a frame on the air, newest first.
abbrev pub on_air : Radio → List ℕ → History
on_air r bytes = start_event ∷ params_event r (length bytes) ∷ write_event bytes ∷ []

module _ {p : Platform} where
  pub tx_buf-core :
      (d : Daemon p) (buf : List ℕ) (flag : ℕ)
      → length buf ≤ data_mtu
      → (d' : Daemon p) × (tx_buf buf flag d ≡ some (tt, d'))
        × (core d' ≡ transmitted (bit_or d.rnode.seq_tx flag ∷ buf) (core d))
  unfolding tx_buf ◌>>=◌
  tx_buf-core d buf flag h =
      let bytes = bit_or d.rnode.seq_tx flag ∷ buf in
      let (d', e, k) = core-transmitted d bytes (omega arith) in (d', rw len e, k)
    where
      len : length buf + 1 ≡ length (bit_or d.rnode.seq_tx flag ∷ buf)
      len = omega arith

  -- The daemon with a tail saved.
  abbrev saved : List ℕ → Daemon p → Daemon p
  saved tail d = record d {
    rnode = record d.rnode { len_tx = length tail; buf_tx = copy_at d.rnode.buf_tx 0 tail };
  }

  to_air_split-core :
      (d : Daemon p) (buf : List ℕ)
      → data_mtu < length buf
      → length buf ≤ 508
      → (t : ℕ) × (d' : Daemon p) × (to_air_split buf d ≡ some (t, d'))
        × (core d'
            ≡ transmitted
                (bit_or d.rnode.seq_tx flag_split ∷ take data_mtu buf)
                (core (saved (drop data_mtu buf) d)))
  unfolding to_air_split sx126x_air_time ◌>>=◌
  to_air_split-core d buf lo h =
      let (d', e, k) =
        tx_buf-core (saved (drop data_mtu buf) d) (take data_mtu buf) flag_split
          (omega (arith, length-take data_mtu buf (omega arith))) in
      (
        (air_ms p d.radio (length (drop data_mtu buf) % 65536) + air_ms p d'.radio data_mtu)
            % 2 ^ 32,
        d',
        rw fits (
            bind-at (tx_buf (take data_mtu buf) flag_split)
              (λ _. do
                first_time ← sx126x_air_time data_mtu
                pure
                    ((air_ms p d.radio (length (drop data_mtu buf) % 65536) + first_time) % 2 ^ 32))
              e),
        k,
      )
    where
      fits : leb (length (drop data_mtu buf)) single_mtu ≡ true
      fits = le→leb _ _ (omega (arith, length-drop data_mtu buf))

  -- The daemon with a new sequence, `k`, and a tail saved.
  abbrev pub split_at : ℕ → List ℕ → Daemon p → Daemon p
  split_at k tail d = record d {
    rnode = record d.rnode {
      seq_tx = k * 16;
      len_tx = length tail;
      buf_tx = copy_at d.rnode.buf_tx 0 tail;
    };
  }

  to_air_framed-core :
      (d : Daemon p) (buf : List ℕ)
      → data_mtu < length buf
      → length buf ≤ 508
      → (k : ℕ) × (k < 16)
        × (t : ℕ) × (d' : Daemon p) × (to_air_framed buf d ≡ some (t, d'))
        × (core d'
            ≡ transmitted
                ((k * 16 + 1) ∷ take data_mtu buf)
                (core (split_at k (drop data_mtu buf) d)))
  unfolding to_air_framed random ◌>>=◌
  to_air_framed-core d buf lo h =
      let drawn = random_drawn ∷ d.history in
      let k = p.random drawn / 16 % 16 in
      let d1 : Daemon p = record d {
        rnode = record d.rnode { seq_tx = k * 16 };
        history = drawn;
      } in
      let (t, d', e, c) = to_air_split-core d1 buf lo h in
      (k, omega arith, t, d', rw (whole, e) refl, rw (header_flag k (omega arith)) at c)
    where
      whole : leb (length buf) data_mtu ≡ false
      whole = ground arith

  -- The account of a transmission, which ends rnode_to_air.
  pub account-core :
      (d : Daemon p) (t : ℕ)
      → (d' : Daemon p) × ((do csma_add_airtime t; count_tx; pure t) d ≡ some (t, d'))
        × (core d' ≡ record (core d) {
          csma = d'.csma;
          rnode = record d.rnode { stat_tx = (d.rnode.stat_tx + 1) % 2 ^ 32 };
        })
  unfolding csma_add_airtime current_airtime_bin get_time count_tx ◌>>=◌
  account-core d t = (_, refl, refl)

  pub rnode_to_air-core :
      (d : Daemon p) (buf : List ℕ)
      → d.rnode.promisc ≡ false
      → data_mtu < length buf
      → length buf ≤ 508
      → (k : ℕ) × (k < 16)
        × (t : ℕ) × (d' : Daemon p) × (rnode_to_air buf d ≡ some (t, d'))
        × (let first =
              transmitted
                ((k * 16 + 1) ∷ take data_mtu buf)
                (core (split_at k (drop data_mtu buf) d)) in
            core d' ≡ record first {
              csma = d'.csma;
              rnode = record first.rnode { stat_tx = (d.rnode.stat_tx + 1) % 2 ^ 32 };
            })
  unfolding rnode_to_air transmitted ◌>>=◌
  rnode_to_air-core d buf off lo h =
      let (k, small, t, d1, e, c) = to_air_framed-core d buf lo h in
      let (d', e', c') = account-core d1 t in
      (
        k,
        small,
        t,
        d',
        ground (arith, e, e', off),
        c'
            ∙ ap
                (λ (w : Daemon p). record w {
                  csma = d'.csma;
                  rnode = record w.rnode { stat_tx = (w.rnode.stat_tx + 1) % 2 ^ 32 };
                })
                c,
      )
