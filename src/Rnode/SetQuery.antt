-- ===== src/Rnode/SetQuery.antt =====
-- Settings: a client is told what it has set.
use rnode_linux.Base.{ℕ, ◌+◌, ◌^◌, ◌<◌, ◌≡◌, refl, false, List, [], ◌∷◌, arith}
use rnode_linux.Base.Bytes.{byte, byte1, byte2, byte3, u32-bytes}
use rnode_linux.Platform.{Platform}
use rnode_linux.State.{
  Daemon, Bw, bw_7800, bw_10400, bw_15600, bw_20800, bw_31250, bw_41700, bw_62500, bw_125000,
  bw_250000, bw_500000, Cr, cr_4_4, cr_4_5, cr_4_6, cr_4_7, cr_4_8,
}
use rnode_linux.State.Monad.{◌>>=◌}
use rnode_linux.Kiss.Encode.{kiss_encode}
use rnode_linux.Radio.Settings.{bw_hz, cr_code}
use rnode_linux.Rnode.Settings.{ans_frequency, bw_of_hz, cr_of_param, ans_u32, at_u32}

-- Each bandwidth is the one for its number of hertz, and each coding rate the one for its number from 4
-- to 8, whatever was set before.
pub of_param-codes :
    (b current : Bw) (c current' : Cr)
    → (bw_of_hz (bw_hz b) current ≡ b) × (cr_of_param (cr_code c + 4) current' ≡ c)
unfolding bw_of_hz cr_of_param
of_param-codes b current c current' = (bandwidth b current, rate c current')
  where
    bandwidth : (b current : Bw) → bw_of_hz (bw_hz b) current ≡ b
    bandwidth bw_7800 current = refl
    bandwidth bw_10400 current = refl
    bandwidth bw_15600 current = refl
    bandwidth bw_20800 current = refl
    bandwidth bw_31250 current = refl
    bandwidth bw_41700 current = refl
    bandwidth bw_62500 current = refl
    bandwidth bw_125000 current = refl
    bandwidth bw_250000 current = refl
    bandwidth bw_500000 current = refl

    rate : (c current : Cr) → cr_of_param (cr_code c + 4) current ≡ c
    rate cr_4_4 current = refl
    rate cr_4_5 current = refl
    rate cr_4_6 current = refl
    rate cr_4_7 current = refl
    rate cr_4_8 current = refl

module _ {p : Platform} where
  set_frequency :
      (d : Daemon p) (param : List ℕ) (x : ℕ)
      → at_u32 param ≡ x
      → 0 < x
      → d.rnode.radio_online ≡ false
      → ans_frequency param d
        ≡ kiss_encode (ans_u32 0x01 x) (record d { rnode = record d.rnode { current_freq = x } })
  unfolding ans_frequency ◌>>=◌
  set_frequency d param x e lo off = rw e (ground (arith, off))

  pub ans_frequency-query :
      (d : Daemon p) (x : ℕ)
      → 0 < x
      → x < 2 ^ 32
      → d.rnode.radio_online ≡ false
      → let set' : Daemon p = record d { rnode = record d.rnode { current_freq = x } } in
        (ans_frequency (byte3 x ∷ byte2 x ∷ byte1 x ∷ byte x ∷ []) d
          ≡ kiss_encode (ans_u32 0x01 x) set')
        × (ans_frequency (0 ∷ 0 ∷ 0 ∷ 0 ∷ []) set' ≡ kiss_encode (ans_u32 0x01 x) set')
  unfolding ans_frequency ◌>>=◌
  ans_frequency-query d x lo hi off = (
    set_frequency d (byte3 x ∷ byte2 x ∷ byte1 x ∷ byte x ∷ []) x (u32-bytes x (omega arith)) lo
        off,
    refl,
  )
