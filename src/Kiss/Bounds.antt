-- ===== src/Kiss/Bounds.antt =====
-- kiss_decode on any bytes: it stays in its buffer.
use rnode_linux.Base.{
  ℕ, ◌+◌, ◌<◌, ◌≡◌, Bool, true, false, not, ◌&&◌, ◌∙◌, inl, inr, Bool-cases, lt→ltb, List, [], ◌∷◌,
  arith, length, set, length-set, ltb, leb, ◌==◌, some,
}
use rnode_linux.Platform.{Platform}
use rnode_linux.State.{Daemon, Kiss}
use rnode_linux.State.Monad.{M, ◌>>=◌}
use rnode_linux.State.Keeps.{Keeps, Keeps-pure, Keeps-gets, Keeps-modify, Keeps-if, Keeps-bind}
use rnode_linux.Kiss.Encode.{mtu, fend, fesc}
use rnode_linux.Kiss.Decode.{kiss_decode, store_byte, decode_byte, unescape}

-- The next byte has a place in the buffer.
pub record HasRoom (k : Kiss) : Type 0 where
  pub whole : length k.buf_in ≡ mtu
  pub room : k.len_in < mtu

module _ {p : Platform} (h : List ℕ → ℕ → M p (Unit {0})) where
  -- The state after the write of a byte.
  abbrev stored : ℕ → Kiss → Kiss
  stored byte k = record k { buf_in = set k.buf_in k.len_in byte; len_in = k.len_in + 1 }

  stored_whole : (byte : ℕ) (k : Kiss) → HasRoom k → length (set k.buf_in k.len_in byte) ≡ mtu
  stored_whole byte k r = length-set k.buf_in k.len_in byte ∙ r.whole

  store_byte-at :
      (byte : ℕ) (d : Daemon p)
      → HasRoom d.kiss
      → (r : Bool × Daemon p) × (store_byte h byte d ≡ some r) × HasRoom r.1.kiss
  unfolding store_byte ◌>>=◌
  store_byte-at byte d r =
      let fits = lt→ltb d.kiss.len_in (length d.kiss.buf_in) (omega arith) in
      elim (Bool-cases (leb mtu (d.kiss.len_in + 1))) [
        | inl full ↦ (
          (
            false,
            record d {
              kiss = record (stored byte d.kiss) { len_in = 0; escape = false; sync = false };
            },
          ),
          ground (arith, fits, full),
          record { whole = stored_whole byte d.kiss r; room = omega arith },
        )
        | inr free ↦ (
          (true, record d { kiss = stored byte d.kiss }),
          ground (arith, fits, free),
          record { whole = stored_whole byte d.kiss r; room = ground arith },
        )
      ]

  store_byte-HasRoom : (byte : ℕ) → Keeps (λ d. HasRoom d.kiss) (store_byte h byte)
  store_byte-HasRoom byte = record { at = store_byte-at byte }

  module _ (keeps : (buf : List ℕ) (len : ℕ) → Keeps (λ d. HasRoom d.kiss) (h buf len)) where
    decode_byte-HasRoom : (byte : ℕ) → Keeps (λ d. HasRoom d.kiss) (decode_byte h byte)
    unfolding decode_byte
    decode_byte-HasRoom byte = Keeps-bind _ _ (Keeps-gets _) λ k.
        Keeps-if (byte == fend) _ _
          (Keeps-bind _ _
            (Keeps-if (k.sync && ltb 0 k.len_in) _ _ (keeps k.buf_in k.len_in) (Keeps-pure tt))
            λ _.
              Keeps-bind _ _
                (Keeps-modify _ (λ d r. record { whole = r.whole; room = omega arith }))
                λ _. Keeps-pure true)
          (Keeps-if (not k.sync) _ _ (Keeps-pure true) (
            Keeps-if (byte == fesc) _ _
              (Keeps-bind _ _ (Keeps-modify _ (λ d r. record { whole = r.whole; room = r.room }))
                λ _. Keeps-pure true)
              (Keeps-if k.escape _ _
                (Keeps-bind _ _ (Keeps-modify _ (λ d r. record { whole = r.whole; room = r.room }))
                  λ _. store_byte-HasRoom (unescape byte))
                (store_byte-HasRoom byte))))

    Keeps-kiss_decode : (bytes : List ℕ) → Keeps (λ d. HasRoom d.kiss) (kiss_decode h bytes)
    unfolding kiss_decode
    Keeps-kiss_decode [] = Keeps-pure tt
    Keeps-kiss_decode (byte ∷ bytes) =
        Keeps-bind _ _ (decode_byte-HasRoom byte)
          λ more. Keeps-if more _ _ (Keeps-kiss_decode bytes) (Keeps-pure tt)

    -- With a handler that returns and keeps the decoder's bounds, the decoder returns on any bytes, of any
    -- number, from any state within its bounds, without a write outside its buffer, and stays within its
    -- bounds.
    pub kiss_decode-HasRoom :
        (d : Daemon p) (bytes : List ℕ)
        → HasRoom d.kiss
        → (d' : Daemon p) × (kiss_decode h bytes d ≡ some (tt, d')) × HasRoom d'.kiss
    kiss_decode-HasRoom d bytes r = let (s, e, k) = (Keeps-kiss_decode bytes).at d r in (s.1, e, k)
