-- ===== src/Kiss/Streams.antt =====
-- kiss_decode on several frames in one stream of bytes.
use rnode_linux.Base.{
  ℕ, Bool, ◌&&◌, ltb, if◌then◌else◌, Bool-cases, ◌<◌, ◌≡◌, refl, ◌∙◌, inl, inr, true, false, some,
  List, [], ◌∷◌, ◌++◌, append_assoc, arith, length, take, All,
}
use rnode_linux.Platform.{Platform}
use rnode_linux.State.{Daemon, Kiss}
use rnode_linux.State.Monad.{M, pure, ◌>>=◌, set_kiss, bind-at}
use rnode_linux.Kiss.Encode.{mtu, fend}
use rnode_linux.Kiss.Decode.{kiss_decode, decode_byte}
use rnode_linux.Kiss.Frame.{escaped, frame}
use rnode_linux.Kiss.RoundTrip.{
  IsIdle, store_all, store_all-IsInside, opened, kiss_decode-start, kiss_decode-escaped,
}

-- A packet that a frame can bring.
abbrev pub IsPacket : List ℕ → Type 0
IsPacket xs = (0 < length xs) × (length xs < mtu)

abbrev pub frames : List (List ℕ) → List ℕ
frames [] = []
frames (xs ∷ packets) = frame xs ++ frames packets

-- Bytes of a frame that has not ended are pending.
abbrev pub pending : Kiss → Bool
pending k = k.sync && ltb 0 k.len_in

module _ {p : Platform} (h : List ℕ → ℕ → M p (Unit {0})) where
  -- The daemon inside a frame of `n` bytes in `b`, and after it.
  abbrev pub framed : List ℕ → ℕ → Daemon p → Daemon p
  framed b n d = record d { kiss = record { buf_in = b; len_in = n; sync = true; escape = false } }

  abbrev pub closed : Daemon p → Daemon p
  closed d = record d { kiss = record d.kiss { len_in = 0; sync = true } }

  end_then :
      (d : Daemon p) (rest : List ℕ)
      → d.kiss.sync ≡ true
      → 0 < d.kiss.len_in
      → kiss_decode h (fend ∷ rest) d
        ≡ (h d.kiss.buf_in d.kiss.len_in >>= λ _.
              set_kiss (λ k. record k { len_in = 0; sync = true }) >>= λ _. kiss_decode h rest)
            d
  unfolding kiss_decode decode_byte ◌>>=◌
  end_then d rest s lo = ground arith

  frame_then :
      (d : Daemon p) (xs rest : List ℕ)
      → IsIdle d.kiss
      → IsPacket xs
      → (b : List ℕ) × (length b ≡ mtu)
        × (take (length xs) b ≡ xs)
        × (kiss_decode h (frame xs ++ rest) d
            ≡ (h b (length xs) >>= λ _.
                  set_kiss (λ k. record k { len_in = 0; sync = true }) >>= λ _. kiss_decode h rest)
                (framed b (length xs) d))
  unfolding frame ◌>>=◌
  frame_then d xs rest i (lo, hi) =
      let k = (opened h d).kiss in
      let (whole, len, synced, clear, same) = store_all-IsInside h k xs (ground arith) in
      (
        (store_all k xs).buf_in,
        whole,
        ground arith,
        ground (
          arith,
          append_assoc (escaped xs) (fend ∷ []) rest,
          kiss_decode-start h d (escaped xs ++ fend ∷ rest) i,
          kiss_decode-escaped h (opened h d) xs (fend ∷ rest),
          end_then (record d { kiss = store_all k xs }) rest,
        ),
      )

  -- What the decoder is to do with packets: one call of the handler for each, in their order, with its
  -- bytes at the start of the buffer and their number.
  pub data Delivered : List (List ℕ) → Daemon p → Daemon p → Type 0 where
    none_left : {d : Daemon p} → Delivered [] d d
    one_more :
        {xs : List ℕ} {packets : List (List ℕ)} {d d1 d' : Daemon p} (b : List ℕ)
        → length b ≡ mtu
        → take (length xs) b ≡ xs
        → h b (length xs) (framed b (length xs) d) ≡ some (tt, d1)
        → Delivered packets (closed d1) d'
        → Delivered (xs ∷ packets) d d'

  -- The handler returns and leaves the decoder's variables alone.
  pub record IsQuiet : Type 0 where
    pub returns :
        (buf : List ℕ) (n : ℕ) (d : Daemon p)
        → (d' : Daemon p) × (h buf n d ≡ some (tt, d')) × (d'.kiss ≡ d.kiss)

  after_handler :
      (b : List ℕ) (n : ℕ) (rest : List ℕ) (d d1 : Daemon p)
      → h b n d ≡ some (tt, d1)
      → (h b n >>= λ _.
            set_kiss (λ k. record k { len_in = 0; sync = true }) >>= λ _. kiss_decode h rest)
          d
        ≡ kiss_decode h rest (closed d1)
  unfolding ◌>>=◌
  after_handler b n rest d d1 e = bind-at (h b n) _ e

  -- With a handler that returns and leaves the decoder alone, an idle decoder makes of the frames of
  -- packets, of at least one byte each and fewer than the buffer holds, in any number, exactly one call
  -- of the handler for each packet, in their order and with its bytes, and is idle again.
  pub kiss_decode-frames :
      (packets : List (List ℕ)) (d : Daemon p)
      → IsQuiet
      → IsIdle d.kiss
      → All IsPacket packets
      → (d' : Daemon p) × (kiss_decode h (frames packets) d ≡ some (tt, d'))
        × Delivered packets d d'
        × IsIdle d'.kiss
  unfolding kiss_decode pure
  kiss_decode-frames [] d quiet i fit = (d, refl, none_left, i)
  kiss_decode-frames (xs ∷ packets) d quiet i fit =
      let (b, whole, same, e) = frame_then d xs (frames packets) i fit.0 in
      let (d1, q, kept) = quiet.returns b (length xs) (framed b (length xs) d) in
      let idle : IsIdle (closed d1).kiss =
        rw kept (record { whole = whole; no_escape = refl; at_start = inr refl }) in
      let (d', r, delivered, i') = kiss_decode-frames packets (closed d1) quiet idle fit.1 in
      (
        d',
        e ∙ after_handler b (length xs) (frames packets) (framed b (length xs) d) d1 q ∙ r,
        one_more b whole same q delivered,
        i',
      )

  start_then :
      (d : Daemon p) (rest : List ℕ)
      → pending d.kiss ≡ false
      → kiss_decode h (fend ∷ rest) d ≡ kiss_decode h rest (closed d)
  unfolding kiss_decode decode_byte ◌>>=◌
  start_then d rest e = ground (arith, e)

  pending_then :
      (d : Daemon p) (rest : List ℕ)
      → pending d.kiss ≡ true
      → kiss_decode h (fend ∷ rest) d
        ≡ (h d.kiss.buf_in d.kiss.len_in >>= λ _.
              set_kiss (λ k. record k { len_in = 0; sync = true }) >>= λ _. kiss_decode h rest)
            d
  pending_then d rest e = end_then d rest (ground (arith, e)) (ground (arith, e))

  -- With a handler that returns and leaves the decoder alone, from any state of the decoder, its buffer
  -- of its size, but a pending escape, a FEND resynchronises: pending bytes, if there are any, make one
  -- call of the handler, and then the frames of packets, of at least one byte each and fewer than the
  -- buffer holds, make exactly one call for each packet.
  pub kiss_decode-resync :
      (packets : List (List ℕ)) (d : Daemon p)
      → IsQuiet
      → length d.kiss.buf_in ≡ mtu
      → d.kiss.escape ≡ false
      → All IsPacket packets
      → (d1 : Daemon p) × (if pending d.kiss then h d.kiss.buf_in d.kiss.len_in d else some (tt, d))
          ≡ some (tt, d1)
        × ((d' : Daemon p) × (kiss_decode h (fend ∷ frames packets) d ≡ some (tt, d'))
            × Delivered packets (closed d1) d')
  kiss_decode-resync packets d quiet whole clear fit = elim (Bool-cases (pending d.kiss)) [
    | inl e ↦
        let (d1, q, kept) = quiet.returns d.kiss.buf_in d.kiss.len_in d in
        let idle : IsIdle (closed d1).kiss =
          rw kept (record { whole = whole; no_escape = clear; at_start = inr refl }) in
        let (d', r, delivered, i) = kiss_decode-frames packets (closed d1) quiet idle fit in
        (
          d1,
          rw e q,
          (
            d',
            pending_then d (frames packets) e
                ∙ after_handler d.kiss.buf_in d.kiss.len_in (frames packets) d d1 q
                ∙ r,
            delivered,
          ),
        )
    | inr e ↦
        let idle : IsIdle (closed d).kiss = record {
          whole = whole;
          no_escape = clear;
          at_start = inr refl;
        } in
        let (d', r, delivered, i) = kiss_decode-frames packets (closed d) quiet idle fit in
        (d, rw e refl, (d', start_then d (frames packets) e ∙ r, delivered))
  ]
