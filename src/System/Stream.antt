-- ===== src/System/Stream.antt =====
-- src/kiss.c and the commands that it finds in the client's bytes.
use rnode_linux.Base.{
  ℕ, ◌+◌, ◌<◌, ◌≡◌, refl, ◌∙◌, ap, sym, Bool, true, false, not, ◌&&◌, inl, inr, Bool-cases, lt→ltb,
  List, [], ◌∷◌, arith, length, set, length-set, ltb, leb, ◌==◌, some, if◌then◌else◌,
}
use rnode_linux.Platform.{Platform}
use rnode_linux.State.{Daemon, Kiss}
use rnode_linux.State.Monad.{M, ◌>>=◌, modify, pure, bind-at}
use rnode_linux.Kiss.Encode.{mtu, fend, fesc}
use rnode_linux.Kiss.Decode.{kiss_decode, store_byte, decode_byte, unescape}
use rnode_linux.Kiss.Bounds.{HasRoom}
use rnode_linux.Rnode.Dispatch.{rnode_from_channel}
use rnode_linux.System.Sound.{Sound, AtRest}
use rnode_linux.System.Commands.{IsSafe, Keeps-from_channel}

-- The decoder's variables after a byte that belongs to a frame.
unfoldable stored : ℕ → Kiss → Kiss
stored byte k =
    if leb mtu (k.len_in + 1)
    then record { buf_in = set k.buf_in k.len_in byte; len_in = 0; sync = false; escape = false }
    else record k { buf_in = set k.buf_in k.len_in byte; len_in = k.len_in + 1 }

-- The decoder's variables after any byte.
unfoldable pub next : ℕ → Kiss → Kiss
unfolding stored
next byte k =
    if byte == fend
    then record k { len_in = 0; sync = true }
    else (if not k.sync
        then k
        else (if byte == fesc
            then record k { escape = true }
            else (if k.escape
                then stored (unescape byte) (record k { escape = false })
                else stored byte k)))

-- A byte that fills the buffer ends the call.
unfoldable pub goes_on : ℕ → Kiss → Bool
goes_on byte k =
    if byte == fend
    then true
    else (if not k.sync
        then true
        else (if byte == fesc then true else not (leb mtu (k.len_in + 1))))

-- A frame's last byte.
unfoldable pub ends : ℕ → Kiss → Bool
ends byte k = byte == fend && (k.sync && ltb 0 k.len_in)

-- Each frame that the bytes complete is a command that the daemon can take.
unfoldable pub IsPolite : Kiss → List ℕ → Type 0
IsPolite k [] = Unit
IsPolite k (byte ∷ bytes) =
    (ends byte k ≡ true → IsSafe k.buf_in k.len_in)
    × (goes_on byte k ≡ true → IsPolite (next byte k) bytes)

next-HasRoom : (byte : ℕ) (k : Kiss) → HasRoom k → HasRoom (next byte k)
unfolding next stored
next-HasRoom byte k r = record { whole = whole; room = room }
  where
    kept : (x : ℕ) → length (set k.buf_in k.len_in x) ≡ mtu
    kept x = length-set k.buf_in k.len_in x ∙ r.whole

    whole : length (next byte k).buf_in ≡ mtu
    whole = ground (arith, kept byte, kept (unescape byte), r.whole)

    room : (next byte k).len_in < mtu
    room = ground (arith, r.room)

next-end :
    (byte : ℕ) (k : Kiss) → ends byte k ≡ true → record k { len_in = 0; sync = true } ≡ next byte k
unfolding next ends
next-end byte k e = ground (arith, e)

goes_on-end : (byte : ℕ) (k : Kiss) → ends byte k ≡ true → goes_on byte k ≡ true
unfolding goes_on ends
goes_on-end byte k e = ground (arith, e)

module _ {p : Platform} where
  -- A byte that ends no frame.
  decode_byte-quiet :
      (h : List ℕ → ℕ → M p (Unit {0})) (byte : ℕ) (d : Daemon p)
      → HasRoom d.kiss
      → ends byte d.kiss ≡ false
      → decode_byte h byte d ≡ some (goes_on byte d.kiss, record d { kiss = next byte d.kiss })
  unfolding decode_byte store_byte next stored goes_on ends ◌>>=◌
  decode_byte-quiet h byte d r e =
      let fits = lt→ltb d.kiss.len_in (length d.kiss.buf_in) (omega (arith, r.whole, r.room)) in
      ground (arith, fits, e)

  decode_byte-end :
      (h : List ℕ → ℕ → M p (Unit {0})) (byte : ℕ) (d : Daemon p)
      → ends byte d.kiss ≡ true
      → decode_byte h byte d
        ≡ (h d.kiss.buf_in d.kiss.len_in >>= λ _.
              modify (λ d. record d { kiss = record d.kiss { len_in = 0; sync = true } }) >>= λ _.
              pure true)
            d
  unfolding decode_byte ends ◌>>=◌
  decode_byte-end h byte d e = ground (arith, e)

  ended :
      (byte : ℕ) (d d1 : Daemon p)
      → ends byte d.kiss ≡ true
      → rnode_from_channel d.kiss.buf_in d.kiss.len_in d ≡ some (tt, d1)
      → (rnode_from_channel d.kiss.buf_in d.kiss.len_in >>= λ _.
            modify (λ d. record d { kiss = record d.kiss { len_in = 0; sync = true } }) >>= λ _.
            pure true)
          d
        ≡ some
            (goes_on byte d.kiss, record d1 { kiss = record d1.kiss { len_in = 0; sync = true } })
  unfolding ◌>>=◌
  ended byte d d1 e q =
      bind-at (rnode_from_channel d.kiss.buf_in d.kiss.len_in) _ q
      ∙ ap (λ b. some (b, record d1 { kiss = record d1.kiss { len_in = 0; sync = true } }))
          (sym (goes_on-end byte d.kiss e))

  -- The invariant at the decoder's own variables, which are within their bounds.
  abbrev pub IsServing : Daemon p → Type 0
  IsServing d = Sound (AtRest d.kiss) d × HasRoom d.kiss

  decode_byte-IsServing :
      (byte : ℕ) (d : Daemon p)
      → IsServing d
      → (ends byte d.kiss ≡ true → IsSafe d.kiss.buf_in d.kiss.len_in)
      → (d' : Daemon p) × (decode_byte rnode_from_channel byte d ≡ some (goes_on byte d.kiss, d'))
        × IsServing d'
        × (d'.kiss ≡ next byte d.kiss)
  decode_byte-IsServing byte d (s, r) safe = elim (Bool-cases (ends byte d.kiss)) [
    | inl e ↦
        let ((u, d1), q, s1) = (Keeps-from_channel d.kiss.buf_in d.kiss.len_in (safe e)).at d s in
        (
          record d1 { kiss = record d1.kiss { len_in = 0; sync = true } },
          decode_byte-end rnode_from_channel byte d e ∙ ended byte d d1 e q,
          (
            moved d1 (record d1.kiss { len_in = 0; sync = true }) s1,
            rw s1.others.0 (record { whole = r.whole; room = omega arith }),
          ),
          rw s1.others.0 (next-end byte d.kiss e),
        )
    | inr e ↦ (
      record d { kiss = next byte d.kiss },
      decode_byte-quiet rnode_from_channel byte d r e,
      (moved d (next byte d.kiss) s, next-HasRoom byte d.kiss r),
      refl,
    )
  ]
    where
      moved :
          {k : Kiss} (d : Daemon p) (k' : Kiss)
          → Sound (AtRest k) d
          → Sound (AtRest k') (record d { kiss = k' })
      moved d k' s = record {
        held = s.held;
        part = s.part;
        others = (refl, s.others.1);
        sampling = s.sampling;
      }

  -- On bytes whose frames are commands that the daemon can take, in any number and cut at any place,
  -- the decoder and the whole of the command handling return, whatever the devices answer, and keep
  -- the invariant of the daemon's variables.
  pub kiss_decode-IsServing :
      (bytes : List ℕ) (d : Daemon p)
      → IsServing d
      → IsPolite d.kiss bytes
      → (d' : Daemon p) × (kiss_decode rnode_from_channel bytes d ≡ some (tt, d')) × IsServing d'
  unfolding kiss_decode IsPolite pure
  kiss_decode-IsServing [] d s polite = (d, refl, s)
  kiss_decode-IsServing (byte ∷ bytes) d s polite =
      let (d1, e, s1, k) = decode_byte-IsServing byte d s polite.0 in
      elim (Bool-cases (goes_on byte d.kiss)) [
        | inl more ↦
            let (d', e', s') = kiss_decode-IsServing bytes d1 s1 (rw k (polite.1 more)) in
            (d', bind-at (decode_byte rnode_from_channel byte) _ e ∙ rw more e', s')
        | inr full ↦ (d1, bind-at (decode_byte rnode_from_channel byte) _ e ∙ rw full refl, s1)
      ]
