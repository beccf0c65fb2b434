-- ===== src/Kiss/RoundTrip.antt =====
-- kiss_decode on what kiss_encode sends.
use rnode_linux.Base.{
  ℕ, ◌+◌, ◌<◌, ◌≡◌, refl, ◌∙◌, ◌⊎◌, true, false, List, [], ◌∷◌, ◌++◌, append_assoc, append-nil,
  arith, length, set, take, take-set, length-set,
}
use rnode_linux.Platform.{Platform}
use rnode_linux.State.{Daemon, Kiss}
use rnode_linux.State.Monad.{M, ◌>>=◌, set_kiss}
use rnode_linux.Kiss.Encode.{mtu, fend}
use rnode_linux.Kiss.Decode.{kiss_decode, store_byte, decode_byte}
use rnode_linux.Kiss.Frame.{stuff, escaped, frame}

-- The decoder stands between two frames, or has not seen one yet, and no escape is pending.
pub record IsIdle (k : Kiss) : Type 0 where
  pub whole : length k.buf_in ≡ mtu
  pub no_escape : k.escape ≡ false
  pub at_start : (k.sync ≡ false) ⊎ (k.len_in ≡ 0)

-- The decoder is inside a frame and has room.
pub record IsInside (k : Kiss) (room : ℕ) : Type 0 where
  pub whole : length k.buf_in ≡ mtu
  pub no_escape : k.escape ≡ false
  pub in_sync : k.sync ≡ true
  pub fits : k.len_in + room < mtu

unfoldable pub store : Kiss → ℕ → Kiss
store k x = record k { buf_in = set k.buf_in k.len_in x; len_in = k.len_in + 1 }

unfoldable pub store_all : Kiss → List ℕ → Kiss
unfolding store
store_all k [] = k
store_all k (x ∷ xs) = store_all (store k x) xs

module _ {p : Platform} (h : List ℕ → ℕ → M p (Unit {0})) where
  kiss_decode-stuff :
      (d : Daemon p) (x : ℕ) (rest : List ℕ)
      → IsInside d.kiss 1
      → kiss_decode h (stuff x ++ rest) d ≡ kiss_decode h rest (record d { kiss = store d.kiss x })
  unfolding kiss_decode decode_byte store_byte stuff store ◌>>=◌
  kiss_decode-stuff d x rest i = ground arith

  pub store_all-IsInside :
      (k : Kiss) (xs : List ℕ)
      → IsInside k (length xs)
      → (length (store_all k xs).buf_in ≡ mtu)
        × ((store_all k xs).len_in ≡ k.len_in + length xs)
        × ((store_all k xs).sync ≡ true)
        × ((store_all k xs).escape ≡ false)
        × (take (k.len_in + length xs) (store_all k xs).buf_in ≡ take k.len_in k.buf_in ++ xs)
  unfolding store_all store
  store_all-IsInside k [] i = ground (arith, append-nil (take k.len_in k.buf_in))
  store_all-IsInside k (x ∷ xs) i = ground (
    arith,
    store_all-IsInside (store k x) xs,
    length-set k.buf_in k.len_in x,
    take-set k.buf_in k.len_in x,
    append_assoc (take k.len_in k.buf_in) (x ∷ []) xs,
  )

  pub kiss_decode-escaped :
      (d : Daemon p) (xs rest : List ℕ)
      → IsInside d.kiss (length xs)
      → kiss_decode h (escaped xs ++ rest) d
        ≡ kiss_decode h rest (record d { kiss = store_all d.kiss xs })
  unfolding store_all store escaped
  kiss_decode-escaped d [] rest i = refl
  kiss_decode-escaped d (x ∷ xs) rest i = rw append_assoc (
      kiss_decode-stuff d x (escaped xs ++ rest) (ground arith)
      ∙ kiss_decode-escaped (record d { kiss = store d.kiss x }) xs rest
          (ground (arith, length-set d.kiss.buf_in d.kiss.len_in x)))

  -- the decoder after the frame's first byte
  abbrev pub opened : Daemon p → Daemon p
  opened d = record d { kiss = record d.kiss { sync = true; len_in = 0 } }

  pub kiss_decode-start :
      (d : Daemon p) (rest : List ℕ)
      → IsIdle d.kiss
      → kiss_decode h (fend ∷ rest) d ≡ kiss_decode h rest (opened d)
  unfolding kiss_decode decode_byte ◌>>=◌
  kiss_decode-start d rest i = ground arith

  kiss_decode-end :
      (d : Daemon p)
      → d.kiss.sync ≡ true
      → 0 < d.kiss.len_in
      → kiss_decode h (fend ∷ []) d
        ≡ (h d.kiss.buf_in d.kiss.len_in >>= λ _.
              set_kiss (λ k. record k { len_in = 0; sync = true }))
            d
  unfolding kiss_decode decode_byte ◌>>=◌
  kiss_decode-end d s lo = ground arith

  -- From an idle decoder the frame of `xs`, of at least one byte and fewer than `buf_in` holds,
  -- makes one call of the handler, with the bytes `xs` at the start of the buffer and their number,
  -- and leaves the decoder in sync between two frames.
  pub kiss_decode-frame :
      (d : Daemon p) (xs : List ℕ)
      → IsIdle d.kiss
      → 0 < length xs
      → length xs < mtu
      → (b : List ℕ) × (length b ≡ mtu)
        × (take (length xs) b ≡ xs)
        × (kiss_decode h (frame xs) d
            ≡ (h b (length xs) >>= λ _. set_kiss (λ k. record k { len_in = 0; sync = true }))
                (record d {
                  kiss = record { buf_in = b; len_in = length xs; sync = true; escape = false };
                }))
  unfolding frame ◌>>=◌
  kiss_decode-frame d xs i lo hi =
      let k = (opened d).kiss in
      let (whole, len, synced, clear, same) = store_all-IsInside k xs (ground arith) in
      (
        (store_all k xs).buf_in,
        whole,
        ground arith,
        ground (
          arith,
          kiss_decode-start d (escaped xs ++ fend ∷ []),
          kiss_decode-escaped (opened d) xs (fend ∷ []),
          kiss_decode-end (record d { kiss = store_all k xs }),
        ),
      )
