-- ===== src/Rnode/Sha256.antt =====
-- src/rnode.c: sha256_compute and the device hash.
use rnode_linux.Base.{
  ℕ, zero, suc, ◌+◌, ◌-◌, ◌*◌, ◌/◌, ◌%◌, ◌^◌, List, [], ◌∷◌, ◌++◌, get_or, set, length, replicate,
  copy_at, bit_and, bit_or, drop,
}
use Prim.Native.Nat.{bit_xor}
use rnode_linux.Base.Bytes.{byte, byte1, byte2, byte3, u32}

abbrev pub word : ℕ → ℕ
word x = x % 2 ^ 32

abbrev pub not_word : ℕ → ℕ
not_word x = 2 ^ 32 - 1 - x

unfoldable pub rotr : ℕ → ℕ → ℕ
rotr x n = bit_or (x / 2 ^ n) (word (x * 2 ^ (32 - n)))

unfoldable pub ch : ℕ → ℕ → ℕ → ℕ
ch x y z = bit_xor (bit_and x y) (bit_and (not_word x) z)

unfoldable pub maj : ℕ → ℕ → ℕ → ℕ
maj x y z = bit_xor (bit_xor (bit_and x y) (bit_and x z)) (bit_and y z)

unfoldable pub ep0 : ℕ → ℕ
unfolding rotr
ep0 x = bit_xor (bit_xor (rotr x 2) (rotr x 13)) (rotr x 22)

unfoldable pub ep1 : ℕ → ℕ
unfolding rotr
ep1 x = bit_xor (bit_xor (rotr x 6) (rotr x 11)) (rotr x 25)

unfoldable pub sig0 : ℕ → ℕ
unfolding rotr
sig0 x = bit_xor (bit_xor (rotr x 7) (rotr x 18)) (x / 2 ^ 3)

unfoldable pub sig1 : ℕ → ℕ
unfolding rotr
sig1 x = bit_xor (bit_xor (rotr x 17) (rotr x 19)) (x / 2 ^ 10)

abbrev pub sha256_k : List ℕ
sha256_k =
    0x428a2f98 ∷ 0x71374491 ∷ 0xb5c0fbcf ∷ 0xe9b5dba5 ∷ 0x3956c25b ∷ 0x59f111f1 ∷ 0x923f82a4
    ∷ 0xab1c5ed5 ∷ 0xd807aa98 ∷ 0x12835b01 ∷ 0x243185be ∷ 0x550c7dc3 ∷ 0x72be5d74 ∷ 0x80deb1fe
    ∷ 0x9bdc06a7 ∷ 0xc19bf174 ∷ 0xe49b69c1 ∷ 0xefbe4786 ∷ 0x0fc19dc6 ∷ 0x240ca1cc ∷ 0x2de92c6f
    ∷ 0x4a7484aa ∷ 0x5cb0a9dc ∷ 0x76f988da ∷ 0x983e5152 ∷ 0xa831c66d ∷ 0xb00327c8 ∷ 0xbf597fc7
    ∷ 0xc6e00bf3 ∷ 0xd5a79147 ∷ 0x06ca6351 ∷ 0x14292967 ∷ 0x27b70a85 ∷ 0x2e1b2138 ∷ 0x4d2c6dfc
    ∷ 0x53380d13 ∷ 0x650a7354 ∷ 0x766a0abb ∷ 0x81c2c92e ∷ 0x92722c85 ∷ 0xa2bfe8a1 ∷ 0xa81a664b
    ∷ 0xc24b8b70 ∷ 0xc76c51a3 ∷ 0xd192e819 ∷ 0xd6990624 ∷ 0xf40e3585 ∷ 0x106aa070 ∷ 0x19a4c116
    ∷ 0x1e376c08 ∷ 0x2748774c ∷ 0x34b0bcb5 ∷ 0x391c0cb3 ∷ 0x4ed8aa4a ∷ 0x5b9cca4f ∷ 0x682e6ff3
    ∷ 0x748f82ee ∷ 0x78a5636f ∷ 0x84c87814 ∷ 0x8cc70208 ∷ 0x90befffa ∷ 0xa4506ceb ∷ 0xbef9a3f7
    ∷ 0xc67178f2 ∷ []

-- `msg[padded_len - 1 - i] = (uint8_t)(bit_len >> (i * 8))`, for the `n` numbers i from `i` on.
unfoldable pub put_length : ℕ → ℕ → ℕ → List ℕ → List ℕ
put_length zero i bit_len msg = msg
put_length (suc n) i bit_len msg =
    put_length n (i + 1) bit_len (set msg (length msg - 1 - i) (byte (bit_len / 2 ^ (i * 8))))

unfoldable pub padded_len : ℕ → ℕ
padded_len len = ((len + 8) / 64 + 1) * 64

unfoldable pub padded : List ℕ → List ℕ
unfolding put_length padded_len
padded data' =
    let len = length data' in
    let msg = copy_at (replicate (padded_len len) 0) 0 data' in
    put_length 8 0 (len * 8) (set msg len 0x80)

-- The first 16 words of the schedule: the block's bytes, big-endian. The words stand newest first.
unfoldable pub block_words : ℕ → List ℕ → List ℕ → List ℕ
block_words zero msg w = w
block_words (suc n) msg w =
    block_words n (drop 4 msg)
      (u32 (get_or msg 0 0) (get_or msg 1 0) (get_or msg 2 0) (get_or msg 3 0) ∷ w)

-- Each of the other words from w[i-2], w[i-7], w[i-15] and w[i-16].
unfoldable pub extend_words : ℕ → List ℕ → List ℕ
unfolding sig0 sig1
extend_words zero w = w
extend_words (suc n) w =
    extend_words n
      (word (sig1 (get_or w 1 0) + get_or w 6 0 + sig0 (get_or w 14 0) + get_or w 15 0) ∷ w)

pub record Hash : Type 0 where
  pub a : ℕ
  pub b : ℕ
  pub c : ℕ
  pub d : ℕ
  pub e : ℕ
  pub f : ℕ
  pub g : ℕ
  pub hh : ℕ

unfoldable pub round : Hash → ℕ → ℕ → Hash
unfolding ep0 ep1 ch maj
round s k w =
    let t1 = s.hh + ep1 s.e + ch s.e s.f s.g + k + w in
    let t2 = ep0 s.a + maj s.a s.b s.c in
    record {
      a = word (t1 + t2);
      b = s.a;
      c = s.b;
      d = s.c;
      e = word (s.d + t1);
      f = s.e;
      g = s.f;
      hh = s.g;
    }

unfoldable pub rounds : Hash → List ℕ → List ℕ → Hash
unfolding round
rounds s [] ws = s
rounds s (k ∷ ks) [] = s
rounds s (k ∷ ks) (w ∷ ws) = rounds (round s k w) ks ws

unfoldable pub add_hash : Hash → Hash → Hash
add_hash h s = record {
  a = word (h.a + s.a);
  b = word (h.b + s.b);
  c = word (h.c + s.c);
  d = word (h.d + s.d);
  e = word (h.e + s.e);
  f = word (h.f + s.f);
  g = word (h.g + s.g);
  hh = word (h.hh + s.hh);
}

-- Oldest first.
unfoldable pub in_order : List ℕ → List ℕ → List ℕ
in_order acc [] = acc
in_order acc (w ∷ ws) = in_order (w ∷ acc) ws

unfoldable pub schedule : List ℕ → List ℕ
unfolding block_words extend_words in_order
schedule msg = in_order [] (extend_words 48 (block_words 16 msg []))

unfoldable pub blocks : ℕ → List ℕ → Hash → Hash
unfolding schedule rounds add_hash
blocks zero msg h = h
blocks (suc n) msg h = blocks n (drop 64 msg) (add_hash h (rounds h sha256_k (schedule msg)))

abbrev pub initial_hash : Hash
initial_hash = record {
  a = 0x6a09e667;
  b = 0xbb67ae85;
  c = 0x3c6ef372;
  d = 0xa54ff53a;
  e = 0x510e527f;
  f = 0x9b05688c;
  g = 0x1f83d9ab;
  hh = 0x5be0cd19;
}

abbrev pub word_bytes : ℕ → List ℕ
word_bytes x = byte3 x ∷ byte2 x ∷ byte1 x ∷ byte x ∷ []

unfoldable pub sha256_compute : List ℕ → List ℕ
unfolding padded padded_len blocks
sha256_compute data' =
    let h = blocks (padded_len (length data') / 64) (padded data') initial_hash in
    word_bytes h.a
    ++ (word_bytes h.b
        ++ (word_bytes h.c
            ++ (word_bytes h.d
                ++ (word_bytes h.e ++ (word_bytes h.f ++ (word_bytes h.g ++ word_bytes h.hh))))))
