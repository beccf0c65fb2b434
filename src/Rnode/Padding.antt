-- ===== src/Rnode/Padding.antt =====
-- The padding of src/rnode.c's sha256_compute, against the standard's.
use rnode_linux.Base.{
  ℕ, zero, suc, ◌+◌, ◌-◌, ◌*◌, ◌/◌, ◌%◌, ◌^◌, ◌<◌, ◌≡◌, refl, sym, ◌∙◌, ap, List, [], ◌∷◌, ◌++◌,
  append_assoc, arith, zero_add, suc_add, sub_zero, zero_sub, suc_sub, length, length-append,
  length-replicate, replicate, drop, set, copy_at,
}
use rnode_linux.Base.Bytes.{byte}
use rnode_linux.Rnode.Sha256.{padded, padded_len, put_length}

-- A 64-bit number as eight bytes, big-endian.
abbrev pub length_field : ℕ → List ℕ
length_field n =
    byte (n / 2 ^ 56)
    ∷ byte (n / 2 ^ 48)
    ∷ byte (n / 2 ^ 40)
    ∷ byte (n / 2 ^ 32)
    ∷ byte (n / 2 ^ 24)
    ∷ byte (n / 2 ^ 16)
    ∷ byte (n / 2 ^ 8)
    ∷ byte (n / 2 ^ 0)
    ∷ []

set_behind : (xs ys : List ℕ) (x v n : ℕ) → n ≡ length xs → set (xs ++ x ∷ ys) n v ≡ xs ++ v ∷ ys
set_behind [] ys x v zero h = refl
set_behind [] ys x v (suc n) h = absurd (omega arith)
set_behind (z ∷ xs) ys x v zero h = absurd (omega arith)
set_behind (z ∷ xs) ys x v (suc n) h = ap (λ l. z ∷ l) (set_behind xs ys x v n (omega arith))

replicate-snoc : (n : ℕ) (a : ℕ) → replicate (suc n) a ≡ replicate n a ++ a ∷ []
replicate-snoc zero a = refl
replicate-snoc (suc n) a = ap (λ l. a ∷ l) (replicate-snoc n a)

replicate-append : (m n : ℕ) (a : ℕ) → replicate (m + n) a ≡ replicate m a ++ replicate n a
replicate-append zero n a = rw (zero_add n) refl
replicate-append (suc m) n a = rw (suc_add m n) (ap (λ l. a ∷ l) (replicate-append m n a))

drop-replicate : (n m : ℕ) (a : ℕ) → drop n (replicate m a) ≡ replicate (m - n) a
drop-replicate zero m a = rw (sub_zero m) refl
drop-replicate (suc n) zero a = rw (zero_sub (suc n)) refl
drop-replicate (suc n) (suc m) a = rw (suc_sub m n) (drop-replicate n m a)

-- The bytes of `bits` from the `i`-th lowest on, `n` of them, the highest first.
big_endian : ℕ → ℕ → ℕ → List ℕ
big_endian zero i bits = []
big_endian (suc n) i bits = big_endian n (i + 1) bits ++ byte (bits / 2 ^ (i * 8)) ∷ []

put_length_lem :
    (n i bits : ℕ) (xs ys : List ℕ)
    → length ys ≡ i
    → put_length n i bits (xs ++ (replicate n 0 ++ ys)) ≡ xs ++ (big_endian n i bits ++ ys)
unfolding put_length big_endian
put_length_lem zero i bits xs ys h = refl
put_length_lem (suc n) i bits xs ys h =
    ap (λ msg. put_length n (i + 1) bits (set msg (length msg - 1 - i) v)) apart
    ∙ ap (put_length n (i + 1) bits)
        (set_behind front ys 0 v _ at ∙ append_assoc xs (replicate n 0) (v ∷ ys))
    ∙ put_length_lem n (i + 1) bits xs (v ∷ ys) (omega arith)
    ∙ ap (λ l. xs ++ l) (sym (append_assoc (big_endian n (i + 1) bits) (v ∷ []) ys))
  where
    v : ℕ
    v = byte (bits / 2 ^ (i * 8))

    front : List ℕ
    front = xs ++ replicate n 0

    apart : xs ++ (replicate (suc n) 0 ++ ys) ≡ front ++ 0 ∷ ys
    apart =
        ap (λ l. xs ++ (l ++ ys)) (replicate-snoc n 0)
        ∙ ap (λ l. xs ++ l) (append_assoc (replicate n 0) (0 ∷ []) ys)
        ∙ sym (append_assoc xs (replicate n 0) (0 ∷ ys))

    at : length (front ++ 0 ∷ ys) - 1 - i ≡ length front
    at = omega (arith, h, length-append front (0 ∷ ys))

-- The padded message is the message, the byte 0x80, fewer than 64 zeros, and the message's length in
-- bits as eight bytes, big-endian; the zeros fill it up to a multiple of 64 bytes, of which
-- padded_len gives the number.
pub padded_lem :
    (message : List ℕ)
    → (zeros : ℕ) × (zeros < 64)
      × (padded message
          ≡ message ++ (0x80 ∷ (replicate zeros 0 ++ length_field (length message * 8))))
      × (length (padded message) ≡ padded_len (length message))
      × (padded_len (length message) % 64 ≡ 0)
unfolding padded padded_len big_endian
padded_lem message = (
  zeros,
  omega arith,
  same,
  ap length same
      ∙ omega (
        arith,
        length-append message (0x80 ∷ (replicate zeros 0 ++ field)),
        length-append (replicate zeros 0) field,
        length-replicate {A = ℕ} zeros 0,
      ),
  omega arith,
)
  where
    field : List ℕ
    field = length_field (length message * 8)

    zeros : ℕ
    zeros = ((length message + 8) / 64 + 1) * 64 - length message - 9

    front : List ℕ
    front = message ++ 0x80 ∷ replicate zeros 0

    room : ((length message + 8) / 64 + 1) * 64 - (0 + length message) ≡ suc (zeros + 8)
    room = omega arith

    buffer :
        copy_at (replicate (padded_len (length message)) 0) 0 message
        ≡ message ++ 0 ∷ replicate (zeros + 8) 0
    buffer =
        ap (λ l. message ++ l)
          (drop-replicate (0 + length message) (padded_len (length message)) 0
            ∙ ap (λ k. replicate k 0) room)

    marked :
        set (message ++ 0 ∷ replicate (zeros + 8) 0) (length message) 0x80
        ≡ front ++ (replicate 8 0 ++ [])
    marked =
        set_behind message (replicate (zeros + 8) 0) 0 0x80 (length message) refl
        ∙ ap (λ l. message ++ 0x80 ∷ l) (replicate-append zeros 8 0)
        ∙ sym (append_assoc message (0x80 ∷ replicate zeros 0) (replicate 8 0))

    same : padded message ≡ message ++ (0x80 ∷ (replicate zeros 0 ++ field))
    same =
        ap (λ msg. put_length 8 0 (length message * 8) (set msg (length message) 0x80)) buffer
        ∙ ap (put_length 8 0 (length message * 8)) marked
        ∙ put_length_lem 8 0 (length message * 8) front [] refl
        ∙ append_assoc message (0x80 ∷ replicate zeros 0) field
