-- ===== src/Rnode/Schedule.antt =====
-- The message schedule of src/rnode.c's sha256_compute, against the standard's recurrence.
use rnode_linux.Base.{
  ℕ, zero, suc, ◌+◌, ◌-◌, ◌*◌, ◌≤◌, ◌<◌, ◌≡◌, refl, sym, ◌∙◌, ap, ◌⊎◌, inl, inr, List, [], ◌∷◌,
  arith, zero_add, suc_add, add_suc, Bool-cases, ltb, length, get_or, drop,
}
use rnode_linux.Base.Bytes.{u32}
use rnode_linux.Rnode.Sha256.{word, sig0, sig1, block_words, extend_words, in_order, schedule}

-- What extend_words puts before the words, which stand newest first.
next_word : List ℕ → ℕ
next_word w = word (sig1 (get_or w 1 0) + get_or w 6 0 + sig0 (get_or w 14 0) + get_or w 15 0)

next_word_lem :
    {a b c d : ℕ} (w : List ℕ)
    → a ≡ get_or w 1 0
    → b ≡ get_or w 6 0
    → c ≡ get_or w 14 0
    → d ≡ get_or w 15 0
    → next_word w ≡ word (sig1 a + b + sig0 c + d)
unfolding next_word
next_word_lem {a = a} {b = b} {c = c} {d = d} w ea eb ec ed i =
    word (sig1 (sym ea i) + sym eb i + sig0 (sym ec i) + sym ed i)

extend_words-add :
    (m n : ℕ) (w : List ℕ) → extend_words (m + n) w ≡ extend_words n (extend_words m w)
unfolding extend_words next_word
extend_words-add zero n w = rw (zero_add n) refl
extend_words-add (suc m) n w = rw (suc_add m n) (extend_words-add m n (next_word w ∷ w))

-- The words that are there stay.
extend_words-old : (n i : ℕ) (w : List ℕ) → get_or (extend_words n w) (n + i) 0 ≡ get_or w i 0
unfolding extend_words next_word
extend_words-old zero i w = rw (zero_add i) refl
extend_words-old (suc n) i w = rw (sym (add_suc n i)) (extend_words-old n (suc i) (next_word w ∷ w))

length-extend_words : (n : ℕ) (w : List ℕ) → length (extend_words n w) ≡ n + length w
unfolding extend_words next_word
length-extend_words zero w = omega arith
length-extend_words (suc n) w = omega (arith, length-extend_words n (next_word w ∷ w))

get_or-drop : (n i : ℕ) (xs : List ℕ) → get_or (drop n xs) i 0 ≡ get_or xs (n + i) 0
get_or-drop zero i xs = rw (zero_add i) refl
get_or-drop (suc n) i [] = refl
get_or-drop (suc n) i (x ∷ xs) = rw (suc_add n i) (get_or-drop n i xs)

-- The big-endian word of a message at its byte `i`.
abbrev pub word_at : List ℕ → ℕ → ℕ
word_at msg i =
    u32 (get_or msg i 0) (get_or msg (i + 1) 0) (get_or msg (i + 2) 0) (get_or msg (i + 3) 0)

word_at-drop : (n i : ℕ) (msg : List ℕ) → word_at (drop n msg) i ≡ word_at msg (n + i)
word_at-drop n i msg =
    rw
      (
        get_or-drop n i msg,
        get_or-drop n (i + 1) msg,
        get_or-drop n (i + 2) msg,
        get_or-drop n (i + 3) msg,
        shift 1,
        shift 2,
        shift 3,
      )
      refl
  where
    shift : (k : ℕ) → n + (i + k) ≡ n + i + k
    shift k = omega arith

block_words-old : (n i : ℕ) (msg w : List ℕ) → get_or (block_words n msg w) (n + i) 0 ≡ get_or w i 0
unfolding block_words
block_words-old zero i msg w = rw (zero_add i) refl
block_words-old (suc n) i msg w =
    rw (sym (add_suc n i)) (block_words-old n (suc i) (drop 4 msg) (word_at msg 0 ∷ w))

length-block_words : (n : ℕ) (msg w : List ℕ) → length (block_words n msg w) ≡ n + length w
unfolding block_words
length-block_words zero msg w = omega arith
length-block_words (suc n) msg w =
    omega (arith, length-block_words n (drop 4 msg) (word_at msg 0 ∷ w))

top : (n : ℕ) → suc n - 1 - 0 ≡ n + 0
top n = omega arith

below : (n t : ℕ) → suc n - 1 - suc t ≡ n - 1 - t
below n t = omega arith

four : (t : ℕ) → 4 + 4 * t ≡ 4 * suc t
four t = omega arith

block_words-at :
    (n t : ℕ) (msg w : List ℕ)
    → t < n
    → get_or (block_words n msg w) (n - 1 - t) 0 ≡ word_at msg (4 * t)
unfolding block_words
block_words-at zero t msg w h = absurd (omega arith)
block_words-at (suc n) zero msg w h =
    rw (top n) (block_words-old n 0 (drop 4 msg) (word_at msg 0 ∷ w))
block_words-at (suc n) (suc t) msg w h = rw (below n t) (
    block_words-at n t (drop 4 msg) (word_at msg 0 ∷ w) (omega arith)
    ∙ word_at-drop 4 (4 * t) msg
    ∙ ap (word_at msg) (four t))

in_order-old : (i : ℕ) (acc w : List ℕ) → get_or (in_order acc w) (length w + i) 0 ≡ get_or acc i 0
unfolding in_order
in_order-old i acc [] = rw (zero_add i) refl
in_order-old i acc (x ∷ w) = rw (sym (add_suc (length w) i)) (in_order-old (suc i) (x ∷ acc) w)

in_order-at :
    (i : ℕ) (acc w : List ℕ)
    → i < length w
    → get_or (in_order acc w) (length w - 1 - i) 0 ≡ get_or w i 0
unfolding in_order
in_order-at i acc [] h = absurd (omega arith)
in_order-at zero acc (x ∷ w) h = rw (top (length w)) (in_order-old 0 (x ∷ acc) w)
in_order-at (suc i) acc (x ∷ w) h =
    rw (below (length w) i) (in_order-at i (x ∷ acc) w (omega arith))

in_order-turned :
    (t i : ℕ) (w : List ℕ) → t + suc i ≡ length w → get_or (in_order [] w) t 0 ≡ get_or w i 0
in_order-turned t i w h =
    ap (λ k. get_or (in_order [] w) k 0) at ∙ in_order-at i [] w (omega (arith, h))
  where
    at : t ≡ length w - 1 - i
    at = omega (arith, h)

module _ (msg : List ℕ) where
  first_words : List ℕ
  first_words = block_words 16 msg []

  -- The words before the word 16 + m, newest first.
  words_before : ℕ → List ℕ
  words_before m = extend_words m first_words

  size : length (words_before 48) ≡ 64
  unfolding words_before first_words
  size = omega (arith, length-extend_words 48 first_words, length-block_words 16 msg [])

  schedule-at : (t i : ℕ) → t + i ≡ 63 → get_or (schedule msg) t 0 ≡ get_or (words_before 48) i 0
  unfolding schedule words_before first_words
  schedule-at t i h = in_order-turned t i (words_before 48) (omega (arith, h, size))

  schedule-first : (t : ℕ) → t < 16 → get_or (schedule msg) t 0 ≡ word_at msg (4 * t)
  unfolding words_before first_words
  schedule-first t h =
      schedule-at t (48 + (15 - t)) (omega (arith, h))
      ∙ extend_words-old 48 (15 - t) first_words
      ∙ block_words-at 16 t msg [] h

  -- The word that is `j` before the word t.
  schedule-before :
      (t m r j : ℕ)
      → t ≡ m + 16
      → m + suc r ≡ 48
      → j < t
      → get_or (schedule msg) (t - suc j) 0 ≡ get_or (words_before m) j 0
  unfolding words_before extend_words next_word
  schedule-before t m r j e q h =
      schedule-at (t - suc j) (r + suc j) (omega (arith, e, q, h))
      ∙ ap (λ n. get_or (words_before n) (r + suc j) 0) (sym q)
      ∙ ap (λ w. get_or w (r + suc j) 0) (extend_words-add m (suc r) first_words)
      ∙ extend_words-old r (suc j) (next_word (words_before m) ∷ words_before m)

  schedule-next :
      (t m r : ℕ)
      → t ≡ m + 16
      → m + suc r ≡ 48
      → get_or (schedule msg) t 0 ≡ next_word (words_before m)
  unfolding words_before extend_words next_word
  schedule-next t m r e q =
      schedule-at t (r + 0) (omega (arith, e, q))
      ∙ ap (λ n. get_or (words_before n) (r + 0) 0) (sym q)
      ∙ ap (λ w. get_or w (r + 0) 0) (extend_words-add m (suc r) first_words)
      ∙ extend_words-old r 0 (next_word (words_before m) ∷ words_before m)

  schedule-rest :
      (t m r : ℕ)
      → t ≡ m + 16
      → m + suc r ≡ 48
      → get_or (schedule msg) t 0
        ≡ word (
            sig1 (get_or (schedule msg) (t - 2) 0)
            + get_or (schedule msg) (t - 7) 0
            + sig0 (get_or (schedule msg) (t - 15) 0)
            + get_or (schedule msg) (t - 16) 0)
  schedule-rest t m r e q =
      schedule-next t m r e q
      ∙ next_word_lem (words_before m) (schedule-before t m r 1 e q (omega (arith, e)))
          (schedule-before t m r 6 e q (omega (arith, e)))
          (schedule-before t m r 14 e q (omega (arith, e)))
          (schedule-before t m r 15 e q (omega (arith, e)))

-- Of the 64 words of the schedule, in their order, the first 16 are those of the block, big-endian, and
-- each other word W(t) is sig1(W(t-2)) + W(t-7) + sig0(W(t-15)) + W(t-16), modulo 2 ^ 32.
pub schedule_lem :
    (msg : List ℕ) (t : ℕ)
    → t < 64
    → ((t < 16) × (get_or (schedule msg) t 0 ≡ word_at msg (4 * t)))
      ⊎ ((16 ≤ t)
          × (get_or (schedule msg) t 0
              ≡ word (
                  sig1 (get_or (schedule msg) (t - 2) 0)
                  + get_or (schedule msg) (t - 7) 0
                  + sig0 (get_or (schedule msg) (t - 15) 0)
                  + get_or (schedule msg) (t - 16) 0)))
schedule_lem msg t h = elim (Bool-cases (ltb t 16)) [
  | inl low ↦ inl (ground arith, schedule-first msg t (ground arith))
  | inr high ↦
      let le : 16 ≤ t = ground arith in
      inr (le, schedule-rest msg t (t - 16) (63 - t) (omega (arith, h, le)) (omega (arith, h, le)))
]
