-- ===== src/Csma/Range.antt =====
-- The range of the levels that src/csma.c samples and averages.
use rnode_linux.Base.{
  ℕ, ℤ, pos, negsuc, ◌+◌, ◌*◌, ◌%◌, ◌<◌, ◌+ℤ◌, ◌≤ℤ◌, quot_ℤ, sub_ℕ, ◌≡◌, ◌∙◌, ◌⊎◌, inr, zero, suc,
  Bool, true, false, not, ◌&&◌, ◌||◌, List, [], ◌∷◌, All, arith, length, set, length-set, ltb_ℤ,
  ◌==◌, if◌then◌else◌,
}
use rnode_linux.State.{Csma}
use rnode_linux.Radio.Packet.{rssi_of_raw}
use rnode_linux.Csma.Rssi.{
  sum_ℤ, average, update_noise_floor, may_be_false, threshold, noise_floor_samples,
}

-- What half a signed byte, negated, can be.
abbrev pub IsLevel : ℤ → Type 0
IsLevel x = (negsuc 62 ≤ℤ x) × (x ≤ℤ pos 64)

pub rssi_of_raw-IsLevel : (raw : ℕ) → raw < 256 → IsLevel (rssi_of_raw raw)
unfolding rssi_of_raw
rssi_of_raw-IsLevel raw h = ground arith

All-set :
    {A : Type 0} (P : A → Type 0) (xs : List A) (i : ℕ) (v : A)
    → All P xs
    → P v
    → All P (set xs i v)
All-set P [] i v h hv = tt
All-set P (x ∷ xs) zero v (hx, h) hv = (hv, h)
All-set P (x ∷ xs) (suc i) v (hx, h) hv = (hx, All-set P xs i v h hv)

-- A number between these multiples.
abbrev IsSum : ℕ → ℤ → Type 0
IsSum n x = (sub_ℕ 0 (n * 63) ≤ℤ x) × (x ≤ℤ pos (n * 64))

add-IsSum : (n : ℕ) (x s : ℤ) → IsLevel x → IsSum n s → IsSum (suc n) (x +ℤ s)
add-IsSum n (pos a) (pos b) hx hs = ground arith
add-IsSum n (pos a) (negsuc b) hx hs = ground arith
add-IsSum n (negsuc a) (pos b) hx hs = ground arith
add-IsSum n (negsuc a) (negsuc b) hx hs = ground arith

sum_ℤ-IsSum : (xs : List ℤ) → All IsLevel xs → IsSum (length xs) (sum_ℤ xs)
unfolding sum_ℤ
sum_ℤ-IsSum [] h = (omega arith, omega arith)
sum_ℤ-IsSum (x ∷ xs) (hx, h) = add-IsSum (length xs) x (sum_ℤ xs) hx (sum_ℤ-IsSum xs h)

quot_ℤ-IsLevel : (s : ℤ) → IsSum 128 s → IsLevel (quot_ℤ s 128)
quot_ℤ-IsLevel (pos n) h = ground arith
quot_ℤ-IsLevel (negsuc n) h = ground arith

-- The samples are levels, the noise floor and the last level are too or as at the start, and no interference
-- has been found to persist.
pub record AreLevels (noises : List ℤ) (noise_floor rssi : ℤ) (persists : Bool) : Type 0 where
  pub size : length noises ≡ noise_floor_samples
  pub samples : All IsLevel noises
  pub floor : (noise_floor ≡ negsuc 291) ⊎ IsLevel noise_floor
  pub current : (rssi ≡ negsuc 291) ⊎ IsLevel rssi
  pub calm : persists ≡ false

abbrev pub HasLevels : {F : Type 0} → Csma F → Type 0
HasLevels c =
    AreLevels c.noise_floor_buffer c.channel.noise_floor c.channel.current_rssi
      c.interference_persists

-- The same, with a level that was sampled.
abbrev pub HasSampled : {F : Type 0} → Csma F → Type 0
HasSampled c = HasLevels c × IsLevel c.channel.current_rssi

pub may_be_false_lem : {F : Type 0} (c : Csma F) → HasSampled c → may_be_false c ≡ false
unfolding may_be_false
may_be_false_lem c (h, level) = ground arith

module _ {F : Type 0} where
  if-HasSampled :
      (b : Bool) (x y : Csma F) → HasSampled x → HasSampled y → HasSampled (if b then x else y)
  if-HasSampled true x y sx sy = sx
  if-HasSampled false x y sx sy = sy

  average-HasSampled : (c : Csma F) → HasSampled c → HasSampled (average c)
  unfolding average
  average-HasSampled c (h, level) =
      if-HasSampled c.noise_floor_sampled _ _
        (
          record {
            size = h.size;
            samples = h.samples;
            floor = inr (
                quot_ℤ-IsLevel (sum_ℤ c.noise_floor_buffer)
                  (rw h.size at (sum_ℤ-IsSum c.noise_floor_buffer h.samples)));
            current = h.current;
            calm = h.calm;
          },
          level,
        )
        (h, level)

  pub noise_floor-HasSampled : (c : Csma F) → HasSampled c → HasSampled (update_noise_floor c)
  unfolding update_noise_floor
  noise_floor-HasSampled c (h, level) =
      if-HasSampled
        (not c.dcd && (not c.noise_floor_sampled || ltb_ℤ c.channel.current_rssi (threshold c))) _ _
        (average-HasSampled
          (record c {
            noise_floor_buffer =
                set c.noise_floor_buffer c.noise_floor_sample c.channel.current_rssi;
            noise_floor_sample = (c.noise_floor_sample + 1) % noise_floor_samples;
            noise_floor_sampled =
                if (c.noise_floor_sample + 1) % noise_floor_samples == 0
                then true
                else c.noise_floor_sampled;
          })
          (
            record {
              size =
                  length-set c.noise_floor_buffer c.noise_floor_sample c.channel.current_rssi
                  ∙ h.size;
              samples =
                  All-set IsLevel c.noise_floor_buffer c.noise_floor_sample c.channel.current_rssi
                    h.samples level;
              floor = h.floor;
              current = h.current;
              calm = h.calm;
            },
            level,
          ))
        (h, level)
