-- ===== src/Tests/Sha256.antt =====
-- src/rnode.c's sha256_compute: a known answer, the hash of "abc", and the theorems on it at concrete inputs.
use rnode_linux.Base.{
  ℕ, ◌+◌, ◌-◌, ◌*◌, ◌%◌, ◌≤◌, ◌<◌, ◌⊎◌, List, ◌++◌, length, replicate, get_or, arith, ◌≡◌, refl, [],
  ◌∷◌, take,
}
use rnode_linux.Rnode.Sha256.{sha256_compute, padded, padded_len, schedule, word, sig0, sig1}
use rnode_linux.Rnode.Padding.{length_field, padded_lem}
use rnode_linux.Rnode.Schedule.{word_at, schedule_lem}

sha256_compute-abc :
    take 8 (sha256_compute (0x61 ∷ 0x62 ∷ 0x63 ∷ []))
    ≡ 0xba ∷ 0x78 ∷ 0x16 ∷ 0xbf ∷ 0x8f ∷ 0x01 ∷ 0xcf ∷ 0xea ∷ []
unfolding sha256_compute
sha256_compute-abc = refl

abbrev abc : List ℕ
abc = 0x61 ∷ 0x62 ∷ 0x63 ∷ []

padded_lem_example :
    (zeros : ℕ) × (zeros < 64)
    × (padded abc ≡ abc ++ (0x80 ∷ (replicate zeros 0 ++ length_field (length abc * 8))))
    × (length (padded abc) ≡ padded_len (length abc))
    × (padded_len (length abc) % 64 ≡ 0)
padded_lem_example = padded_lem abc

schedule_lem_example :
    ((20 < 16) × (get_or (schedule (replicate 64 7)) 20 0 ≡ word_at (replicate 64 7) (4 * 20)))
    ⊎ ((16 ≤ 20)
        × (get_or (schedule (replicate 64 7)) 20 0
            ≡ word (
                sig1 (get_or (schedule (replicate 64 7)) (20 - 2) 0)
                + get_or (schedule (replicate 64 7)) (20 - 7) 0
                + sig0 (get_or (schedule (replicate 64 7)) (20 - 15) 0)
                + get_or (schedule (replicate 64 7)) (20 - 16) 0)))
schedule_lem_example = schedule_lem (replicate 64 7) 20 (omega arith)
