-- ===== src/Queue/Progress.antt =====
-- Listen-before-talk on a medium that stays free: a transmission comes.
use rnode_linux.Base.{
  ℕ, ◌+◌, ◌-◌, ◌^◌, ◌≤◌, ◌<◌, ◌≡◌, refl, inl, inr, true, Bool-cases, List, [], ◌∷◌, leb, ltb, arith,
}
use rnode_linux.State.{Queue}
use rnode_linux.Queue.Worker.{Verdict, listen, transmit, listen_before_talk, contend, elapsed}

-- Rounds at the given times up to the first that transmits, the medium free at each.
unfoldable pub free_rounds : ℕ → List ℕ → Queue → Queue × Verdict
free_rounds difs [] q = (q, listen)
free_rounds difs (now ∷ times) q =
    let (q', verdict) = listen_before_talk now difs true q in
    elim verdict [ listen ↦ free_rounds difs times q' | transmit ↦ (q', transmit) ]

-- Times that do not go back, each at most `gap` after the one before, which fit 63 bits.
abbrev pub Follows : ℕ → ℕ → List ℕ → Type 0
Follows gap before [] = Unit
Follows gap before (now ∷ times) =
    (before ≤ now) × (now ≤ before + gap) × (now < 2 ^ 63) × Follows gap now times

abbrev pub last : ℕ → List ℕ → ℕ
last before [] = before
last before (now ∷ times) = last now times

-- The contention window runs since `s`.
record IsContending (difs s before : ℕ) (q : Queue) : Type 0 where
  free : 0 < q.medium_free_since
  waited : q.medium_free_since + difs ≤ before
  started : q.cw_wait_start ≡ before
  progress : before ≤ s + q.cw_wait_passed
  pending : q.cw_wait_passed < q.cw_target

contending-transmits :
    (difs gap s before : ℕ) (times : List ℕ) (q : Queue)
    → IsContending difs s before q
    → q.cw_target < 2 ^ 63
    → Follows gap before times
    → s + q.cw_target ≤ last before times
    → (free_rounds difs times q).1 ≡ transmit
unfolding free_rounds listen_before_talk contend elapsed
contending-transmits difs gap s before [] q c small f enough =
    absurd (omega (arith, c.progress, c.pending, enough))
contending-transmits difs gap s before (now ∷ times) q c small f enough =
    let passed = q.cw_wait_passed + (now - before) in
    elim (Bool-cases (leb q.cw_target passed)) [
      | inl over ↦
          ground (arith, over, c.free, c.waited, c.started, c.progress, c.pending, f.0, f.2)
      | inr more ↦ ground (
        arith,
        more,
        c.free,
        c.waited,
        c.started,
        c.progress,
        c.pending,
        f.0,
        f.2,
        contending-transmits difs gap s now times
            (record q { cw_wait_start = now; cw_wait_passed = passed })
            (record {
              free = c.free;
              waited = omega (arith, c.waited, f.0);
              started = refl;
              progress = omega (arith, c.progress, f.0);
              pending = ground (arith, more);
            })
            small f.3 enough,
      )
    ]

-- DIFS has begun at `t`, and the contention window has not.
record IsDeferring (t : ℕ) (q : Queue) : Type 0 where
  since : q.medium_free_since ≡ t
  positive : 0 < t
  unstarted : q.cw_wait_start ≡ 0

deferring-transmits :
    (difs gap t before : ℕ) (times : List ℕ) (q : Queue)
    → IsDeferring t q
    → t ≤ before
    → before ≤ t + difs
    → q.cw_target < 2 ^ 63
    → Follows gap before times
    → t + difs + gap + q.cw_target ≤ last before times
    → 0 < gap + q.cw_target
    → (free_rounds difs times q).1 ≡ transmit
unfolding free_rounds listen_before_talk contend elapsed
deferring-transmits difs gap t before [] q c lo hi small f enough some_time =
    absurd (omega (arith, hi, enough, some_time))
deferring-transmits difs gap t before (now ∷ times) q c lo hi small f enough some_time =
    elim (Bool-cases (ltb (now - t) difs)) [
      | inl early ↦ ground (
        arith,
        early,
        c.since,
        c.positive,
        lo,
        f.0,
        f.2,
        deferring-transmits difs gap t now times q c (omega (arith, lo, f.0))
            (ground (arith, early, lo, f.0)) small f.3 enough some_time,
      )
      | inr late ↦ elim (Bool-cases (leb q.cw_target q.cw_wait_passed)) [
        | inl over ↦ ground (arith, late, over, c.since, c.positive, c.unstarted, lo, f.0, f.2)
        | inr more ↦ ground (
          arith,
          late,
          more,
          c.since,
          c.positive,
          c.unstarted,
          lo,
          f.0,
          f.2,
          contending-transmits difs gap now now times (record q { cw_wait_start = now })
              (record {
                free = omega (arith, c.since, c.positive);
                waited = ground (arith, late, c.since, lo, f.0);
                started = refl;
                progress = omega arith;
                pending = ground (arith, more);
              })
              small f.3 (omega (arith, enough, f.1, hi)),
        )
      ]
    ]

-- While the medium stays free, with the listening not begun and rounds at most `gap` apart at times that fit
-- 63 bits, a round transmits once the rounds have gone on for DIFS, the contention window and one
-- gap more; the gap and the window are not both 0.
pub free_rounds-transmits :
    (difs gap t : ℕ) (times : List ℕ) (q : Queue)
    → q.medium_free_since ≡ 0
    → q.cw_wait_start ≡ 0
    → q.cw_target < 2 ^ 63
    → 0 < t
    → Follows gap t times
    → t + difs + gap + q.cw_target ≤ last t times
    → 0 < gap + q.cw_target
    → (free_rounds difs (t ∷ times) q).1 ≡ transmit
unfolding free_rounds listen_before_talk
free_rounds-transmits difs gap t times q clear unstarted small positive f enough some_time =
    ground (
      arith,
      clear,
      positive,
      deferring-transmits difs gap t t times (record q { medium_free_since = t })
          (record { since = refl; positive = positive; unstarted = unstarted }) (omega arith)
          (omega arith) small f enough some_time,
    )
