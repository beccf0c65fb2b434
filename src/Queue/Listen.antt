-- ===== src/Queue/Listen.antt =====
-- Listen-before-talk over time: what the medium was like before a transmission.
use rnode_linux.Base.{
  ℕ, ◌+◌, ◌^◌, ◌≤◌, ◌<◌, ◌≡◌, refl, ◌⊎◌, inl, Bool, true, false, List, [], ◌∷◌, arith,
}
use rnode_linux.State.{Queue}
use rnode_linux.Queue.Worker.{transmit, listen_before_talk}

-- A round's time and whether the medium was free; the newest first.
abbrev pub Observations : Type 0
Observations = List (ℕ × Bool)

-- The medium was free at each round from the one at time `t` to the newest.
abbrev pub FreeSince : ℕ → Observations → Type 0
FreeSince t [] = ⊥
FreeSince t ((now, free) ∷ earlier) = (free ≡ true) × ((now ≡ t) ⊎ FreeSince t earlier)

abbrev pub newest : Observations → ℕ
newest [] = 0
newest ((now, free) ∷ earlier) = now

-- What can have happened to a queue since its listening began: rounds at times that do not go back, and
-- steps of the rest of the program, which leave the variable `medium_free_since` alone.
pub data Listened : Queue → Observations → Type 0 where
  start : {q : Queue} → q.medium_free_since ≡ 0 → Listened q []
  round :
      {q : Queue} {seen : Observations} (now difs : ℕ) (free : Bool)
      → Listened q seen
      → newest seen ≤ now
      → Listened (listen_before_talk now difs free q).0 ((now, free) ∷ seen)
  other :
      {q q' : Queue} {seen : Observations}
      → Listened q seen
      → q'.medium_free_since ≡ q.medium_free_since
      → Listened q' seen

-- The variable tells the truth.
record IsHonest (q : Queue) (seen : Observations) : Type 0 where
  honest :
      (q.medium_free_since ≡ 0)
      ⊎ (FreeSince q.medium_free_since seen × (q.medium_free_since ≤ newest seen))

round-IsHonest :
    (now difs : ℕ) (free : Bool) (q : Queue) (seen : Observations)
    → IsHonest q seen
    → newest seen ≤ now
    → IsHonest (listen_before_talk now difs free q).0 ((now, free) ∷ seen)
unfolding listen_before_talk
round-IsHonest now difs false q seen h le = record { honest = inl refl }
round-IsHonest now difs true q seen h le = ground arith

Listened-IsHonest : {q : Queue} {seen : Observations} → Listened q seen → IsHonest q seen
Listened-IsHonest (start e) = record { honest = inl e }
Listened-IsHonest (round {q = q} {seen = seen} now difs free l le) =
    round-IsHonest now difs free q seen (Listened-IsHonest l) le
Listened-IsHonest (other l e) = let h = Listened-IsHonest l in record { honest = rw e h.honest }

transmit-FreeSince :
    (now difs : ℕ) (free : Bool) (q : Queue) (seen : Observations)
    → IsHonest q seen
    → newest seen ≤ now
    → now < 2 ^ 64
    → (listen_before_talk now difs free q).1 ≡ transmit
    → FreeSince q.medium_free_since ((now, free) ∷ seen) × (q.medium_free_since + difs ≤ now)
unfolding listen_before_talk
transmit-FreeSince now difs false q seen h le lt e = cc
transmit-FreeSince now difs true q seen h le lt e = ground arith

pub listen_before_talk-FreeSince :
    {q : Queue} {seen : Observations} (now difs : ℕ) (free : Bool)
    → Listened q seen
    → newest seen ≤ now
    → now < 2 ^ 64
    → (listen_before_talk now difs free q).1 ≡ transmit
    → (t : ℕ) × FreeSince t ((now, free) ∷ seen) × (t + difs ≤ now)
listen_before_talk-FreeSince {q} {seen} now difs free l le lt e =
    let (clear, long) = transmit-FreeSince now difs free q seen (Listened-IsHonest l) le lt e in
    (q.medium_free_since, clear, long)
