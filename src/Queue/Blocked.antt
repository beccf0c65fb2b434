-- ===== src/Queue/Blocked.antt =====
-- What a detected preamble does to the queue.
use rnode_linux.Base.{
  ℕ, ◌+◌, ◌*◌, ◌/◌, ◌≡◌, refl, ◌∙◌, Bool, true, false, not, inl, inr, some, ◌∷◌, arith,
  if◌then◌else◌, leb, Bool-cases,
}
use rnode_linux.Platform.{Platform, History, clock_read}
use rnode_linux.State.{Daemon, preamble_detected}
use rnode_linux.State.Monad.{◌>>=◌, ◌>>◌}
use rnode_linux.Csma.Airtime.{get_time}
use rnode_linux.Csma.Rssi.{csma_set_dcd}
use rnode_linux.Queue.Items.{queue_medium_state, medium_state, after}
use rnode_linux.Queue.Worker.{serve_queue, reenable}

-- What get_time returns at its clock_gettime.
abbrev pub time_at : (p : Platform) → History → ℕ
time_at p h = (p.clock_sec h * 1000000 + p.clock_nsec h / 1000) / 1000

module _ {p : Platform} where
  reenable-at :
      (d : Daemon p) (now : ℕ)
      → d.queue.tx_enable ≡ false
      → (d' : Daemon p) × (serve_queue now d ≡ some (tt, d'))
        × (d'.history ≡ d.history)
        × (d'.queue.items ≡ d.queue.items)
        × (d'.queue.tx_enable ≡ leb d.queue.tx_disabled now)
        × (d'.csma.dcd ≡ (if leb d.queue.tx_disabled now then false else d.csma.dcd))
  unfolding serve_queue reenable csma_set_dcd ◌>>=◌
  reenable-at d now off = elim (Bool-cases (leb d.queue.tx_disabled now)) [
    | inl late ↦ (
      record d {
        queue = record d.queue { tx_enable = true };
        csma = record d.csma { dcd = false };
      },
      ground (arith, off, late),
      refl,
      refl,
      ground (arith, late),
      ground (arith, late),
    )
    | inr early ↦ (
      d,
      ground (arith, off, early),
      refl,
      refl,
      off ∙ ground (arith, early),
      ground (arith, early),
    )
  ]

  -- After a preamble the round of any time returns and sends nothing, and keeps the queue's packets:
  -- transmission stays disabled, and the carrier detected, until the header timeout has passed since the
  -- preamble, and is enabled in the round that finds it passed.
  pub serve_queue-preamble :
      (d : Daemon p) (now : ℕ)
      → let heard = clock_read ∷ d.history in
        let late = leb (after (time_at p heard) d.queue.tx_header_timeout) now in
        (d' : Daemon p) × ((do queue_medium_state preamble_detected; serve_queue now) d
          ≡ some (tt, d'))
        × (d'.history ≡ heard)
        × (d'.queue.items ≡ d.queue.items)
        × (d'.queue.tx_enable ≡ late)
        × (d'.csma.dcd ≡ not late)
  unfolding queue_medium_state medium_state get_time csma_set_dcd ◌>>=◌
  serve_queue-preamble d now =
      let heard = clock_read ∷ d.history in
      let d1 : Daemon p = record d {
        history = heard;
        csma = record d.csma { dcd = true };
        queue = medium_state (time_at p heard) preamble_detected d.queue;
      } in
      let (d', e, h, i, t, c) = reenable-at d1 now refl in
      (d', e, h, i, t, c ∙ negation (leb d1.queue.tx_disabled now))
    where
      negation : (b : Bool) → (if b then false else true) ≡ not b
      negation true = refl
      negation false = refl
