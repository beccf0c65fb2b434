-- ===== src/Queue/Head.antt =====
-- send_packet and queue_push: what the queue holds, and what goes on the air.
use rnode_linux.Base.{
  ℕ, ◌+◌, ◌*◌, ◌/◌, ◌%◌, ◌^◌, ◌≤◌, ◌<◌, ◌≡◌, refl, ◌∙◌, ap, ◌⊎◌, inl, inr, Bool, true, false, some,
  List, [], ◌∷◌, ◌++◌, arith, length, length-append, Bool-cases,
}
use rnode_linux.Platform.{Platform, clock_read}
use rnode_linux.State.{Daemon, Queue}
use rnode_linux.State.Monad.{pure, gets, ◌>>=◌, ◌>>◌, bind-at}
use rnode_linux.Radio.Moves.{command_log}
use rnode_linux.Csma.Airtime.{csma_update_airtime, get_time}
use rnode_linux.Rnode.Report.{rnode_send_stat_queue}
use rnode_linux.Rnode.Air.{rnode_to_air}
use rnode_linux.Rnode.Answers.{rnode_check_airtime_lock}
use rnode_linux.Rnode.Send.{on_air}
use rnode_linux.Rnode.First.{first_frame, rnode_to_air-first}
use rnode_linux.Queue.Unmoved.{Unmoved, Unmoved-Stable, Keeps-update_airtime}
use rnode_linux.Radio.Reports.{Keeps-stat_queue}
use rnode_linux.Queue.Items.{queue_push, push_item, after}
use rnode_linux.Queue.Worker.{pop_item, send_item, send_packet}

popped :
    (q : Queue) (item : List ℕ) (items : List (List ℕ))
    → q.items ≡ item ∷ items
    → (pop_item q).items ≡ items
unfolding pop_item
popped q item items same = rw same refl

module _ {p : Platform} where
  pub queue_push-items :
      (d : Daemon p) (buf : List ℕ)
      → d.queue.queue_depth ≡ length d.queue.items % 65536
      → (d' : Daemon p) × (queue_push buf d ≡ some (tt, d'))
        × (d'.queue.items ≡ d.queue.items ++ buf ∷ [])
        × (d'.queue.queue_depth ≡ length d'.queue.items % 65536)
  unfolding queue_push push_item ◌>>=◌
  queue_push-items d buf e =
      let d1 : Daemon p = record d { queue = push_item buf d.queue } in
      let (r, k, u) = (Keeps-stat_queue Unmoved-Stable d1.queue.queue_depth).at d1 (refl, refl) in
      let items = ap (λ (x : Queue). x.items) u.0 in
      (
        r.1,
        k,
        items,
        ap (λ (x : Queue). x.queue_depth) u.0
            ∙ omega (arith, e, ap length items, length-append d.queue.items (buf ∷ [])),
      )

  -- The report and the recount that follow a transmission.
  finish :
      (d : Daemon p)
      → (d' : Daemon p) × ((do
        depth ← gets (λ d. d.queue.queue_depth)
        rnode_send_stat_queue depth
        csma_update_airtime
        pure true)
            d
          ≡ some (true, d'))
        × Unmoved d.queue (command_log d.history) d'
  unfolding pure gets
  finish d =
      let (r, e, u) = (Keeps-stat_queue Unmoved-Stable d.queue.queue_depth).at d (refl, refl) in
      let (s, e', u') = Keeps-update_airtime.at r.1 u in
      (
        s.1,
        bind-at (gets (λ d. d.queue.queue_depth)) _ refl
            ∙ bind-at (rnode_send_stat_queue d.queue.queue_depth) _ e
            ∙ bind-at csma_update_airtime _ e',
        u',
      )

  -- The airtime lock is a test of the daemon.
  lock_lem : (d : Daemon p) → (locked : Bool) × (rnode_check_airtime_lock d ≡ some (locked, d))
  unfolding rnode_check_airtime_lock gets
  lock_lem d = (_, refl)

  send_item-head :
      (d : Daemon p) (item : List ℕ)
      → d.rnode.promisc ≡ false
      → length item ≤ 508
      → rnode_check_airtime_lock d ≡ some (false, d)
      → (k : ℕ) × (k < 16)
        × (d' : Daemon p) × (send_item item d ≡ some (true, d'))
        × (command_log d'.history ≡ on_air d.radio (first_frame k item) ++ command_log d.history)
        × (d'.queue.items ≡ (pop_item d.queue).items)
        × (d'.queue.queue_depth ≡ (d.queue.queue_depth + 65535) % 65536)
  unfolding send_item get_time pop_item ◌>>=◌
  send_item-head d item off h lock =
      let (k, small, t, d1, e, log, q) = rnode_to_air-first d item off h in
      let now =
        (p.clock_sec (clock_read ∷ d1.history) * 1000000
          + p.clock_nsec (clock_read ∷ d1.history) / 1000)
        / 1000 in
      let d2 : Daemon p = record d1 {
        history = clock_read ∷ d1.history;
        queue = pop_item (record d1.queue { tx_wait_timeout = after now (t * 2 % 2 ^ 32) });
      } in
      let (d', e', u) = finish d2 in
      (
        k,
        small,
        d',
        bind-at rnode_check_airtime_lock _ lock ∙ bind-at (rnode_to_air item) _ e ∙ e',
        u.1 ∙ log,
        ap (λ (x : Queue). x.items) u.0 ∙ ap (λ (x : Queue). (pop_item x).items) q,
        ap (λ (x : Queue). x.queue_depth) u.0
            ∙ ap (λ (x : Queue). (x.queue_depth + 65535) % 65536) q,
      )

  send_packet-item :
      (d : Daemon p) (item : List ℕ) (items : List (List ℕ))
      → d.queue.items ≡ item ∷ items
      → send_packet d ≡ send_item item d
  unfolding send_packet ◌>>=◌
  send_packet-item d item items same = rw same refl

  send_item-locked :
      (d : Daemon p) (item : List ℕ)
      → rnode_check_airtime_lock d ≡ some (true, d)
      → send_item item d ≡ some (false, d)
  unfolding send_item pure
  send_item-locked d item lock = bind-at rnode_check_airtime_lock _ lock

  -- Outside promiscuous mode, with a packet of up to 508 bytes at the head of the queue and the
  -- depth the number of its packets, send_packet returns, and either the airtime lock holds and it
  -- returns false and leaves the daemon as it is, or it returns true, has put one frame on the air,
  -- the one that begins that packet, and has taken that packet and no other from the queue, whose
  -- depth stays the number of its packets.
  pub send_packet-head :
      (d : Daemon p) (item : List ℕ) (items : List (List ℕ))
      → d.queue.items ≡ item ∷ items
      → d.queue.queue_depth ≡ length d.queue.items % 65536
      → d.rnode.promisc ≡ false
      → length item ≤ 508
      → ((rnode_check_airtime_lock d ≡ some (true, d)) × (send_packet d ≡ some (false, d)))
        ⊎ ((rnode_check_airtime_lock d ≡ some (false, d))
            × (k : ℕ) × (k < 16)
            × (d' : Daemon p) × (send_packet d ≡ some (true, d'))
            × (command_log d'.history
                ≡ on_air d.radio (first_frame k item) ++ command_log d.history)
            × (d'.queue.items ≡ items)
            × (d'.queue.queue_depth ≡ length d'.queue.items % 65536))
  send_packet-head d item items same depth off h =
      let (locked, lock) = lock_lem d in
      elim (Bool-cases locked) [
        | inl on ↦
            let held = lock ∙ ap (λ b. some (b, d)) on in
            inl (held, send_packet-item d item items same ∙ send_item-locked d item held)
        | inr free ↦
            let held = lock ∙ ap (λ b. some (b, d)) free in
            let (k, small, d', e, log, rest, n) = send_item-head d item off h held in
            let left = rest ∙ popped d.queue item items same in
            inr (
              held,
              k,
              small,
              d',
              send_packet-item d item items same ∙ e,
              log,
              left,
              n ∙ omega (arith, depth, ap length same, ap length left),
            )
      ]
