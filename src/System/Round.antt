-- ===== src/System/Round.antt =====
-- src/queue.c: what a round of queue_worker does.
use rnode_linux.Base.{
  ℕ, ◌*◌, ◌%◌, ◌^◌, ◌≤◌, ◌<◌, ◌≡◌, refl, ap, Bool, true, false, not, leb, ltb, List, [], ◌∷◌, arith,
  some, length, length-append, All-append,
}
use rnode_linux.Platform.{Platform, usleep}
use rnode_linux.State.{Daemon, Kiss, Queue}
use rnode_linux.State.Monad.{gets, ◌>>=◌, set_queue}
use rnode_linux.State.Keeps.{
  Keeps, Keeps-pure, Keeps-gets, Keeps-if, Keeps-bind, Keeps-gets_where, Leads, Keeps-Leads,
  Leads-bind, Leads-if, Leads-from,
}
use rnode_linux.Csma.Airtime.{csma_get_cw, csma_update_airtime, get_time}
use rnode_linux.Csma.Rssi.{csma_set_dcd, csma_should_flush, csma_medium_free, csma_get_difs_ms}
use rnode_linux.Csma.Kept.{Keeps-update_airtime, Keeps-update_rssi}
use rnode_linux.Radio.Reports.{Keeps-stat_queue, Keeps-get_time}
use rnode_linux.Radio.Detached.{Detached-Stable, Keeps-any_event}
use rnode_linux.Queue.Items.{queue_push, push_item, after}
use rnode_linux.Queue.Worker.{
  pop_item, Verdict, listen, transmit, contend, listen_before_talk, send_item, send_packet, flush,
  send_first, act, pick_cw, contend_for_channel, reenable, serve_queue, update_rssi,
  queue_worker_round,
}
use rnode_linux.Rnode.Answers.{rnode_check_airtime_lock}
use rnode_linux.System.Sound.{
  Sound, IsQueued, With-Detached, Keeps-set_queue, Keeps-set_csma, packet_limit, AtRest,
  Leads-set_queue,
}
use rnode_linux.System.Settings.{Keeps-start}
use rnode_linux.System.Sending.{Keeps-to_air, Keeps-drawn}

push_item-IsQueued :
    (item : List ℕ) (q : Queue)
    → length item ≤ packet_limit
    → IsQueued q
    → IsQueued (push_item item q)
unfolding push_item
push_item-IsQueued item q le i = record {
  depth = omega (arith, i.depth, length-append q.items (item ∷ []));
  short = All-append (λ item. length item ≤ packet_limit) q.items (item ∷ []) i.short (le, tt);
}

-- One item at least.
abbrev Filled : Kiss → Kiss → Queue → Type 0
Filled k kiss q = AtRest k kiss q × (0 < length q.items)

pop_item-IsQueued : (q : Queue) → IsQueued q → 0 < length q.items → IsQueued (pop_item q)
unfolding pop_item
pop_item-IsQueued q i more = after_pop q.items refl
  where
    after_pop : (items : List (List ℕ)) → q.items ≡ items → IsQueued (pop_item q)
    after_pop [] e = absurd (omega (arith, more, ap length e))
    after_pop (item ∷ items) e =
        rw e (record { depth = omega (arith, i.depth, ap length e); short = (rw e at i.short).1 })

listen_before_talk-items :
    (now difs : ℕ) (free : Bool) (q : Queue)
    → let q' = (listen_before_talk now difs free q).0 in
      (q'.items ≡ q.items) × (q'.queue_depth ≡ q.queue_depth)
unfolding listen_before_talk contend
listen_before_talk-items now difs false q = (refl, refl)
listen_before_talk-items now difs true q = ground arith

module _ {p : Platform} (E : Kiss → Queue → Type 0) where
  pub Keeps-time : Keeps (Sound E) (get_time {p = p})
  Keeps-time = Keeps-get_time (Detached-Stable With-Detached)

module _ {p : Platform} {k : Kiss} where
  pub Keeps-push :
      (buf : List ℕ) → length buf ≤ packet_limit → Keeps (Sound (AtRest k)) (queue_push {p = p} buf)
  unfolding queue_push
  Keeps-push buf le = Keeps-bind _ _ (Keeps-set_queue _ (λ q. push_item-IsQueued buf q le)) λ _.
      Keeps-bind _ _ (Keeps-gets _) λ depth. Keeps-stat_queue (Detached-Stable With-Detached) depth

  Keeps-airtime : Keeps (Sound (AtRest k)) (csma_update_airtime {p = p})
  Keeps-airtime = Keeps-update_airtime (Detached-Stable With-Detached) Keeps-set_csma

  -- The item at the head leaves the queue, unless the airtime lock defers it.
  Leads-send_item :
      (item : List ℕ)
      → length item ≤ packet_limit
      → Leads (Sound (Filled k)) (send_item {p = p} item) (Sound (AtRest k))
  unfolding send_item rnode_check_airtime_lock
  Leads-send_item item le = Leads-bind _ _ (Keeps-Leads (Keeps-gets _) (λ d s. s)) λ locked.
      Leads-if locked _ _ (λ e. Leads-from _ unfill (Keeps-Leads (Keeps-pure false) (λ d s. s)))
        (λ e. Leads-bind _ _ (Keeps-Leads (Keeps-to_air item le) (λ d s. s)) λ actual_airtime.
          Leads-bind _ _ (Keeps-Leads (Keeps-time (Filled k)) (λ d s. s)) λ now.
            Leads-bind _ _
              (Leads-set_queue {E' = AtRest k} _
                (λ kiss q o. (o.0.0, popped q (after now (actual_airtime * 2 % 2 ^ 32)) o.0.1 o.1)))
              λ _. Leads-bind _ _ (Keeps-Leads (Keeps-gets _) (λ d s. s)) λ depth.
                Leads-bind _ _
                  (Keeps-Leads (Keeps-stat_queue (Detached-Stable With-Detached) depth) (λ d s. s))
                  λ _.
                    Leads-bind _ _ (Keeps-Leads Keeps-airtime (λ d s. s))
                      λ _. Keeps-Leads (Keeps-pure true) (λ d s. s))
    where
      unfill : (d : Daemon p) → Sound (Filled k) d → Sound (AtRest k) d
      unfill d s = record {
        held = s.held;
        part = s.part;
        others = s.others.0;
        sampling = s.sampling;
      }

      popped :
          (q : Queue) (deadline : ℕ)
          → IsQueued q
          → 0 < length q.items
          → IsQueued (pop_item (record q { tx_wait_timeout = deadline }))
      popped q deadline i more = pop_item-IsQueued (record q { tx_wait_timeout = deadline }) i more

  pub Keeps-send_packet : Keeps (Sound (AtRest k)) (send_packet {p = p})
  unfolding send_packet gets ◌>>=◌
  Keeps-send_packet = record { at = λ d s. from d.queue.items d s refl }
    where
      from :
          (items : List (List ℕ)) (d : Daemon p)
          → Sound (AtRest k) d
          → d.queue.items ≡ items
          → (r : Bool × Daemon p) × (send_first items d ≡ some r) × Sound (AtRest k) r.1
      from [] d s e = ((false, d), refl, s)
      from (item ∷ items) d s e = (Leads-send_item item (rw e at s.others.1.short).0).at d (record {
        held = s.held;
        part = s.part;
        others = (s.others, omega (arith, ap length e));
        sampling = s.sampling;
      })

  -- A change of the queue's other variables.
  Keeps-variable :
      (f : Queue → Queue)
      → ((q : Queue) → (f q).items ≡ q.items)
      → ((q : Queue) → (f q).queue_depth ≡ q.queue_depth)
      → Keeps (Sound (AtRest k)) (set_queue {p = p} f)
  Keeps-variable f items depth = Keeps-set_queue f (λ q i. rw (items q, depth q) i)

  Keeps-flush : Keeps (Sound (AtRest k)) (flush {p = p})
  unfolding flush
  Keeps-flush = Keeps-bind _ _ Keeps-send_packet λ sent.
      Keeps-bind _ _ (Keeps-gets _)
        λ items. Keeps-if _ _ _ (Keeps-variable _ (λ q. refl) (λ q. refl)) (Keeps-pure tt)

  Keeps-pick_cw : Keeps (Sound (AtRest k)) (pick_cw {p = p})
  unfolding pick_cw csma_get_cw
  Keeps-pick_cw = Keeps-bind _ _ (Keeps-gets _) λ picked.
      Keeps-if (not picked) _ _
        (Keeps-bind _ _
          (Keeps-bind _ _ Keeps-drawn λ r. Keeps-bind _ _ (Keeps-gets _) λ c. Keeps-pure _)
          λ target. Keeps-variable _ (λ q. refl) (λ q. refl))
        (Keeps-pure tt)

  Keeps-act : (verdict : Verdict) → Keeps (Sound (AtRest k)) (act {p = p} verdict)
  unfolding csma_should_flush
  Keeps-act listen = Keeps-pure tt
  Keeps-act transmit = Keeps-bind _ _ (Keeps-gets _) λ should_flush.
      Keeps-bind _ _
        (Keeps-if should_flush _ _ (Keeps-variable _ (λ q. refl) (λ q. refl)) (Keeps-pure tt))
        λ _. Keeps-bind _ _ Keeps-send_packet λ _. Keeps-pure tt

  Keeps-contend : (now : ℕ) → Keeps (Sound (AtRest k)) (contend_for_channel {p = p} now)
  unfolding contend_for_channel csma_medium_free csma_get_difs_ms
  Keeps-contend now = Keeps-bind _ _ Keeps-pick_cw λ _. Keeps-bind _ _ (Keeps-gets _) λ free.
      Keeps-bind _ _ (Keeps-gets _) λ difs.
        Keeps-gets_where IsQueued _ _ (λ d s. s.others.1)
          λ q i.
            Keeps-bind _ _
              (Keeps-set_queue _ (λ _ _.
                let (items, depth) = listen_before_talk-items now difs free q in
                rw (items, depth) i))
              λ _. Keeps-act _

  pub Keeps-dcd : (b : Bool) → Keeps (Sound (AtRest k)) (csma_set_dcd {p = p} b)
  unfolding csma_set_dcd
  Keeps-dcd b = Keeps-set_csma _ (λ c s. s)

  Keeps-reenable : (now : ℕ) → Keeps (Sound (AtRest k)) (reenable {p = p} now)
  unfolding reenable
  Keeps-reenable now = Keeps-bind _ _ (Keeps-gets _) λ q.
      Keeps-if (leb q.tx_disabled now) _ _
        (Keeps-bind _ _ (Keeps-variable _ (λ q. refl) (λ q. refl)) λ _. Keeps-dcd false)
        (Keeps-pure tt)

  Keeps-serve : (now : ℕ) → Keeps (Sound (AtRest k)) (serve_queue {p = p} now)
  unfolding serve_queue
  Keeps-serve now = Keeps-bind _ _ (Keeps-gets _) λ q.
      Keeps-if _ _ _ (Keeps-if q.flushing _ _ Keeps-flush (Keeps-contend now))
        (Keeps-if q.tx_enable _ _ (Keeps-pure tt) (Keeps-reenable now))

  Keeps-sample : (now : ℕ) → Keeps (Sound (AtRest k)) (update_rssi {p = p} now)
  unfolding update_rssi
  Keeps-sample now = Keeps-bind _ _ (Keeps-gets _) λ q.
      Keeps-if (ltb q.rssi_delay now) _ _
        (Keeps-bind _ _ (Keeps-variable _ (λ q. refl) (λ q. refl))
          λ _. Keeps-update_rssi (Detached-Stable With-Detached) Keeps-set_csma)
        (Keeps-pure tt)

  pub Keeps-queue_worker_round : Keeps (Sound (AtRest k)) (queue_worker_round {p = p})
  unfolding queue_worker_round
  Keeps-queue_worker_round = Keeps-bind _ _ (Keeps-time (AtRest k)) λ now.
      Keeps-bind _ _ (Keeps-gets _) λ state.
        Keeps-bind _ _
          (Keeps-if _ _ _
            (Keeps-bind _ _ (Keeps-gets _) λ q. Keeps-if _ _ _ Keeps-start (Keeps-pure tt))
            (Keeps-bind _ _ (Keeps-serve now) λ _. Keeps-sample now))
          λ _. Keeps-any_event With-Detached (usleep 1000)
