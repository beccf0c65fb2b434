-- ===== src/System/Packets.antt =====
-- src/rnode.c: the packets, from the air and to it.
use rnode_linux.Base.{
  ℕ, ◌+◌, ◌/◌, ◌≤◌, ◌<◌, ◌≡◌, refl, ◌∙◌, ap, inl, inr, false, not, ◌==◌, leb, ltb, List, [], ◌∷◌,
  arith, length, length-take, length-copy_at, Bool-cases,
}
use rnode_linux.Platform.{Platform}
use rnode_linux.State.{Daemon, Kiss, Queue, Rnode}
use rnode_linux.State.Monad.{set_rnode}
use rnode_linux.State.Keeps.{
  Keeps, Keeps-pure, Keeps-gets, Keeps-if, Keeps-bind, Leads, Leads-Keeps, Keeps-Leads, Leads-bind,
  Leads-gets, Leads-modify, Leads-if, Keeps-Gives, Leads-gets_where, Leads-from,
}
use rnode_linux.Kiss.Encode.{mtu}
use rnode_linux.Radio.Detached.{Keeps-packet_signal}
use rnode_linux.Radio.Received.{AreBytes, Gives-read}
use rnode_linux.Rnode.Air.{
  Part, first, second, whole, part_of, append_buf, reassemble, hand_over, from_air_frame,
  rnode_from_air, rnode_rx_done, rnode_signal_stat, count_rx, single_mtu, data_mtu, seq_unset,
}
use rnode_linux.System.Sound.{
  Sound, IsWith, IsHolding, IsBetween, With-Detached, Keeps-answer, Keeps-set_rnode, packet_limit,
}

-- A sequence with a property, and at most `n` bytes in the buffer.
abbrev IsPart : {F : Type 0} → (ℕ → Type 0) → ℕ → Rnode F → Type 0
IsPart S n r = S r.seq × (r.len_in ≤ n)

between-small : {F : Type 0} (r : Rnode F) → IsBetween r → r.len_in ≤ data_mtu
between-small r (inl h) = omega arith
between-small r (inr h) = h.1

module _ {p : Platform} {k : Kiss → Queue → Type 0} where
  -- A change of the variables of the reassembly.
  Leads-set_rnode :
      {R S : Rnode p.Float → Type 0} (f : Rnode p.Float → Rnode p.Float)
      → ((r : Rnode p.Float) → IsHolding r → R r → IsHolding (f r) × S (f r))
      → Leads (IsWith R k) (set_rnode {p = p} f) (IsWith S k)
  Leads-set_rnode f h = Leads-modify _ (λ d s.
      let (held, part) = h d.rnode s.held s.part in
      record { held = held; part = part; others = s.others; sampling = s.sampling })

  Leads-append :
      (S : ℕ → Type 0) (n : ℕ) (buf : List ℕ)
      → n + length buf ≤ mtu
      → Leads
          (IsWith (IsPart S n) k)
          (append_buf {p = p} buf)
          (IsWith (IsPart S (n + length buf)) k)
  unfolding append_buf
  Leads-append S n buf fits =
      Leads-gets_where (λ r. IsHolding r × IsPart S n r) _ _ (λ d s. (s.held, s.part))
        λ r h.
          Leads-if (leb (r.len_in + length buf) (length r.buf_in)) _ _
            (λ e. Leads-set_rnode _ (λ r held part. (
              record {
                space =
                    length-copy_at r.buf_in r.len_in buf (omega (arith, held.space, part.1))
                    ∙ held.space;
                tail_space = held.tail_space;
                tail_fits = held.tail_fits;
                spread = held.spread;
                hash_fits = held.hash_fits;
              },
              (part.0, omega (arith, part.1)),
            )))
            (λ e. absurd (ground (arith, e, h.0.space, h.1.1)))

  Keeps-count_rx : Keeps (Sound k) (count_rx {p = p})
  unfolding count_rx
  Keeps-count_rx = Keeps-set_rnode _ (λ r h b. (h, b))

  -- The packet that is ready leaves the buffer empty.
  Leads-hand_over :
      Leads (IsWith (IsPart (λ s. s ≡ seq_unset) packet_limit) k) (hand_over {p = p}) (Sound k)
  unfolding hand_over
  Leads-hand_over =
      Leads-gets_where (λ r. IsHolding r × (r.len_in ≤ packet_limit)) _ _
        (λ d s. (s.held, s.part.1))
        λ r h.
          Leads-bind _ _
            (Keeps-Leads
              (Keeps-answer _
                (omega (arith, length-take r.len_in r.buf_in (omega (arith, h.0.space, h.1)), h.1)))
              (λ d s. s))
            λ _.
              Leads-bind _ _ (Leads-set_rnode _ (λ r held part. (held, inl (part.0, refl))))
                λ _. Keeps-Leads Keeps-count_rx (λ d s. s)

  Leads-reassemble :
      (part : Part) (sequence : ℕ) (buf : List ℕ)
      → sequence < 16
      → length buf ≤ data_mtu
      → Leads (Sound k) (reassemble {p = p} part sequence buf) (Sound k)
  unfolding reassemble
  Leads-reassemble first sequence buf small le =
      Leads-bind _ _
        (Leads-set_rnode {S = IsPart (λ s. Unit) 0} (λ r. record r { len_in = 0 })
          (λ r held b. (held, (tt, omega arith))))
        λ _. Leads-bind _ _ (Leads-append (λ s. Unit) 0 buf (omega (arith, le))) λ _.
          Leads-set_rnode (λ r. record r { seq = sequence })
            (λ r held part. (held, inr (small, omega (arith, part.1, le))))
  Leads-reassemble second sequence buf small le =
      Leads-bind _ _
        (Leads-from {R = IsWith (IsPart (λ s. Unit) data_mtu) k} _ widen
          (Leads-append (λ s. Unit) data_mtu buf (omega (arith, le))))
        λ _.
          Leads-bind _ _
            (Leads-set_rnode {S = IsPart (λ s. s ≡ seq_unset) packet_limit}
              (λ r. record r { seq = seq_unset })
              (λ r held part. (held, (refl, omega (arith, part.1, le)))))
            λ _. Leads-hand_over
    where
      widen : (d : Daemon p) → Sound k d → IsWith (IsPart (λ s. Unit) data_mtu) k d
      widen d s = record {
        held = s.held;
        part = (tt, between-small d.rnode s.part);
        others = s.others;
        sampling = s.sampling;
      }
  Leads-reassemble whole sequence buf small le = Leads-gets _ _ λ r.
      Leads-bind {R = IsWith (IsPart (λ s. s ≡ seq_unset) 0) k} _ _
        (Leads-if (not (r.seq == seq_unset)) _ _
          (λ e.
            Leads-from {R = Sound k} _ (λ d s. s.0)
              (Leads-set_rnode (λ r. record r { len_in = 0; seq = seq_unset })
                (λ r held b. (held, (refl, omega arith)))))
          (λ e. Keeps-Leads (Keeps-pure tt) (λ d s. record {
            held = s.0.held;
            part =
                clean d.rnode s.0.part
                  (ap (λ (r : Rnode p.Float). not (r.seq == seq_unset)) s.1 ∙ e);
            others = s.0.others;
            sampling = s.0.sampling;
          })))
        λ _. Leads-bind _ _ (Leads-append (λ s. s ≡ seq_unset) 0 buf (omega (arith, le))) λ _.
          Leads-from _
            (λ d s. record {
              held = s.held;
              part = (s.part.0, omega (arith, s.part.1, le));
              others = s.others;
              sampling = s.sampling;
            })
            Leads-hand_over
    where
      clean :
          (r : Rnode p.Float)
          → IsBetween r
          → not (r.seq == seq_unset) ≡ false
          → IsPart (λ s. s ≡ seq_unset) 0 r
      clean r (inl b) e = (b.0, omega (arith, b.1))
      clean r (inr b) e = absurd (ground (arith, e, b.0))

  -- A header and up to 254 bytes.
  Keeps-from_air_frame :
      (buf : List ℕ)
      → 0 < length buf
      → AreBytes (length buf) buf
      → length buf ≤ single_mtu
      → Keeps (Sound k) (from_air_frame {p = p} buf)
  unfolding from_air_frame
  Keeps-from_air_frame [] some_byte b le = absurd (omega (arith, some_byte))
  Keeps-from_air_frame (header ∷ buf) some_byte b le = Keeps-bind _ _ (Keeps-gets _) λ r.
      Leads-Keeps (λ d s. s)
        (Leads-reassemble (part_of r.seq header) (header / 16) buf (omega (arith, b.bytes.0))
          (omega (arith, le)))

  pub Keeps-from_air :
      (buf : List ℕ)
      → 0 < length buf
      → AreBytes (length buf) buf
      → length buf ≤ single_mtu
      → Keeps (Sound k) (rnode_from_air {p = p} buf)
  unfolding rnode_from_air
  Keeps-from_air buf some_byte b le = Keeps-bind _ _ (Keeps-gets _) λ promisc.
      Keeps-if promisc _ _ (Keeps-bind _ _ (Keeps-answer _ (omega (arith, le))) λ _. Keeps-count_rx)
        (Keeps-from_air_frame buf some_byte b le)

  Keeps-signal_stat : (rssi snr : ℕ) → Keeps (Sound k) (rnode_signal_stat {p = p} rssi snr)
  unfolding rnode_signal_stat
  Keeps-signal_stat rssi snr =
      Keeps-bind _ _ (Keeps-gets _)
        λ offset. Keeps-bind _ _ (Keeps-answer _ (omega arith)) λ _. Keeps-answer _ (omega arith)

  pub Keeps-rx_done : (len : ℕ) → len < 256 → Keeps (Sound k) (rnode_rx_done {p = p} len)
  unfolding rnode_rx_done
  Keeps-rx_done len lt = elim (Bool-cases (ltb 0 len)) [
    | inl more ↦ rw more (
        Keeps-bind _ _ (Keeps-packet_signal With-Detached) λ signal.
          Keeps-Gives _ _ (Gives-read With-Detached len) λ buf b.
            Keeps-bind _ _ (Keeps-signal_stat _ _) λ _.
              Keeps-from_air buf (ground (arith, more, b.size)) (rw b.size b)
                (omega (arith, lt, b.size)))
    | inr none_left ↦ rw none_left (Keeps-pure tt)
  ]
