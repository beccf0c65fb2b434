-- ===== src/System/Sound.antt =====
-- The invariant of the daemon's state, and what keeps it whatever it reads.
use rnode_linux.Base.{ℕ, ◌%◌, ◌≤◌, ◌<◌, ◌≡◌, ◌⊎◌, List, length, All}
use rnode_linux.Platform.{Platform}
use rnode_linux.State.{Daemon, Kiss, Csma, Queue, Rnode}
use rnode_linux.State.Monad.{set_csma, set_queue, set_rnode}
use rnode_linux.State.Keeps.{Keeps, Keeps-modify, Leads, Leads-Keeps, Leads-modify}
use rnode_linux.Kiss.Encode.{mtu, kiss_encode}
use rnode_linux.Csma.Params.{shift_limit}
use rnode_linux.Csma.Sampling.{IsSampling}
use rnode_linux.Radio.Detached.{Detached, Detached-Stable}
use rnode_linux.Radio.Reports.{Keeps-encode}
use rnode_linux.Rnode.Air.{single_mtu, data_mtu, seq_unset}

-- The longest packet that two frames carry.
abbrev pub packet_limit : ℕ
packet_limit = 508

-- The variables of rnode.c that no reassembly touches, and its buffer's size.
pub record AreHeld (reassembly tail : List ℕ) (tail_len sf : ℕ) (hash : List ℕ) : Type 0 where
  pub space : length reassembly ≡ mtu
  pub tail_space : length tail ≡ single_mtu
  pub tail_fits : tail_len ≤ data_mtu
  pub spread : sf < shift_limit
  pub hash_fits : length hash ≤ 32

abbrev pub IsHolding : {F : Type 0} → Rnode F → Type 0
IsHolding r = AreHeld r.buf_in r.buf_tx r.len_tx r.current_sf r.dev_hash

-- Between two parts of a packet the buffer holds the first one; else it is empty.
abbrev pub IsBetween : {F : Type 0} → Rnode F → Type 0
IsBetween r = ((r.seq ≡ seq_unset) × (r.len_in ≡ 0)) ⊎ ((r.seq < 16) × (r.len_in ≤ data_mtu))

pub record AreQueued (items : List (List ℕ)) (queue_depth : ℕ) : Type 0 where
  pub depth : queue_depth ≡ length items % 65536
  pub short : All (λ item. length item ≤ packet_limit) items

abbrev pub IsQueued : Queue → Type 0
IsQueued q = AreQueued q.items q.queue_depth

-- The invariant with a property of the reassembly, and one of the decoder and the queue.
pub record AreSound {F : Type 0} (R : Rnode F → Type 0) (E : Kiss → Queue → Type 0) (r : Rnode F)
    (q : Queue) (c : Csma F) (kiss : Kiss) : Type 0 where
  pub held : IsHolding r
  pub part : R r
  pub others : E kiss q
  pub sampling : IsSampling c

abbrev pub IsWith :
    {p : Platform} → (Rnode p.Float → Type 0) → (Kiss → Queue → Type 0) → Daemon p → Type 0
IsWith R E d = AreSound R E d.rnode d.queue d.csma d.kiss

abbrev pub Sound : {p : Platform} → (Kiss → Queue → Type 0) → Daemon p → Type 0
Sound E d = IsWith IsBetween E d

-- The decoder as it was, and a queue whose depth is right.
abbrev pub AtRest : Kiss → Kiss → Queue → Type 0
AtRest k kiss q = (kiss ≡ k) × IsQueued q

module _ {p : Platform} {R : Rnode p.Float → Type 0} {E : Kiss → Queue → Type 0} where
  pub With-Detached : Detached {p = p} (IsWith R E)
  With-Detached = record { tcp = λ d t s. s; radio = λ d r s. s; history = λ d h s. s }

  pub Keeps-answer :
      (buf : List ℕ) → length buf ≤ 511 → Keeps (IsWith R E) (kiss_encode {p = p} buf)
  Keeps-answer = Keeps-encode (Detached-Stable With-Detached)

  pub Keeps-set_rnode :
      (f : Rnode p.Float → Rnode p.Float)
      → ((r : Rnode p.Float) → IsHolding r → R r → IsHolding (f r) × R (f r))
      → Keeps (IsWith R E) (set_rnode {p = p} f)
  Keeps-set_rnode f h = Keeps-modify _ (λ d s.
      let (held, part) = h d.rnode s.held s.part in
      record { held = held; part = part; others = s.others; sampling = s.sampling })

  pub Leads-set_queue :
      {E' : Kiss → Queue → Type 0} (f : Queue → Queue)
      → ((kiss : Kiss) (q : Queue) → E kiss q → E' kiss (f q))
      → Leads (IsWith R E) (set_queue {p = p} f) (IsWith R E')
  Leads-set_queue f h = Leads-modify _ (λ d s. record {
    held = s.held;
    part = s.part;
    others = h d.kiss d.queue s.others;
    sampling = s.sampling;
  })

  pub Keeps-set_csma :
      (f : Csma p.Float → Csma p.Float)
      → ((c : Csma p.Float) → IsSampling c → IsSampling (f c))
      → Keeps (IsWith R E) (set_csma {p = p} f)
  Keeps-set_csma f h = Keeps-modify _ (λ d s. record {
    held = s.held;
    part = s.part;
    others = s.others;
    sampling = h d.csma s.sampling;
  })

module _ {p : Platform} {R : Rnode p.Float → Type 0} {k : Kiss} where
  pub Keeps-set_queue :
      (f : Queue → Queue)
      → ((q : Queue) → IsQueued q → IsQueued (f q))
      → Keeps (IsWith R (AtRest k)) (set_queue {p = p} f)
  Keeps-set_queue f h =
      Leads-Keeps (λ d s. s) (Leads-set_queue {E' = AtRest k} f (λ kiss q o. (o.0, h q o.1)))
