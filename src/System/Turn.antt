-- ===== src/System/Turn.antt =====
-- tcp_read of src/tcp.c, with the commands that it carries.
use rnode_linux.Base.{
  ℕ, suc, ◌≡◌, refl, ap, sym, Bool, true, false, ◌&&◌, Option, none, some, List, [], ◌∷◌, ltb,
  if◌then◌else◌, arith, take,
}
use rnode_linux.Platform.{
  Platform, Event, History, SendResult, sent, again, failed, SelectResult, selected, interrupted,
  select_failed, ReadResult, got, read_again, read_failed, close, read_call,
}
use rnode_linux.State.{Daemon, Kiss, Tcp}
use rnode_linux.State.Monad.{M, perform, ◌>>=◌, set_tcp}
use rnode_linux.State.Keeps.{
  Keeps, Keeps-pure, Keeps-gets, Keeps-modify, Keeps-perform, Keeps-if, Keeps-bind, Leads,
  Leads-bind, Leads-if, Keeps-Leads,
}
use rnode_linux.Tcp.{drop_client, tcp_send}
use rnode_linux.Tcp.Read.{
  is_set, connect, accept_client, disconnect, take_input, read_client, serve_sockets, on_activity,
  tcp_read,
}
use rnode_linux.Kiss.Encode.{mtu}
use rnode_linux.Kiss.Frame.{frame, kiss_encode_small}
use rnode_linux.Rnode.Report.{rnode_indicate_reset}
use rnode_linux.System.Stream.{IsPolite, IsServing, kiss_decode-IsServing}

abbrev is_read : Event → Bool
is_read (read_call fd) = true
is_read _ = false

-- How many times the client's socket was read.
abbrev pub reads : History → ℕ
reads [] = 0
reads (e ∷ h) = if is_read e then suc (reads h) else reads h

-- The bytes that a read brings.
abbrev input : ReadResult → List ℕ
input (got bytes) = take mtu bytes
input read_again = []
input read_failed = []

-- What the next read of the client's socket brings is polite.
abbrev pub IsPoliteTo : {p : Platform} → Daemon p → Type 0
IsPoliteTo {p} d =
    (h : History) → reads h ≡ suc (reads d.history) → IsPolite d.kiss (input (p.read_result h))

module _ {p : Platform} (k : Kiss) (n : ℕ) where
  -- The invariant, before the next read.
  abbrev Waiting : Daemon p → Type 0
  Waiting d = IsServing d × ((d.kiss ≡ k) × (reads d.history ≡ n))

  Waiting-event : (e : Event) → is_read e ≡ false → Keeps Waiting (perform e)
  Waiting-event e q = Keeps-perform e (λ d w. (
    (
      record {
        held = w.0.0.held;
        part = w.0.0.part;
        others = w.0.0.others;
        sampling = w.0.0.sampling;
      },
      w.0.1,
    ),
    (w.1.0, rw q w.1.1),
  ))

  Waiting-set_tcp : (f : Tcp → Tcp) → Keeps Waiting (set_tcp f)
  Waiting-set_tcp f = Keeps-modify _ (λ d w. (
    (
      record {
        held = w.0.0.held;
        part = w.0.0.part;
        others = w.0.0.others;
        sampling = w.0.0.sampling;
      },
      w.0.1,
    ),
    w.1,
  ))

  Waiting-drop : (fd : ℕ) (r : SendResult) → Keeps Waiting (drop_client fd r)
  Waiting-drop fd (sent m) = Keeps-pure tt
  Waiting-drop fd again = Keeps-pure tt
  Waiting-drop fd failed = Keeps-bind _ _ (Waiting-event _ refl) λ _. Waiting-set_tcp _

  Waiting-send : (buf : List ℕ) → Keeps Waiting (tcp_send buf)
  unfolding tcp_send
  Waiting-send buf = Keeps-bind _ _ (Keeps-gets _) λ fd.
      Keeps-if (ltb 0 fd) _ _
        (Keeps-bind _ _ (Waiting-event _ refl)
          λ _. Keeps-bind _ _ (Keeps-gets _) λ result. Waiting-drop fd result)
        (Keeps-pure tt)

  Waiting-reset : Keeps Waiting (rnode_indicate_reset {p = p})
  unfolding rnode_indicate_reset
  Waiting-reset = record {
    at = λ d w.
        rw (kiss_encode_small d (0x55 ∷ 0xF8 ∷ []) (omega arith))
          ((Waiting-send (frame (0x55 ∷ 0xF8 ∷ []))).at d w);
  }

  Waiting-connect : (new_fd : Option ℕ) → Keeps Waiting (connect {p = p} new_fd)
  Waiting-connect none = Keeps-pure tt
  Waiting-connect (some new_fd) = Keeps-bind _ _ (Keeps-gets _) λ client_fd.
      Keeps-bind _ _ (Keeps-if (ltb 0 client_fd) _ _ (Waiting-event _ refl) (Keeps-pure tt)) λ _.
        Keeps-bind _ _ (Waiting-set_tcp _)
          λ _. Keeps-bind _ _ (Waiting-event _ refl) λ _. Waiting-reset

  Waiting-accept : Keeps Waiting (accept_client {p = p})
  unfolding accept_client
  Waiting-accept =
      Keeps-bind _ _ (Waiting-event _ refl)
        λ _. Keeps-bind _ _ (Keeps-gets _) λ new_fd. Waiting-connect new_fd

  Leads-done : {A : Type 0} (m : M p A) → Keeps Waiting m → Leads Waiting m IsServing
  Leads-done m keeps = Keeps-Leads keeps (λ d w. w.0)

module _ {p : Platform} where
  IsServing-moved :
      (d : Daemon p) (t : Tcp) (h : History)
      → IsServing d
      → IsServing (record d { tcp = t; history = h })
  IsServing-moved d t h (s, r) =
      (record { held = s.held; part = s.part; others = s.others; sampling = s.sampling }, r)

  disconnect-IsServing :
      (fd : ℕ) (d : Daemon p)
      → IsServing d
      → (r : Unit {0} × Daemon p) × (disconnect fd d ≡ some r) × IsServing r.1
  unfolding disconnect ◌>>=◌
  disconnect-IsServing fd d s =
      (_, refl, IsServing-moved d (record d.tcp { client_fd = 0 }) (close fd ∷ d.history) s)

  take_input-IsServing :
      (fd : ℕ) (res : ReadResult) (d : Daemon p)
      → IsServing d
      → IsPolite d.kiss (input res)
      → (r : Unit {0} × Daemon p) × (take_input fd res d ≡ some r) × IsServing r.1
  take_input-IsServing fd (got []) d s polite = disconnect-IsServing fd d s
  take_input-IsServing fd (got (byte ∷ bytes)) d s polite =
      let (d', e, s') = kiss_decode-IsServing (take mtu (byte ∷ bytes)) d s polite in
      ((tt, d'), e, s')
  take_input-IsServing fd read_again d s polite = disconnect-IsServing fd d s
  take_input-IsServing fd read_failed d s polite = disconnect-IsServing fd d s

  module _ (k : Kiss) (n : ℕ)
      (polite : (h : History) → reads h ≡ suc n → IsPolite k (input (p.read_result h))) where
    Leads-read : (fd : ℕ) → Leads (Waiting {p = p} k n) (read_client fd) IsServing
    unfolding read_client ◌>>=◌
    Leads-read fd = record {
      at = λ d w.
          let h = read_call fd ∷ d.history in
          take_input-IsServing fd (p.read_result h) (record d { history = h })
            (IsServing-moved d d.tcp h w.0) (rw (sym w.1.0) at (polite h (ap suc w.1.1)));
    }

    Leads-serve : (fds : List ℕ) → Leads (Waiting {p = p} k n) (serve_sockets fds) IsServing
    unfolding serve_sockets
    Leads-serve fds = Leads-bind _ _ (Keeps-Leads (Keeps-gets _) (λ d w. w)) λ server_fd.
        Leads-bind _ _
          (Keeps-Leads (Keeps-if (is_set server_fd fds) _ _ (Waiting-accept k n) (Keeps-pure tt))
            (λ d w. w))
          λ _. Leads-bind _ _ (Keeps-Leads (Keeps-gets _) (λ d w. w)) λ client_fd.
            Leads-if (ltb 0 client_fd && is_set client_fd fds) _ _ (λ e. Leads-read client_fd)
              (λ e. Leads-done k n _ (Keeps-pure tt))

    Leads-activity :
        (server_fd client_fd : ℕ) (activity : SelectResult)
        → Leads (Waiting {p = p} k n) (on_activity server_fd client_fd activity) IsServing
    Leads-activity server_fd client_fd (selected server client) = Leads-serve _
    Leads-activity server_fd client_fd interrupted = Leads-serve _
    Leads-activity server_fd client_fd select_failed = Leads-done k n _ (Keeps-pure tt)

    Leads-tcp_read : Leads (Waiting {p = p} k n) tcp_read IsServing
    unfolding tcp_read
    Leads-tcp_read = Leads-bind _ _ (Keeps-Leads (Keeps-gets _) (λ d w. w)) λ t.
        Leads-bind _ _ (Keeps-Leads (Waiting-event k n _ refl) (λ d w. w)) λ _.
          Leads-bind _ _ (Keeps-Leads (Keeps-gets _) (λ d w. w))
            λ activity. Leads-activity t.server_fd t.client_fd activity

  -- A turn of the main loop returns, whatever select, accept, read and the devices answer, and keeps the
  -- invariant, if what the client's next read brings is polite.
  pub tcp_read-IsServing :
      (d : Daemon p)
      → IsServing d
      → IsPoliteTo d
      → (d' : Daemon p) × (tcp_read d ≡ some (tt, d')) × IsServing d'
  tcp_read-IsServing d s polite =
      let (r, e, s') = (Leads-tcp_read d.kiss (reads d.history) polite).at d (s, (refl, refl)) in
      (r.1, e, s')
