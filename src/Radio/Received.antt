-- ===== src/Radio/Received.antt =====
-- What the driver's reads return: bytes of the device, as many as were asked for.
use rnode_linux.Base.{
  ℕ, zero, suc, ◌+◌, ◌<◌, ◌≡◌, refl, List, [], ◌∷◌, arith, length, fill, drop, get_or, All, ap,
}
use rnode_linux.Base.Bytes.{byte}
use rnode_linux.Platform.{Platform}
use rnode_linux.State.{Daemon}
use rnode_linux.State.Keeps.{Gives, Keeps-gets, Gives-pure, Gives-gets, Gives-after, Gives-bind}
use rnode_linux.Radio.Spi.{transfer, write_read_bytes}
use rnode_linux.Radio.Command.{read_buffer, get_rx_buffer_status}
use rnode_linux.Radio.Packet.{sx126x_read}
use rnode_linux.Radio.Detached.{Detached, Keeps-any_event, Keeps-set_radio, Keeps-wait}

-- As many bytes.
pub record AreBytes (n : ℕ) (buf : List ℕ) : Type 0 where
  pub size : length buf ≡ n
  pub bytes : All (λ x. x < 256) buf

fill-AreBytes : (f : ℕ → ℕ) (i n : ℕ) → AreBytes n (fill (λ j. byte (f j)) i n)
fill-AreBytes f i zero = record { size = refl; bytes = tt }
fill-AreBytes f i (suc n) =
    let rest = fill-AreBytes f (i + 1) n in
    record { size = ap suc rest.size; bytes = (omega arith, rest.bytes) }

drop-AreBytes : (n : ℕ) (buf : List ℕ) → AreBytes (n + 1) buf → AreBytes n (drop 1 buf)
drop-AreBytes n [] a = absurd (omega (arith, a.size))
drop-AreBytes n (x ∷ buf) a = record { size = omega (arith, a.size); bytes = a.bytes.1 }

pub get_or-byte : (buf : List ℕ) (i : ℕ) → All (λ x. x < 256) buf → get_or buf i 0 < 256
get_or-byte [] i h = omega arith
get_or-byte (x ∷ buf) zero h = h.0
get_or-byte (x ∷ buf) (suc i) h = get_or-byte buf i h.1

module _ {p : Platform} {P : Daemon p → Type 0} (s : Detached P) where
  pub Gives-write_read : (buf : List ℕ) (n : ℕ) → Gives P (write_read_bytes buf n) (AreBytes n)
  unfolding write_read_bytes transfer
  Gives-write_read buf n =
      Gives-bind {S = λ r. AreBytes n r.1} _ _
        (Gives-after _ _ (Keeps-any_event s _) λ _. Gives-after _ _ (Keeps-any_event s _) λ _.
          Gives-after _ _ (Keeps-any_event s _) λ _. Gives-after _ _ (Keeps-gets _) λ l.
            Gives-bind _ _ (Gives-gets _ (λ d. fill-AreBytes (p.spi_in d.history) 0 n)) λ ans size.
              Gives-after _ _ (Keeps-any_event s _)
                λ _. Gives-after _ _ (Keeps-any_event s _) λ _. Gives-pure _ size)
        λ r size. Gives-pure _ size

  pub Gives-read : (len : ℕ) → Gives P (sx126x_read len) (AreBytes len)
  unfolding sx126x_read read_buffer
  Gives-read len = Gives-after _ _ (Keeps-wait s) λ _.
      Gives-bind _ _
        (Gives-after _ _ (Keeps-gets _) λ r.
          Gives-bind _ _ (Gives-write_read _ (len + 1))
            λ ans size. Gives-pure _ (drop-AreBytes len ans size))
        λ buf size. Gives-after _ _ (Keeps-set_radio s _) λ _. Gives-pure _ size

  pub Gives-rx_buffer_status : Gives P (get_rx_buffer_status {p = p}) (λ len. len < 256)
  unfolding get_rx_buffer_status
  Gives-rx_buffer_status = Gives-bind _ _ (Gives-write_read _ 3) λ ans size.
      Gives-after _ _ (Keeps-set_radio s _) λ _. Gives-pure _ (get_or-byte ans 1 size.bytes)
