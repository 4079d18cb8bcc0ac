-- ===== src/Outbound/Conn.antt =====
-- A connection to a proxy as the handshakes use it: the bytes that the peer will send, and those
-- sent to it. A read past the end is an error; a write is taken whole.
use local_proxy_rs.Base.{
  ℕ, zero, suc, Bool, true, false, [], ◌∷◌, ◌++◌, Bytes, length, leb, Error, rejected, io, Result,
  ok, err, ◌≡◌, refl,
}

pub record Conn : Type 0 where
  pub incoming : Bytes
  pub sent : Bytes

-- A step of a handshake: the connection behind it, and its result.
abbrev pub M : Type 0 → Type 0
M A = Conn → Conn × Result A

abbrev pub then_run : {A B : Type 0} → Conn × Result A → (A → M B) → Conn × Result B
then_run (c, ok a) f = f a c
then_run (c, err e) f = (c, err e)

infixl 5 ◌>>=◌ ◌>>◌
abbrev pub ◌>>=◌ : {A B : Type 0} → M A → (A → M B) → M B
◌>>=◌ m f c = then_run (m c) f

abbrev pub ◌>>◌ : {B : Type 0} → M (Unit {0}) → M B → M B
◌>>◌ m k c = then_run (m c) (λ _. k)

abbrev pub done : {A : Type 0} → A → M A
done a c = (c, ok a)

abbrev pub fail : {A : Type 0} → Error → M A
fail e c = (c, err e)

abbrev pub write_all : Bytes → M (Unit {0})
write_all b c = (record { incoming = c.incoming; sent = c.sent ++ b }, ok tt)

abbrev pub read_from : Bytes → Bytes → Conn × Result ℕ
read_from [] sent = (record { incoming = []; sent = sent }, err io)
read_from (b ∷ r) sent = (record { incoming = r; sent = sent }, ok b)

abbrev pub read_u8 : M ℕ
read_u8 c = read_from c.incoming c.sent

-- `read_exact` of `n` bytes, and `read_u16`, `read_u32`, `read_u128`, whose value is not used.
unfoldable pub read_exact : ℕ → M (Unit {0})
read_exact zero c = (c, ok tt)
read_exact (suc n) c = then_run (read_u8 c) (λ _. read_exact n)

-- `if … { return Err("".into()) }`.
abbrev pub require : Bool → M (Unit {0})
require true c = (c, ok tt)
require false c = (c, err rejected)

-- `usize → u8` by `try_into()?`.
abbrev pub u8_try_into : ℕ → M ℕ
u8_try_into n c = (c, (elim (leb n 255) [ true ↦ ok n | false ↦ err rejected ]))

pub read_exact-append :
    (b r sent : Bytes)
    → read_exact (length b) (record { incoming = b ++ r; sent = sent })
      ≡ (record { incoming = r; sent = sent }, ok tt)
unfolding read_exact
read_exact-append [] r sent = refl
read_exact-append (x ∷ b) r sent = read_exact-append b r sent
