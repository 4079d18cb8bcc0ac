-- ===== src/Outbound/Socks4/Server.antt =====
-- The server's side of SOCKS 4A: what it makes of a request.
use local_proxy_rs.Base.{
  ℕ, ◌+◌, ◌*◌, ◌/◌, ◌%◌, true, false, ◌&&◌, [], ◌∷◌, ◌++◌, Option, none, some, Bytes, contains,
  ◌==◌, if◌then◌else◌, u16_from_be_bytes, ◌≡◌, refl, arith,
}
use local_proxy_rs.Net.{Ipv4Addr, v4_octets}
use local_proxy_rs.Addr.{HostName, host_v4, domain}
use local_proxy_rs.Outbound.Socks4.{is_marker, u32_from_be_bytes}

-- The text before the first zero byte, and what follows that byte.
unfoldable pub until_zero : Bytes → Option (Bytes × Bytes)
until_zero [] = none
until_zero (c ∷ s) = elim (c == 0) [
  | true ↦ some ([], s)
  | false ↦ elim (until_zero s) [ none ↦ none | some (a, b) ↦ some (c ∷ a, b) ]
]

-- What a SOCKS 4A server makes of a request: the user, the destination and what follows. An
-- address 0.0.0.x with x not 0 announces a name.
pub record Request : Type 0 where
  pub user : Bytes
  pub host : HostName
  pub port : ℕ
  pub rest : Bytes

abbrev pub with_name : Bytes → ℕ → Option (Bytes × Bytes) → Option Request
with_name user port none = none
with_name user port (some (name, rest)) =
    some (record { user = user; host = domain name; port = port; rest = rest })

abbrev pub with_user : Ipv4Addr → ℕ → Option (Bytes × Bytes) → Option Request
with_user ip port none = none
with_user ip port (some (user, rest)) =
    if is_marker (u32_from_be_bytes ip)
    then with_name user port (until_zero rest)
    else some (record { user = user; host = host_v4 ip; port = port; rest = rest })

pub port_bytes : (n : ℕ) → n / 256 * 256 + n % 256 ≡ n
port_bytes n = omega arith

abbrev pub decode : Bytes → Option Request
decode (version ∷ command ∷ hi ∷ lo ∷ a ∷ b ∷ c ∷ d ∷ s) =
    if version == 4 && command == 1
    then with_user (v4_octets a b c d) (u16_from_be_bytes hi lo) (until_zero s)
    else none
decode _ = none

pub until_zero-append : (s t : Bytes) → contains s 0 ≡ false → until_zero (s ++ 0 ∷ t) ≡ some (s, t)
unfolding until_zero
until_zero-append [] t h = refl
until_zero-append (c ∷ s) t h = ground (arith, until_zero-append s t)
