-- ===== src/Redir/Pf/Answer.antt =====
-- The lookup asks for the connection and gives back the address of the answer.
use local_proxy_rs.Base.{
  ℕ, ◌+◌, ◌*◌, ◌/◌, ◌%◌, ◌<◌, List, [], ◌∷◌, ◌++◌, some, Bytes, ok, err, rejected, ◌≡◌, ◌≢◌, refl,
  ap, ◌∙◌, arith,
}
use local_proxy_rs.Net.{
  v4_octets, Ipv6Addr, v6_segments, IpAddr, v4, v6, octets, v6_octets, be_octets,
}
use local_proxy_rs.Addr.{StdSocketAddr}
use local_proxy_rs.Redir.Pf.{
  returns, Family, af_inet, af_inet6, to_be, PfiocNatlook, zero_bytes, expect_at, read_answer,
  Ioctl, read_segments, v6_of_segments, tcp_natlook,
}

-- An address as the 16 bytes of `pfa`, and its family.
abbrev pub pfa : IpAddr → Bytes
pfa (v4 a) = octets a ++ zero_bytes 12
pfa (v6 a) = v6_octets a

abbrev pub family : IpAddr → Family
family (v4 a) = af_inet
family (v6 a) = af_inet6

-- The question for a TCP connection from `peer` that has arrived at `local`, and an answer to it.
abbrev pub question : StdSocketAddr → StdSocketAddr → PfiocNatlook
question local peer = record {
  saddr = pfa peer.ip;
  daddr = pfa local.ip;
  rdaddr = zero_bytes 16;
  sport = to_be peer.port;
  dport = to_be local.port;
  rdport = 0;
  af = family local.ip;
  proto = 6;
  direction = 2;
}

abbrev pub answer : StdSocketAddr → StdSocketAddr → StdSocketAddr → PfiocNatlook
answer local peer first = record (question local peer) {
  rdaddr = pfa first.ip;
  rdport = to_be first.port;
  af = family first.ip;
}

to_be-to_be : (port : ℕ) → port < 65536 → to_be (to_be port) ≡ port
to_be-to_be port h = omega arith

halves : (n : ℕ) → n / 256 * 256 + n % 256 ≡ n
halves n = omega arith

read_segments-be_octets : (xs : List ℕ) → read_segments (be_octets xs) ≡ xs
read_segments-be_octets [] = refl
read_segments-be_octets (x ∷ xs) = rw (halves x, read_segments-be_octets xs) refl

-- The address of the answer is read back.
expect_at-to_be :
    (ip : IpAddr) (port : ℕ)
    → port < 65536
    → expect_at (some ip) (to_be port) ≡ returns (ok (record { ip = ip; port = port }))
expect_at-to_be ip port h = rw (to_be-to_be port h) refl

v6_of_segments-v6_octets :
    (a : Ipv6Addr) → v6_of_segments (read_segments (v6_octets a)) ≡ some (v6 a)
v6_of_segments-v6_octets (v6_segments a b c d e f g h) =
    ap v6_of_segments (read_segments-be_octets (a ∷ b ∷ c ∷ d ∷ e ∷ f ∷ g ∷ h ∷ []))

read_answer-answer :
    (local peer : StdSocketAddr) (ip : IpAddr) (port : ℕ)
    → port < 65536
    → read_answer (family ip) (answer local peer (record { ip = ip; port = port }))
      ≡ returns (ok (record { ip = ip; port = port }))
read_answer-answer local peer (v4 (v4_octets a b c d)) port h =
    expect_at-to_be (v4 (v4_octets a b c d)) port h
read_answer-answer local peer (v6 a) port h =
    ap (λ o. expect_at o (to_be port)) (v6_of_segments-v6_octets a) ∙ expect_at-to_be (v6 a) port h

-- For a connection between addresses of one family, the filter is asked for the connection, from
-- the peer to the local address, and the destination in its answer is what the lookup returns.
pub tcp_natlook-answer :
    (ioc : Ioctl) (local peer first : StdSocketAddr)
    → family peer.ip ≡ family local.ip
    → first.port < 65536
    → ioc (question local peer) ≡ ok (answer local peer first)
    → tcp_natlook ioc local peer ≡ returns (ok first)
unfolding tcp_natlook
tcp_natlook-answer ioc local peer first same h e = go local.ip peer.ip same e
  where
    go :
        (l p : IpAddr)
        → family p ≡ family l
        → ioc
            (question (record { ip = l; port = local.port }) (record { ip = p; port = peer.port }))
          ≡ ok (
              answer
                (record { ip = l; port = local.port })
                (record { ip = p; port = peer.port })
                first)
        → tcp_natlook ioc
            (record { ip = l; port = local.port })
            (record { ip = p; port = peer.port })
          ≡ returns (ok first)
    go (v4 (v4_octets a b c d)) (v4 (v4_octets a' b' c' d')) same e = rw e (
        read_answer-answer (record { ip = v4 (v4_octets a b c d); port = local.port })
          (record { ip = v4 (v4_octets a' b' c' d'); port = peer.port }) first.ip first.port h)
    go (v6 (v6_segments a b c d e' f g h')) (v6 (v6_segments k l m n o p q r)) same e = rw e (
        read_answer-answer (record { ip = v6 (v6_segments a b c d e' f g h'); port = local.port })
          (record { ip = v6 (v6_segments k l m n o p q r); port = peer.port }) first.ip first.port
          h)
    go (v4 a) (v6 b) same e = cc
    go (v6 a) (v4 b) same e = cc

-- Addresses of two families are refused before the filter is asked.
pub tcp_natlook-mixed :
    (ioc : Ioctl) (local peer : StdSocketAddr)
    → family peer.ip ≢ family local.ip
    → tcp_natlook ioc local peer ≡ returns (err rejected)
unfolding tcp_natlook
tcp_natlook-mixed ioc local peer differ = go local.ip peer.ip differ
  where
    go :
        (l p : IpAddr)
        → family p ≢ family l
        → tcp_natlook ioc
            (record { ip = l; port = local.port })
            (record { ip = p; port = peer.port })
          ≡ returns (err rejected)
    go (v4 a) (v4 b) differ = absurd (differ refl)
    go (v6 a) (v6 b) differ = absurd (differ refl)
    go (v4 a) (v6 b) differ = refl
    go (v6 a) (v4 b) differ = refl
