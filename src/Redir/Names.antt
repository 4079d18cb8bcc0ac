-- ===== src/Redir/Names.antt =====
-- Names and types agree, platform by platform.
use local_proxy_rs.Base.{
  true, Option, some, Bytes, bytes_eq, bytes_eq_iff, ◌≡◌, refl, ◌↔◌, Bool-cases, inl, inr, ◌⊎◌, sym,
}
use mathlib.Core.Path.{subst}
use local_proxy_rs.Redir.{
  Platform, linux, freebsd, openbsd, macos, elsewhere, RedirType, not_supported, redirect, tproxy,
  packet_filter, ip_firewall, has_variant, arm, name, is_supported, redir_from_str,
}

-- The name of a supported type is read back as the type exactly on the platforms that have it.
pub redir_from_str-name :
    (p : Platform) (t : RedirType)
    → is_supported t ≡ true
    → (redir_from_str p (name t) ≡ some t) ↔ (has_variant p t ≡ true)
unfolding redir_from_str
redir_from_str-name linux redirect h = (λ _. refl, λ _. refl)
redir_from_str-name linux tproxy h = (λ _. refl, λ _. refl)
redir_from_str-name linux packet_filter h = (λ e. cc, λ e. cc)
redir_from_str-name linux ip_firewall h = (λ e. cc, λ e. cc)
redir_from_str-name freebsd redirect h = (λ e. cc, λ e. cc)
redir_from_str-name freebsd tproxy h = (λ e. cc, λ e. cc)
redir_from_str-name freebsd packet_filter h = (λ _. refl, λ _. refl)
redir_from_str-name freebsd ip_firewall h = (λ _. refl, λ _. refl)
redir_from_str-name openbsd redirect h = (λ e. cc, λ e. cc)
redir_from_str-name openbsd tproxy h = (λ e. cc, λ e. cc)
redir_from_str-name openbsd packet_filter h = (λ _. refl, λ _. refl)
redir_from_str-name openbsd ip_firewall h = (λ e. cc, λ e. cc)
redir_from_str-name macos redirect h = (λ e. cc, λ e. cc)
redir_from_str-name macos tproxy h = (λ e. cc, λ e. cc)
redir_from_str-name macos packet_filter h = (λ _. refl, λ _. refl)
redir_from_str-name macos ip_firewall h = (λ _. refl, λ _. refl)
redir_from_str-name elsewhere redirect h = (λ e. cc, λ e. cc)
redir_from_str-name elsewhere tproxy h = (λ e. cc, λ e. cc)
redir_from_str-name elsewhere packet_filter h = (λ e. cc, λ e. cc)
redir_from_str-name elsewhere ip_firewall h = (λ e. cc, λ e. cc)
redir_from_str-name p not_supported h = cc

arm-some :
    (p : Platform) (s : Bytes) (t : RedirType) (rest : Option RedirType) (r : RedirType)
    → is_supported t ≡ true
    → arm p s t rest ≡ some r
    → ((has_variant p r ≡ true) × (is_supported r ≡ true) × (name r ≡ s)) ⊎ (rest ≡ some r)
arm-some p s t rest r sup h = elim (Bool-cases (has_variant p t)) [
  | inl u ↦ elim (Bool-cases (bytes_eq s (name t))) [
    | inl v ↦
        let same : t ≡ r = cc in
        inl (
          subst (λ x. (has_variant p x ≡ true) × (is_supported x ≡ true) × (name x ≡ s)) same
            (u, sup, sym ((bytes_eq_iff s (name t)).0 v)))
    | inr v ↦ inr cc
  ]
  | inr u ↦ inr cc
]

-- A type that is read from a text is one that the platform has, is supported, and has that text
-- for its name.
pub name-redir_from_str :
    (p : Platform) (s : Bytes) (t : RedirType)
    → redir_from_str p s ≡ some t
    → (has_variant p t ≡ true) × (is_supported t ≡ true) × (name t ≡ s)
unfolding redir_from_str
name-redir_from_str p s t h = elim (arm-some p s redirect _ t refl h) [
  | inl a ↦ a
  | inr h1 ↦ elim (arm-some p s tproxy _ t refl h1) [
    | inl a ↦ a
    | inr h2 ↦ elim (arm-some p s packet_filter _ t refl h2) [
      | inl a ↦ a
      | inr h3 ↦ elim (arm-some p s ip_firewall _ t refl h3) [ inl a ↦ a | inr h4 ↦ absurd cc ]
    ]
  ]
]

-- A text is read as a type exactly if it is the type's name, the type is not the one for no support,
-- and the platform has it.
pub redir_from_str_iff :
    (p : Platform) (s : Bytes) (t : RedirType)
    → (redir_from_str p s ≡ some t)
      ↔ ((has_variant p t ≡ true) × (is_supported t ≡ true) × (name t ≡ s))
redir_from_str_iff p s t = (
  name-redir_from_str p s t,
  λ (has, supported, named).
      subst (λ x. redir_from_str p x ≡ some t) named ((redir_from_str-name p t supported).1 has),
)
