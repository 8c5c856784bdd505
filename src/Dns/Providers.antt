-- ===== src/Dns/Providers.antt =====
-- internal/dns/providers.go: the lookups in the table of resolvers.
use mathlib.Core.List.{Mem, mem-append_left, mem-append_right}
use mist_ui.Dns.{
  Provider, quad9, cloudflare, mullvad, provider_by_key, provider_by_hostname, all_resolver_ips,
}
use mist_ui.Base.{
  ◌≡◌, refl, sym, subst, ◌⊎◌, inl, inr, some, arith, Bytes, str, bytes_eq, bytes_eq_iff,
}

-- One of the three, in the table's order.
abbrev pub IsListed : Provider → Type 0
IsListed p = (p ≡ quad9) ⊎ (p ≡ cloudflare) ⊎ (p ≡ mullvad)

pub by_key_IsListed :
    (key : Bytes) (p : Provider) → provider_by_key key ≡ some p → IsListed p × (p.key ≡ key)
unfolding provider_by_key
by_key_IsListed key p h = ground (
  arith,
  bytes_eq_iff quad9.key key,
  bytes_eq_iff cloudflare.key key,
  bytes_eq_iff mullvad.key key,
)

hostname_listed : (p : Provider) → IsListed p → provider_by_hostname p.hostname ≡ some p
unfolding provider_by_hostname str bytes_eq
hostname_listed p (inl e) = subst (λ q. provider_by_hostname q.hostname ≡ some q) (sym e) refl
hostname_listed p (inr (inl e)) = subst (λ q. provider_by_hostname q.hostname ≡ some q) (sym e) refl
hostname_listed p (inr (inr e)) = subst (λ q. provider_by_hostname q.hostname ≡ some q) (sym e) refl

pub ips_listed : (p : Provider) (ip : Bytes) → IsListed p → Mem ip p.ips → Mem ip all_resolver_ips
unfolding all_resolver_ips
ips_listed p ip (inl e) m = mem-append_left _ (subst (λ q. Mem ip q.ips) e m)
ips_listed p ip (inr (inl e)) m =
    mem-append_right quad9.ips (mem-append_left _ (subst (λ q. Mem ip q.ips) e m))
ips_listed p ip (inr (inr e)) m =
    mem-append_right quad9.ips
      (mem-append_right cloudflare.ips (mem-append_left _ (subst (λ q. Mem ip q.ips) e m)))

-- Whatever resolver a key selects has that key, is found again by the host name that the
-- forwarder dials, and has all of its pinned addresses in the deny list of the kill switch.
pub provider_by_key_covered :
    (key ip : Bytes) (p : Provider)
    → provider_by_key key ≡ some p
    → Mem ip p.ips
    → (p.key ≡ key) × (provider_by_hostname p.hostname ≡ some p) × Mem ip all_resolver_ips
provider_by_key_covered key ip p h m =
    let (listed, same) = by_key_IsListed key p h in
    (same, hostname_listed p listed, ips_listed p ip listed m)
