-- ===== src/Backends/Memory/Maskless.antt =====
-- The options that `process_params` gives never hold a subnet mask.
use rsdhcp.Backends.{Lease}
use rsdhcp.Backends.Memory.{lease_mask, mask_in, options_of}
use rsdhcp.Backends.Memory.Database.{Memory}
use rsdhcp.Backends.Memory.Params.{param_option, process_params}
use rsdhcp.External.{Chrono, Ipnet}
use rsdhcp.Prelude.{
  ==_no, All, All-append, Bool-cases, List, Option, Option-cases, [], arith, inl, inr, none, not,
  refl, some, some-eq, subst, sym, ℕ, ◌&&◌, ◌++◌, ◌==◌, ◌∷◌, ◌≡◌, ◌≢◌,
}
use rsdhcp.Protocol.Option.{
  DhcpOption, code, domain_name, domain_name_code, domain_search, domain_search_code, domain_server,
  domain_server_code, router, router_code, subnet_mask_code,
}
use rsdhcp.Protocol.Options.{find_code, get_option}
use rsdhcp.Protocol.Packet.{is_unspecified}
use rsdhcp.Protocol.Value.{Ipv4Addr, is_empty}
use rsdhcp.Util.{domain_name_list_compression}
use mathlib.Core.Option

unfoldable pub Lacking : ℕ → DhcpOption → Type 0
Lacking c o = code o ≢ c

pub find_code-none : (c : ℕ) (os : List DhcpOption) → All (Lacking c) os → find_code c os ≡ none
unfolding find_code Lacking
find_code-none c [] h = refl
find_code-none c (o ∷ os) h = rw (find_code, ==_no h.0) (find_code-none c os h.1)

module _ ⦃ipnet : Ipnet⦄ ⦃chrono : Chrono⦄ where
  searched :
      (names : Option (List ℕ)) (os : List DhcpOption)
      → Option.map (λ ns. domain_search ns ∷ []) names ≡ some os
      → All (Lacking subnet_mask_code) os
  unfolding Lacking code
  searched none os e = cc
  searched (some ns) os e =
      subst (All (Lacking subnet_mask_code)) (some-eq e) ((λ q. omega arith, tt))

  given :
      (o : DhcpOption) (os : List DhcpOption)
      → Lacking subnet_mask_code o
      → some (o ∷ []) ≡ some os
      → All (Lacking subnet_mask_code) os
  given o os h e = subst (All (Lacking subnet_mask_code)) (some-eq e) ((h, tt))

  param_option-Lacking :
      (m : Memory) (c : ℕ) (os : List DhcpOption)
      → param_option m c ≡ some os
      → All (Lacking subnet_mask_code) os
  unfolding param_option code Lacking
  param_option-Lacking m c os e =
      elim (Bool-cases (c == router_code && not (is_unspecified m.gateway))) [
        | inl t ↦ given (router (m.gateway ∷ [])) os (λ q. omega arith) (rw (t) at e)
        | inr f ↦ elim (Bool-cases (c == domain_server_code && not (is_empty m.dns_servers))) [
          | inl t ↦ given (domain_server m.dns_servers) os (λ q. omega arith) (rw (f, t) at e)
          | inr g ↦ elim (Bool-cases (c == domain_name_code && not (is_empty m.domain))) [
            | inl t ↦ given (domain_name m.domain) os (λ q. omega arith) (rw (f, g, t) at e)
            | inr h ↦ elim (Bool-cases (c == domain_search_code && not (is_empty m.dns_search))) [
              | inl t ↦
                  searched (domain_name_list_compression m.dns_search) os (rw (f, g, h, t) at e)
              | inr k ↦ subst (All (Lacking subnet_mask_code)) (some-eq (rw (f, g, h, k) at e)) tt
            ]
          ]
        ]
      ]

  mapped :
      (found : List DhcpOption) (rest : Option (List DhcpOption)) (os : List DhcpOption)
      → Option.map (λ r. found ++ r) rest ≡ some os
      → (r : List DhcpOption) × (rest ≡ some r) × (found ++ r ≡ os)
  mapped found none os e = cc
  mapped found (some r) os e = (r, refl, some-eq e)

  pub process_params-Lacking :
      (m : Memory) (cs : List ℕ) (os : List DhcpOption)
      → process_params m cs ≡ some os
      → All (Lacking subnet_mask_code) os
  unfolding process_params
  process_params-Lacking m [] os e = subst (All (Lacking subnet_mask_code)) (some-eq e) tt
  process_params-Lacking m (c ∷ cs) os e = elim (Option-cases (param_option m c)) [
    | inl panic ↦
        let bad : ◌≡◌ {A = Option (List DhcpOption)} none (some os) =
          rw (process_params, panic) at e in
        cc
    | inr (found, k) ↦
        let (rest, left, joined) =
          mapped found (process_params m cs) os (rw (process_params, k) at e) in
        subst (All (Lacking subnet_mask_code)) joined (
          All-append (Lacking subnet_mask_code) found rest (param_option-Lacking m c found k)
            (process_params-Lacking m cs rest left))
  ]

  -- A lease that names no mask: its options hold none, or an unspecified one.
  unfoldable pub Maskless : Lease → Type 0
  Maskless lease = (mask : Ipv4Addr) → lease_mask lease.options ≡ some mask → mask ≡ 0

  pub options_of-Maskless :
      (os : List DhcpOption)
      → All (Lacking subnet_mask_code) os
      → (mask : Ipv4Addr) → lease_mask (options_of os) ≡ some mask
      → mask ≡ 0
  unfolding lease_mask get_option
  options_of-Maskless [] h mask e = sym (some-eq e)
  options_of-Maskless (o ∷ os) h mask e =
      let bad : mask_in none ≡ some mask = rw (find_code-none subnet_mask_code (o ∷ os) h) at e in
      cc
