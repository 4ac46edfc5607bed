-- ===== src/Backends/Memory/Params.antt =====
-- `process_params` of rsdhcp/src/backends/memory.rs: the options for the codes that a client asks for.
use rsdhcp.Backends.Memory.Database.{Memory}
use rsdhcp.External.{Chrono, Ipnet}
use rsdhcp.Prelude.{List, Option, [], if◌then◌else◌, none, not, some, ℕ, ◌&&◌, ◌++◌, ◌==◌, ◌∷◌}
use rsdhcp.Protocol.Option.{
  DhcpOption, domain_name, domain_name_code, domain_search, domain_search_code, domain_server,
  domain_server_code, router, router_code, subnet_mask_code,
}
use rsdhcp.Protocol.Packet.{is_unspecified}
use rsdhcp.Protocol.Value.{is_empty}
use rsdhcp.Util.{domain_name_list_compression}
use mathlib.Core.Option

module _ ⦃ipnet : Ipnet⦄ ⦃chrono : Chrono⦄ where
  -- The arms of the match of `process_params`, for one code. `none` is a panic.
  unfoldable pub param_option : Memory → ℕ → Option (List DhcpOption)
  unfolding domain_name_list_compression
  param_option m c =
      if c == router_code && not (is_unspecified m.gateway)
      then some (router (m.gateway ∷ []) ∷ [])
      else if c == domain_server_code && not (is_empty m.dns_servers)
      then some (domain_server m.dns_servers ∷ [])
      else if c == domain_name_code && not (is_empty m.domain)
      then some (domain_name m.domain ∷ [])
      else if c == domain_search_code && not (is_empty m.dns_search)
      then Option.map (λ names. domain_search names ∷ [])
          (domain_name_list_compression m.dns_search)
      else some []

  unfoldable pub process_params : Memory → List ℕ → Option (List DhcpOption)
  unfolding param_option
  process_params m [] = some []
  process_params m (c ∷ codes) = elim (param_option m c) [
    | none ↦ none
    | some found ↦ Option.map (λ rest. found ++ rest) (process_params m codes)
  ]

  abbrev pub default_param_list : List ℕ
  default_param_list = subnet_mask_code ∷ router_code ∷ domain_server_code ∷ []
