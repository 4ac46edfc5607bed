-- ===== src/Backends/Memory/Config.antt =====
-- The settings of the memory backend (rsdhcp/src/config.rs) and the store that starts from them.
use rsdhcp.Backends.Memory.Database.{Memory}
use rsdhcp.External.{Chrono, Ipnet}
use rsdhcp.Prelude.{List, [], ℕ}
use rsdhcp.Protocol.Value.{Ipv4Addr}

-- `Memory` of config.rs. `scope` is the first address and the end of the range.
pub record MemoryConfig : Type 0 where
  pub scope : Ipv4Addr × Ipv4Addr
  pub gateway : Ipv4Addr
  pub mask : Ipv4Addr
  pub domain : List ℕ
  pub dns_servers : List Ipv4Addr
  pub dns_search : List (List ℕ)

-- `Default for Memory` of config.rs.
abbrev pub default_config : MemoryConfig
default_config = record {
  scope = (0, 0);
  gateway = 0;
  mask = 0;
  domain = [];
  dns_servers = [];
  dns_search = [];
}

module _ ⦃ipnet : Ipnet⦄ ⦃chrono : Chrono⦄ where
  -- `Memory::from_cfg`
  unfoldable pub from_cfg : MemoryConfig → Memory
  from_cfg cfg = record {
    scope_start = cfg.scope.0;
    scope_end = cfg.scope.1;
    gateway = cfg.gateway;
    netmask_addr = cfg.mask;
    domain = cfg.domain;
    dns_servers = cfg.dns_servers;
    dns_search = cfg.dns_search;
    database = [];
  }
