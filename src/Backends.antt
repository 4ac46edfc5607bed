-- ===== src/Backends.antt =====
-- rsdhcp/src/backends/mod.rs: leases, the errors of a backend and the interface of a store.
pub mod Memory
pub mod Netbox
use rsdhcp.External.{Chrono, Ipnet}
use rsdhcp.Prelude.{Bool, List, Option, none, ℕ}
use rsdhcp.Prelude.Int.{pos}
use rsdhcp.Protocol.Options.{DhcpOptions}
use rsdhcp.Protocol.Packet.{DhcpPacket}
use rsdhcp.Protocol.Value.{Ipv4Addr}
use Prim.Native.String.{String}

-- The variants of a message carry the text of the source.
pub data BackendError : Type 0 where
  no_lease_available lease_mismatch_client_ip : BackendError
  backend_error protocol_error generic : String → BackendError

-- `Result<A, BackendError>`; `panicked` is the end of a task by a failed `unwrap`. `starved` is no
-- result of the source: it marks a loop of the model that ran out of rounds.
pub data BackendResult {ℓ} (A : Type ℓ) : Type ℓ where
  granted : A → BackendResult A
  refused : BackendError → BackendResult A
  panicked starved : BackendResult A

pub record Lease ⦃ipnet : Ipnet⦄ ⦃chrono : Chrono⦄ : Type 0 where
  pub xid : ℕ
  pub yiaddr : Option ipnet.Ipv4Net
  pub siaddr : Option Ipv4Addr
  pub file : Option (List ℕ)
  pub options : Option DhcpOptions
  pub lease_time : chrono.DateTime
  pub lease_duration : chrono.Duration
  pub server_identifier : Ipv4Addr

module _ ⦃ipnet : Ipnet⦄ ⦃chrono : Chrono⦄ where
  -- `Lease::is_current`, at the time `now`.
  unfoldable pub is_current : chrono.DateTime → Lease → Bool
  is_current now lease = chrono.before now (chrono.add lease.lease_time lease.lease_duration)

  -- `Lease::default()`, at the time `now`.
  abbrev pub default_lease : chrono.DateTime → Lease
  default_lease now = record {
    xid = 0;
    yiaddr = none;
    siaddr = none;
    file = none;
    options = none;
    lease_time = now;
    lease_duration = chrono.seconds (pos 0);
    server_identifier = 0;
  }

  -- The trait. A handler takes the time, the receiving address where it has one, the packet and
  -- the store's state, and gives its answer with the state that it leaves.
  pub record DhcpStore (S : Type 0) : Type 0 where
    pub handle_discover : chrono.DateTime → Ipv4Addr → DhcpPacket → S → BackendResult Lease × S
    pub handle_request_selecting :
        chrono.DateTime → Ipv4Addr → DhcpPacket → S → BackendResult Lease × S
    pub handle_request_init_reboot :
        chrono.DateTime → Ipv4Addr → DhcpPacket → S → BackendResult Lease × S
    pub handle_request_renewing :
        chrono.DateTime → Ipv4Addr → DhcpPacket → S → BackendResult Lease × S
    pub handle_request_rebinding :
        chrono.DateTime → Ipv4Addr → DhcpPacket → S → BackendResult Lease × S
    pub handle_release : DhcpPacket → S → BackendResult (Unit {0}) × S
    pub handle_decline : chrono.DateTime → DhcpPacket → S → BackendResult (Unit {0}) × S
    pub handle_inform : chrono.DateTime → Ipv4Addr → DhcpPacket → S → BackendResult Lease × S
