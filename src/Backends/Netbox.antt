-- ===== src/Backends/Netbox.antt =====
-- rsdhcp/src/backends/netbox.rs: leases that a NetBox installation keeps.
pub mod Web
pub mod Monad
pub mod Requests
pub mod Lookup
pub mod Sendable
pub mod Removal
pub mod Allocation
pub mod Identity
pub mod Sending
pub mod Listing
pub mod Renewal
use rsdhcp.Backends.{DhcpStore, Lease, default_lease}
use rsdhcp.Backends.Memory.{
  handle_decline, handle_discover, handle_inform, handle_release, handle_request_init_reboot,
  handle_request_rebinding, handle_request_renewing, handle_request_selecting,
}
use rsdhcp.Backends.Netbox.Lookup.{decline_lease, delete_lease, get_lease, renew_lease}
use rsdhcp.Backends.Netbox.Monad.{Action, pure, ◌>>=◌}
use rsdhcp.Backends.Netbox.Web.{Client, NetboxDhcpLease, NetboxOptions}
use rsdhcp.External.{Chrono, Ipnet}
use rsdhcp.Prelude.{List, Option, [], length, none, replicate, some, take, ℕ, ◌++◌, ◌-◌, ◌∷◌}
use rsdhcp.Protocol.Option.{
  DhcpOption, bootfile_name, domain_name, domain_server, router, server_name, vendor_specific,
}
use rsdhcp.Protocol.Value.{Ipv4Addr}
use rsdhcp.Text.{ipv4_text}
use mathlib.Core.Option

-- `From<NetboxDhcpLease> for Lease`: an option for each value that the lease has, in this order.
abbrev pub from_value {ℓ} : {A : Type ℓ} → (A → DhcpOption) → Option A → List DhcpOption
from_value con none = []
from_value con (some a) = con a ∷ []

unfoldable pub netbox_options : Option Ipv4Addr → NetboxOptions → List DhcpOption
unfolding ipv4_text
netbox_options gateway o =
    from_value (λ ip. router (ip ∷ [])) gateway
    ++ (from_value domain_server o.dns_servers
        ++ (from_value domain_name o.domain_name
            ++ (from_value bootfile_name o.boot_file
                ++ (from_value (λ ip. server_name (ipv4_text ip)) o.boot_server
                    ++ from_value vendor_specific o.grub_default))))

-- `filebuf_p.write(..)` into 128 zeros: what does not fit is left out, and the write succeeds.
abbrev pub file_buffer : List ℕ → List ℕ
file_buffer text = take 128 text ++ replicate (128 - length text) 0

module _ ⦃ipnet : Ipnet⦄ ⦃chrono : Chrono⦄ where
  unfoldable pub lease_of : chrono.DateTime → NetboxDhcpLease → Lease
  unfolding netbox_options
  lease_of now l = record (default_lease now) {
    yiaddr = some l.ip_address.address;
    lease_time = l.lease_time;
    lease_duration = chrono.sub l.expire_time l.lease_time;
    file = Option.map file_buffer l.options.boot_file;
    siaddr = l.options.boot_server;
    options = some (record { options = netbox_options l.gateway l.options });
  }

module _ ⦃ipnet : Ipnet⦄ ⦃chrono : Chrono⦄ {W Response : Type 0} (client : Client W Response)
    (lease_url : List ℕ) (rounds : ℕ) where
  unfoldable pub serve_lease : chrono.DateTime → Action W NetboxDhcpLease → Action W Lease
  unfolding lease_of
  serve_lease now found = do lease ← found; pure (lease_of now lease)

  -- The implementation of the trait, over the world in which the client sends.
  unfoldable pub netbox_store : DhcpStore W
  unfolding serve_lease get_lease renew_lease delete_lease decline_lease
  netbox_store = record {
    handle_discover =
        λ now recv_ip p. serve_lease now (get_lease client lease_url rounds recv_ip p);
    handle_request_selecting =
        λ now recv_ip p. serve_lease now (renew_lease client lease_url rounds recv_ip p);
    handle_request_init_reboot =
        λ now recv_ip p. serve_lease now (renew_lease client lease_url rounds recv_ip p);
    handle_request_renewing =
        λ now recv_ip p. serve_lease now (renew_lease client lease_url rounds recv_ip p);
    handle_request_rebinding =
        λ now recv_ip p. serve_lease now (renew_lease client lease_url rounds recv_ip p);
    handle_release = λ p. delete_lease client lease_url rounds p;
    handle_decline = λ now p. decline_lease client lease_url rounds now p;
    handle_inform = λ now recv_ip p. serve_lease now (get_lease client lease_url rounds recv_ip p);
  }
