-- ===== src/Backends/Netbox/Sendable.antt =====
-- What the netbox backend grants can be sent.
use rsdhcp.Backends.Netbox.{file_buffer, from_value, lease_of, netbox_options}
use rsdhcp.Backends.Netbox.Web.{NetboxDhcpLease}
use rsdhcp.External.{Chrono, Ipnet}
use rsdhcp.Prelude.{
  All, All-append, All-take, List, Option, [], arith, length, length-append, length-replicate,
  length-take, none, refl, replicate, some, some-eq, subst, suc, take, zero, ℕ, ◌*◌, ◌-◌, ◌<◌, ◌∷◌,
  ◌≡◌,
}
use rsdhcp.Protocol.Bytes.{IsByte, IsU32, u32_to_be_bytes}
use rsdhcp.Protocol.Option.{
  DhcpOption, bootfile_name, domain_name, domain_server, router, server_name, vendor_specific,
}
use rsdhcp.Protocol.Option.Wire.{value_bytes}
use rsdhcp.Protocol.Options.Stream.{IsWire}
use rsdhcp.Protocol.Packet.Reply.Sendable.{IsGrant}
use rsdhcp.Protocol.Value.{Ipv4Addr, bytes_to_network, ip_list_to_network, string_to_network}
use rsdhcp.Text.{ipv4_text}
use rsdhcp.Text.Plain.{IsPlain, ipv4_text-IsPlain, plain-IsText}
use mathlib.Core.Option

ips-length : (ips : List Ipv4Addr) → length (ip_list_to_network ips) ≡ 4 * length ips
unfolding ip_list_to_network u32_to_be_bytes
ips-length [] = refl
ips-length (ip ∷ ips) = omega (arith, ips-length ips)

router-IsWire : (ip : Ipv4Addr) → IsU32 ip → IsWire (router (ip ∷ []))
unfolding value_bytes ip_list_to_network u32_to_be_bytes
router-IsWire ip h = record { carried = tt; valid = (h, tt); fits = omega arith }

servers-IsWire :
    (ips : List Ipv4Addr) → All IsU32 ips → length ips < 64 → IsWire (domain_server ips)
unfolding value_bytes
servers-IsWire ips h short = record {
  carried = tt;
  valid = h;
  fits = omega (arith, short, ips-length ips);
}

-- A text for a string option.
abbrev pub IsShortText : List ℕ → Type 0
IsShortText s = IsPlain s × (length s < 256)

text-IsWire :
    (s : List ℕ)
    → IsShortText s
    → IsWire (domain_name s) × IsWire (bootfile_name s) × IsWire (server_name s)
unfolding value_bytes string_to_network
text-IsWire s (plain, short) = (
  record { carried = tt; valid = plain-IsText s plain; fits = short },
  record { carried = tt; valid = plain-IsText s plain; fits = short },
  record { carried = tt; valid = plain-IsText s plain; fits = short },
)

vendor-IsWire : (s : List ℕ) → All IsByte s → length s < 256 → IsWire (vendor_specific s)
unfolding value_bytes bytes_to_network
vendor-IsWire s h short = record { carried = tt; valid = h; fits = short }

from_value-IsWire :
    {A : Type 0} (con : A → DhcpOption) (o : Option A)
    → ((a : A) → o ≡ some a → IsWire (con a))
    → All IsWire (from_value con o)
from_value-IsWire con none h = tt
from_value-IsWire con (some a) h = (h a refl, tt)

file_buffer-length : (s : List ℕ) → length (file_buffer s) ≡ 128
file_buffer-length s = omega (
  arith,
  length-append (take 128 s) (replicate (128 - length s) 0),
  length-take 128 s,
  length-replicate {A = ℕ} (128 - length s) 0,
)

plain-IsByte : (s : List ℕ) → IsPlain s → All IsByte s
plain-IsByte [] h = tt
plain-IsByte (b ∷ bs) h = (omega (arith, h.0.1), plain-IsByte bs h.1)

zeros-IsByte : (n : ℕ) → All IsByte (replicate n 0)
zeros-IsByte zero = tt
zeros-IsByte (suc n) = (omega arith, zeros-IsByte n)

file_buffer-IsByte : (s : List ℕ) → IsPlain s → All IsByte (file_buffer s)
file_buffer-IsByte s h =
    All-append IsByte (take 128 s) (replicate (128 - length s) 0)
      (All-take IsByte 128 s (plain-IsByte s h)) (zeros-IsByte (128 - length s))

module _ ⦃ipnet : Ipnet⦄ ⦃chrono : Chrono⦄ where
  -- The values of a lease have the widths of the fields and options that they are sent in.
  pub record HasWidths (l : NetboxDhcpLease) : Type 0 where
    pub address : IsU32 (ipnet.addr l.ip_address.address)
    pub netmask : IsU32 (ipnet.netmask l.ip_address.address)
    pub gateway : (ip : Ipv4Addr) → l.gateway ≡ some ip → IsU32 ip
    pub dns_servers :
        (ips : List Ipv4Addr) → l.options.dns_servers ≡ some ips → All IsU32 ips × (length ips < 64)
    pub domain_text : (s : List ℕ) → l.options.domain_name ≡ some s → IsShortText s
    pub boot_file : (s : List ℕ) → l.options.boot_file ≡ some s → IsShortText s
    pub boot_server : (ip : Ipv4Addr) → l.options.boot_server ≡ some ip → IsU32 ip
    pub grub_default :
        (s : List ℕ) → l.options.grub_default ≡ some s → All IsByte s × (length s < 256)

  netbox_options-IsWire :
      (l : NetboxDhcpLease) → HasWidths l → All IsWire (netbox_options l.gateway l.options)
  unfolding netbox_options
  netbox_options-IsWire l h =
      All-append IsWire (from_value (λ ip. router (ip ∷ [])) l.gateway) _
        (from_value-IsWire _ l.gateway (λ ip e. router-IsWire ip (h.gateway ip e)))
        (All-append IsWire (from_value domain_server l.options.dns_servers) _
          (from_value-IsWire domain_server l.options.dns_servers
            (λ ips e. servers-IsWire ips (h.dns_servers ips e).0 (h.dns_servers ips e).1))
          (All-append IsWire (from_value domain_name l.options.domain_name) _
            (from_value-IsWire domain_name l.options.domain_name
              (λ s e. (text-IsWire s (h.domain_text s e)).0))
            (All-append IsWire (from_value bootfile_name l.options.boot_file) _
              (from_value-IsWire bootfile_name l.options.boot_file
                (λ s e. (text-IsWire s (h.boot_file s e)).1))
              (All-append IsWire
                (from_value (λ ip. server_name (ipv4_text ip)) l.options.boot_server) _
                (from_value-IsWire _ l.options.boot_server
                  (λ ip e. (text-IsWire (ipv4_text ip) (ipv4_text-IsPlain ip)).2))
                (from_value-IsWire vendor_specific l.options.grub_default
                  (λ s e. vendor-IsWire s (h.grub_default s e).0 (h.grub_default s e).1))))))

  file-field :
      (o : Option (List ℕ))
      → ((s : List ℕ) → o ≡ some s → IsShortText s)
      → (f : List ℕ) → Option.map file_buffer o ≡ some f
      → (length f ≡ 128) × All IsByte f
  file-field none h f e = cc
  file-field (some s) h f e =
      subst (λ f. (length f ≡ 128) × All IsByte f) (some-eq e)
        (file_buffer-length s, file_buffer-IsByte s (h s refl).0)

  pub lease_of-IsGrant :
      (now : chrono.DateTime) (l : NetboxDhcpLease) (server : Ipv4Addr)
      → IsU32 server
      → HasWidths l
      → IsGrant (record (lease_of now l) { server_identifier = server })
  unfolding lease_of
  lease_of-IsGrant now l server s h = record {
    server_u32 = s;
    address_u32 = λ ip e.
        subst (λ n. IsU32 (ipnet.addr n) × IsU32 (ipnet.netmask n)) (some-eq e)
          (h.address, h.netmask);
    siaddr_u32 = h.boot_server;
    file_field = file-field l.options.boot_file h.boot_file;
    options_wire = netbox_options-IsWire l h;
  }
