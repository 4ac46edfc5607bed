-- ===== src/Examples/Setting.antt =====
-- The crates as concrete functions, and the data of the examples.
use rsdhcp.Backends.{Lease}
use rsdhcp.Backends.Memory.Database.{Memory}
use rsdhcp.External.{ByteOrder, Chrono, Ipnet}
use rsdhcp.Prelude.{
  All, Bool, Bool-cases, List, Option, [], ap, arith, if◌then◌else◌, inl, inr, ltb, none, refl,
  replicate, some, some-eq, suc, sym, true, ℕ, ◌&&◌, ◌*◌, ◌++◌, ◌+◌, ◌-◌, ◌/◌, ◌==◌, ◌∷◌, ◌≡◌,
}
use rsdhcp.Prelude.Int.{negsuc, pos, ℤ}
use rsdhcp.Protocol.Bytes.{IsByte}
use rsdhcp.Protocol.Enums.{boot_request, discover, ethernet, request}
use rsdhcp.Protocol.Option.{
  DhcpOption, address_request, client_id, dhcp_max_msg_size, dhcp_msg_type, dhcp_server_id,
  parameter_list, router,
}
use rsdhcp.Protocol.Packet.{DhcpPacket, cookie_bytes}

abbrev read_byte : List ℕ → Option (ℕ × List ℕ)
read_byte [] = none
read_byte (b ∷ rest) = some (b, rest)

instance abbrev pub cursor : ByteOrder
cursor = record { read_u8 = read_byte; read_u8-nil = refl; read_u8-cons = λ b rest. refl }

-- Networks of 256 addresses.
abbrev slash_24 : ℕ → ℕ → Option (ℕ × ℕ)
slash_24 ip mask = if mask == 0xffff_ff00 then some (ip, mask) else none

pub slash_24-address : (ip mask : ℕ) (net : ℕ × ℕ) → slash_24 ip mask ≡ some net → net.0 ≡ ip
slash_24-address ip mask net e = elim (Bool-cases (mask == 0xffff_ff00)) [
  | inl t ↦ let same : (ip, mask) ≡ net = some-eq (rw (t) at e) in ap (λ x. x.0) (sym same)
  | inr f ↦ let bad : ◌≡◌ {A = Option (ℕ × ℕ)} none (some net) = rw (f) at e in cc
]

instance abbrev pub networks : Ipnet
networks = record {
  Ipv4Net = ℕ × ℕ;
  addr = λ net. net.0;
  netmask = λ net. net.1;
  with_netmask = slash_24;
  contains = λ net ip. (net.0 / 256) == (ip / 256);
  addr-with_netmask = slash_24-address;
}

-- Time in seconds.
abbrev later : ℕ → ℤ → ℕ
later t (pos n) = t + n
later t (negsuc n) = t - suc n

abbrev hour_seconds : ℤ → ℤ
hour_seconds (pos n) = pos (3600 * n)
hour_seconds (negsuc n) = negsuc (3600 * n + 3599)

abbrev elapsed : ℕ → ℕ → ℤ
elapsed t s = if ltb t s then negsuc (s - t - 1) else pos (t - s)

instance abbrev pub clock : Chrono
clock = record {
  DateTime = ℕ;
  Duration = ℤ;
  seconds = λ z. z;
  hours = hour_seconds;
  num_seconds = λ z. z;
  add = later;
  sub = elapsed;
  before = ltb;
}

abbrev pub hardware : List ℕ
hardware = 0 ∷ 11 ∷ 130 ∷ 1 ∷ 252 ∷ 66 ∷ replicate 10 0

abbrev pub from_client : List DhcpOption → DhcpPacket
from_client os = record {
  op = boot_request;
  htype = ethernet;
  hlen = 6;
  hops = 0;
  xid = 15645;
  secs = 0;
  flags = 0;
  ciaddr = 0;
  yiaddr = 0;
  siaddr = 0;
  giaddr = 0;
  chaddr = hardware;
  sname = replicate 64 0;
  file = replicate 128 0;
  cookie = cookie_bytes;
  options = record { options = os };
  max_client_message_size = none;
  received_by_broadcast = true;
}

abbrev pub client_options : List DhcpOption
client_options =
    client_id (1 ∷ 0 ∷ 11 ∷ []) ∷ dhcp_max_msg_size 576 ∷ parameter_list (1 ∷ 3 ∷ 6 ∷ []) ∷ []

abbrev pub discover_packet : DhcpPacket
discover_packet = from_client (dhcp_msg_type discover ∷ client_options)

-- The same packet as bytes.
abbrev pub from_client_bytes : List ℕ → List ℕ
from_client_bytes options =
    1 ∷ 1 ∷ 6 ∷ 0 ∷ 0 ∷ 0 ∷ 61 ∷ 29 ∷ replicate 20 0
    ++ (hardware ++ (replicate 192 0 ++ (99 ∷ 130 ∷ 83 ∷ 99 ∷ options)))

abbrev pub discover_bytes : List ℕ
discover_bytes =
    from_client_bytes
      (53 ∷ 1 ∷ 1 ∷ 61 ∷ 3 ∷ 1 ∷ 0 ∷ 11 ∷ 57 ∷ 2 ∷ 2 ∷ 64 ∷ 55 ∷ 3 ∷ 1 ∷ 3 ∷ 6 ∷ 255 ∷ [])

abbrev pub server_ip : ℕ
server_ip = 0x0a00_0001

-- The client's request in the SELECTING state for an address.
abbrev pub selecting_packet : ℕ → DhcpPacket
selecting_packet ip =
    from_client
      (dhcp_msg_type request ∷ dhcp_server_id server_ip ∷ address_request ip ∷ client_options)

-- A scope of two addresses.
abbrev pub store_with : List (ℕ × Lease) → Memory
store_with db = record {
  scope_start = 0x0a00_0002;
  scope_end = 0x0a00_0004;
  gateway = server_ip;
  netmask_addr = 0xffff_ff00;
  domain = [];
  dns_servers = [];
  dns_search = [];
  database = db;
}

abbrev pub lease_at : ℕ → ℕ → Lease
lease_at ip now = record {
  xid = 15645;
  yiaddr = some (ip, 0xffff_ff00);
  siaddr = none;
  file = none;
  options = some (record { options = router (server_ip ∷ []) ∷ [] });
  lease_time = now;
  lease_duration = pos 3600;
  server_identifier = 0;
}

abbrev pub all_bytes : List ℕ → Bool
all_bytes [] = true
all_bytes (b ∷ bs) = ltb b 256 && all_bytes bs

pub all_bytes-All : (bs : List ℕ) → all_bytes bs ≡ true → All IsByte bs
all_bytes-All [] e = tt
all_bytes-All (b ∷ bs) e = (ground arith, all_bytes-All bs (ground arith))
