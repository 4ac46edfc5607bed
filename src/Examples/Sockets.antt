-- ===== src/Examples/Sockets.antt =====
-- The listener of a host, and what comes to it.
use rsdhcp.Examples.Setting.{clock, cursor, discover_bytes, networks, server_ip}
use rsdhcp.Prelude.{List, Option, [], drop, length, none, refl, replicate, some, ℕ, ◌++◌, ◌∷◌, ◌≡◌}
use rsdhcp.Protocol.Bytes.{u32_from_be_bytes}
use rsdhcp.Server.{SocketAddr}
use rsdhcp.Server.Sockets.{
  Interface, IpServer, Message, Nix, Packet, Turn, ip_servers, ipv4_packet_info, listen,
  other_message, readable, recv_buf_size, unreadable,
}
use rsdhcp.Server.Sockets.Stream.{Spawns, listen-Spawns}

instance abbrev pub storage : Nix
storage = record { SockaddrStorage = Option SocketAddr; as_sockaddr_in = λ a. a }

-- One interface has an IPv4 address, one another, and one no address.
abbrev interfaces : List Interface
interfaces =
    record {
      interface_name = b'e' ∷ [];
      address = some (some (record { ip = server_ip; port = 0 }));
    }
    ∷ record { interface_name = b's' ∷ []; address = some none }
    ∷ record { interface_name = b'n' ∷ []; address = none }
    ∷ []

one_listener : ip_servers interfaces ≡ record { ip = server_ip; iface_name = b'e' ∷ [] } ∷ []
unfolding ip_servers
one_listener = refl

abbrev listeners : ℕ → IpServer
listeners index = record { ip = server_ip; iface_name = b'e' ∷ [] }

abbrev broadcast_to : List ℕ → Message
broadcast_to bytes = record {
  address = none;
  bytes = bytes;
  cmsgs = some (other_message ∷ ipv4_packet_info 255 255 255 255 ∷ []);
}

-- A round that cannot be read, and a discover.
abbrev turns : List Turn
turns =
    record { index = 0; round = unreadable }
    ∷ record { index = 0; round = readable (some (broadcast_to discover_bytes)) }
    ∷ []

abbrev old_buffers : ℕ → List ℕ
old_buffers index = replicate recv_buf_size 7

abbrev packets : List Packet
packets = listen listeners turns old_buffers

one_packet :
    packets
    ≡ record {
      meta = record {
        length = length discover_bytes;
        source = none;
        destination = some 0xffff_ffff;
      };
      recv_ip = server_ip;
      packet_data = discover_bytes ++ drop (length discover_bytes) (old_buffers 0);
    }
      ∷ []
unfolding listen u32_from_be_bytes
one_packet = refl

listen-Spawns_example : Spawns listeners turns packets
listen-Spawns_example = listen-Spawns listeners turns old_buffers
