-- ===== src/Server/Sockets.antt =====
-- The listeners of rsdhcp/src/server.rs: one for each address of the host, each with a buffer that
-- it receives every datagram into. What the kernel gives is a parameter: the interfaces, and for
-- each round of a listener whether its socket could be read and which message came.
pub mod Stream
use rsdhcp.Prelude.{
  List, Option, [], drop, if◌then◌else◌, length, none, some, take, ℕ, ◌++◌, ◌==◌, ◌∷◌,
}
use rsdhcp.Protocol.Bytes.{u32_from_be_bytes}
use rsdhcp.Protocol.Value.{Ipv4Addr}
use rsdhcp.Server.{SocketAddr}

-- The addresses of the crate nix.
pub record Nix : Type 1 where
  pub SockaddrStorage : Type 0
  pub as_sockaddr_in : SockaddrStorage → Option SocketAddr

-- `ControlMessageOwned`: the four bytes of `ipi_addr`, or another kind of message.
pub data ControlMessage : Type 0 where
  ipv4_packet_info : (a b c d : ℕ) → ControlMessage
  other_message : ControlMessage

-- `PacketMetadata`
pub record PacketMetadata : Type 0 where
  pub length : ℕ
  pub source : Option SocketAddr
  pub destination : Option Ipv4Addr

-- `Packet`
pub record Packet : Type 0 where
  pub meta : PacketMetadata
  pub recv_ip : Ipv4Addr
  pub packet_data : List ℕ

-- `IPServer`
pub record IpServer : Type 0 where
  pub ip : Ipv4Addr
  pub iface_name : List ℕ

abbrev pub recv_buf_size : ℕ
recv_buf_size = 4096

-- The loop over the control messages: the last packet information counts.
unfoldable pub destination_in : Option Ipv4Addr → List ControlMessage → Option Ipv4Addr
unfolding u32_from_be_bytes
destination_in destination [] = destination
destination_in destination (ipv4_packet_info a b c d ∷ rest) =
    destination_in (some (u32_from_be_bytes a b c d)) rest
destination_in destination (other_message ∷ rest) = destination_in destination rest

-- `buffer` after a message was received into it.
abbrev pub received_into : List ℕ → List ℕ → List ℕ
received_into buffer bytes = bytes ++ drop (length bytes) buffer

module _ ⦃nix : Nix⦄ where
  -- `InterfaceAddress`
  pub record Interface : Type 0 where
    pub interface_name : List ℕ
    pub address : Option nix.SockaddrStorage

  -- What `recvmsg` gives: the sender, the bytes that it puts into the buffer, and the control
  -- messages, where they can be read.
  pub record Message : Type 0 where
    pub address : Option nix.SockaddrStorage
    pub bytes : List ℕ
    pub cmsgs : Option (List ControlMessage)

  -- One round of a listener: waiting fails, or `recvmsg` is called, which may fail.
  pub data Round : Type 0 where
    unreadable : Round
    readable : Option Message → Round

  abbrev pub ipv4_of : Option nix.SockaddrStorage → Option SocketAddr
  ipv4_of none = none
  ipv4_of (some address) = nix.as_sockaddr_in address

  abbrev pub listen_on : List ℕ → Option SocketAddr → List IpServer → List IpServer
  listen_on iface_name none servers = servers
  listen_on iface_name (some address) servers =
      record { ip = address.ip; iface_name = iface_name } ∷ servers

  -- `Server::serve`: a listener for each IPv4 address.
  unfoldable pub ip_servers : List Interface → List IpServer
  ip_servers [] = []
  ip_servers (i ∷ rest) = listen_on i.interface_name (ipv4_of i.address) (ip_servers rest)

  abbrev pub metadata : Message → Option (List ControlMessage) → Option PacketMetadata
  metadata message none = none
  metadata message (some messages) = some (record {
    length = length message.bytes;
    source = ipv4_of message.address;
    destination = destination_in none messages;
  })

  -- What was received, and the buffer after it.
  unfoldable pub receive_packet : Option Message → List ℕ → Option PacketMetadata × List ℕ
  unfolding destination_in
  receive_packet none buffer = (none, buffer)
  receive_packet (some message) buffer =
      (metadata message message.cmsgs, received_into buffer message.bytes)

  abbrev pub packet_of : IpServer → Option PacketMetadata → List ℕ → Option Packet
  packet_of server none buffer = none
  packet_of server (some meta) buffer =
      some (record { meta = meta; recv_ip = server.ip; packet_data = buffer })

  -- One pass of the loop of `IPServer::serve`: the packet for a new task, and the buffer.
  unfoldable pub serve_round : IpServer → Round → List ℕ → Option Packet × List ℕ
  unfolding receive_packet
  serve_round server unreadable buffer = (none, buffer)
  serve_round server (readable message) buffer =
      let (meta, buffer') = receive_packet message buffer in
      (packet_of server meta buffer', buffer')

-- A round of the listener with an index.
pub record Turn ⦃nix : Nix⦄ : Type 0 where
  pub index : ℕ
  pub round : Round

abbrev pub with_packet : Option Packet → List Packet → List Packet
with_packet none packets = packets
with_packet (some packet) packets = packet ∷ packets

-- The buffer of one listener changes.
abbrev pub buffer_at : (ℕ → List ℕ) → ℕ → List ℕ → ℕ → List ℕ
buffer_at buffers i buffer j = if i == j then buffer else buffers j

-- The bytes that the task of a packet reads: `packet.data[0..packet.meta.length]`.
unfoldable pub packet_bytes : Packet → List ℕ
packet_bytes packet = take packet.meta.length packet.packet_data

module _ ⦃nix : Nix⦄ where
  -- The loops of the listeners, whose rounds come in any order: the packets that tasks are spawned
  -- with. A task has its packet to itself, with a copy of the buffer. What the tasks do with the
  -- store, and in which order, is no matter of the loops.
  unfoldable pub listen : (ℕ → IpServer) → List Turn → (ℕ → List ℕ) → List Packet
  unfolding serve_round
  listen servers [] buffers = []
  listen servers (turn ∷ turns) buffers =
      let (packet, buffer) = serve_round (servers turn.index) turn.round (buffers turn.index) in
      with_packet packet (listen servers turns (buffer_at buffers turn.index buffer))
