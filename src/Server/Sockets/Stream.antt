-- ===== src/Server/Sockets/Stream.antt =====
-- Each datagram that comes has a task, with exactly its bytes, whatever the buffers held before.
use rsdhcp.Prelude.{
  All, List, Option, [], drop, inl, inr, length, none, refl, some, take-append, ℕ, ◌++◌, ◌∷◌, ◌≡◌,
  ◌⊎◌,
}
use rsdhcp.Protocol.Bytes.{u32_from_be_bytes}
use rsdhcp.Protocol.Value.{Ipv4Addr}
use rsdhcp.Server.Sockets.{
  ControlMessage, IpServer, Message, Nix, Packet, Round, Turn, buffer_at, destination_in, ipv4_of,
  ipv4_packet_info, listen, metadata, other_message, packet_bytes, packet_of, readable,
  receive_packet, received_into, serve_round, unreadable, with_packet,
}

-- The address of the last packet information among control messages.
pub data LastInfo : List ControlMessage → Option Ipv4Addr → Type 0 where
  no_info : (ms : List ControlMessage) → All (λ m. m ≡ other_message) ms → LastInfo ms none
  last_info :
      (before after : List ControlMessage) (a b c d : ℕ)
      → All (λ m. m ≡ other_message) after
      → LastInfo (before ++ ipv4_packet_info a b c d ∷ after) (some (u32_from_be_bytes a b c d))

LastInfo-cons :
    (m : ControlMessage) (ms : List ControlMessage) (ip : Ipv4Addr)
    → LastInfo ms (some ip)
    → LastInfo (m ∷ ms) (some ip)
LastInfo-cons m _ _ (last_info before after a b c d others) =
    last_info (m ∷ before) after a b c d others

-- A search that has found an address ends with it or with a later one.
destination_in-some :
    (ms : List ControlMessage) (ip : Ipv4Addr)
    → (All (λ m. m ≡ other_message) ms × (destination_in (some ip) ms ≡ some ip))
      ⊎ ((later : Ipv4Addr) × (destination_in (some ip) ms ≡ some later) × LastInfo ms (some later))
unfolding destination_in
destination_in-some [] ip = inl (tt, refl)
destination_in-some (other_message ∷ ms) ip = elim (destination_in-some ms ip) [
  | inl (others, e) ↦ inl ((refl, others), e)
  | inr (later, e, l) ↦ inr (later, e, LastInfo-cons other_message ms later l)
]
destination_in-some (ipv4_packet_info a b c d ∷ ms) ip =
    elim (destination_in-some ms (u32_from_be_bytes a b c d)) [
      | inl (others, e) ↦ inr (u32_from_be_bytes a b c d, e, last_info [] ms a b c d others)
      | inr (later, e, l) ↦ inr (later, e, LastInfo-cons (ipv4_packet_info a b c d) ms later l)
    ]

LastInfo-other :
    (ms : List ControlMessage) (o : Option Ipv4Addr)
    → LastInfo ms o
    → LastInfo (other_message ∷ ms) o
LastInfo-other _ _ (no_info ms others) = no_info (other_message ∷ ms) (refl, others)
LastInfo-other _ _ (last_info before after a b c d others) =
    last_info (other_message ∷ before) after a b c d others

destination_in-LastInfo : (ms : List ControlMessage) → LastInfo ms (destination_in none ms)
unfolding destination_in
destination_in-LastInfo [] = no_info [] tt
destination_in-LastInfo (other_message ∷ ms) = LastInfo-other ms _ (destination_in-LastInfo ms)
destination_in-LastInfo (ipv4_packet_info a b c d ∷ ms) =
    elim (destination_in-some ms (u32_from_be_bytes a b c d)) [
      | inl (others, e) ↦ rw e (last_info [] ms a b c d others)
      | inr (later, e, l) ↦ rw e (LastInfo-cons (ipv4_packet_info a b c d) ms later l)
    ]

module _ ⦃nix : Nix⦄ (servers : ℕ → IpServer) where
  -- What a packet is of: the listener's address, the sender, the address of the last packet
  -- information, and the bytes that came.
  pub record IsPacketOf (server : IpServer) (message : Message) (ms : List ControlMessage)
      (packet : Packet) : Type 0 where
    pub receiver : packet.recv_ip ≡ server.ip
    pub sender : packet.meta.source ≡ ipv4_of message.address
    pub destination : LastInfo ms packet.meta.destination
    pub bytes : packet_bytes packet ≡ message.bytes

  -- The packets of the turns, in order: one for each message whose control messages can be read.
  pub data Spawns : List Turn → List Packet → Type 0 where
    no_turns : Spawns [] []
    not_readable :
        (turn : Turn) (turns : List Turn) (packets : List Packet)
        → (turn.round ≡ unreadable) ⊎ (turn.round ≡ readable none)
        → Spawns turns packets
        → Spawns (turn ∷ turns) packets
    no_metadata :
        (turn : Turn) (message : Message) (turns : List Turn) (packets : List Packet)
        → turn.round ≡ readable (some message)
        → message.cmsgs ≡ none
        → Spawns turns packets
        → Spawns (turn ∷ turns) packets
    spawned :
        (turn : Turn) (message : Message) (ms : List ControlMessage) (turns : List Turn)
        (packet : Packet) (packets : List Packet)
        → turn.round ≡ readable (some message)
        → message.cmsgs ≡ some ms
        → IsPacketOf (servers turn.index) message ms packet
        → Spawns turns packets
        → Spawns (turn ∷ turns) (packet ∷ packets)

  message-Spawns :
      (index : ℕ) (message : Message) (cmsgs : Option (List ControlMessage)) (turns : List Turn)
      (buffers : ℕ → List ℕ)
      → message.cmsgs ≡ cmsgs
      → ((later : ℕ → List ℕ) → Spawns turns (listen servers turns later))
      → let packet =
          packet_of
            (servers index)
            (metadata message cmsgs)
            (received_into (buffers index) message.bytes) in
        let later = buffer_at buffers index (received_into (buffers index) message.bytes) in
        Spawns
          (record { index = index; round = readable (some message) } ∷ turns)
          (with_packet packet (listen servers turns later))
  unfolding packet_bytes
  message-Spawns index message none turns buffers e later =
      no_metadata _ message turns _ refl e (later _)
  message-Spawns index message (some ms) turns buffers e later =
      spawned _ message ms turns _ _ refl e
        (record {
          receiver = refl;
          sender = refl;
          destination = destination_in-LastInfo ms;
          bytes =
              take-append (length message.bytes) message.bytes
                (drop (length message.bytes) (buffers index)) refl;
        })
        (later _)

  round-Spawns :
      (index : ℕ) (round : Round) (turns : List Turn) (buffers : ℕ → List ℕ)
      → ((later : ℕ → List ℕ) → Spawns turns (listen servers turns later))
      → let now_and_later : List Turn = record { index = index; round = round } ∷ turns in
        Spawns now_and_later (listen servers now_and_later buffers)
  unfolding listen serve_round receive_packet
  round-Spawns index unreadable turns buffers later = not_readable _ turns _ (inl refl) (later _)
  round-Spawns index (readable none) turns buffers later =
      not_readable _ turns _ (inr refl) (later _)
  round-Spawns index (readable (some message)) turns buffers later =
      message-Spawns index message message.cmsgs turns buffers refl later

  -- Whatever the buffers held before, and in whatever order the rounds of the listeners come, a task is
  -- spawned for each message whose control messages can be read, in order, and for nothing else. Its
  -- packet has the listener's address, the sender, the destination of the last packet information, and
  -- exactly the bytes that came: nothing of an older datagram is seen.
  pub listen-Spawns :
      (turns : List Turn) (buffers : ℕ → List ℕ) → Spawns turns (listen servers turns buffers)
  unfolding listen
  listen-Spawns [] buffers = no_turns
  listen-Spawns (turn ∷ turns) buffers =
      round-Spawns turn.index turn.round turns buffers (listen-Spawns turns)
