-- ===== src/Protocol/Enums.antt =====
-- rsdhcp/src/protocol/enums.rs: the enumerations of the protocol and their wire numbers.
use rsdhcp.Prelude.{ℕ, ◌==◌, if◌then◌else◌}

abbrev pub dhcp_server_port : ℕ
dhcp_server_port = 67

abbrev pub dhcp_client_port : ℕ
dhcp_client_port = 68

pub data DhcpOperation : Type 0 where
  boot_request boot_reply : DhcpOperation
  unknown : ℕ → DhcpOperation

unfoldable pub operation_from : ℕ → DhcpOperation
operation_from value =
    if value == 1
    then boot_request
    else if value == 2
    then boot_reply
    else DhcpOperation.unknown value

unfoldable pub operation_code : DhcpOperation → ℕ
operation_code boot_request = 1
operation_code boot_reply = 2
operation_code (DhcpOperation.unknown n) = n

pub data MessageType : Type 0 where
  discover offer request decline acknowledge neg_acknowledge release inform : MessageType
  unknown : ℕ → MessageType

unfoldable pub message_from : ℕ → MessageType
message_from value =
    if value == 1
    then discover
    else if value == 2
    then offer
    else if value == 3
    then request
    else if value == 4
    then decline
    else if value == 5
    then acknowledge
    else if value == 6
    then neg_acknowledge
    else if value == 7
    then release
    else if value == 8
    then inform
    else MessageType.unknown value

unfoldable pub message_code : MessageType → ℕ
message_code discover = 1
message_code offer = 2
message_code request = 3
message_code decline = 4
message_code acknowledge = 5
message_code neg_acknowledge = 6
message_code release = 7
message_code inform = 8
message_code (MessageType.unknown value) = value

pub data HardwareType : Type 0 where
  ethernet experimental_ethernet amateur_radio token_ring chaos ieee802 arcnet : HardwareType
  hyper_channel lanstar autonet_short_address local_talk local_ne ultra_link smds : HardwareType
  frame_relay asynchronous_transmission_mode hdlc fibre_channel : HardwareType
  unknown : ℕ → HardwareType

unfoldable pub hardware_from : ℕ → HardwareType
hardware_from value =
    if value == 1
    then ethernet
    else if value == 2
    then experimental_ethernet
    else if value == 3
    then amateur_radio
    else if value == 4
    then token_ring
    else if value == 5
    then chaos
    else if value == 6
    then ieee802
    else if value == 7
    then arcnet
    else if value == 8
    then hyper_channel
    else if value == 9
    then lanstar
    else if value == 10
    then autonet_short_address
    else if value == 11
    then local_talk
    else if value == 12
    then local_ne
    else if value == 13
    then ultra_link
    else if value == 14
    then smds
    else if value == 15
    then frame_relay
    else if value == 16
    then asynchronous_transmission_mode
    else if value == 17
    then hdlc
    else if value == 18
    then fibre_channel
    else HardwareType.unknown value

unfoldable pub hardware_code : HardwareType → ℕ
hardware_code ethernet = 1
hardware_code experimental_ethernet = 2
hardware_code amateur_radio = 3
hardware_code token_ring = 4
hardware_code chaos = 5
hardware_code ieee802 = 6
hardware_code arcnet = 7
hardware_code hyper_channel = 8
hardware_code lanstar = 9
hardware_code autonet_short_address = 10
hardware_code local_talk = 11
hardware_code local_ne = 12
hardware_code ultra_link = 13
hardware_code smds = 14
hardware_code frame_relay = 15
hardware_code asynchronous_transmission_mode = 16
hardware_code hdlc = 17
hardware_code fibre_channel = 18
hardware_code (HardwareType.unknown n) = n

pub data ClientState : Type 0 where
  init init_reboot selecting renewing rebinding : ClientState
