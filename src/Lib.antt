-- ===== src/Lib.antt =====
-- rsdhcp, a DHCP server in Rust: the wire formats of DHCP, the replies, what the server does with a
-- datagram, the store that keeps leases in memory, and the one that keeps them in NetBox. Paths are
-- those of the repository.
--
-- A datagram goes through the parts in this order. Packet.from_network decodes the header and leaves
-- the options to Options.from_network, which gives each value to the derived DhcpOption::new. The
-- server drops what it cannot decode and what names another server, tells the client's state, and asks
-- a store for a lease. The result is made a response or a NAK, which is sent to the address that
-- determine_response_dest gives, as the bytes of Packet.to_network.
--
-- Prelude    Names of the libraries, Boolean tests on numbers, lists over the native numbers, and the
--            integers of an i32 and of a duration.
-- Text       Numbers and addresses as text: the formats of Rust's standard library that the code uses.
-- External   The crates that the code calls: byteorder's cursor, ipnet's networks, chrono's time. Each
--            is a record of its operations, with the documented laws that the proofs need. Every
--            definition that uses one takes it as an instance argument.
-- Protocol   rsdhcp/src/protocol. Errors and Enums are errors.rs and enums.rs; Value is the instances
--            of ValueSerde (option.rs), Fqdn the display of a client's name; Option is the enum
--            DhcpOption with the code that rsdhcp_macros/src/lib.rs derives for it (Wire writes, Arms
--            reads); Options is DhcpOptions (packet.rs), with to_network_overflow in
--            Options/Overflow; Packet is DhcpPacket (packet.rs), with response and nak in Packet/Reply.
-- Util       rsdhcp/src/util.rs, the compression of domain names. Util/Reading says how RFC 1035 reads
--            what it writes; the other files lead up to Util/RoundTrip.
-- Backends   rsdhcp/src/backends/mod.rs: leases and the trait DhcpStore, a record of handlers that
--            take and give the store's state. Backends/Memory is memory.rs: the map of leases in
--            Memory/Database, the settings (Memory of rsdhcp/src/config.rs) in Memory/Config,
--            process_params in Memory/Params, and the handlers. Memory/Tasks has the same handlers as
--            tasks that share the map: each use of its lock is a step. Backends/Netbox is netbox.rs:
--            the values and the HTTP client in Netbox/Web, the requests and the pages of a list in
--            Netbox/Requests, the lease logic in Netbox/Lookup, and the conversion of a lease and
--            the handlers in Netbox itself.
-- Server     rsdhcp/src/server.rs: process_packet_data over any store, and determine_response_dest.
--            Server/Sockets is the loop of the listeners, up to the packets that they spawn tasks
--            with. The server with the memory store is in Server/Served and Server/Acknowledged,
--            the server with the netbox backend in Server/Renewing and Server/Sendable, and
--            Server/Answered says when there is an answer over any store.
-- Examples   The crates as concrete functions, and the theorems at concrete data.
--
-- State. A handler takes the time, the address that received the datagram, the packet and the state,
-- and gives its answer with the state that it leaves; `panicked` is the end of a task by a failed
-- unwrap, after which nothing is sent. A packet's fields are natural numbers with their widths as
-- predicates; addresses are 32-bit numbers, text and arrays are lists of bytes. The HashMap of leases
-- is an association list, whose order stands for the order of iteration.
--
-- Fuel. The loop of Options.from_network has one round more than the field has bytes: each round but
-- the last reads a byte at least. The loop of a domain name has one round more than the name has
-- bytes: each round takes a part and its dot away. The display of a name in wire format has one
-- round more than the name has bytes: each round takes a length byte away. `out_of_fuel`,
-- `out_of_rounds` and `none` mark the end of fuel there and are no outcome of the source. How many
-- pages a list of NetBox has is for NetBox to say: the loop over them takes a number of rounds, and
-- `starved` says that there were more pages.
--
-- The HTTP client is a record over a world that holds what NetBox knows: sending a request gives a
-- response, or an error, and the next world. A method of the backend is a function of the world.
--
-- Not modelled: the creation of the sockets of server.rs with their options, the headers of the HTTP
-- client, the reading of the configuration and the command line, and the formatting of log messages.
pub mod Prelude
pub mod External
pub mod Text
pub mod Protocol
pub mod Util
pub mod Backends
pub mod Server
pub mod Examples
