-- ===== src/Examples.antt =====
-- Runs of the code on concrete data, and the theorems at such data.
mod Setting
mod Packets
mod Streams
mod Leases
mod Dialogue
mod Names
mod Netbox
mod Tasks
mod Sockets
mod Vacant
