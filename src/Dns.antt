-- ===== src/Dns.antt =====
-- bridge/dns.c: the DNS fast path. `Table` is the transaction table, `Packet` the packet parser.
pub mod Table
pub mod Packet
