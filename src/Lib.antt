-- ===== src/Lib.antt =====
-- bpf2socks: a model of the traffic bridge's own logic, with its correctness theorems.
--
-- The program redirects TCP and UDP traffic with eBPF programs, keeps the original destinations in
-- kernel maps under tokens, and relays the traffic through a SOCKS5 server. `main.c` reads the
-- configuration (core/config.c, core/json.c), loads the BPF programs (bpf/) and starts the worker
-- threads (bridge/bridge.c); a worker relays TCP (bridge/tcp.c) or UDP (bridge/udp*.c), and UDP to
-- port 53 takes the DNS fast path (bridge/dns.c, bridge/udp_dns.c).
--
-- The files and what they model:
--   Prelude     shared helpers: Boolean tests, lists with native lengths, sums, bit operations,
--               errno values, and `Outcome`, the result of a routine over a C buffer, which tells an
--               errno apart from a read outside the buffer and from running out of fuel.
--   Lru         the intrusive doubly linked lists of bridge/udp_session.c and bridge/dns.c. `Chain`
--               says which list of nodes the links hold; `Remove` and `Append` are the laws.
--   Dns         bridge/dns.c. `Dns.Table` is the transaction table (`bpf2socks_dns_table_*`): its
--               arrays are functions, the stack of free slots is a list, top first. `Dns.Packet` is
--               the parser of queries and responses.
--   Bindings    bridge/udp_binding_index.c: the hash index of reply bindings. `Lookup` and `Removal`
--               read it as a map from owner and destination to bindings, `Init` is its number of
--               buckets.
--   Udp         the state of a UDP worker (bridge/udp_internal.h) and what changes it. `Client`: the
--               addresses and the hash of clients. `Lists`: the lists that stand for the intrusive
--               lists, refined by the pointer code of `Lru`. `Reply`: the reply bindings of
--               bridge/udp_session.c, their creation, eviction and lookup. `Life`: its sessions from
--               the allocation of a slot to `bpf2socks_udp_session_drop`, the choice of a victim,
--               and the expiry of handshakes, idle sessions and idle bindings. `Queue` and
--               `Channels`: the queued replies of bridge/udp_downlink.c and their memory.
--               `Associate`: of bridge/udp_associate.c the request, the replies of the server, and
--               (`Uplink`) the sends of request and datagrams; what the socket answers is a list.
--   Checksum    the checksums and raw reply packets of bridge/udp_downlink.c.
--   Socks       bridge/socks5.c: the builders and parsers of requests, replies and UDP datagrams.
--   Budget      bridge/udp_budget.c: `advance` is one atomic operation of one worker, and
--               `Budget.Steps` interleaves the workers.
--   Downlink    bridge/udp_downlink_queue.c: the queue of sessions that wait to be sent to, the
--               waiter tracker, and the classification of send results.
--   Deadline    bridge/deadline.c: expiry of connections, and the timeouts of `epoll_wait`.
--   Token       core/token.c, and of core/token_prefix.c the matches and (`Token.Text`) the parsers.
--   Json        core/json.c: a pointer into the text is the list of the bytes from there on.
--   Selector    bpf/interface_selector.c.
--   Cidr        the CIDR texts and LPM keys of bpf/policy.c.
--   Config      core/config.c: the tunables and `normalize_runtime_tunables`; `Config.Load` is
--               `bpf2socks_config_load`.
--
-- Conventions. Bytes, ports and times are natural numbers, with the wrap-around of the C type
-- written out where the code can reach it. A NULL pointer, an index of -1 and a negative fd are
-- `none`. Checks of arguments against NULL have no counterpart, since every argument is a value.
-- The kernel, `getaddrinfo`, `sysconf` and `calloc` are parameters: the map of tokens is a record of
-- operations with its documented laws as a hypothesis, a name's address is the result of a function,
-- an allocation may fail, and the texts of addresses are parsed by functions of a record `Libc`.
--
-- A UDP worker is one record of state: sessions, bindings and channels are numbers with their fields
-- in stores, a list of the C code is the list of its members from the head, and memory that the C code
-- frees is a number that no list holds. The bytes of the shared budget are seen as they are between two
-- operations of the other workers, whose interleaving `Budget.Steps` has. The time, a new socket, and
-- the answers of `malloc` and epoll are arguments; the descriptors that are closed are a list, and what
-- is registered with epoll is not part of the state.
--
-- Fuel. `allocate_id` has 65536 rounds, after which the 16-bit id is back at its start.
-- `fingerprint_name` has 18 * (length + 1) rounds for a packet: at most 16 compression pointers, with
-- at most as many labels between two of them as the packet has bytes. `alloc_session` evicts at most
-- once and has depth 2. The loop of `ensure_binding_capacity` evicts one member of the LRU list in a
-- round, that of `expire_handshakes` drops one member of its list, and both have one round more than
-- their list has members. `reserve_slots` halves a batch of less than 2^32 - 1 slots in 34
-- rounds (2^32 - 1 has a successor that wraps to 0, and bridge/udp.c bounds a batch by
-- BPF2SOCKS_UDP_MAX_BATCH, which is 64), `init` of the index doubles in 65, the fold of a 32-bit sum
-- takes 2, and `flush_pending` has one round more than datagrams wait. For all of these the fuel is proved to be enough. The loops of `session_close` over the
-- bindings and of `release_session` over the channels have as many rounds as there are members when
-- they begin, since a round takes the first of them; it is proved that none is left.
-- The loops over the items of a JSON array have one round more than the text has bytes, since a round
-- takes at least one of them. A compare-and-exchange loop is a sequence of steps and needs no fuel.
--
-- Not modelled: sockets, epoll, threads and files; the BPF programs and their loader (kern/, the
-- rest of bpf/); the TCP splice relay; of the UDP workers the completion of an association, the
-- dispatch of events, the sockets and the batches of replies, and the DNS upstream; the printing
-- of JSON and of log lines. Memory orders are those of sequential consistency. The addresses of
-- clients in a DNS transaction are not read by bridge/dns.c and have no field.
pub mod Bindings
pub mod Budget
pub mod Checksum
pub mod Cidr
pub mod Config
pub mod Deadline
pub mod Dns
pub mod Downlink
pub mod Json
pub mod Lru
pub mod Prelude
pub mod Selector
pub mod Socks
pub mod Token
pub mod Udp
