-- ===== src/Lib.antt =====
-- hopscotch: an overlay network of nodes that keep QUIC sessions with one another, learn routes by a
-- hop-count distance vector, and carry IPv6 packets between the addresses derived from their keys.
-- An exit node carries other packets to the internet.
--
-- The parts, and the files that model them (a file with child files has its proofs there, and its
-- runs and examples in the child Tests):
--   Identity      internal/identity: NodeID.ULA, IsMeshULA, IsResolverULA (Address), ParsePublicKey
--                 and PublicHex (Hex), ParseName, NormalizeNames, NamesFromCert (Names)
--   Session       internal/node/node.go and echo.go: the sessions and their lookups
--   Route         internal/node/route.go: the routing table. `update_rib` is the part of
--                 handleRoutes under its lock, `expire` the loop of expireStaleRoutes, `drop_via`
--                 that of onSessionDown, `exported` that of sendRoutesTo
--   Packet        internal/node/packet.go and traceroute.go: packets built and parsed (Build), their
--                 checksums (Checksum), and the clamping of the TCP MSS (Mss)
--   Exit          internal/node/exit.go, exit_egress.go: the tunnel between an exit and its clients
--   Endpoint      internal/endpoint/endpoint.go, and the address lists of internal/node/node.go
--   Framer        internal/backend/framer.go: datagrams on a byte stream
--   Mux           internal/backend/mux.go: one packet connection over the backends' sessions. The calls
--                 and loops are `MuxStep`s, the abstract view of where it sends is `Hops`
--   Tcp           internal/backend/tcp.go: a session on a connection, with the framer
--   Udp           internal/backend/udp.go: the listener and its sessions. The critical sections are
--                 `UdpStep`s; `receive` and `end_round` are the two of a round of Start
--   Wire          internal/proto/proto.go: Write and Read
--   Socks         internal/socks/socks.go: the proxy, for one client
--   Peers         internal/peers/peers.go: the peers file
--   Config        internal/config/config.go: Load, from what the YAML decoder gives
--   Tun           internal/tun/tun_linux.go, rtnetlink_linux.go, tun.go and pin.go: netlink attributes
--                 and routes (Netlink), requests and dumps (Request), the physical gateway (Gateway),
--                 the default routes and the pins of hosts (Routes), Setup, apply and Configure
--                 (Setup), and the block in internal/tun/hosts.go (Hosts)
--   Node          internal/node: a node's state and its handlers, for routes (Node.Routing), named
--                 echoes (Node.Echo), packets (Node.Overlay) and host routes (Node.Pins); establish
--                 and readLoop (Node.Peering); internal/node/exit_defaults.go and its goroutines
--                 (Node.ExitDefaults); internal/node/traceroute.go (Node.Trace); dial and the waits
--                 of join (Node.Dial); Start and Close with what they open and close (Node.Lifecycle)
--   Node.Network  many nodes with the handlers of Node.Routing and Node.Peering, and the messages
--                 between them, as a step relation: sessions come up and end, and a message arrives
--                 late, out of order, or never
--   Ip            what the code uses of Go's net.IP: To4, To16, Equal, String, ParseIP
--   Common        lists, maps, integers and bytes
--
-- How they interact: a session that comes up or goes down, a routes message and a timer change the
-- table of Route by the handlers of Node.Routing, which return the messages to send. A packet from
-- the TUN or from a session goes through Node.Overlay, which takes its next hop from Node.Routing,
-- the tunnel from Exit, and the packets it answers with from Packet. The datagrams of a TCP session
-- are the frames of Framer. The routes of Tun go through an interface, `Host`: netlink_host is the one
-- of the code, over the messages of Tun.Request, and Tun.Routes.Laws says what is asked of one.
--
-- The model: a byte slice or text is a list of numbers, and texts are ASCII. A nil slice or address
-- is the empty list, a nil pointer or error is `none`. A Go map is an association list; where the
-- code ranges over a map, the order is that of the list. An int is an integer without bounds, and a
-- w-bit word has its wrap-around written out. A handler takes the state and returns it changed with
-- its effects in their order; its critical sections follow one another in one step, but for
-- retainUnderlayPin and the functions of internal/node/exit_defaults.go, whose sections are steps of
-- their own, and dial, which has two. A *session is known by its `handle`. Time is a number of
-- nanoseconds.
--
-- Parameters: whether a write on a session works (Node.Echo), what QUIC does with a datagram and
-- the answer of the DNS package to a query (Node.Overlay); SHA-256 and what a QUIC connection gives
-- (Node.Peering); whether the host routes can be installed (Node.ExitDefaults, Node.Pins) and what
-- ResolveULA gives (Node.ExitDefaults); the reply to an echo and the packets of the tap (Node.Trace);
-- the JSON codec (Wire); what a session of a backend receives (Mux); the reads of a TCP connection
-- (Tcp); what a netlink socket answers, the names of the interfaces, the byte order of the machine,
-- and the calls of the system (Tun); the YAML decoder and path/filepath (Config); whether each call
-- of Start works (Node.Lifecycle); the lines of the scanner (Peers); the dialing function of the proxy
-- (Socks); and the links over which sessions come up and the nodes that are exits (Node.Network).
--
-- Fuel: the options of a TCP header are walked with its length as fuel, as each round takes a byte;
-- a 32-bit sum is folded twice to 16 bits; a group of hexadecimal digits and a decimal number of 64
-- bits have at most 4 and 20 digits; a packet is handled in at most two rounds; a traceroute sends
-- one probe for each hop limit up to the bound that it is given, of at most 255; netlink attributes
-- and messages are walked with the number of bytes as fuel, as a round takes at least four or
-- sixteen of them.
--
-- Not modelled: sockets, goroutines, and the dialers of internal/backend; New and the loops of
-- internal/node/node.go that wait on timers; the JSON texts of internal/proto; certificates and
-- files (internal/identity/ca.go, pem.go, bootstrap.go, peers.Load), whose formats are those of
-- Go's library; DNS messages (internal/dns); the system calls of internal/tun, its devices, and its
-- files for other systems than Linux; the userspace stack (internal/netstack); the control socket
-- and the HTTP server, which pass calls on; deadlines and round-trip times; logging; and the
-- command line (main.go).
pub mod Common
pub mod Ip
pub mod Identity
pub mod Session
pub mod Route
pub mod Packet
pub mod Exit
pub mod Endpoint
pub mod Framer
pub mod Mux
pub mod Wire
pub mod Socks
pub mod Peers
pub mod Config
pub mod Tun
pub mod Udp
pub mod Tcp
pub mod Node
