-- ===== src/Lib.antt =====
-- CoNET L0D, a daemon that carries overlay traffic over the CoNET mailbox network: IPv4 packets of a
-- TUN device and the bytes of local sockets are sealed and sent to a peer, over an occupied pipe or as a
-- post, and what listen streams bring is opened and handed on.
--
-- The parts of the program and the files that model them:
--   Packet.antt       src/packet.rs: the fields of an IPv4 packet and the overlay channel it belongs to.
--   Frame.antt        src/l0/frame.rs: the binary frame with a sequence number.
--   Envelope.antt     src/l0/envelope.rs: datagrams packed into one buffer, and (Envelope/Json.antt) the
--                     JSON envelope of the post path.
--   Eoa.antt          src/l0/eip191.rs and src/l0/duplex.rs: wallet addresses.
--   Duplex.antt       src/l0/client.rs: the duplex lines. Duplex/Session.antt is the record of a line and
--                     what the daemon asks of it, Duplex/Lines.antt the map of the lines and the queues,
--                     Duplex/Offer.antt and Duplex/Accept.antt the handlers of the two control messages,
--                     Duplex/Pipe.antt the life of the occupied pipe of a line, Duplex/Reach.antt the
--                     states of the map of lines that its operations reach.
--   Outbound.antt     src/l0/client.rs, src/l0/post.rs: the way out. Packets are gathered into a batch for
--                     one peer and port (Outbound/Flush.antt); a batch goes into the pipe of a line or
--                     into a post (Outbound/Prepare.antt), which is tried at one entry after the other
--                     (Outbound/Entries.antt).
--   Inbound.antt      src/l0/client.rs, src/l0/listen.rs: the way in. Inbound/Dispatch.antt is the choice of
--                     a handler for a chunk of a listen stream, Inbound.antt the delivery of a frame or of
--                     packets.
--   Locator.antt      src/locator.rs: the two kinds of `web3://` texts and the local ports that a stream
--                     target may bind.
--   Sse.antt          src/l0/listen.rs: the framing of server-sent events. Sse/Extract.antt is what a frame
--                     carries.
--   Listen.antt       src/l0/listen.rs: the owners of listen streams, their registry, and the choice of an
--                     entry.
--   SiPool.antt       src/l0/si_pool.rs, src/l0/post.rs: the pool of SI nodes, its refresh, the choice of a
--                     node, and a post through it.
--   Message.antt      src/l0/duplex.rs: the messages of a line. Message/Encode.antt writes them,
--                     Message/Parse.antt reads them, Message/Signed.antt signs and wraps them.
--   Aes.antt          src/l0/aes.rs: the wire form of AES-256-GCM; Eoa/Sign.antt is the signatures of
--                     src/l0/eip191.rs.
--   EndToEnd.antt     the two ends of a line: the interfaces of Outbound and Inbound filled by Message.
--   Crates.antt       the crates that Message, Aes and Eoa/Sign call.
--   Base.antt         what the parts share: lists and texts over the native naturals, decimal and
--                     big-endian numbers, and maps as lists of entries.
--
-- How the state corresponds. A struct is a record with the names of its fields, less those that only the
-- log or the network reads. A hash map is the list of its entries in the order in which it is walked; that
-- order is free, and what is proved holds for each. A text is the list of its code points, so that the
-- length of the source, in bytes of UTF-8, is a function of it. A channel is the number of a queue with the
-- room that is left in it; a cancellation flag is a number, and those that were raised are listed. A handler
-- that starts tasks returns what it starts as a value. The time and the keys that a handler draws are
-- arguments of it. Counters saturate or wrap as in the source.
--
-- Bounds. The loop that splits a buffer runs on fuel, the length of the buffer: each round takes at least
-- twenty bytes. The decimal digits of n run on fuel n + 1, and the candidates for a local port on fuel 7,
-- after which the stride has left the range of a port. A message inside of base64 is read on fuel, the
-- length of the text, and what is inside is shorter. The loops over the buffer of a listen stream run on
-- its length: each round takes out a character at least. The refresh of the SI pool has the 1000 rounds of
-- the source, and a post through the pool its five rounds. All other functions are recursive on their data.
--
-- What is a parameter: serde_json, base64, aes_gcm, k256, tiny_keccak and hex, by what the program calls of
-- them (Crates.antt), each with a record of what is documented of it; OpenPGP, in src/l0/pgp.rs. Outbound
-- takes the sealing of a frame and the wrapping of a post as an interface (Sealing), Inbound the readers of
-- messages (Reader).
--
-- What is not modelled: sockets, HTTP, files, system calls and the scheduling of tasks (src/platform,
-- src/lifecycle.rs, src/netops.rs, the loops that only wait); the calls of contracts and the encoding of
-- their arguments and answers (of the SI pool, what they answer is an argument); configuration and the
-- gateway.
pub mod Aes
pub mod Base
pub mod Crates
pub mod Duplex
pub mod EndToEnd
pub mod Envelope
pub mod Eoa
pub mod Frame
pub mod Inbound
pub mod Listen
pub mod Locator
pub mod Message
pub mod Outbound
pub mod Packet
pub mod SiPool
pub mod Sse
