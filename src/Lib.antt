-- ===== src/Lib.antt =====
-- rsnova, a proxy that carries many streams over few encrypted connections.
--
-- A connection between the two ends is a session (src/rmux/session.rs). It carries events, each a
-- header of eight bytes and a body, which a crypto context turns into frames and back. An event
-- names a stream; a stream (src/rmux/stream.rs) is what the local side of a tunnel reads and writes,
-- with a window that its two ends keep by window-update events. A manager behind one lock holds the
-- sessions of every channel. A session's event loop takes the events of its own streams and of the
-- peer from one queue, and its writing task gathers frames in a queue of buffers.
--
-- The local side of a tunnel (src/tunnel/local.rs) tells by the first bytes which proxy protocol a
-- client speaks, takes the target from it, chooses a channel by the rules of the configuration, and
-- relays the client's bytes to a connection of its own or to a stream of a session. The client's end
-- of a session (src/channel/rmux.rs) authenticates to the server's end (src/tunnel/rmux.rs, or
-- src/tunnel/ws.rs over a websocket), and a periodic round keeps up the number of sessions.
--
-- The files and what they model:
--   Event     src/rmux/event.rs: headers and events (`Fields`: what the accessors read back)
--   Message   src/rmux/message.rs
--   Crypto    src/rmux/crypto.rs: `encrypt` and `decrypt` over a context; `Primitives` has the two
--             crates it uses, `Frame` the shape of a frame, `RoundTrip`, `Partial` and `Context` the
--             theorems on whole frames, on pieces and on `new`; `Reader` has `read_encrypt_event`
--             and `write_encrypt_event`, and `Reader/Stream` the theorem on the byte stream
--   Buffer    src/utils/buf.rs: `fill_read_buf` and `VBuf` (`Contents`: the bytes of a queue;
--             `Views`: what goes in and what is shown)
--   Stream    src/rmux/stream.rs: `poll_read`, `poll_write`, the window and the ends of a stream
--             (`Reading`, `Overlong`: the bytes that a reader is given; `Flow`: both ends as one
--             system)
--   Session   src/rmux/session.rs, lines 35 to 310: the manager (`Slots`, `Lifetime`: storing and
--             erasing; `Routine`, `Retiring`: the periodic pass; `Create`: new streams and reports, `Create/Turns`:
--             which session a stream goes to)
--   Session/Loop  src/rmux/session.rs, lines 409 to 600: `process_event` and its handlers (`Table`:
--             the stream table; `Cases`, `Isolation`, `Ending`, `Stopping`: what events do)
--   Session/Tasks  the reading and the writing task of `process_rmux_session`, lines 690 to 774 and
--             788 to 870 (`Delivery`: from one end's event loop to the other's; `Sending`: the order
--             of the bytes that go out)
--   Session/Remote  `handle_rmux_stream`, the task behind a stream that the peer opened (`Serving`:
--             what it does under any order of polls)
--   Session/Setup  lines 602 to 681 and 872 to 875: what a session starts with (`Parity`: the ids of
--             the streams of both ends)
--   Io        src/utils/io.rs: `BufCopy` (`Copy`: where the bytes are); `Separator` has
--             `read_until_separator` (`Separator/Finding`: when it returns)
--   Io/Proxy  `is_ok_response` and `http_proxy_connect` of src/utils/net.rs (`Connecting`: which
--             answers of a proxy connect)
--   Io/Websocket  src/utils/ws.rs (`Messages`: the bytes of the messages)
--   Config    src/config/mod.rs
--   Channel   src/channel: `Rmux` has `init_client`, `Url` has `init_rmux_client`, `Opening` the
--             opening of a stream, `Routine` a round of routine.rs (`Routine/Refill`: the clients that
--             it starts); `Handshake`: both ends of the authentication
--   Tunnel/Rmux, Tunnel/Ws  src/tunnel/rmux.rs and src/tunnel/ws.rs: the server's side of it
--   Tunnel/Local  src/tunnel/local.rs: the dispatch of a connection, and the address to listen at
--             (`Dispatch`: how protocols are told apart)
--   Tunnel/Socks5  src/tunnel/socks5.rs (`Handshake`: a client that keeps to the protocol;
--             `Addresses`, `Totality`: any client)
--   Tunnel/Http  src/tunnel/http.rs: requests; `Parsing` has `parse_request`, `Body` the check for the
--             end of a body, `Reader` the reader with `poll_read`, `Handling` the two handlers
--             (`Rewriting`, `Tail`, `Passing`, `Sized`, `Refusing`: heads, ends of bodies, bodies that pass,
--             and bodies that are taken for heads)
--   Tunnel/Relay  src/tunnel/relay.rs (`Choice`: which channel; `Directions`, `Closing`: the two copies, and
--             the end of a stream)
--   Tunnel/Tls  src/tunnel/tls.rs: the server name in a ClientHello (`Bounds`,
--             `Peeking`: what is read of the record; `Extensions`, `Hello`: a record with a name)
--   Base      what these share; Tests: the theorems at concrete inputs
--
-- How the code is read. State is passed explicitly: a method is a function from a record to its new
-- value and what it returns; a task that holds a lock for its whole body is one step. Calls into the
-- runtime are arguments: what a read of a socket gives (`Reader.Read`), whether a queue takes an
-- event (`Stream.Queue`, `Stream.Report`), the clock, and the random increments of the routine pass.
-- A panic is the outcome `panic`. Numbers are naturals with the wrap-around of `u32` and `u64`
-- written out; an `i32` is its 32-bit pattern, negative from 2 ^ 31 on. A `HashMap` is an association
-- list. A text is its bytes where the program takes it apart, and a `String` where it only compares
-- it. The crates `ring` and `skip32` are the parameter `Cipher` with the laws `IsCipher`; bincode is a
-- function `serialize`, or a `Codec` with the law `Restores`; `twoway` is a function with the law
-- `FindsFirst`; `httparse`, `regex`, `url` and the websocket crates are functions or answers without a
-- law.
--
-- Bounds and fuel. `read_loop` runs on fuel, one unit for each round; a round after the first takes
-- a read, so the number of reads and three is enough. `scan_extensions` has one unit more than there
-- are bytes, and each of its rounds leaves four behind. `read_until` has any fuel, since its loop need
-- not end; more rounds than reads are enough where it does. `pad_key` adds at most 32 characters. All
-- other loops are structural recursion on the list that the code walks; the tasks of a session and
-- the copy walk a list of rounds or answers of any length. Bodies are shorter than 2 ^ 24 bytes, as
-- many as the length field of a header can tell.
--
-- Not modelled: log output, and the counter that only a log line reads; the birth time of a stream,
-- which only the log reads (that of a session is a number of seconds); the capacity that
-- `read_encrypt_event` and the HTTP reader reserve, and the HTTP reader's buffer after a failed read; the
-- join of a session's tasks and their wake-ups in `process_rmux_session`; how an IP address is
-- printed; and the rest of src/utils/net.rs, src/utils/net2.rs, src/lib.rs and the binary, which only
-- call sockets, the runtime and the logger.
pub mod Base
pub mod Event
pub mod Crypto
pub mod Buffer
pub mod Message
pub mod Stream
pub mod Session
pub mod Tunnel
pub mod Io
pub mod Config
pub mod Channel
pub mod Tests
