-- ===== src/Lib.antt =====
-- usbws: a serial and TCP tunnel between two machines over an encrypted relay. The program is in
-- src/: `main.rs` reads the command line and bridges a serial device, `tcp.rs` is the TCP tunnel,
-- `relay.rs` brings a session up, `proto.rs` has the envelopes, frames and invites, `idfile.rs` and
-- `authorized.rs` the two files it keeps, `stat.rs` the traffic line. The listening side takes local
-- sockets, gives each a conn_id and sends OPEN, DATA and CLOSE in frames to its peer; the connecting
-- side dials a fixed target on OPEN. The relay only forwards frames.
--
-- Files and what they model:
--   Base          the names that all parts share: bytes, texts with `trim`, `lines` and
--                 `split_once`, decimal numerals, UTF-8 with its lossy decoding, maps as
--                 functions, results
--   Crypto        the crates for keys, ciphers, hashes, base64 and hex, as a parameter, with the laws
--                 that their documentation promises as named hypotheses
--   Proto         src/proto.rs: the constants, `Identity::from_seeds`, `xor_header`, `derive_session`,
--                 `pack_inner`; Proto/Clamp the scalar, Proto/Envelope `encrypt_and_sign` and
--                 `verify_and_decrypt`, Proto/Frames the frames that are built and decoded,
--                 Proto/Invite `make_qr`, `decode_qr` and `decode_intro_from`
--   Tcp           src/tcp.rs: the state of a tunnel (`Ctx`, the conn map, the out queue, the tasks),
--                 `send_peer`, `spawn_connection`, `alloc_conn_id`, the `match cmd` of
--                 `handle_incoming`; Tcp/Tasks one step of each task, Tcp/Incoming the guards of
--                 `handle_incoming`, Tcp/Waiting the wait for an initiator, Tcp/Startup the
--                 entry points up to the session loop, Tcp/Sessions `session_loop` around the tasks
--                 with its reconnections; Tcp/Runs, Tcp/Alloc, Tcp/Invariant, Tcp/Listening,
--                 Tcp/Progress, Tcp/Waits, Tcp/Blocking and Tcp/Reopening are proofs on the tunnel,
--                 Tcp/Sessions/Wire, Reconnection and Recovery on the loop around it; Tcp/Outgoing
--                 follows the bytes from a socket to the websocket, Tcp/Announcing the order of OPEN
--                 and DATA, Tcp/Arriving the bytes from the websocket to a connection, and Tcp/Stream
--                 puts both ends together; Tcp/Pieces does so for both directions
--   Authorized    src/authorized.rs, and `authorize_initiator` of src/tcp.rs; Authorized/Table the
--                 file as a table, Authorized/Policy who is let in, Authorized/Injection a nick with a
--                 line ending in it
--   Idfile        src/idfile.rs; Idfile/Persistence the identity across restarts
--   Relay         src/relay.rs: the configuration, the handshake, the two opening frames;
--                 Relay/Bootstrap what they establish
--   Serial        src/main.rs: `handle_incoming`, the device loops and the frames of `bridge`;
--                 Serial/Incoming which frames count, Serial/Stream the way from device to device;
--                 Serial/Bridge the loop of `bridge` with its two threads, channels and websockets;
--                 Sessions, Flow, Sends and Runs below it the bytes on their way
--   Cli           src/main.rs: `Cli`, `resolve_peer` and the subcommand `authorize`; Cli/Flags and
--                 Cli/Authorize; Cli/Main `main` up to the mode that it calls, Sound what each
--                 mode may be called with, Resolving the peer, the ports and the rates, Choice all
--                 subcommands
--   Stat          src/stat.rs: the flags of the ticker
--   Tests         a concrete choice for the crates, and each result at a concrete input
--
-- How the state corresponds. A byte string is a list of numbers below 256. A tunnel's tasks run as a
-- sequence of events, each one task's code from one `await` to its next: the session loop (`Session`
-- is where it stands), the acceptor (`Acceptor`), and for each spawned connection a writer and a
-- reader. An event that has to wait gives `none`. A connection is known by its number in the order
-- of spawning; the conn map takes a conn_id to such a number, which stands for the sender in it. The
-- bytes read by, routed to and written by a connection are kept beside the code's state, to speak of
-- them. The bridge of the serial modes runs in the same way, by the steps of its loop and its
-- threads. Around the tunnel, what the relay answers, the ends of the waits and Ctrl-C are events as
-- well.
-- Nonces and fresh seeds, and what a socket, a dial or the file system answers, are arguments; the
-- table file that the waiting gate reads is given anew with every message.
--
-- Bounds and fuel. The conn_id wraps at 256, the sequence number of a message at 65536; queues hold
-- 512 frames and 256 messages, the channels of the bridge 256 chunks. `alloc_conn_id` has as fuel
-- the 256 rounds of its own loop. All other recursion is on a list.
--
-- Not modelled: what the kernel, tokio and tungstenite do, the length of the waits,
-- the log lines and the usage text, the raw mode of terminals, and file modes. Inside a
-- run of the tunnel an incoming frame is the command that it carries: Tcp/Incoming speaks of the
-- bytes, Tcp/Tasks of the commands.
pub mod Authorized
pub mod Base
pub mod Cli
pub mod Crypto
pub mod Idfile
pub mod Proto
pub mod Relay
pub mod Serial
pub mod Stat
pub mod Tcp
pub mod Tests
