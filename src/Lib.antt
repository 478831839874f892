-- ===== src/Lib.antt =====
-- Verification of zero-touch: a gateway that takes gNMI commands by SMS, and a tunnel that carries
-- TCP connections inside one gRPC stream.
--
-- An SMS comes in from a transport (src/ds_sms_transport.cpp over the data store), and
-- src/bridge.cpp takes it: it asks the gate, tokenizes the text, parses the tokens
-- (src/gnmi_command.cpp) and gives a gNMI command to src/gnmi_executor.cpp, which asks for the access
-- of the sender and calls the sink (src/local_gnmi_sink.cpp, screened by src/path_policy.cpp). The
-- result becomes one SMS (src/gnmi_reply.cpp). The standalone daemon reads src/config.cpp and
-- src/users.cpp. Apart from these, grpc-tunnel/src holds the two ends of the tunnel, which share
-- grpc-tunnel/src/session.cc.
--
-- Base        the shared library: lists over native numbers, texts as lists of bytes, the text
--             routines that several sources repeat (`trim`, lines, comma lists), decimal numbers
--             with the range of `std::stol`, and `std::map` as an ordered association list
-- Sms         inc/zerotouch/sms_transport.hpp, src/sms_util.cpp: `InboundSms`, `is_reachable_sender`
-- Command     src/gnmi_command.cpp: `parse_gnmi`, `csv`, `ieq`; Command/Csv, Command/Grammar
-- Reply       src/gnmi_reply.cpp: `clamp_sms`, `format_get`, `format_set`; Reply/Bounds
-- Policy      src/path_policy.cpp: `is_sensitive_path`; Policy/Deny
-- Executor    src/gnmi_executor.cpp: `handle`; Executor/Authorization
-- LocalSink   src/local_gnmi_sink.cpp: `get` and `set` as `sink_get` and `sink_set`;
--             LocalSink/Secrecy
-- Bridge      src/bridge.cpp: `on_sms`; Bridge/Replies, Bridge/Preserving
-- Users       src/users.cpp: `UserStore::parse` and `lookup` as `parse_users` and `find_user`;
--             Users/Store, Users/RoundTrip
-- Config      src/config.cpp: `parse_config`; Config/Lines, Config/Printing, Config/RoundTrip
-- DsTransport src/ds_sms_transport.cpp: the two threads as steps; DsTransport/Delivery,
--             DsTransport/Coalescing
-- Tunnel      grpc-tunnel/proto/tunnel.proto: `Frame`
-- Tunnel/Net  grpc-tunnel/src/net.cc: `SplitHostPort`, `WriteAll`; Tunnel/Net/Writing;
--             Tunnel/Net/Sockets: `DialTcp`, `ListenTcp`; Tunnel/Net/Sockets/Held
-- Tunnel/Session   grpc-tunnel/src/session.cc: each operation is one step, on a heap of
--             connections that the table and the pumps share; Tunnel/Session/Steps,
--             Tunnel/Session/Closing, Tunnel/Session/Fresh, Tunnel/Session/Pumps
-- Tunnel/Registry, Tunnel/Server   grpc-tunnel/src/tunnel_server.cc: `Registry`, the handler
--             `Register` and `ForwarderLoop`; Tunnel/Registry/Entries,
--             Tunnel/Registry/Binding, Tunnel/Server/EmptyName
-- Tunnel/Forwarder   the same: `ForwarderLoop` as a loop, `WaitFor`, `main`;
--             Tunnel/Forwarder/Opening
-- Tunnel/Client    grpc-tunnel/src/tunnel_client.cc: the handler of a frame in `RunTunnel`
-- Tunnel/Settings  the same: the whole of `RunTunnel` with its keepalive thread, `main`;
--             Tunnel/Settings/Teardown
-- Tunnel/Tally     what the frames that an end wrote say, and the operations that add nothing to it
-- Tunnel/Programs  the starts of both programs, and the loop of reconnecting; Tunnel/Programs/Outcomes
-- Tunnel/Conformance the table of the frames of grpc-tunnel/SPEC.md, and what each end writes by it
--             (ClientEnd, ServerEnd), the ids of the streams (Opens) and the
--             acknowledgements (Answers); Tunnel/Relay/Late a stream that the peer has closed
-- Tunnel/Handshake the opening of a stream through both ends
-- Tunnel/Stream    the bytes of a stream through both ends, in any interleaving of their threads:
--             Shrinking, Carrying, Arriving, Follows for one session; ToClient, ToServer for what
--             arrives at an end; Quiet, FromClient, FromServer for what an end says;
--             Downstream, Upstream for both ends
-- Tunnel/Relay     a stream from socket to socket through both ends
-- Echo        grpc-tunnel/src/echo_service.cc, echo_call.cc, echo_client.cc: the demo service;
--             Echo/Stream
-- AtModem     src/at_modem.cpp: `run_at` over the pieces that the serial line gives, with its buffer;
--             AtModem/Pieces, AtModem/Answers; AtModem/Inbox: `drain_sms`, AtModem/Inbox/Listing;
--             AtModem/Sending: `send_sms`, `configure`, AtModem/Sending/Order; AtModem/Vendors: `resolve_vendor`;
--             AtModem/LineLoop: the loop over the lines as it is written; AtModem/Serial:
--             `open_port`, `write_all`, `start`, and src/modem_factory.cpp
-- DirectAction     src/direct_action_sink.cpp: `set`, `get`, `arm_trigger`
-- Daemon      daemon/zerotouchd.cpp: settings, `lookup_account`, `sender_access`,
--             `sender_allowed`; Daemon/Accounts, Daemon/Gate; Daemon/Status: `LiveSink`,
--             `classic_reply`, `publish_state`, the handlers; Daemon/Status/Wiring, Daemon/Status/Mirror,
--             Daemon/Status/Privacy, Daemon/Status/Watch, Daemon/Status/Ports,
--             Daemon/Status/Secrecy
-- Classic     the interfaces of smsctl that the daemons and the simulator share
-- Standalone  daemon/zerotouchd_standalone.cpp; Standalone/Inert, Standalone/Refusals
-- Args        the arguments of the daemons and of the simulator
-- SimTree     sim/gnmi_tree.hpp and the handlers of sim/zt_gnmi_simd.cpp; SimTree/Subtree,
--             SimTree/Writes, SimTree/Refined; SimTree/Seed: `load_seed` and the connections; SimTree/Seed/Loading
-- MemSinks    sim/zt_sim.cpp: `MemDsSink`, `MemGnmiSink`; MemSinks/Masked
-- Console     sim/zt_sim.cpp: the wiring and the loop over the lines; Console/Offline,
--             Console/Authority, Console/ReadBack
-- Tests       the theorems and the definitions at concrete inputs
--
-- A `std::string` is a list of bytes. State is passed on: the world behind callbacks (the server,
-- the session store, the modem) is a type `W` that a callback takes and gives back. A loop is
-- recursion on the list that it walks, so that no bound is chosen (a deadline is the end of the list
-- of what was read before it). Three loops have fuel: `std::to_string` takes the number plus one,
-- since each digit divides by ten; the loop over the lines of the modem's buffer is given more than
-- the length of the buffer, of which each turn takes a newline; and `SayStream` of the demo is given
-- more turns than the count, but for the largest count, for which no fuel is enough. Numbers wrap
-- where the source casts: 32 and 16 bits in the configuration, 64 bits in the ids of streams and the
-- counts of commands. Results of the system and of libraries outside the repository (the gNMI client,
-- protobuf, gRPC, sockets, Lua, the data store, the tokenizer and the engine of smsctl) are arguments.
--
-- Not modelled: what the programs log and print, the statistics of the daemon, and the reactors and
-- gRPC servers that call the handlers: these are calls of the system and of libraries. A handler is
-- one step; the sessions of smsctl are only read where the source asks for a sender's session.
mod Base
pub mod Sms
pub mod Command
pub mod Reply
pub mod Policy
pub mod LocalSink
pub mod Users
pub mod Config
pub mod AtModem
pub mod DsTransport
pub mod SimTree
pub mod Tunnel
pub mod Echo
pub mod Executor
pub mod Classic
pub mod Bridge
pub mod DirectAction
pub mod Daemon
pub mod Standalone
pub mod Args
pub mod MemSinks
pub mod Console
mod Tests
