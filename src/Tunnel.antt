-- ===== src/Tunnel.antt =====
-- grpc-tunnel/src and grpc-tunnel/proto/tunnel.proto: TCP connections carried inside one gRPC
-- stream. The gRPC library and the sockets are outside: what they answer is an argument.
pub mod Net
pub mod Session
pub mod Registry
pub mod Server
pub mod Client
pub mod Relay
pub mod Args
pub mod Forwarder
pub mod Settings
pub mod Handshake
pub mod Conformance
pub mod Stream
pub mod Tally
pub mod Programs
use zero_touch.Base.{[], ℕ}
use zero_touch.Base.Bytes.{Bytes}

-- `Frame::Type`
pub data FrameType : Type 0 where
  unknown_type register register_ack open_stream data_bytes close_stream keepalive : FrameType

-- `Frame`
pub record Frame : Type 0 where
  pub stream_id : ℕ
  pub type : FrameType
  pub payload : Bytes
  pub target : Bytes
  pub error : Bytes

-- `Frame f;`
abbrev pub no_frame : Frame
no_frame = record { stream_id = 0; type = unknown_type; payload = []; target = []; error = [] }
