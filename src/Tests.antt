-- ===== src/Tests.antt =====
-- The theorems at concrete inputs, and runs of the definitions: the gateway of src/, and the tunnel
-- of grpc-tunnel/src, and the simulator of sim.
pub mod Gateway
pub mod Files
pub mod Tunnels
pub mod Servers
pub mod Relays
pub mod Modems
pub mod Simulator
pub mod Daemons
pub mod Statuses
pub mod Offline
pub mod Sockets
pub mod Loops
pub mod Streams
pub mod Secrets
pub mod Conversations
