-- ===== src/Classic.antt =====
-- The classic commands as the daemons and the simulator run them: the interfaces of smsctl, which is
-- not in the repository, and which the sinks of the repository implement.
use zero_touch.Base.{Bool, Option, false, true, ℕ, ◌%◌, ◌*◌, ◌+◌, ◌^◌}
use zero_touch.Base.Bytes.{Bytes}
use zero_touch.Daemon.{Account}

-- `smsctl::DsSink`, over a state `D`; the clock `now_ms` is left to the system.
pub record DsSink (D : Type 0) : Type 0 where
  pub set : D → Bytes → Bytes → Bool × D
  pub get : D → Bytes → Option Bytes × D
  pub arm_trigger : D → Bytes → Bytes → Bool × D

-- The kinds of command that the daemons tell apart.
pub data Kind : Type 0 where
  not_a_command wifi factory_reset other_kind : Kind

-- `smsctl::parse`, `Command::kind`, `Command::keyword`, and `Executor(sink, sessions, lookup).handle`
-- on a command, its sender, the time and the seed, over the state of the sink and the sessions.
pub record Engine (C S D : Type 0) : Type 1 where
  pub parse : Bytes → C
  pub kind : C → Kind
  pub keyword : C → Bytes
  pub handle : DsSink D → (D → Bytes → Option Account) → C → Bytes → ℕ → ℕ → S × D → Bytes × (S × D)

-- Whether the text is a command at all.
abbrev pub is_command : Kind → Bool
is_command not_a_command = false
is_command _ = true

-- `x * 2654435761ULL + n` on 64 bits
abbrev pub seed_of : ℕ → ℕ → ℕ
seed_of x n = (x * 2654435761 + n) % 2 ^ 64
