-- ===== src/Args.antt =====
-- The arguments of the daemons and of the simulator: daemon/main.cpp,
-- daemon/zerotouchd_standalone.cpp, sim/zt_sim.cpp and sim/zt_gnmi_simd.cpp.
use Prim.Native.Char.{code}
use zero_touch.Base.{
  Bool, List, Option, [], drop, false, if◌then◌else◌, is_empty, length, none, not, some, take, true,
  ℕ, ◌%◌, ◌&&◌, ◌+◌, ◌-◌, ◌^◌, ◌||◌, ◌∷◌,
}
use zero_touch.Base.Bytes.{Bytes, codes, equals, rfind, starts_with}
use zero_touch.Base.Num.{negsuc, pos, stoi, ℤ}

-- A program starts with its settings, leaves with a code, or is ended by an exception of `std::stoi`.
pub data Start (A : Type 0) : Type 0 where
  starts : A → Start A
  leave : ℕ → Start A
  crash : Start A

-- `a == "--help" || a == "-h"`
unfoldable pub is_help : Bytes → Bool
unfolding equals
is_help a = equals a (codes "--help") || equals a (codes "-h")

-- The loop of `main` of daemon/main.cpp and of daemon/zerotouchd_standalone.cpp, whose one setting
-- is what follows `flag`.
unfoldable pub one_setting : Bytes → Bytes → List Bytes → Start Bytes
unfolding starts_with is_help
one_setting flag value [] = starts value
one_setting flag value (a ∷ args) =
    let taken = starts_with flag a in
    let rest = one_setting flag (if taken then drop (length flag) a else value) args in
    if taken then rest else if is_help a then leave 0 else leave 2

unfoldable pub daemon_args : List Bytes → Start Bytes
unfolding one_setting
daemon_args = one_setting (codes "--ds-sock=") []

unfoldable pub standalone_args : List Bytes → Start Bytes
unfolding one_setting
standalone_args = one_setting (codes "--config=") (codes "/etc/zerotouch/zerotouch.conf")

-- The cast of an `int` to `std::uint16_t`
abbrev pub to_u16 : ℤ → ℕ
to_u16 (pos n) = n % 2 ^ 16
to_u16 (negsuc n) = 2 ^ 16 - 1 - n % 2 ^ 16

abbrev pub with_port : Bytes → Option ℤ → Start (Bytes × ℕ)
with_port host none = crash
with_port host (some n) = starts (host, to_u16 n)

abbrev pub host_at : Bytes → Option ℕ → Start (Bytes × ℕ)
host_at hp none = leave 2
host_at hp (some colon) = with_port (take colon hp) (stoi (drop (colon + 1) hp))

-- `HOST:PORT` as `main` of sim/zt_sim.cpp and of sim/zt_gnmi_simd.cpp reads it.
unfoldable pub host_port : Bytes → Start (Bytes × ℕ)
unfolding rfind stoi
host_port hp = host_at hp (rfind b':' hp)

-- The loop of `main` of sim/zt_sim.cpp: the remote host and port.
unfoldable pub sim_loop : Bytes × ℕ → List Bytes → Start (Bytes × ℕ)
unfolding starts_with is_help
sim_loop remote [] = starts remote
sim_loop remote (a ∷ args) = elim (starts_with (codes "--gnmi=") a) [
  | true ↦ elim (host_port (drop 7 a)) [
    | starts found ↦ sim_loop found args
    | leave code ↦ leave code
    | crash ↦ crash
  ]
  | false ↦ if is_help a then leave 0 else leave 2
]

-- The arguments of sim/zt_sim.cpp, in a build with the gNMI library or without it.
unfoldable pub sim_args : Bool → List Bytes → Start (Bytes × ℕ)
unfolding sim_loop
sim_args with_gnmi args = elim (sim_loop ([], 0) args) [
  | starts remote ↦ if not with_gnmi && not (is_empty remote.0) then leave 2 else starts remote
  | leave code ↦ leave code
  | crash ↦ crash
]

-- The settings of sim/zt_gnmi_simd.cpp.
pub record ServerArgs : Type 0 where
  pub host : Bytes
  pub port : ℕ
  pub seed : Bytes
  pub verbose : Bool

abbrev pub default_args : ServerArgs
default_args = record {
  host = codes "0.0.0.0";
  port = 50051;
  seed = codes "/etc/zerotouch/gnmi-tree.lua";
  verbose = true;
}

-- One argument of the loop of `main` of sim/zt_gnmi_simd.cpp.
unfoldable pub server_arg : Bytes → ServerArgs → Start ServerArgs
unfolding starts_with equals is_help host_port
server_arg a s = elim (starts_with (codes "--listen=") a) [
  | true ↦ elim (host_port (drop 9 a)) [
    | starts found ↦ starts (record s { host = found.0; port = found.1 })
    | leave code ↦ leave code
    | crash ↦ crash
  ]
  | false ↦
      if starts_with (codes "--seed=") a
      then starts (record s { seed = drop 7 a })
      else if equals a (codes "--quiet")
      then starts (record s { verbose = false })
      else if is_help a
      then leave 0
      else leave 2
]

unfoldable pub server_args : List Bytes → ServerArgs → Start ServerArgs
unfolding server_arg
server_args [] s = starts s
server_args (a ∷ args) s = elim (server_arg a s) [
  | starts next ↦ server_args args next
  | leave code ↦ leave code
  | crash ↦ crash
]
