-- ===== src/Tunnel/Programs/Outcomes.antt =====
-- What `main` of grpc-tunnel/src/tunnel_server.cc comes to, and the sockets that it leaves open.
use Prim.Native.Char.{code}
use zero_touch.Args.{Start, crash, leave, starts}
use zero_touch.Base.{Bool, List, Option, false, inl, inr, none, refl, some, true, ℕ, ◌∷◌, ◌≡◌, ◌⊎◌}
use zero_touch.Base.Bytes.{Bytes, codes}
use zero_touch.Tunnel.Args.{arg}
use zero_touch.Tunnel.Forwarder.{ServerSettings, server_settings, with_forward}
use zero_touch.Tunnel.Net.{split_host_port}
use zero_touch.Tunnel.Net.Sockets.{Sockets, listen_tcp}
use zero_touch.Tunnel.Net.Sockets.Held.{Descriptors, Held, listen_tcp-Held, tracked}
use zero_touch.Tunnel.Programs.{Serving, built, serve, serve_on, server_main}

module _ {W : Type 0} where
  -- A server that runs holds the forwarder's socket; one that leaves has the code 1, and holds no
  -- socket, or the forwarder's, where gRPC could not bind its address.
  abbrev pub Settled : Descriptors → Start Serving × (W × Descriptors) → Type 0
  Settled fds (starts v, (w, left)) = left ≡ v.listen_fd ∷ fds
  Settled fds (leave code, (w, left)) = (code ≡ 1) × ((left ≡ fds) ⊎ ((fd : ℕ) × (left ≡ fd ∷ fds)))
  Settled fds (crash, w) = ⊥

  -- The gRPC server opens no socket that is counted here.
  abbrev pub beside_sockets :
      (W → Bytes → Bool × W) → W × Descriptors → Bytes → Bool × (W × Descriptors)
  beside_sockets build w address = let (ok, w') = build w.0 address in (ok, (w', w.1))

module _ {W Address : Type 0} (s : Sockets W Address) (build : W → Bytes → Bool × W) where
  built-Settled :
      (cfg : ServerSettings) (fd : ℕ) (fds : Descriptors) (r : Bool × W)
      → Settled fds (built (tracked s) (beside_sockets build) cfg fd (r.0, (r.1, fd ∷ fds)))
  built-Settled cfg fd fds (false, w) = (refl, inr (fd, refl))
  built-Settled cfg fd fds (true, w) = refl

  serve_on-Settled :
      (cfg : ServerSettings) (fds : Descriptors) (r : Option ℕ × (W × Descriptors))
      → Held fds r
      → Settled fds (serve_on (tracked s) (beside_sockets build) cfg r)
  serve_on-Settled cfg fds (none, (w, left)) e = (refl, inl e)
  serve_on-Settled cfg fds (some fd, (w, left)) e =
      rw e (built-Settled cfg fd fds (build w cfg.listen_addr))

  -- However the server is called, it runs with the forwarder's socket open, or it leaves with code 1:
  -- with no socket open besides those before, or with the forwarder's alone. No exception ends it.
  pub server_main-Settled :
      (args : List Bytes) (w : W) (fds : Descriptors)
      → Settled fds (server_main (tracked s) (beside_sockets build) args (w, fds))
  unfolding server_main server_settings
  server_main-Settled args w fds =
      split (split_host_port (arg args (codes "--forward") (codes "127.0.0.1:50052")))
    where
      split :
          (o : Option (Bytes × ℕ))
          → Settled fds (
              serve
                (tracked s)
                (beside_sockets build)
                (with_forward args (arg args (codes "--forward") (codes "127.0.0.1:50052")) o)
                (w, fds))
      split none = (refl, inl refl)
      split (some (host, port)) =
          serve_on-Settled _ fds (listen_tcp (tracked s) host port (w, fds))
            (listen_tcp-Held s host port w fds)
