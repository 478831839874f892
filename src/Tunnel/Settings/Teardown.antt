-- ===== src/Tunnel/Settings/Teardown.antt =====
-- What `RunTunnel` of grpc-tunnel/src/tunnel_client.cc leaves behind.
use zero_touch.Base.{
  ==_iff, All, Bool, Bool-cases, List, [], any, ap, arith, false, inl, inr, refl, some, subst, sym,
  true, ℕ, ◌++◌, ◌==◌, ◌∙◌, ◌∷◌, ◌≡◌,
}
use zero_touch.Base.Bytes.{Bytes}
use zero_touch.Base.Keys.{nat_ord, text_ord}
use zero_touch.Base.Map.{lookup, lookup-insert}
use zero_touch.Tunnel.Client.{Client, client_teardown, register_client}
use zero_touch.Tunnel.Session.{
  Session, close_all, close_ref, close_refs, conn_or, deref, send, shutdown,
}
use zero_touch.Tunnel.Session.Steps.{close_all-rest}
use zero_touch.Tunnel.Settings.{
  ClientEvent, client_event, client_events, keepalive_tick, late_ticks, run_tunnel, served,
}

abbrev pub holds : ℕ → List ℕ → Bool
holds n l = any (λ m. m == n) l

deref-close_ref : (q r : ℕ) (s : Session) → (deref r (close_ref q s)).fd ≡ (deref r s).fd
unfolding close_ref deref
deref-close_ref q r s = elim (Bool-cases (q == r)) [
  | inl hit ↦
      ap (λ o. (conn_or o).fd) (lookup-insert q r _ s.heap)
      ∙ rw hit (ap (λ k. (conn_or (lookup k s.heap)).fd) ((==_iff q r).0 hit))
  | inr miss ↦ ap (λ o. (conn_or o).fd) (lookup-insert q r _ s.heap) ∙ rw miss refl
]

holds-append : (n : ℕ) (l m : List ℕ) → holds n l ≡ true → holds n (l ++ m) ≡ true
holds-append n [] m h = absurd (cc)
holds-append n (x ∷ l) m h = elim (Bool-cases (x == n)) [
  | inl hit ↦ rw hit refl
  | inr miss ↦ rw miss (holds-append n l m (rw miss at h))
]

holds-last : (n : ℕ) (l : List ℕ) → holds n (l ++ n ∷ []) ≡ true
holds-last n [] = ground arith
holds-last n (x ∷ l) = elim (Bool-cases (x == n)) [
  | inl hit ↦ rw hit refl
  | inr miss ↦ rw miss (holds-last n l)
]

close_refs-holds :
    (n : ℕ) (taken : List (ℕ × ℕ)) (s : Session)
    → holds n s.shut ≡ true
    → holds n (close_refs taken s).shut ≡ true
unfolding close_refs
close_refs-holds n [] s h = h
close_refs-holds n ((id, ref) ∷ taken) s h =
    close_refs-holds n taken (close_ref ref s)
      (unfold close_ref in holds-append n s.shut ((deref ref s).fd ∷ []) h)

-- The sockets of the entries are among those that were shut down.
abbrev pub AllShut : Session → List (ℕ × ℕ) → List ℕ → Type 0
AllShut s taken shut = All (λ e. holds (deref e.1 s).fd shut ≡ true) taken

AllShut-close_ref :
    (q : ℕ) (s : Session) (taken : List (ℕ × ℕ)) (shut : List ℕ)
    → AllShut (close_ref q s) taken shut
    → AllShut s taken shut
AllShut-close_ref q s [] shut h = tt
AllShut-close_ref q s ((id, ref) ∷ taken) shut h = (
  subst (λ n. holds n shut ≡ true) (deref-close_ref q ref s) h.0,
  AllShut-close_ref q s taken shut h.1,
)

close_refs-AllShut :
    (taken : List (ℕ × ℕ)) (s : Session) → AllShut s taken (close_refs taken s).shut
unfolding close_refs
close_refs-AllShut [] s = tt
close_refs-AllShut ((id, ref) ∷ taken) s = (
  close_refs-holds (deref ref s).fd taken (close_ref ref s)
      (unfold close_ref in holds-last (deref ref s).fd s.shut),
  AllShut-close_ref ref s taken _ (close_refs-AllShut taken (close_ref ref s)),
)

keepalive_tick_dead : (ok : Bool) (s : Session) → s.alive ≡ false → keepalive_tick ok s ≡ (false, s)
unfolding keepalive_tick send
keepalive_tick_dead ok s dead = ground arith

late_ticks-dead :
    (target : Bytes) (late : List Bool) (running : Bool) (v : Client)
    → v.session.alive ≡ false
    → (client_events target (late_ticks late) (running, v)).1 ≡ v
unfolding client_events client_event
late_ticks-dead target [] running v dead = refl
late_ticks-dead target (ok ∷ late) false v dead = late_ticks-dead target late false v dead
late_ticks-dead target (ok ∷ late) true v dead =
    subst (λ r. (client_events target (late_ticks late) (r.0, record v { session = r.1 })).1 ≡ v)
      (sym (keepalive_tick_dead ok v.session dead)) (late_ticks-dead target late false v dead)

-- What `RunTunnel` leaves once the stream ended, for any frames that came and any ticks of the
-- keepalive thread, before the teardown and behind it: a session that is dead and has no streams, the
-- sockets of all its streams shut down, and no frame written behind the teardown.
pub record TornDown (up : Client) (v : Client) : Type 0 where
  pub dead : v.session.alive ≡ false
  pub empty : v.session.conns ≡ []
  pub silent : v.session.written ≡ up.session.written
  pub released : AllShut up.session up.session.conns v.session.shut

client_teardown-TornDown : (up : Client) → TornDown up (client_teardown up)
unfolding client_teardown
client_teardown-TornDown up =
    let k = close_all-rest (shutdown up.session) in
    record {
      dead = k.0 ∙ unfold shutdown in refl;
      empty = k.3;
      silent = k.1 ∙ unfold shutdown in refl;
      released =
          unfold close_all shutdown deref in
          close_refs-AllShut up.session.conns (record up.session { alive = false; conns = [] });
    }

-- Where the client `v0` could register, `RunTunnel` returns once the stream has ended, whatever frames
-- came and whenever the keepalive thread ticked, before the teardown or behind it: the session is dead
-- and has no streams, the socket of each stream that was left was shut down, and no frame was written
-- behind the teardown.
pub run_tunnel-TornDown :
    (target : Bytes) (ok : Bool) (events : List ClientEvent) (late : List Bool) (v0 : Client)
    → register_client target ok ≡ some v0
    → (v : Client) × (run_tunnel target ok events late ≡ some v)
      × TornDown (client_events target events (true, v0)).1 v
unfolding run_tunnel
run_tunnel-TornDown target ok events late v0 e =
    let (running, up) = client_events target events (true, v0) in
    let torn = client_teardown-TornDown up in
    (
      client_teardown up,
      ap (served target events late) e
          ∙ ap some (late_ticks-dead target late running (client_teardown up) torn.dead),
      torn,
    )
