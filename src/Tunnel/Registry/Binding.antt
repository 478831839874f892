-- ===== src/Tunnel/Registry/Binding.antt =====
-- Who is bound to which name, over any sequence of steps of the handlers of
-- grpc-tunnel/src/tunnel_server.cc. A registration, with its removal of the old name, is one step.
use zero_touch.Base.{
  ==_iff, All, Bool-cases, List, Option, Option-cases, [], ap, arith, false, inl, inr, none, some,
  ℕ, ◌==◌, ◌∙◌, ◌∷◌, ◌≡◌, ◌≢◌,
}
use zero_touch.Base.Bytes.{Bytes, equals_iff}
use zero_touch.Base.Keys.{nat_ord, text_ord}
use zero_touch.Base.Map.{
  IsOrdered, IsOrdered-erase, IsOrdered-insert, erase, insert, lookup, lookup-erase, lookup-insert,
}
use zero_touch.Tunnel.Registry.{Registry, get, remove}
use zero_touch.Tunnel.Registry.Entries.{
  lookup-rebind, lookup-remove, rebind-IsOrdered, remove-IsOrdered,
}
use zero_touch.Tunnel.Server.{rebind}

-- The registry, and the running handlers, each with its variable `target`.
pub record Bindings : Type 0 where
  pub registry : Registry
  pub handlers : List (ℕ × Bytes)

pub data Event : Type 0 where
  opens : ℕ → Event
  registers : ℕ → Bytes → Event
  ends : ℕ → Event

abbrev registered : ℕ → Bytes → Option Bytes → Bindings → Bindings
registered s t none b = b
registered s t (some old) b = record {
  registry = rebind old t s b.registry;
  handlers = insert s t b.handlers;
}

abbrev ended : ℕ → Option Bytes → Bindings → Bindings
ended s none b = b
ended s (some old) b = record { registry = remove old s b.registry; handlers = erase s b.handlers }

abbrev opened : ℕ → Option Bytes → Bindings → Bindings
opened s none b = record b { handlers = insert s [] b.handlers }
opened s (some old) b = b

-- A new handler has a session of its own and no name; only a running handler registers or ends.
unfoldable pub step : Bindings → Event → Bindings
step b (opens s) = opened s (lookup s b.handlers) b
step b (registers s t) = registered s t (lookup s b.handlers) b
step b (ends s) = ended s (lookup s b.handlers) b

unfoldable pub run : Bindings → List Event → Bindings
unfolding step
run b [] = b
run b (e ∷ es) = run (step b e) es

abbrev pub no_bindings : Bindings
no_bindings = record { registry = []; handlers = [] }

-- The name that an event registers is not empty.
abbrev pub IsNamed : Event → Type 0
IsNamed (registers s t) = t ≢ []
IsNamed _ = Unit

no_entry_at : (t : Bytes) (s : ℕ) → lookup t [] ≡ some s → ⊥
unfolding lookup
no_entry_at t s h = cc

-- The invariant: what the registry holds is what the running handlers are bound to.
record Inv (b : Bindings) : Type 0 where
  registry_ordered : IsOrdered b.registry
  handlers_ordered : IsOrdered b.handlers
  bound : (t : Bytes) (s : ℕ) → lookup t b.registry ≡ some s → lookup s b.handlers ≡ some t
  named : (t : Bytes) (s : ℕ) → lookup t b.registry ≡ some s → t ≢ []

still_bound :
    (b : Bindings) (s : ℕ) (t old : Bytes)
    → lookup s b.handlers ≡ some old
    → (t' : Bytes) (s' : ℕ) → lookup s' b.handlers ≡ some t'
    → (s ≡ s' → old ≢ t')
    → lookup s' (insert s t b.handlers) ≡ some t'
still_bound b s t old live t' s' there own = elim (Bool-cases (s == s')) [
  | inl same ↦ let q = (==_iff s s').0 same in absurd (own q (cc (ap (λ x. lookup x b.handlers) q)))
  | inr other ↦ lookup-insert s s' t b.handlers ∙ rw other there
]

registers-Inv :
    (b : Bindings) (s : ℕ) (t old : Bytes)
    → lookup s b.handlers ≡ some old
    → t ≢ []
    → Inv b
    → Inv (registered s t (some old) b)
registers-Inv b s t old live n v = record {
  registry_ordered = rebind-IsOrdered old t s b.registry v.registry_ordered;
  handlers_ordered = IsOrdered-insert s t b.handlers v.handlers_ordered;
  bound = λ t' s' h. elim (lookup-rebind old t s b.registry t' v.registry_ordered h) [
    | inl (e, q) ↦ ground (arith, lookup-insert s s' t b.handlers)
    | inr (d, h', own) ↦
        still_bound b s t old live t' s' (v.bound t' s' h') (λ q. own q (v.named t' s' h'))
  ];
  named = λ t' s' h. elim (lookup-rebind old t s b.registry t' v.registry_ordered h) [
    | inl (e, q) ↦ λ x. n (e ∙ x)
    | inr (d, h', own) ↦ v.named t' s' h'
  ];
}

-- What an ending handler leaves was there before, and is of another session.
removed_others :
    (b : Bindings) (s : ℕ) (old : Bytes)
    → lookup s b.handlers ≡ some old
    → Inv b
    → (t' : Bytes) (s' : ℕ) → lookup t' (remove old s b.registry) ≡ some s'
    → (lookup t' b.registry ≡ some s') × ((s == s') ≡ false)
removed_others b s old live v t' s' h =
    let kept : lookup t' b.registry ≡ some s' =
      ground (arith, lookup-remove old t' s b.registry v.registry_ordered) in
    (
      kept,
      elim (Bool-cases (s == s')) [
        | inl same ↦
            let q = (==_iff s s').0 same in
            let e : old ≡ t' = cc (ap (λ x. lookup x b.handlers) q, v.bound t' s' kept) in
            absurd (
              ground (
                arith,
                lookup-remove old t' s b.registry v.registry_ordered,
                (equals_iff old t').1 e,
                ap (λ x. lookup x b.registry) e,
              ))
        | inr other ↦ other
      ],
    )

ends-Inv :
    (b : Bindings) (s : ℕ) (old : Bytes)
    → lookup s b.handlers ≡ some old
    → Inv b
    → Inv (ended s (some old) b)
ends-Inv b s old live v = record {
  registry_ordered = remove-IsOrdered old s b.registry v.registry_ordered;
  handlers_ordered = IsOrdered-erase s b.handlers v.handlers_ordered;
  bound = λ t' s' h.
      let kept = removed_others b s old live v t' s' h in
      lookup-erase s s' b.handlers v.handlers_ordered ∙ rw kept.1 (v.bound t' s' kept.0);
  named = λ t' s' h. v.named t' s' (removed_others b s old live v t' s' h).0;
}

opens-Inv : (b : Bindings) (s : ℕ) → lookup s b.handlers ≡ none → Inv b → Inv (opened s none b)
opens-Inv b s fresh v = record {
  registry_ordered = v.registry_ordered;
  handlers_ordered = IsOrdered-insert s [] b.handlers v.handlers_ordered;
  bound = λ t' s' h. elim (Bool-cases (s == s')) [
    | inl same ↦
        absurd
          (ground (arith, v.bound t' s' h, ap (λ x. lookup x b.handlers) ((==_iff s s').0 same)))
    | inr other ↦ lookup-insert s s' [] b.handlers ∙ rw other (v.bound t' s' h)
  ];
  named = v.named;
}

step-Inv : (b : Bindings) (e : Event) → IsNamed e → Inv b → Inv (step b e)
unfolding step
step-Inv b (opens s) n v = elim (Option-cases (lookup s b.handlers)) [
  | inl fresh ↦ rw fresh (opens-Inv b s fresh v)
  | inr (old, live) ↦ rw live v
]
step-Inv b (registers s t) n v = elim (Option-cases (lookup s b.handlers)) [
  | inl gone ↦ rw gone v
  | inr (old, live) ↦ rw live (registers-Inv b s t old live n v)
]
step-Inv b (ends s) n v = elim (Option-cases (lookup s b.handlers)) [
  | inl gone ↦ rw gone v
  | inr (old, live) ↦ rw live (ends-Inv b s old live v)
]

run-Inv : (b : Bindings) (es : List Event) → All IsNamed es → Inv b → Inv (run b es)
unfolding run
run-Inv b [] n v = v
run-Inv b (e ∷ es) n v = run-Inv (step b e) es n.1 (step-Inv b e n.0 v)

-- Over any sequence of registrations of names that are not empty and of beginnings and ends of
-- handlers, each of them one step, a session found under a name is one whose handler still runs and
-- registered that name last.
pub run-bound :
    (es : List Event) (t : Bytes) {s : ℕ}
    → All IsNamed es
    → get t (run no_bindings es).registry ≡ some s
    → lookup s (run no_bindings es).handlers ≡ some t
unfolding get
run-bound es t {s} n h =
    (run-Inv no_bindings es n (record {
      registry_ordered = tt;
      handlers_ordered = tt;
      bound = λ t s h. absurd (no_entry_at t s h);
      named = λ t s h. absurd (no_entry_at t s h);
    })).bound
      t s h
