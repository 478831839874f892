-- ===== src/Tunnel/Registry/Entries.antt =====
-- The entries of the registry of grpc-tunnel/src/tunnel_server.cc, and what a removal and a new
-- binding do to them.
use zero_touch.Base.{
  Bool-cases, [], ap, arith, false, if◌then◌else◌, inl, inr, is_empty, none, not, refl, some, sym,
  ℕ, ◌&&◌, ◌∙◌, ◌∷◌, ◌≡◌, ◌≢◌, ◌⊎◌,
}
use zero_touch.Base.Bytes.{Bytes, equals, equals_iff}
use zero_touch.Base.Keys.{nat_ord, text_ord}
use zero_touch.Base.Map.{
  IsOrdered, IsOrdered-erase, IsOrdered-insert, lookup, lookup-erase, lookup-insert,
}
use zero_touch.Tunnel.Registry.{Registry, add, get, is_ours, remove}
use zero_touch.Tunnel.Server.{rebind}

pub lookup-remove :
    (old t : Bytes) (s : ℕ) (r : Registry)
    → IsOrdered r
    → lookup t (remove old s r)
      ≡ (if is_ours s (lookup old r) && equals old t then none else lookup t r)
unfolding remove
lookup-remove old t s r o = ground (arith, lookup-erase old t r o)

-- From an ordered registry a handler takes away no entry but its own: what another session serves,
-- it still serves.
pub remove-others :
    (old t : Bytes) {s s' : ℕ} (r : Registry)
    → IsOrdered r
    → s ≢ s'
    → get t r ≡ some s'
    → get t (remove old s r) ≡ some s'
unfolding get
remove-others old t {s} {s'} r o n h = lookup-remove old t s r o ∙ ground (arith, equals_iff old t)

pub remove-IsOrdered : (t : Bytes) (s : ℕ) (r : Registry) → IsOrdered r → IsOrdered (remove t s r)
unfolding remove
remove-IsOrdered t s r o = elim (Bool-cases (is_ours s (lookup t r))) [
  | inl mine ↦ rw mine (IsOrdered-erase t r o)
  | inr other ↦ rw other o
]

pub rebind-IsOrdered :
    (old t : Bytes) (s : ℕ) (r : Registry) → IsOrdered r → IsOrdered (rebind old t s r)
unfolding rebind add
rebind-IsOrdered old t s r o = elim (Bool-cases (not (is_empty old) && not (equals old t))) [
  | inl moved ↦ rw moved (IsOrdered-insert t s (remove old s r) (remove-IsOrdered old s r o))
  | inr kept ↦ rw kept (IsOrdered-insert t s r o)
]

not_empty : (x : Bytes) → x ≢ [] → is_empty x ≡ false
not_empty [] n = absurd (n refl)
not_empty (c ∷ x) n = refl

-- Behind `rebind` a name is the new one, of this session; or it was there before, and if it was of
-- this session, it is not the old name, or the old name was empty.
pub lookup-rebind :
    (old t : Bytes) (s : ℕ) (r : Registry) (t' : Bytes) {s' : ℕ}
    → IsOrdered r
    → lookup t' (rebind old t s r) ≡ some s'
    → ((t ≡ t') × (s ≡ s')) ⊎ ((t ≢ t') × (lookup t' r ≡ some s') × (s ≡ s' → t' ≢ [] → old ≢ t'))
unfolding rebind add
lookup-rebind old t s r t' {s'} o h = elim (Bool-cases (equals t t')) [
  | inl same ↦ inl ((equals_iff t t').0 same, ground (arith, after_insert))
  | inr other ↦ inr (
    λ e. absurd (ground (arith, equals_iff t t')),
    ground (arith, after_insert, lookup-remove old t' s r o),
    λ e n q. absurd (
        ground (
          arith,
          after_insert,
          lookup-remove old t' s r o,
          (equals_iff old t').1 q,
          (equals_iff old t).0,
          not_empty old (λ x. n (sym q ∙ x)),
          e,
          ap (λ x. lookup x r) q,
          equals_iff t t',
          q,
        )),
  )
]
  where
    after_insert :
        (lookup t' (add t s (remove old s r))
          ≡ (if equals t t' then some s else lookup t' (remove old s r)))
        × (lookup t' (add t s r) ≡ (if equals t t' then some s else lookup t' r))
    after_insert = (lookup-insert t t' s (remove old s r), lookup-insert t t' s r)
