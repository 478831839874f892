-- ===== src/MemSinks/Masked.antt =====
-- What a read of the tree of sim/zt_sim.cpp shows.
use zero_touch.Base.{All, Bool-cases, List, [], false, inl, inr, refl, some, ◌++◌, ◌∙◌, ◌∷◌, ◌≡◌}
use zero_touch.Base.Bytes.{Bytes, equals, equals_refl}
use zero_touch.Base.Keys.{nat_ord, text_ord}
use zero_touch.Base.Map.{insert, lookup, lookup-insert}
use zero_touch.MemSinks.{mem_get, mem_rows, mem_set, mem_write}
use zero_touch.Policy.{default_deny_tokens, is_sensitive_path}
use zero_touch.SimTree.{Tree}

-- Two trees that hold the same at every path that is not sensitive.
abbrev pub AgreeOutside : Tree → Tree → Type 0
AgreeOutside t t' =
    (xp : Bytes) → is_sensitive_path xp default_deny_tokens ≡ false → lookup xp t ≡ lookup xp t'

mem_rows-masked :
    (xpaths : List Bytes) (t t' : Tree) → AgreeOutside t t' → mem_rows xpaths t ≡ mem_rows xpaths t'
unfolding mem_rows
mem_rows-masked [] t t' h = refl
mem_rows-masked (xp ∷ xps) t t' h = elim (Bool-cases (is_sensitive_path xp default_deny_tokens)) [
  | inl hidden ↦ rw (hidden, mem_rows-masked xps t t' h) refl
  | inr shown ↦ rw (shown, h xp shown, mem_rows-masked xps t t' h) refl
]

-- Two trees that differ at sensitive paths only give the same result to every read.
pub mem_get-masked :
    (t t' : Tree) (xpaths : List Bytes) → AgreeOutside t t' → mem_get t xpaths ≡ mem_get t' xpaths
unfolding mem_get
mem_get-masked t t' xpaths h = rw (mem_rows-masked xpaths t t' h) refl

mem_write-others :
    (xp : Bytes) (after : List (Bytes × Bytes)) (t : Tree)
    → All (λ u. equals u.0 xp ≡ false) after
    → lookup xp (mem_write after t).1 ≡ lookup xp t
unfolding mem_write
mem_write-others xp [] t h = refl
mem_write-others xp ((x, v) ∷ after) t h =
    mem_write-others xp after (insert x v t) h.1 ∙ lookup-insert x xp v t ∙ rw h.0 refl

lookup-mem_write :
    (before after : List (Bytes × Bytes)) (xp val : Bytes) (t : Tree)
    → All (λ u. equals u.0 xp ≡ false) after
    → lookup xp (mem_write (before ++ (xp, val) ∷ after) t).1 ≡ some val
unfolding mem_write
lookup-mem_write [] after xp val t h =
    mem_write-others xp after (insert xp val t) h
    ∙ lookup-insert xp xp val t
    ∙ rw (equals_refl xp) refl
lookup-mem_write ((x, v) ∷ before) after xp val t h =
    lookup-mem_write before after xp val (insert x v t) h

-- A path that is not sensitive shows, once it was written, the value of the last update that named
-- it, and no error, whatever was written before and elsewhere.
pub mem_get-mem_set :
    (t : Tree) (before after : List (Bytes × Bytes)) (xp val : Bytes)
    → is_sensitive_path xp default_deny_tokens ≡ false
    → All (λ u. equals u.0 xp ≡ false) after
    → (mem_get (mem_set t (before ++ (xp, val) ∷ after)).1 (xp ∷ [])).paths
      ≡ record { xpath = xp; value = val; error = [] } ∷ []
unfolding mem_get mem_rows mem_set
mem_get-mem_set t before after xp val shown h =
    rw (shown, lookup-mem_write before after xp val t h) refl
