-- ===== src/Console/Offline.antt =====
-- The simulator of sim/zt_sim.cpp while it is disabled.
use zero_touch.AtModem.{without_cr}
use zero_touch.Base.{
  All, Bool, List, Option, [], false, if◌then◌else◌, is_empty, none, not, refl, some, subst, sym,
  true, ℕ, ◌&&◌, ◌==◌, ◌||◌, ◌∙◌, ◌∷◌, ◌≡◌,
}
use zero_touch.Base.Bytes.{Bytes, codes, equals}
use zero_touch.Base.Num.{to_string}
use zero_touch.Base.Text.{split_csv}
use zero_touch.Bridge.Replies.{on_sms-refused}
use zero_touch.Classic.{Engine}
use zero_touch.Console.{
  Sim, behind_space, console, is_quit, on_clean_line, on_line, on_slash, on_text, sim_allows,
  sim_bridge, word_of,
}
use zero_touch.Daemon.{SessionConfig, SessionStore}
use zero_touch.SimTree.{Tree}

module _ {C S : Type 0} (engine : Engine C S Tree) (store : SessionStore S)
    (config_of : S → SessionConfig) (sha256_hex : Bytes → Bytes)
    (tokenize : Bytes → List Bytes) where
  -- Disabled, with the replies, the tree, the store and the count of commands of another state.
  abbrev pub Quiet : Sim S → Sim S → Type 0
  Quiet s0 s =
      (s.enabled ≡ false)
      × (s.sent ≡ s0.sent)
      × (s.tree ≡ s0.tree)
      × (s.kv ≡ s0.kv)
      × (s.handled ≡ s0.handled)

  abbrev pub Stays : Sim S → Option (Sim S) → Type 0
  Stays s0 none = Unit
  Stays s0 (some s) = Quiet s0 s

  either-Stays :
      (s0 : Sim S) (b : Bool) (x y : Option (Sim S))
      → Stays s0 x
      → Stays s0 y
      → Stays s0 (if b then x else y)
  either-Stays s0 true x y h k = h
  either-Stays s0 false x y h k = k

  skip-Stays :
      (s0 : Sim S) (b : Bool) (x y : Option (Sim S))
      → b ≡ false
      → Stays s0 y
      → Stays s0 (if b then x else y)
  skip-Stays s0 b x y off h = rw off h

  -- The line is the one that switches the simulator on.
  abbrev pub switches_on : Bytes → Bool
  switches_on line = equals (word_of (without_cr line)).0 (codes "/enable")

  on_slash-Stays :
      (s0 : Sim S) (cmd rest : Bytes) (s : Sim S)
      → equals cmd (codes "/enable") ≡ false
      → Quiet s0 s
      → Stays s0 (on_slash engine store config_of sha256_hex tokenize none cmd rest s)
  unfolding on_slash
  on_slash-Stays s0 cmd rest s off h =
      let allowed = record s {
        sessions =
            store.set_config (record (config_of s.sessions) { allowed_numbers = split_csv rest })
              s.sessions;
      } in
      let tail5 = if equals cmd (codes "/tree") then some s else some s in
      let tail4 = if equals cmd (codes "/allow") then some allowed else tail5 in
      let tail3 =
        if equals cmd (codes "/disable") then some (record s { enabled = false }) else tail4 in
      let tail2 =
        if equals cmd (codes "/enable") then some (record s { enabled = true }) else tail3 in
      let tail1 =
        if equals cmd (codes "/from") && not (is_empty rest)
        then some (record s { from = rest })
        else tail2 in
      let tail0 = if equals cmd (codes "/help") then some s else tail1 in
      either-Stays s0 (equals cmd (codes "/quit") || equals cmd (codes "/exit")) none tail0 tt (
        either-Stays s0 (equals cmd (codes "/help")) (some s) tail1 h (
          either-Stays s0 _ (some (record s { from = rest })) tail2 h (
            skip-Stays s0 _ (some (record s { enabled = true })) tail3 off (
              either-Stays s0 _ (some (record s { enabled = false })) tail4
                (refl, h.1, h.2, h.3, h.4)
                (either-Stays s0 _ (some allowed) tail5 h
                  (either-Stays s0 _ (some s) (some s) h h))))))

  -- An SMS is dropped.
  on_text_off :
      (now : ℕ) (line : Bytes) (s : Sim S)
      → s.enabled ≡ false
      → on_text engine store config_of sha256_hex tokenize none now line s ≡ s
  unfolding on_text
  on_text_off now line s off =
      on_sms-refused (sim_bridge engine store config_of sha256_hex tokenize none now)
        (record { sender = s.from; text = line; ts = to_string now }) s
        (sim_allows engine store config_of sha256_hex tokenize none) refl
        (unfold sim_allows in rw off refl)
      ∙ unfold sim_allows in refl

  on_clean_line-Stays :
      (s0 : Sim S) (now : ℕ) (line : Bytes) (s : Sim S)
      → equals (word_of line).0 (codes "/enable") ≡ false
      → Quiet s0 s
      → Stays s0 (on_clean_line engine store config_of sha256_hex tokenize none now line s)
  unfolding on_clean_line
  on_clean_line-Stays s0 now [] s off h = h
  on_clean_line-Stays s0 now (c ∷ line) s off h =
      let (cmd, rest) = word_of (c ∷ line) in
      let slashed =
        on_slash engine store config_of sha256_hex tokenize none cmd (behind_space rest) s in
      let texted = on_text engine store config_of sha256_hex tokenize none now (c ∷ line) s in
      either-Stays s0 (is_quit (c ∷ line)) none (if c == b'/' then slashed else some texted) tt (
        either-Stays s0 (c == b'/') slashed (some texted)
          (on_slash-Stays s0 cmd (behind_space rest) s off h)
          (subst (Quiet s0) (sym (on_text_off now (c ∷ line) s h.0)) h))

  -- While the simulator on its in-memory tree is disabled, no line but `/enable` brings a reply,
  -- changes the tree or the store of the classic commands, or counts as a command, however many lines
  -- are typed: SMS are dropped, whoever sends them.
  pub console-Quiet :
      (lines : List (ℕ × Bytes)) (s0 s : Sim S)
      → All (λ l. switches_on l.1 ≡ false) lines
      → Quiet s0 s
      → Quiet s0 (console engine store config_of sha256_hex tokenize none lines s)
  unfolding console
  console-Quiet [] s0 s h q = q
  console-Quiet ((now, line) ∷ more) s0 s h q =
      after_line s0 s q (on_line engine store config_of sha256_hex tokenize none now line s)
        (unfold on_line in on_clean_line-Stays s0 now (without_cr line) s h.0 q)
        (λ next. console-Quiet more s0 next h.1)
    where
      after_line :
          (s0 s : Sim S)
          → Quiet s0 s
          → (r : Option (Sim S)) → Stays s0 r
          → ((next : Sim S)
              → Quiet s0 next
              → Quiet s0 (console engine store config_of sha256_hex tokenize none more next))
          → Quiet s0 (elim r as (λ _. Sim S) [
            | none ↦ s
            | some next ↦ console engine store config_of sha256_hex tokenize none more next
          ])
      after_line s0 s q none stays ih = q
      after_line s0 s q (some next) stays ih = ih next stays
