-- ===== src/Console/ReadBack.antt =====
-- What was written by SMS into the tree of sim/zt_sim.cpp is read back by SMS.
use zero_touch.AtModem.Pieces.{after}
use zero_touch.Base.{
  All, Bool-cases, List, [], ap, false, inl, inr, is_empty, leb, length, none, refl, true, ℕ, ◌&&◌,
  ◌++◌, ◌∙◌, ◌∷◌, ◌≡◌, ◌≢◌,
}
use zero_touch.Base.Bytes.{Bytes, codes, equals}
use zero_touch.Base.Num.{to_string}
use zero_touch.Bridge.{Bridge, admit, on_sms, reply_to, route}
use zero_touch.Classic.{Engine}
use zero_touch.Command.{GnmiCommand, get, no_command, parse_gnmi, set}
use zero_touch.Command.Csv.{IsPiece}
use zero_touch.Command.Grammar.{
  Keywords, parse_gnmi-get_message, parse_gnmi-set_message, set_message,
}
use zero_touch.Config.Lines.{line}
use zero_touch.Console.{Sim, console_send, mem_sink, on_text, sim_access, sim_allows, sim_bridge}
use zero_touch.Console.Authority.{on_text-tree, reply_to-tree}
use zero_touch.Daemon.{SessionConfig, SessionStore, level_of}
use zero_touch.Executor.{Access, admin, dispatch, handle, handle_get, handle_set, no_access, viewer}
use zero_touch.MemSinks.{mem_get, mem_rows, mem_set}
use zero_touch.MemSinks.Masked.{mem_get-mem_set}
use zero_touch.Policy.{default_deny_tokens, is_sensitive_path}
use zero_touch.Reply.{clamp_sms, clamp_to, format_get, format_rows, format_set, max_reply, row_text}
use zero_touch.SimTree.{Tree}

is_empty-clamp_sms : (s : Bytes) → is_empty s ≡ false → is_empty (clamp_sms s) ≡ false
unfolding clamp_sms clamp_to
is_empty-clamp_sms [] h = h
is_empty-clamp_sms (c ∷ s) h = elim (Bool-cases (leb (length (c ∷ s)) max_reply)) [
  | inl short ↦ rw short refl
  | inr long ↦ rw long refl
]

-- The reply to a read of one path.
is_empty-format_get : (x : Bytes) (t : Tree) → is_empty (format_get (mem_get t (x ∷ []))) ≡ false
unfolding format_get mem_get format_rows mem_rows
is_empty-format_get x t =
    is_empty-clamp_sms (format_rows true (codes "OK GNMI GET ") (mem_rows (x ∷ []) t)) refl

format_get-mem_get :
    (x v : Bytes) (t : Tree)
    → (mem_get t (x ∷ [])).paths ≡ record { xpath = x; value = v; error = [] } ∷ []
    → format_get (mem_get t (x ∷ [])) ≡ clamp_sms (codes "OK GNMI GET " ++ (x ++ codes "=" ++ v))
unfolding format_get mem_get format_rows row_text
format_get-mem_get x v t e = ap (λ rows. clamp_sms (format_rows true (codes "OK GNMI GET ") rows)) e

All-middle :
    (P : Bytes × Bytes → Type 0) (before after : List (Bytes × Bytes)) (u : Bytes × Bytes)
    → All P (before ++ u ∷ after)
    → P u
All-middle P [] after u h = h.0
All-middle P (b ∷ before) after u h = All-middle P before after u h.1

middle-ne-nil : (before after : List (Bytes × Bytes)) (u : Bytes × Bytes) → before ++ u ∷ after ≢ []
middle-ne-nil [] after u e = cc
middle-ne-nil (b ∷ before) after u e = cc

-- `/from` with a number.
abbrev pub as_sender : {S : Type 0} → Bytes → Sim S → Sim S
as_sender sender s = record s { from = sender }

module _ {C S : Type 0} (engine : Engine C S Tree) (store : SessionStore S)
    (config_of : S → SessionConfig) (sha256_hex : Bytes → Bytes)
    (tokenize : Bytes → List Bytes) where
  abbrev level_at : ℕ → Sim S → Access
  level_at now s = level_of store (store.session s.sessions s.from now)

  abbrev sms_at : ℕ → Bytes → Sim S → Sim S
  sms_at now line s = on_text engine store config_of sha256_hex tokenize none now line s

  -- An SMS of a sender, who is made the current one before, as `/from` does.
  abbrev pub sms_from : ℕ → Bytes → Bytes → Sim S → Sim S
  sms_from now sender line s =
      on_text engine store config_of sha256_hex tokenize none now line (as_sender sender s)

  -- Several SMS, each at a time and of a sender.
  abbrev pub texts : List (ℕ × Bytes × Bytes) → Sim S → Sim S
  texts [] s = s
  texts ((now, sender, line) ∷ more) s = texts more (sms_from now sender line s)

  -- None of them comes from a sender who is logged in as admin at that time.
  abbrev pub Powerless : List (ℕ × Bytes × Bytes) → Sim S → Type 0
  Powerless [] s = Unit
  Powerless ((now, sender, line) ∷ more) s =
      (level_of store (store.session s.sessions sender now) ≢ admin)
      × Powerless more (sms_from now sender line s)

  -- The SMS of a sender are taken.
  abbrev pub IsLetIn : Bytes → Sim S → Type 0
  IsLetIn sender s = (s.enabled && store.allows s.sessions sender) ≡ true

  texts-tree :
      (more : List (ℕ × Bytes × Bytes)) (s : Sim S)
      → Powerless more s
      → (texts more s).tree ≡ s.tree
  texts-tree [] s h = refl
  texts-tree ((now, sender, line) ∷ more) s h =
      texts-tree more (sms_from now sender line s) h.1
      ∙ on_text-tree engine store config_of sha256_hex tokenize now line (as_sender sender s) h.0

  -- An SMS that is let in, by its command.
  on_text-route :
      (now : ℕ) (line : Bytes) (g : GnmiCommand) (s : Sim S)
      → parse_gnmi (tokenize line) ≡ g
      → IsLetIn s.from s
      → sms_at now line s
        ≡ route g.kind
            (sim_bridge engine store config_of sha256_hex tokenize none now)
            g
            (record { sender = s.from; text = line; ts = to_string now })
            s
  unfolding on_text on_sms admit sim_allows
  on_text-route now line g s e ok = rw (ok, e) refl

  abbrev bridge : ℕ → Bridge (Sim S)
  bridge now = sim_bridge engine store config_of sha256_hex tokenize none now

  handle_by_admin :
      (now : ℕ) (g : GnmiCommand) (s : Sim S)
      → level_at now s ≡ admin
      → g.kind ≡ set
      → handle (bridge now).executor g s.from s ≡ (
        format_set (mem_set s.tree g.updates).0 (length g.updates),
        record s { tree = (mem_set s.tree g.updates).1 },
      )
  unfolding handle dispatch handle_set sim_access
  handle_by_admin now g s is_admin e = rw (is_admin, e) refl

  handle_get_by :
      (now : ℕ) (g : GnmiCommand) (s : Sim S) (level : Access)
      → level ≢ no_access
      → handle_get mem_sink level g s ≡ (format_get (mem_get s.tree g.xpaths), s)
  unfolding handle_get
  handle_get_by now g s no_access h = absurd (h refl)
  handle_get_by now g s viewer h = refl
  handle_get_by now g s admin h = refl

  -- The SMS of an admin writes its updates.
  on_text-set :
      (now : ℕ) (line : Bytes) (u : List (Bytes × Bytes)) (s : Sim S)
      → parse_gnmi (tokenize line) ≡ record no_command { kind = set; updates = u }
      → IsLetIn s.from s
      → level_at now s ≡ admin
      → (sms_at now line s).tree ≡ (mem_set s.tree u).1
  unfolding route
  on_text-set now line u s e ok is_admin =
      let g : GnmiCommand = record no_command { kind = set; updates = u } in
      ap (λ t. t.tree)
        (on_text-route now line g s e ok
          ∙ ap (reply_to (bridge now) s.from) (handle_by_admin now g s is_admin refl))
      ∙ reply_to-tree engine store config_of sha256_hex tokenize now s.from _ _

  -- The SMS of a user reads the tree.
  on_text-get :
      (now : ℕ) (line x : Bytes) (s : Sim S)
      → parse_gnmi (tokenize line) ≡ record no_command { kind = get; xpaths = x ∷ [] }
      → IsLetIn s.from s
      → level_at now s ≢ no_access
      → (sms_at now line s).sent ≡ s.sent ++ (s.from, format_get (mem_get s.tree (x ∷ []))) ∷ []
  unfolding route handle dispatch sim_access
  on_text-get now line x s e ok is_user =
      let g : GnmiCommand = record no_command { kind = get; xpaths = x ∷ [] } in
      ap (λ t. t.sent)
        (on_text-route now line g s e ok
          ∙ ap (reply_to (bridge now) s.from) (handle_get_by now g s (level_at now s) is_user))
      ∙ answered
    where
      answered :
          (reply_to (bridge now) s.from (format_get (mem_get s.tree (x ∷ [])), s)).sent
          ≡ s.sent ++ (s.from, format_get (mem_get s.tree (x ∷ []))) ∷ []
      answered = unfold reply_to console_send in rw (is_empty-format_get x s.tree) refl

  -- Read your writes, by SMS: after an admin's SET of several paths, and any SMS of other senders who
  -- are not admin, a GET of one of the paths by any user brings one reply to that user: the path and
  -- its value, cut as any reply, if no later update of the SET names the path, the path is not
  -- sensitive, no path or value holds a comma, and both SMS are let in and tokenized as written.
  pub read_back :
      (set_at read_at : ℕ) (writer reader set_line read_line iot gnmi op iot' gnmi' op' x v : Bytes)
      (before after : List (Bytes × Bytes)) (others : List (ℕ × Bytes × Bytes)) (s : Sim S)
      → Keywords iot gnmi op (codes "set")
      → Keywords iot' gnmi' op' (codes "get")
      → All (λ p. IsPiece p.0 × IsPiece p.1) (before ++ (x, v) ∷ after)
      → tokenize set_line ≡ set_message iot gnmi op (before ++ (x, v) ∷ after)
      → tokenize read_line ≡ iot' ∷ gnmi' ∷ op' ∷ x ∷ []
      → All (λ u. equals u.0 x ≡ false) after
      → is_sensitive_path x default_deny_tokens ≡ false
      → IsLetIn writer s
      → level_of store (store.session s.sessions writer set_at) ≡ admin
      → let s1 = sms_from set_at writer set_line s in
        let s2 = texts others s1 in
        Powerless others s1
        → IsLetIn reader s2
        → level_of store (store.session s2.sessions reader read_at) ≢ no_access
        → (sms_from read_at reader read_line s2).sent
          ≡ s2.sent ++ (reader, clamp_sms (codes "OK GNMI GET " ++ (x ++ codes "=" ++ v))) ∷ []
  read_back set_at read_at writer reader set_line read_line iot gnmi op iot' gnmi' op' x v before
        after others s k k' pieces e e' last shown ok is_admin powerless ok' is_user =
      let u = before ++ (x, v) ∷ after in
      let s1 = sms_from set_at writer set_line s in
      let s2 = texts others s1 in
      let wrote =
        on_text-set set_at set_line u (as_sender writer s)
          (ap parse_gnmi e
            ∙ parse_gnmi-set_message iot gnmi op u k (middle-ne-nil before after (x, v)) pieces)
          ok is_admin in
      let asks =
        ap parse_gnmi e'
        ∙ parse_gnmi-get_message iot' gnmi' op' x k'
            (All-middle (λ p. IsPiece p.0 × IsPiece p.1) before after (x, v) pieces).0 in
      on_text-get read_at read_line x (as_sender reader s2) asks ok' is_user
      ∙ ap (λ reply. s2.sent ++ (reader, reply) ∷ [])
          (ap (λ t. format_get (mem_get t (x ∷ []))) (texts-tree others s1 powerless ∙ wrote)
            ∙ format_get-mem_get x v (mem_set s.tree u).1
                (mem_get-mem_set s.tree before after x v shown last))
