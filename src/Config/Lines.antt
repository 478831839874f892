-- ===== src/Config/Lines.antt =====
-- One line of the file of src/config.cpp: `key = value`.
use zero_touch.Base.{
  [], ap, append-nil, append_assoc, ap₂, arith, drop-past, false, is_empty, length, refl, sym,
  take-length_append, true, ℕ, ◌++◌, ◌+◌, ◌∙◌, ◌∷◌, ◌≡◌, ◌≢◌,
}
use zero_touch.Base.Bytes.{Bytes, codes, find, find-append, find-lacks, lacks}
use zero_touch.Base.Text.{is_blank, strip_comment, trim}
use zero_touch.Base.Trim.{IsTrimmed, ends_blank, starts_blank, trim-IsTrimmed, trim-around}
use zero_touch.Config.{AppConfig, assign, assign_at, config_line}

-- A value that can be written on a line: no comment mark or newline in it, no blank at its ends.
pub record IsClean (s : Bytes) : Type 0 where
  pub no_mark : lacks b'#' s ≡ true
  pub no_newline : lacks b'\n' s ≡ true
  pub trimmed : IsTrimmed s

-- A key is not empty, and has no `=` besides.
pub record IsKey (s : Bytes) : Type 0 where
  pub clean : IsClean s
  pub no_equals : lacks b'=' s ≡ true
  pub not_empty : s ≢ []

abbrev pub line : Bytes → Bytes → Bytes
line key val = key ++ (codes " = " ++ val)

pub lacks-append :
    (c : ℕ) (a b : Bytes) → lacks c a ≡ true → lacks c b ≡ true → lacks c (a ++ b) ≡ true
unfolding lacks
lacks-append c [] b h k = k
lacks-append c (x ∷ a) b h k = ground (arith, lacks-append c a b)

pub lacks-line :
    (c : ℕ) (key val : Bytes)
    → lacks c (codes " = ") ≡ true
    → lacks c key ≡ true
    → lacks c val ≡ true
    → lacks c (line key val) ≡ true
lacks-line c key val h k l =
    lacks-append c key (codes " = " ++ val) k (lacks-append c (codes " = ") val h l)

pub ends_blank-append :
    (a : Bytes) (c : ℕ) (b : Bytes) → ends_blank (a ++ c ∷ b) ≡ ends_blank (c ∷ b)
ends_blank-append [] c b = refl
ends_blank-append (x ∷ []) c b = refl
ends_blank-append (x ∷ y ∷ a) c b = ends_blank-append (y ∷ a) c b

pub starts_blank-append : (a b : Bytes) → a ≢ [] → starts_blank (a ++ b) ≡ starts_blank a
starts_blank-append [] b n = absurd (n refl)
starts_blank-append (x ∷ a) b n = refl

-- The line behind `trim`: the blank behind the `=` goes where there is no value.
abbrev trimmed_line : Bytes → Bytes → Bytes
trimmed_line key [] = key ++ codes " ="
trimmed_line key (v ∷ val) = line key (v ∷ val)

trim-line :
    (key val : Bytes) → IsKey key → IsTrimmed val → trim (line key val) ≡ trimmed_line key val
trim-line key [] k t =
    ap trim (sym (append_assoc key (codes " =") (codes " ")))
    ∙ trim-around [] (key ++ codes " =") (codes " ") refl
        (
          starts_blank-append key (codes " =") k.not_empty ∙ k.clean.trimmed.0,
          ends_blank-append key b' ' (codes "=") ∙ unfold is_blank in refl,
        )
        (unfold is_blank in refl)
trim-line key (v ∷ val) k t = trim-IsTrimmed (line key (v ∷ val)) (
  starts_blank-append key (codes " = " ++ v ∷ val) k.not_empty ∙ k.clean.trimmed.0,
  ends_blank-append key b' ' (b'=' ∷ b' ' ∷ v ∷ val) ∙ t.1,
)

-- `assign_at` where the line splits at its first `=`.
assign_at-split :
    (before rest : Bytes) (c : AppConfig)
    → lacks b'=' before ≡ true
    → assign_at (before ++ b'=' ∷ rest) (find b'=' (before ++ b'=' ∷ rest)) c
      ≡ assign (trim before) (trim rest) c
unfolding assign_at
assign_at-split before rest c h = rw (find-append b'=' before rest h) (
    ap₂ (λ a b. assign (trim a) (trim b) c) (take-length_append before (b'=' ∷ rest))
      (drop-past before b'=' rest (length before + 1) (omega arith)))

assign_at-line :
    (key rest val : Bytes) (c : AppConfig)
    → IsKey key
    → trim rest ≡ val
    → assign_at (key ++ b' ' ∷ b'=' ∷ rest) (find b'=' (key ++ b' ' ∷ b'=' ∷ rest)) c
      ≡ assign key val c
assign_at-line key rest val c k t =
    ap (λ l. assign_at l (find b'=' l) c) (sym (append_assoc key (b' ' ∷ []) (b'=' ∷ rest)))
    ∙ assign_at-split (key ++ b' ' ∷ []) rest c
        (lacks-append b'=' key (b' ' ∷ []) k.no_equals (unfold lacks in refl))
    ∙ ap₂ (λ a b. assign a b c)
        (trim-around [] key (b' ' ∷ []) refl k.clean.trimmed (unfold is_blank in refl)) t

full_line : (key val : Bytes) → key ≢ [] → is_empty (trimmed_line key val) ≡ false
full_line [] val n = absurd (n refl)
full_line (x ∷ key) [] n = refl
full_line (x ∷ key) (v ∷ val) n = refl

assign_trimmed :
    (key val : Bytes) (c : AppConfig)
    → IsKey key
    → IsTrimmed val
    → assign_at (trimmed_line key val) (find b'=' (trimmed_line key val)) c ≡ assign key val c
assign_trimmed key [] c k t = assign_at-line key [] [] c k (trim-IsTrimmed [] t)
assign_trimmed key (v ∷ val) c k t = assign_at-line key (b' ' ∷ v ∷ val) (v ∷ val) c k (
    ap trim (ap (◌∷◌ b' ') (sym (append-nil (v ∷ val))))
    ∙ trim-around (b' ' ∷ []) (v ∷ val) [] (unfold is_blank in refl) t refl)

pub strip_comment-clean : (s : Bytes) → lacks b'#' s ≡ true → strip_comment s ≡ s
unfolding strip_comment
strip_comment-clean s h = rw (find-lacks b'#' s h, strip_comment)

-- A line with a key and a value assigns the value to the key.
pub config_line-line :
    (key val : Bytes) (c : AppConfig)
    → IsKey key
    → IsClean val
    → config_line (line key val) c ≡ assign key val c
unfolding config_line
config_line-line key val c k v =
    rw
      (strip_comment-clean (line key val)
        (lacks-line b'#' key val (unfold lacks in refl) k.clean.no_mark v.no_mark))
      (rw (trim-line key val k v.trimmed)
        (rw (full_line key val k.not_empty) (assign_trimmed key val c k v.trimmed)))
