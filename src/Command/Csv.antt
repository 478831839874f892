-- ===== src/Command/Csv.antt =====
-- The comma lists of src/gnmi_command.cpp: splitting inverts joining.
use zero_touch.Base.{
  ==_iff, All, Bool-cases, List, [], ap, append-nil, append_assoc, arith, false, inl, inr, refl,
  sym, true, ℕ, ◌++◌, ◌==◌, ◌∙◌, ◌∷◌, ◌≡◌, ◌≢◌,
}
use zero_touch.Base.Bytes.{Bytes, lacks}
use zero_touch.Command.{csv, csv_from}

-- The pieces with a comma between each two.
abbrev pub join_csv : List Bytes → Bytes
join_csv [] = []
join_csv (p ∷ []) = p
join_csv (p ∷ q ∷ ps) = p ++ b',' ∷ join_csv (q ∷ ps)

abbrev pub IsPiece : Bytes → Type 0
IsPiece p = lacks b',' p ≡ true

csv_from-ne-nil : (cur s : Bytes) → csv_from cur s ≢ []
unfolding csv_from
csv_from-ne-nil cur [] h = cc
csv_from-ne-nil cur (c ∷ s) h = ground (arith, csv_from-ne-nil (cur ++ c ∷ []) s)

join_csv-cons :
    (p : Bytes) (ps : List Bytes) → ps ≢ [] → join_csv (p ∷ ps) ≡ p ++ b',' ∷ join_csv ps
join_csv-cons p [] h = absurd (h refl)
join_csv-cons p (q ∷ ps) h = refl

join_csv-csv_from : (cur s : Bytes) → join_csv (csv_from cur s) ≡ cur ++ s
unfolding csv_from
join_csv-csv_from cur [] = sym (append-nil cur)
join_csv-csv_from cur (c ∷ s) = elim (Bool-cases (c == b',')) [
  | inl comma ↦ rw comma (
      join_csv-cons cur (csv_from [] s) (csv_from-ne-nil [] s)
      ∙ rw (join_csv-csv_from [] s, (==_iff c b',').0 comma))
  | inr plain ↦ rw plain (join_csv-csv_from (cur ++ c ∷ []) s ∙ append_assoc cur (c ∷ []) s)
]

-- Joining the pieces of a token gives the token back.
pub join_csv-csv : (s : Bytes) → join_csv (csv s) ≡ s
unfolding csv
join_csv-csv s = join_csv-csv_from [] s

lacks-concat : (p : Bytes) (c : ℕ) → IsPiece p → (c == b',') ≡ false → IsPiece (p ++ c ∷ [])
unfolding lacks
lacks-concat [] c h k = ground arith
lacks-concat (x ∷ p) c h k = ground (arith, lacks-concat p c)

csv_from-IsPiece : (cur s : Bytes) → IsPiece cur → All IsPiece (csv_from cur s)
unfolding csv_from
csv_from-IsPiece cur [] h = (h, tt)
csv_from-IsPiece cur (c ∷ s) h = elim (Bool-cases (c == b',')) [
  | inl comma ↦ rw comma (h, csv_from-IsPiece [] s (unfold lacks in refl))
  | inr plain ↦ rw plain (csv_from-IsPiece (cur ++ c ∷ []) s (lacks-concat cur c h plain))
]

pub csv-IsPiece : (s : Bytes) → All IsPiece (csv s)
unfolding csv
csv-IsPiece s = csv_from-IsPiece [] s (unfold lacks in refl)

pub csv-ne-nil : (s : Bytes) → csv s ≢ []
unfolding csv
csv-ne-nil s = csv_from-ne-nil [] s

csv_from-append :
    (p cur s : Bytes) → IsPiece p → csv_from cur (p ++ b',' ∷ s) ≡ (cur ++ p) ∷ csv_from [] s
unfolding csv_from lacks
csv_from-append [] cur s h = ap (λ x. x ∷ csv_from [] s) (sym (append-nil cur))
csv_from-append (c ∷ p) cur s h =
    ground (arith, csv_from-append p (cur ++ c ∷ []) s, append_assoc cur (c ∷ []) p)

csv_from_last : (p cur : Bytes) → IsPiece p → csv_from cur p ≡ (cur ++ p) ∷ []
unfolding csv_from lacks
csv_from_last [] cur h = ap (λ x. x ∷ []) (sym (append-nil cur))
csv_from_last (c ∷ p) cur h =
    ground (arith, csv_from_last p (cur ++ c ∷ []), append_assoc cur (c ∷ []) p)

-- And splitting what was joined gives the pieces back.
pub csv-join_csv : (ps : List Bytes) → ps ≢ [] → All IsPiece ps → csv (join_csv ps) ≡ ps
unfolding csv
csv-join_csv [] h a = absurd (h refl)
csv-join_csv (p ∷ []) h a = csv_from_last p [] a.0
csv-join_csv (p ∷ q ∷ ps) h a =
    csv_from-append p [] (join_csv (q ∷ ps)) a.0 ∙ ap (◌∷◌ p) (csv-join_csv (q ∷ ps) (λ e. cc) a.1)
