-- ===== src/Command/Grammar.antt =====
-- What `parse_gnmi` of src/gnmi_command.cpp accepts, and what it makes of it.
use zero_touch.Base.{
  ==_iff, All, Bool-cases, List, [], ap, arith, false, get_or, inl, inr, length, map, refl, suc,
  sym, true, ◌==◌, ◌↔◌, ◌∙◌, ◌∷◌, ◌≡◌, ◌≢◌,
}
use zero_touch.Base.Bytes.{Bytes, codes, equals, equals_iff, lower, to_lower}
use zero_touch.Command.{
  csv, get, ieq, ieq_loop, no_command, pair_up, parse_gnmi, parse_operation, parse_set, set,
}
use zero_touch.Command.Csv.{IsPiece, csv-join_csv, join_csv}

ieq_loop-lower : (a b : Bytes) → length a ≡ length b → (ieq_loop a b ≡ true) ↔ (lower a ≡ b)
unfolding ieq_loop
ieq_loop-lower [] [] h = (λ _. refl, λ _. refl)
ieq_loop-lower [] (y ∷ b) h = absurd (omega arith)
ieq_loop-lower (x ∷ a) [] h = absurd (omega arith)
ieq_loop-lower (x ∷ a) (y ∷ b) h =
    ground (arith, ieq_loop-lower a b (omega arith), ==_iff (to_lower x) y)

length-lower : (a : Bytes) → length (lower a) ≡ length a
length-lower [] = refl
length-lower (x ∷ a) = ap suc (length-lower a)

-- `ieq` compares the lower case of its first argument.
pub ieq_iff : (a b : Bytes) → (ieq a b ≡ true) ↔ (lower a ≡ b)
unfolding ieq
ieq_iff a b = elim (Bool-cases (length a == length b)) [
  | inl same ↦ rw same (ieq_loop-lower a b ((==_iff _ _).0 same))
  | inr other ↦ rw other (λ h. cc, λ h. absurd (ground (arith, ap length h, length-lower a)))
]

-- The tokens of a command, whatever the case of the keywords, with its two arguments.
pub record Keywords (iot gnmi op : Bytes) (word : Bytes) : Type 0 where
  pub is_iot : lower iot ≡ codes "iot"
  pub is_gnmi : lower gnmi ≡ codes "gnmi"
  pub is_op : lower op ≡ word

pub map-pair_up :
    (xs vs : List Bytes)
    → length xs ≡ length vs
    → (map (λ p. p.0) (pair_up xs vs) ≡ xs) × (map (λ p. p.1) (pair_up xs vs) ≡ vs)
unfolding pair_up
map-pair_up [] [] h = (refl, refl)
map-pair_up [] (v ∷ vs) h = absurd (omega arith)
map-pair_up (x ∷ xs) [] h = absurd (omega arith)
map-pair_up (x ∷ xs) (v ∷ vs) h =
    let ih = map-pair_up xs vs (omega arith) in (ap (◌∷◌ x) ih.0, ap (◌∷◌ v) ih.1)

Keywords-of :
    (iot gnmi op word : Bytes)
    → ieq iot (codes "iot") ≡ true
    → ieq gnmi (codes "gnmi") ≡ true
    → ieq op word ≡ true
    → Keywords iot gnmi op word
Keywords-of iot gnmi op word a b c = record {
  is_iot = (ieq_iff iot (codes "iot")).0 a;
  is_gnmi = (ieq_iff gnmi (codes "gnmi")).0 b;
  is_op = (ieq_iff op word).0 c;
}

other_word : (op w v : Bytes) → lower op ≡ w → equals w v ≡ false → ieq op v ≡ false
other_word op w v h n = elim (Bool-cases (ieq op v)) [
  | inl hit ↦ absurd (ground (arith, (equals_iff w v).1 (sym h ∙ (ieq_iff op v).0 hit)))
  | inr miss ↦ miss
]

All-fst :
    (u : List (Bytes × Bytes))
    → All (λ p. IsPiece p.0 × IsPiece p.1) u
    → All IsPiece (map (λ p. p.0) u)
All-fst [] a = tt
All-fst (p ∷ u) a = (a.0.0, All-fst u a.1)

All-snd :
    (u : List (Bytes × Bytes))
    → All (λ p. IsPiece p.0 × IsPiece p.1) u
    → All IsPiece (map (λ p. p.1) u)
All-snd [] a = tt
All-snd (p ∷ u) a = (a.0.1, All-snd u a.1)

-- Tokens that make a SET.
pub record SetShape (t : List Bytes) (updates : List (Bytes × Bytes)) : Type 0 where
  pub iot : Bytes
  pub gnmi : Bytes
  pub op : Bytes
  pub xs : Bytes
  pub vs : Bytes
  pub rest : List Bytes
  pub tokens : t ≡ iot ∷ gnmi ∷ op ∷ xs ∷ vs ∷ rest
  pub keywords : Keywords iot gnmi op (codes "set")
  pub paths : map (λ p. p.0) updates ≡ csv xs
  pub values : map (λ p. p.1) updates ≡ csv vs

parse_set-set :
    (xs vs : List Bytes)
    → (parse_set xs vs).kind ≡ set
    → (map (λ p. p.0) (parse_set xs vs).updates ≡ xs)
      × (map (λ p. p.1) (parse_set xs vs).updates ≡ vs)
unfolding parse_set
parse_set-set xs vs h = ground (arith, map-pair_up xs vs)

-- A SET comes from the three keywords and two comma lists of one length: the i-th update is the
-- i-th path with the i-th value.
pub parse_gnmi-set :
    (t : List Bytes) → (parse_gnmi t).kind ≡ set → SetShape t (parse_gnmi t).updates
unfolding parse_gnmi parse_operation
parse_gnmi-set [] h = cc
parse_gnmi-set (iot ∷ []) h = cc
parse_gnmi-set (iot ∷ gnmi ∷ []) h = absurd (ground arith)
parse_gnmi-set (iot ∷ gnmi ∷ op ∷ []) h = absurd (ground arith)
parse_gnmi-set (iot ∷ gnmi ∷ op ∷ xs ∷ []) h = absurd (ground arith)
parse_gnmi-set (iot ∷ gnmi ∷ op ∷ xs ∷ vs ∷ rest) h = record {
  iot = iot;
  gnmi = gnmi;
  op = op;
  xs = xs;
  vs = vs;
  rest = rest;
  tokens = refl;
  keywords = Keywords-of iot gnmi op (codes "set") (ground arith) (ground arith) (ground arith);
  paths = ground (arith, parse_set-set (csv xs) (csv vs));
  values = ground (arith, parse_set-set (csv xs) (csv vs));
}

-- Tokens that make a GET.
pub record GetShape (t : List Bytes) (xpaths : List Bytes) : Type 0 where
  pub iot : Bytes
  pub gnmi : Bytes
  pub op : Bytes
  pub xs : Bytes
  pub rest : List Bytes
  pub tokens : t ≡ iot ∷ gnmi ∷ op ∷ xs ∷ rest
  pub keywords : Keywords iot gnmi op (codes "get")
  pub paths : xpaths ≡ csv xs

parse_set-ne-get : (xs vs : List Bytes) → (parse_set xs vs).kind ≢ get
unfolding parse_set
parse_set-ne-get xs vs h = ground arith

-- A GET comes from the three keywords and one comma list, whose pieces are its paths.
pub parse_gnmi-get : (t : List Bytes) → (parse_gnmi t).kind ≡ get → GetShape t (parse_gnmi t).xpaths
unfolding parse_gnmi parse_operation
parse_gnmi-get [] h = cc
parse_gnmi-get (iot ∷ []) h = cc
parse_gnmi-get (iot ∷ gnmi ∷ []) h = absurd (ground arith)
parse_gnmi-get (iot ∷ gnmi ∷ op ∷ []) h = absurd (ground arith)
parse_gnmi-get (iot ∷ gnmi ∷ op ∷ xs ∷ rest) h = record {
  iot = iot;
  gnmi = gnmi;
  op = op;
  xs = xs;
  rest = rest;
  tokens = refl;
  keywords =
      Keywords-of iot gnmi op (codes "get") (ground arith) (ground arith)
        (ground (arith, parse_set-ne-get (csv xs) (csv (get_or rest 0 []))));
  paths = ground (arith, parse_set-ne-get (csv xs) (csv (get_or rest 0 [])));
}

pair_up-map : (u : List (Bytes × Bytes)) → pair_up (map (λ p. p.0) u) (map (λ p. p.1) u) ≡ u
unfolding pair_up
pair_up-map [] = refl
pair_up-map (p ∷ u) = ap (◌∷◌ p) (pair_up-map u)

length-map {ℓ κ} :
    {A : Type ℓ} {B : Type κ} (f : A → B) (xs : List A) → length (map f xs) ≡ length xs
length-map f [] = refl
length-map f (x ∷ xs) = ap suc (length-map f xs)

-- What a sender writes for the updates `u`: each list of pieces joined by commas.
abbrev pub set_message : Bytes → Bytes → Bytes → List (Bytes × Bytes) → List Bytes
set_message iot gnmi op u =
    iot ∷ gnmi ∷ op ∷ join_csv (map (λ p. p.0) u) ∷ join_csv (map (λ p. p.1) u) ∷ []

set_of_csv :
    (iot gnmi op x v : Bytes) {u : List (Bytes × Bytes)}
    → Keywords iot gnmi op (codes "set")
    → csv x ≡ map (λ p. p.0) u
    → csv v ≡ map (λ p. p.1) u
    → parse_gnmi (iot ∷ gnmi ∷ op ∷ x ∷ v ∷ []) ≡ record no_command { kind = set; updates = u }
unfolding parse_gnmi parse_operation parse_set
set_of_csv iot gnmi op x v {u} k ex ev = ground (
  arith,
  (ieq_iff iot (codes "iot")).1 k.is_iot,
  (ieq_iff gnmi (codes "gnmi")).1 k.is_gnmi,
  (ieq_iff op (codes "set")).1 k.is_op,
  other_word op (codes "set") (codes "get") k.is_op (unfold equals in refl),
  ex,
  ev,
  pair_up-map u,
  length-map (λ (p : Bytes × Bytes). p.0) u,
  length-map (λ (p : Bytes × Bytes). p.1) u,
)

-- Updates whose paths and values hold no comma come back from the message written for them, for
-- keywords in any case.
pub parse_gnmi-set_message :
    (iot gnmi op : Bytes) (u : List (Bytes × Bytes))
    → Keywords iot gnmi op (codes "set")
    → u ≢ []
    → All (λ p. IsPiece p.0 × IsPiece p.1) u
    → parse_gnmi (set_message iot gnmi op u) ≡ record no_command { kind = set; updates = u }
parse_gnmi-set_message iot gnmi op [] k n a = absurd (n refl)
parse_gnmi-set_message iot gnmi op (p ∷ u) k n a =
    set_of_csv iot gnmi op (join_csv (map (λ p. p.0) (p ∷ u))) (join_csv (map (λ p. p.1) (p ∷ u))) k
      (csv-join_csv (map (λ p. p.0) (p ∷ u)) (λ e. cc) (All-fst (p ∷ u) a))
      (csv-join_csv (map (λ p. p.1) (p ∷ u)) (λ e. cc) (All-snd (p ∷ u) a))

-- One path that holds no comma comes back from the message written for it.
pub parse_gnmi-get_message :
    (iot gnmi op x : Bytes)
    → Keywords iot gnmi op (codes "get")
    → IsPiece x
    → parse_gnmi (iot ∷ gnmi ∷ op ∷ x ∷ []) ≡ record no_command { kind = get; xpaths = x ∷ [] }
unfolding parse_gnmi parse_operation
parse_gnmi-get_message iot gnmi op x k a = ground (
  arith,
  (ieq_iff iot (codes "iot")).1 k.is_iot,
  (ieq_iff gnmi (codes "gnmi")).1 k.is_gnmi,
  (ieq_iff op (codes "get")).1 k.is_op,
  csv-join_csv (x ∷ []) (λ e. cc) (a, tt),
)
