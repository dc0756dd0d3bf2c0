-- ===== src/Nonce/Detector.antt =====
-- `NonceReuseDetector` of analysis/nonce_management: a set of the pairs of key and nonce seen so far.
-- The `std::set` is a list in which no pair stands twice.
use perfectvaluecubesymmetri.Base.{
  same_bytes, same_bytes_eq, ℕ, suc, ◌≡◌, refl, ap, ◌∙◌, Bool, true, false, ◌&&◌, ◌||◌, List, [],
  ◌∷◌, arith, if◌then◌else◌, Bytes, length, Bool-cases, inl, inr,
}

pub data NonceObservation : Type 0 where
  fresh reused : NonceObservation

-- A key and a nonce.
abbrev pub Pair : Type 0
Pair = Bytes × Bytes

-- `operator==` of two pairs.
unfoldable pub same_pair : Pair → Pair → Bool
same_pair a b = same_bytes a.0 b.0 && same_bytes a.1 b.1

unfoldable pub contains : Pair → List Pair → Bool
unfolding same_pair
contains pair [] = false
contains pair (p ∷ pairs) = same_pair pair p || contains pair pairs

pub record NonceReuseDetector : Type 0 where
  pub seen : List Pair

-- `observations_.emplace(encryption_key, nonce)`, which inserts nothing that is there already.
unfoldable pub observe : Bytes → Bytes → NonceReuseDetector → NonceObservation × NonceReuseDetector
observe encryption_key nonce detector =
    if contains (encryption_key, nonce) detector.seen
    then (reused, detector)
    else (fresh, record { seen = (encryption_key, nonce) ∷ detector.seen })

unfoldable pub observations : NonceReuseDetector → ℕ
observations detector = length detector.seen

abbrev pub empty : NonceReuseDetector
empty = record { seen = [] }

-- The detector after a history of observations, the latest first.
pub observe_all : List Pair → NonceReuseDetector
unfolding observe
observe_all [] = empty
observe_all (p ∷ earlier) = (observe p.0 p.1 (observe_all earlier)).1

-- The number of different pairs in a history.
pub distinct : List Pair → ℕ
distinct [] = 0
distinct (p ∷ earlier) = if contains p earlier then distinct earlier else suc (distinct earlier)

same_pair_eq : (a b : Pair) → same_pair a b ≡ true → a ≡ b
unfolding same_pair
same_pair_eq a b e =
    ground (arith, same_bytes_eq a.0 b.0 (ground arith), same_bytes_eq a.1 b.1 (ground arith))

contains_step :
    (pair p : Pair) (seen earlier : List Pair)
    → contains pair seen ≡ contains pair earlier
    → contains p seen ≡ contains p earlier
    → (same_pair pair p ≡ true → pair ≡ p)
    → contains pair (if contains p seen then seen else p ∷ seen)
      ≡ (same_pair pair p || contains pair earlier)
contains_step pair p seen earlier e f same = elim (Bool-cases (contains p seen)) [
  | inl old ↦ elim (Bool-cases (same_pair pair p)) [
    | inl hit ↦ rw (old, hit) (ap (λ q. contains q seen) (same hit) ∙ old)
    | inr miss ↦ rw (old, miss) e
  ]
  | inr new ↦ rw new (unfold contains in ap (λ b. same_pair pair p || b) e)
]

observe_all_seen :
    (p : Pair) (earlier : List Pair)
    → let seen = (observe_all earlier).seen in
      (observe_all (p ∷ earlier)).seen ≡ (if contains p seen then seen else p ∷ seen)
unfolding observe_all observe
observe_all_seen p earlier = ground arith

-- The detector's set holds exactly the pairs of its history.
contains-observe_all :
    (pair : Pair) (history : List Pair)
    → contains pair (observe_all history).seen ≡ contains pair history
unfolding contains
contains-observe_all pair [] = unfold observe_all in refl
contains-observe_all pair (p ∷ earlier) =
    let step : contains pair (observe_all (p ∷ earlier)).seen
        ≡ (same_pair pair p || contains pair earlier) =
      ap (contains pair) (observe_all_seen p earlier)
      ∙ contains_step pair p (observe_all earlier).seen earlier (contains-observe_all pair earlier)
          (contains-observe_all p earlier) (same_pair_eq pair p) in
    step

length-observe_all : (history : List Pair) → length (observe_all history).seen ≡ distinct history
unfolding distinct
length-observe_all [] = unfold observe_all in refl
length-observe_all (p ∷ earlier) =
    ap length (observe_all_seen p earlier)
    ∙ ground (arith, contains-observe_all p earlier, length-observe_all earlier)

-- A pair is reported as reused exactly when the history has it, and the detector counts the different
-- pairs of its history.
pub observe-history :
    (encryption_key nonce : Bytes) (history : List Pair)
    → ((observe encryption_key nonce (observe_all history)).0
        ≡ (if contains (encryption_key, nonce) history then reused else fresh))
      × (observations (observe_all history) ≡ distinct history)
unfolding observe observations
observe-history encryption_key nonce history = (
  ground (arith, contains-observe_all (encryption_key, nonce) history),
  length-observe_all history,
)
