-- ===== src/Nonce/Tests.antt =====
-- The theorem on the detector at a concrete history.
use perfectvaluecubesymmetri.Base.{◌≡◌, List, [], ◌∷◌, if◌then◌else◌}
use perfectvaluecubesymmetri.Nonce.Detector.{
  Pair, fresh, reused, contains, observe, observations, observe_all, distinct, observe-history,
}

abbrev history : List Pair
history = (1 ∷ 2 ∷ [], 9 ∷ []) ∷ (1 ∷ 3 ∷ [], 9 ∷ []) ∷ (1 ∷ 2 ∷ [], 9 ∷ []) ∷ []

observe-history_example :
    ((observe (1 ∷ 3 ∷ []) (9 ∷ []) (observe_all history)).0
      ≡ (if contains (1 ∷ 3 ∷ [], 9 ∷ []) history then reused else fresh))
    × (observations (observe_all history) ≡ distinct history)
observe-history_example = observe-history (1 ∷ 3 ∷ []) (9 ∷ []) history
