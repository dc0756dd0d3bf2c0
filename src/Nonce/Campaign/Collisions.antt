-- ===== src/Nonce/Campaign/Collisions.antt =====
-- `run_collision_simulation` of analysis/nonce_misuse_campaign.cpp: the counts; its floating-point
-- estimates are only printed. The sizes are the arguments.
use perfectvaluecubesymmetri.Base.{
  ℕ, zero, suc, ◌+◌, ◌%◌, ◌^◌, ◌≡◌, ◌≤◌, ◌<◌, ◌↔◌, refl, ap, inl, inr, Bool-cases, arith, Bool,
  true, false, ◌||◌, List, [], ◌∷◌, ◌==◌, ltb, if◌then◌else◌, same_bytes, length, Result, ok,
  require, ◌>>◌, runtime_error,
}
use perfectvaluecubesymmetri.Nonce.Campaign.{seed, next_random, random_nonce}

-- A `std::set` is a list in which no value stands twice; `same` is the equality of the values.
pub is_in {ℓ} : {A : Type ℓ} → (A → A → Bool) → A → List A → Bool
is_in same x [] = false
is_in same x (y ∷ ys) = same x y || is_in same x ys

-- One sample: `if (!set.insert(value).second) ++collisions;`
pub insert_sample {ℓ} : {A : Type ℓ} → (A → A → Bool) → A → List A × ℕ → List A × ℕ
unfolding is_in
insert_sample same x (observed, collisions) =
    if is_in same x observed then (observed, collisions + 1) else (x ∷ observed, collisions)

-- The loop over the samples that a generator gives: the set, the collisions, the generator's state.
pub count_collisions {ℓ} :
    {A : Type ℓ} → (A → A → Bool) → (ℕ → A × ℕ) → ℕ → List A × ℕ → ℕ → (List A × ℕ) × ℕ
unfolding insert_sample
count_collisions same sample zero counts state = (counts, state)
count_collisions same sample (suc count) counts state =
    let (value, next) = sample state in
    count_collisions same sample count (insert_sample same value counts) next

-- 24 bits of a word.
pub random_reduced : ℕ → ℕ × ℕ
random_reduced state = let (value, next) = next_random state in (value % 2 ^ 24, next)

-- The trials on 24 bits, each with a set of its own: all their collisions.
pub reduced_trials : ℕ → ℕ → ℕ → ℕ → ℕ
unfolding count_collisions random_reduced
reduced_trials zero samples collisions state = collisions
reduced_trials (suc trials) samples collisions state =
    let (counts, next) = count_collisions ◌==◌ random_reduced samples ([], 0) state in
    reduced_trials trials samples (collisions + counts.1) next

-- `kFullWidthSamples`, `kReducedTrials` and `kReducedSamples` are the arguments. The two counts.
pub run_collision_simulation : ℕ → ℕ → ℕ → Result (ℕ × ℕ)
unfolding count_collisions reduced_trials
run_collision_simulation full_width_samples trials samples = do
  let (counts, state) = count_collisions same_bytes random_nonce full_width_samples ([], 0) seed
  require (counts.1 == 0) (runtime_error "unexpected deterministic 192-bit sample collision")
  let reduced = reduced_trials trials samples 0 state
  require (ltb 0 reduced) (runtime_error "reduced-width collision control found no collision")
  ok (counts.1, reduced)

-- The samples that a generator gives.
abbrev pub sampled {ℓ} : {A : Type ℓ} → (ℕ → A × ℕ) → ℕ → ℕ → List A
sampled sample zero state = []
sampled sample (suc count) state = (sample state).0 ∷ sampled sample count (sample state).1

-- Every value of a list differs from those of another list and from the later ones of its own.
abbrev pub IsCollisionFree {ℓ} : {A : Type ℓ} → (A → A → Bool) → List A → List A → Type 0
IsCollisionFree same observed [] = Unit
IsCollisionFree same observed (x ∷ xs) =
    (is_in same x observed ≡ false) × IsCollisionFree same (x ∷ observed) xs

insert_sample-step {ℓ} :
    {A : Type ℓ} (same : A → A → Bool) (x : A) (counts : List A × ℕ) (b : Bool)
    → is_in same x counts.0 ≡ b
    → insert_sample same x counts
      ≡ (if b then (counts.0, counts.1 + 1) else (x ∷ counts.0, counts.1))
unfolding insert_sample
insert_sample-step same x counts b e = rw e refl

count_collisions-step {ℓ} :
    {A : Type ℓ} (same : A → A → Bool) (sample : ℕ → A × ℕ) (count : ℕ) (counts : List A × ℕ)
    (state : ℕ) (b : Bool)
    → is_in same (sample state).0 counts.0 ≡ b
    → count_collisions same sample (suc count) counts state
      ≡ count_collisions same sample count
          (if b then (counts.0, counts.1 + 1) else ((sample state).0 ∷ counts.0, counts.1))
          (sample state).1
unfolding count_collisions
count_collisions-step same sample count counts state b e =
    ap (λ c. count_collisions same sample count c (sample state).1)
      (insert_sample-step same (sample state).0 counts b e)

-- Each sample is either new or counted, and nothing is counted exactly where the samples differ from
-- one another and from those before them.
pub count_collisions-counts {ℓ} :
    {A : Type ℓ} (same : A → A → Bool) (sample : ℕ → A × ℕ) (count : ℕ) (counts : List A × ℕ)
    (state : ℕ)
    → let last = (count_collisions same sample count counts state).0 in
      (length last.0 + last.1 ≡ length counts.0 + counts.1 + count)
      × (counts.1 ≤ last.1)
      × ((last.1 ≡ counts.1) ↔ IsCollisionFree same counts.0 (sampled sample count state))
count_collisions-counts same sample zero counts state =
    unfold count_collisions in (omega arith, omega arith, (λ e. tt, λ free. refl))
count_collisions-counts same sample (suc count) counts state =
    let x = (sample state).0 in
    let next = (sample state).1 in
    elim (Bool-cases (is_in same x counts.0)) [
      | inl old ↦
          let (sum, grows, free) =
            count_collisions-counts same sample count (counts.0, counts.1 + 1) next in
          rw (count_collisions-step same sample count counts state true old, old)
            (
              omega (arith, sum),
              omega (arith, grows),
              (λ e. absurd (omega (arith, e, grows)), λ f. absurd (cc f.0)),
            )
      | inr new ↦
          let (sum, grows, free) =
            count_collisions-counts same sample count (x ∷ counts.0, counts.1) next in
          rw (count_collisions-step same sample count counts state false new, new)
            (omega (arith, sum), grows, (λ e. (refl, free.0 e), λ f. free.1 f.1))
    ]

-- The simulation ends normally only with no two of the full-width nonces equal, and with a collision
-- in at least one of the trials on 24 bits.
pub run_collision_simulation-ok :
    (full_width_samples trials samples : ℕ) (found : ℕ × ℕ)
    → run_collision_simulation full_width_samples trials samples ≡ ok found
    → IsCollisionFree same_bytes [] (sampled random_nonce full_width_samples seed)
      × (found.0 ≡ 0)
      × (0 < found.1)
unfolding run_collision_simulation
run_collision_simulation-ok full_width_samples trials samples found e =
    let (sum, grows, free) =
      count_collisions-counts same_bytes random_nonce full_width_samples ([], 0) seed in
    (free.0 (ground arith), ground arith, ground arith)
