-- ===== src/Fault/Localization/Localized.antt =====
-- The localization next to the statistics of the same faults.
use perfectvaluecubesymmetri.Base.{
  ℕ, zero, suc, ◌+◌, ◌-◌, ◌^◌, ◌≤◌, ◌<◌, ◌≡◌, refl, ◌∙◌, Bool-cases, false, inl, inr, List, [], ◌∷◌,
  ◌++◌, arith, ltb, ◌==◌, if◌then◌else◌, ap, map, Bytes, AllBytes, get_or, length, length-append,
  length-set, ok,
}
use perfectvaluecubesymmetri.Fault.Bits.{bit_distance}
use perfectvaluecubesymmetri.Fault.Localization.{
  StateLocalization, region_number, localize_unchanged, localize_one_bit, localize_state_fault,
}
use perfectvaluecubesymmetri.Fault.Localization.Changed.{changed_bit-flip}
use perfectvaluecubesymmetri.Fault.Regions.{
  StateRegion, cube, axis_control, amount_control, feedback, transcript, state_region,
  c1_state_bits, cube_state_bits, sum-set, get_or-le-sum, increment_at,
}
use perfectvaluecubesymmetri.Fault.Statistics.{DistanceStats, observe, increase, sum}

-- The statistics of `n` faults and their localization agree, and the candidates are those of `bits`.
pub record IsLocalized (stats : DistanceStats) (localization : StateLocalization) (n : ℕ)
    (bits : List ℕ) : Type 0 where
  pub attempts : stats.attempts ≡ n
  pub unchanged_le : stats.unchanged ≤ n
  pub one_bit_le : stats.one_bit ≤ n
  pub regions : length localization.unchanged_by_region ≡ 5
  pub unchanged_sum : sum localization.unchanged_by_region ≡ stats.unchanged
  pub candidates : length localization.one_bit_candidates ≡ stats.one_bit
  pub positions : map (λ (c : ℕ × ℕ). c.0) localization.one_bit_candidates ≡ bits

-- A bit of the state stands in one of the five regions.
state_region-number :
    (bit : ℕ)
    → bit < c1_state_bits
    → (r : StateRegion) × (state_region bit ≡ ok r) × (region_number r < 5)
unfolding state_region
state_region-number bit h = elim (Bool-cases (ltb bit cube_state_bits)) [
  | inl a ↦ (cube, ground arith, omega arith)
  | inr a ↦ elim (Bool-cases (ltb (bit - cube_state_bits) 16)) [
    | inl b ↦ (axis_control, ground arith, omega arith)
    | inr b ↦ elim (Bool-cases (ltb (bit - cube_state_bits - 16) 16)) [
      | inl c ↦ (amount_control, ground arith, omega arith)
      | inr c ↦ elim (Bool-cases (ltb (bit - cube_state_bits - 16 - 16) 32)) [
        | inl d ↦ (feedback, ground arith, omega arith)
        | inr d ↦ (transcript, ground arith, omega arith)
      ]
    ]
  ]
]

-- An increment adds one to the sum.
sum-increment_at :
    (counts : List ℕ) (i n : ℕ)
    → i < length counts
    → sum counts ≤ n
    → n + 1 < 2 ^ 64
    → sum (increment_at counts i) ≡ sum counts + 1
sum-increment_at counts i n inside small room =
    let old = get_or counts i 0 in
    let le : old ≤ sum counts = get_or-le-sum counts i in
    let new : increase old 1 ≡ old + 1 = omega (arith, le) in
    omega (arith, sum-set counts i (increase old 1) inside, new)

map-snoc :
    (candidates : List (ℕ × ℕ)) (bit tag_bit : ℕ)
    → map (λ (c : ℕ × ℕ). c.0) (candidates ++ ((bit, tag_bit) ∷ []))
      ≡ map (λ (c : ℕ × ℕ). c.0) candidates ++ (bit ∷ [])
map-snoc [] bit tag_bit = refl
map-snoc (c ∷ candidates) bit tag_bit = ap (λ bits. c.0 ∷ bits) (map-snoc candidates bit tag_bit)

module _ (stats : DistanceStats) (localization : StateLocalization) (n : ℕ) (bits : List ℕ)
    (old : IsLocalized stats localization n bits) (room : n + 1 < 2 ^ 64) where
  -- A fault that changes nothing is counted in its region.
  localize_same :
      (bit : ℕ) (canonical faulted : Bytes)
      → bit < c1_state_bits
      → (next : StateLocalization) × (localize_state_fault localization bit 0 canonical faulted
          ≡ ok next)
        × IsLocalized (observe stats 0) next (n + 1) bits
  unfolding localize_state_fault localize_unchanged localize_one_bit observe
  localize_same bit canonical faulted h =
      let (r, e, inside) = state_region-number bit h in
      let counts = localization.unchanged_by_region in
      let i = region_number r in
      let grown =
        sum-increment_at counts i n (omega (arith, inside, old.regions))
          (omega (arith, old.unchanged_sum, old.unchanged_le)) room in
      (
        record localization { unchanged_by_region = increment_at counts i },
        rw e refl,
        record {
          attempts = omega (arith, old.attempts);
          unchanged_le = omega (arith, old.unchanged_le);
          one_bit_le = omega (arith, old.one_bit_le);
          regions = length-set counts i (increase (get_or counts i 0) 1) ∙ old.regions;
          unchanged_sum = omega (arith, grown, old.unchanged_sum, old.unchanged_le);
          candidates = old.candidates;
          positions = old.positions;
        },
      )

  -- A fault that changes one bit becomes a candidate.
  localize_one :
      (bit : ℕ) (canonical faulted : Bytes)
      → AllBytes canonical
      → AllBytes faulted
      → bit_distance canonical faulted ≡ ok 1
      → (next : StateLocalization) × (localize_state_fault localization bit 1 canonical faulted
          ≡ ok next)
        × IsLocalized (observe stats 1) next (n + 1) (bits ++ (bit ∷ []))
  unfolding localize_state_fault localize_unchanged localize_one_bit observe
  localize_one bit canonical faulted hc hf e =
      let (tag_bit, found, flip) = changed_bit-flip canonical faulted hc hf e in
      let more = localization.one_bit_candidates ++ ((bit, tag_bit) ∷ []) in
      (
        record localization { one_bit_candidates = more },
        rw found refl,
        record {
          attempts = omega (arith, old.attempts);
          unchanged_le = omega (arith, old.unchanged_le);
          one_bit_le = omega (arith, old.one_bit_le);
          regions = old.regions;
          unchanged_sum = old.unchanged_sum;
          candidates = omega (
            arith,
            length-append localization.one_bit_candidates ((bit, tag_bit) ∷ []),
            old.candidates,
            old.one_bit_le,
          );
          positions =
              map-snoc localization.one_bit_candidates bit tag_bit
              ∙ ap (λ (b : List ℕ). b ++ (bit ∷ [])) old.positions;
        },
      )

  -- A fault that changes more is not localized.
  localize_far :
      (bit more : ℕ) (canonical faulted : Bytes)
      → (localize_state_fault localization bit (suc (suc more)) canonical faulted ≡ ok localization)
        × IsLocalized (observe stats (suc (suc more))) localization (n + 1) bits
  unfolding localize_state_fault localize_unchanged localize_one_bit observe
  localize_far bit more canonical faulted = (
    ground arith,
    record {
      attempts = omega (arith, old.attempts);
      unchanged_le = ground (arith, old.unchanged_le);
      one_bit_le = ground (arith, old.one_bit_le);
      regions = old.regions;
      unchanged_sum = ground (arith, old.unchanged_sum);
      candidates = ground (arith, old.candidates);
      positions = old.positions;
    },
  )

  -- A fault at any distance is localized, and the localization stays in step with the statistics.
  pub localize_state_fault-IsLocalized :
      (bit distance : ℕ) (canonical faulted : Bytes)
      → bit < c1_state_bits
      → AllBytes canonical
      → AllBytes faulted
      → bit_distance canonical faulted ≡ ok distance
      → (next : StateLocalization) × (localize_state_fault localization bit distance canonical
            faulted
          ≡ ok next)
        × IsLocalized
            (observe stats distance)
            next
            (n + 1)
            (if distance == 1 then bits ++ (bit ∷ []) else bits)
  localize_state_fault-IsLocalized bit zero canonical faulted h hc hf e =
      localize_same bit canonical faulted h
  localize_state_fault-IsLocalized bit (suc zero) canonical faulted h hc hf e =
      localize_one bit canonical faulted hc hf e
  localize_state_fault-IsLocalized bit (suc (suc more)) canonical faulted h hc hf e =
      let (same, kept) = localize_far bit more canonical faulted in
      let far : suc (suc more) == 1 ≡ false = ground arith in (localization, same, rw far kept)
