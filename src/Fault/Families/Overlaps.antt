-- ===== src/Fault/Families/Overlaps.antt =====
-- The counts of a family's overlap.
use native.Mathlib.Nat.{div-le_of_le-mul}
use perfectvaluecubesymmetri.Base.{
  ℕ, zero, suc, ◌+◌, ◌*◌, ◌/◌, ◌≤◌, ◌≡◌, ◌⊎◌, refl, true, false, Bool-cases, inl, inr, List, [],
  ◌∷◌, arith, ◌==◌, replicate,
}
use perfectvaluecubesymmetri.Fault.Families.{
  CubeFaultSet, set_and, set_or, set_count, combine, PairCounts, observe_pair, observe_later,
  observe_pairs, family_overlap,
}
use perfectvaluecubesymmetri.Fault.Regions.{cube_state_bits}

set_and-le-set_or :
    (left right : CubeFaultSet) → set_count (set_and left right) ≤ set_count (set_or left right)
unfolding set_and set_or set_count
set_and-le-set_or [] right = omega arith
set_and-le-set_or (a ∷ left) [] = omega arith
set_and-le-set_or (true ∷ left) (true ∷ right) = omega (arith, set_and-le-set_or left right)
set_and-le-set_or (true ∷ left) (false ∷ right) = omega (arith, set_and-le-set_or left right)
set_and-le-set_or (false ∷ left) (true ∷ right) = omega (arith, set_and-le-set_or left right)
set_and-le-set_or (false ∷ left) (false ∷ right) = omega (arith, set_and-le-set_or left right)

-- An intersection is no larger than its sets, and a union no smaller, nor larger than their sum.
set_and-le :
    (left right : CubeFaultSet)
    → (set_count (set_and left right) ≤ set_count left)
      × (set_count (set_and left right) ≤ set_count right)
unfolding set_and set_count
set_and-le [] right = (omega arith, omega arith)
set_and-le (a ∷ left) [] = (omega arith, omega arith)
set_and-le (true ∷ left) (true ∷ right) =
    let (l, r) = set_and-le left right in (omega (arith, l), omega (arith, r))
set_and-le (true ∷ left) (false ∷ right) =
    let (l, r) = set_and-le left right in (omega (arith, l), omega (arith, r))
set_and-le (false ∷ left) (true ∷ right) =
    let (l, r) = set_and-le left right in (omega (arith, l), omega (arith, r))
set_and-le (false ∷ left) (false ∷ right) =
    let (l, r) = set_and-le left right in (omega (arith, l), omega (arith, r))

set_or-le :
    (left right : CubeFaultSet)
    → (set_count left ≤ set_count (set_or left right))
      × (set_count right ≤ set_count (set_or left right))
      × (set_count (set_or left right) ≤ set_count left + set_count right)
unfolding set_or set_count
set_or-le [] right = (omega arith, omega arith, omega arith)
set_or-le (a ∷ left) [] = (omega arith, omega arith, omega arith)
set_or-le (true ∷ left) (true ∷ right) =
    let (l, r, s) = set_or-le left right in (omega (arith, l), omega (arith, r), omega (arith, s))
set_or-le (true ∷ left) (false ∷ right) =
    let (l, r, s) = set_or-le left right in (omega (arith, l), omega (arith, r), omega (arith, s))
set_or-le (false ∷ left) (true ∷ right) =
    let (l, r, s) = set_or-le left right in (omega (arith, l), omega (arith, r), omega (arith, s))
set_or-le (false ∷ left) (false ∷ right) =
    let (l, r, s) = set_or-le left right in (omega (arith, l), omega (arith, r), omega (arith, s))

-- Every set of the list has at least `low` and at most `high` faults.
abbrev pub AllWithin : ℕ → ℕ → List CubeFaultSet → Type 0
AllWithin low high [] = Unit
AllWithin low high (s ∷ cases) =
    (low ≤ set_count s) × (set_count s ≤ high) × AllWithin low high cases

-- What the first loop does to the counts.
record IsCombined (cases : List CubeFaultSet) (intersection combined : CubeFaultSet) (total : ℕ)
    (last_intersection last_combined : CubeFaultSet) (last_total : ℕ) : Type 0 where
  smaller : set_count last_intersection ≤ set_count intersection
  larger : set_count combined ≤ set_count last_combined
  summed : set_count last_combined + total ≤ set_count combined + last_total
  within : AllWithin (set_count last_intersection) (set_count last_combined) cases

combine-IsCombined :
    (cases : List CubeFaultSet) (intersection combined : CubeFaultSet) (total : ℕ)
    → let last = combine cases intersection combined total in
      IsCombined cases intersection combined total last.0.0 last.0.1 last.1
unfolding combine
combine-IsCombined [] intersection combined total = record {
  smaller = omega arith;
  larger = omega arith;
  summed = omega arith;
  within = tt;
}
combine-IsCombined (s ∷ cases) intersection combined total =
    let rest =
      combine-IsCombined cases (set_and intersection s) (set_or combined s) (total + set_count s) in
    let (left, right) = set_and-le intersection s in
    let (below, above, sum) = set_or-le combined s in
    record {
      smaller = omega (arith, rest.smaller, left);
      larger = omega (arith, rest.larger, below);
      summed = omega (arith, rest.summed, sum);
      within = (omega (arith, rest.smaller, right), omega (arith, rest.larger, above), rest.within);
    }

-- The similarities of the pairs seen so far are parts of a million, the least no larger than the
-- greatest.
record IsOrdered (pairs : PairCounts) : Type 0 where
  bounded : pairs.max_ppm ≤ 1000000
  ordered : (pairs.count ≡ 0) ⊎ (pairs.min_ppm ≤ pairs.max_ppm)

ppm-le : (i u : ℕ) → i ≤ u → i * 1000000 / u ≤ 1000000
ppm-le i u h = div-le_of_le-mul u (omega arith)

observe_pair-IsOrdered :
    (left right : CubeFaultSet) (pairs : PairCounts)
    → IsOrdered pairs
    → IsOrdered (observe_pair left right pairs)
unfolding observe_pair
observe_pair-IsOrdered left right pairs old =
    let ppm =
      ppm-le (set_count (set_and left right)) (set_count (set_or left right))
        (set_and-le-set_or left right) in
    elim (Bool-cases (set_count (set_or left right) == 0)) [
      | inl none ↦ rw none old
      | inr some ↦
          rw some
            (record { bounded = omega (arith, old.bounded, ppm); ordered = inr (omega arith) })
    ]

observe_later-IsOrdered :
    (left : CubeFaultSet) (cases : List CubeFaultSet) (pairs : PairCounts)
    → IsOrdered pairs
    → IsOrdered (observe_later left cases pairs)
unfolding observe_later
observe_later-IsOrdered left [] pairs old = old
observe_later-IsOrdered left (right ∷ cases) pairs old =
    observe_later-IsOrdered left cases (observe_pair left right pairs)
      (observe_pair-IsOrdered left right pairs old)

observe_pairs-IsOrdered :
    (cases : List CubeFaultSet) (pairs : PairCounts)
    → IsOrdered pairs
    → IsOrdered (observe_pairs cases pairs)
unfolding observe_pairs
observe_pairs-IsOrdered [] pairs old = old
observe_pairs-IsOrdered (left ∷ cases) pairs old =
    observe_pairs-IsOrdered cases (observe_later left cases pairs)
      (observe_later-IsOrdered left cases pairs old)

count_none : (n : ℕ) → set_count (replicate n false) ≡ 0
unfolding set_count
count_none zero = refl
count_none (suc n) = count_none n

-- In the overlap of a family the intersection is no larger than any of its sets and the union no
-- smaller; the union is no larger than the sum of all selected faults; and the least similarity of two
-- sets is at most the greatest, which is at most a million parts.
pub family_overlap-bounds :
    (cases : List CubeFaultSet)
    → let o = family_overlap cases in
      AllWithin o.intersection o.union cases
      × (o.union ≤ o.total_selected)
      × (o.pairs.min_ppm ≤ o.pairs.max_ppm)
      × (o.pairs.max_ppm ≤ 1000000)
unfolding family_overlap
family_overlap-bounds cases =
    let none : PairCounts = record { count = 0; min_ppm = 1000000; max_ppm = 0 } in
    let sets =
      combine-IsCombined cases (replicate cube_state_bits true) (replicate cube_state_bits false)
        0 in
    let pairs =
      observe_pairs-IsOrdered cases none (record { bounded = omega arith; ordered = inl refl }) in
    (
      sets.within,
      omega (arith, sets.summed, count_none cube_state_bits),
      ground (arith, pairs.ordered),
      ground (arith, pairs.bounded),
    )
