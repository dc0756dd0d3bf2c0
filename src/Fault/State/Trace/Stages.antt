-- ===== src/Fault/State/Trace/Stages.antt =====
-- The shape of a trace, and where two traces part.
use perfectvaluecubesymmetri.Base.{
  ℕ, zero, suc, ◌+◌, ◌<◌, ◌≤◌, ◌≡◌, ◌≢◌, ◌⊎◌, inl, inr, refl, sym, ap, ◌∙◌, Bool, true, false,
  Bool-cases, List, [], ◌∷◌, ◌++◌, arith, ◌==◌, ==_iff, ltb, leb, get_or_ext, length-take,
  get_or-take, Bytes, AllBytes, get_or, length, length-append, ok, take,
}
use perfectvaluecubesymmetri.Fault.State.{
  WorkingState, Pvc1, finalization, squeeze, total, working_state_distance,
}
use perfectvaluecubesymmetri.Fault.State.Trace.{
  FinalizationTrace, diagnostic_controller_bytes, diagnostic_output_byte, bind_bytes, squeeze_bytes,
  trace_finalization, first_difference, first_changed_byte, first_non_single_stage, all_single,
  remains_single_bit_until_output,
}
use perfectvaluecubesymmetri.Fault.Statistics.{no_index}

length-bind_bytes :
    (pvc1 : Pvc1) (message_length index : ℕ) (binding : Bytes) (state : WorkingState)
    → length (bind_bytes pvc1 message_length index binding state).0 ≡ length binding
unfolding bind_bytes
length-bind_bytes pvc1 message_length index [] state = refl
length-bind_bytes pvc1 message_length index (b ∷ binding) state =
    ap suc (length-bind_bytes pvc1 message_length (suc index) binding _)

length-squeeze_bytes :
    (pvc1 : Pvc1) (count round : ℕ) (state : WorkingState)
    → (length (squeeze_bytes pvc1 count round state).0 ≡ count)
      × (length (squeeze_bytes pvc1 count round state).1 ≡ count)
      × AllBytes (squeeze_bytes pvc1 count round state).0
unfolding squeeze_bytes diagnostic_output_byte
length-squeeze_bytes pvc1 zero round state = (refl, refl, tt)
length-squeeze_bytes pvc1 (suc count) round state =
    let (l, m, bytes) = length-squeeze_bytes pvc1 count (suc round) _ in
    (ap suc l, ap suc m, (omega arith, bytes))

-- A finalization always has its 83 stages, the first of them the state it starts from, and 64 bytes of
-- output.
pub trace_finalization-ok :
    (pvc1 : Pvc1) (state : WorkingState) (message_length : ℕ)
    → (trace : FinalizationTrace) × (trace_finalization pvc1 state message_length ≡ ok trace)
      × (length trace.stages ≡ 83)
      × (take 1 trace.stages ≡ state ∷ [])
      × (length trace.output ≡ 64)
      × AllBytes trace.output
unfolding trace_finalization
trace_finalization-ok pvc1 state message_length =
    let entered = pvc1.enter_domain state finalization message_length in
    let bound =
      bind_bytes pvc1 message_length 0 (diagnostic_controller_bytes entered.controller) entered in
    let squeezed = pvc1.enter_domain bound.1 squeeze 32 in
    let rounds = squeeze_bytes pvc1 64 0 squeezed in
    let stages = state ∷ entered ∷ (bound.0 ++ (squeezed ∷ rounds.1)) in
    let (l, m, bytes) = length-squeeze_bytes pvc1 64 0 squeezed in
    let size : length stages ≡ 83 = omega (
      arith,
      length-append bound.0 (squeezed ∷ rounds.1),
      length-bind_bytes pvc1 message_length 0 (diagnostic_controller_bytes entered.controller)
          entered,
      m,
      (let b : length (diagnostic_controller_bytes entered.controller) ≡ 16 =
            unfold diagnostic_controller_bytes in refl in
          b),
    ) in
    (record { output = rounds.0; stages = stages }, ground (arith, size), size, refl, l, bytes)

-- The index is that of the first place where the sequences differ; `no_index` where there is none.
abbrev pub IsFirstDifference {ℓ} : {A : Type ℓ} → (A → A → Bool) → A → List A → List A → ℕ → Type 0
IsFirstDifference same d left right index =
    (index < length left)
    × (same (get_or left index d) (get_or right index d) ≡ false)
    × ((j : ℕ) → j < index → same (get_or left j d) (get_or right j d) ≡ true)

agree_below {ℓ} :
    {A : Type ℓ} (same : A → A → Bool) (d x y : A) (left right : List A) (bound : ℕ)
    → same x y ≡ true
    → ((j : ℕ) → j < bound → same (get_or left j d) (get_or right j d) ≡ true)
    → (j : ℕ) → j < suc bound
    → same (get_or (x ∷ left) j d) (get_or (y ∷ right) j d) ≡ true
agree_below same d x y left right bound agree all zero h = agree
agree_below same d x y left right bound agree all (suc j) h = all j (omega arith)

-- The loops return the first index at which two sequences of one length differ, or `no_index`.
pub first_difference-IsFirst {ℓ} :
    {A : Type ℓ} (same : A → A → Bool) (d : A) (start : ℕ) (left right : List A)
    → length left ≡ length right
    → ((first_difference same start left right ≡ no_index)
        × ((j : ℕ) → j < length left → same (get_or left j d) (get_or right j d) ≡ true))
      ⊎ ((index : ℕ) × (first_difference same start left right ≡ start + index)
          × IsFirstDifference same d left right index)
unfolding first_difference
first_difference-IsFirst same d start [] [] l = inl (refl, λ j h. absurd (omega arith))
first_difference-IsFirst same d start [] (y ∷ right) l = absurd (omega arith)
first_difference-IsFirst same d start (x ∷ left) [] l = absurd (omega arith)
first_difference-IsFirst same d start (x ∷ left) (y ∷ right) l = elim (Bool-cases (same x y)) [
  | inl agree ↦ elim (first_difference-IsFirst same d (suc start) left right (omega arith)) [
    | inl (e, all) ↦ inl (rw agree e, agree_below same d x y left right (length left) agree all)
    | inr (index, e, (inside, differs, before)) ↦ inr (
      suc index,
      rw agree (omega (arith, e)),
      (omega (arith, inside), differs, agree_below same d x y left right index agree before),
    )
  ]
  | inr differ ↦
      inr (0, rw differ (omega arith), (omega arith, differ, λ j h. absurd (omega arith)))
]

-- `first_changed_byte` is the first place where two outputs of one length differ; it is `no_index`
-- where they are equal.
pub first_changed_byte-IsFirst :
    (left right : Bytes)
    → length left ≡ length right
    → ((first_changed_byte left right ≡ no_index) × (left ≡ right))
      ⊎ ((get_or left (first_changed_byte left right) 0
            ≢ get_or right (first_changed_byte left right) 0)
          × (first_changed_byte left right < length left)
          × (take (first_changed_byte left right) left
              ≡ take (first_changed_byte left right) right))
unfolding first_changed_byte
first_changed_byte-IsFirst left right l = elim (first_difference-IsFirst ◌==◌ 0 0 left right l) [
  | inl (e, all) ↦ inl (
    e,
    get_or_ext 0 left right l (λ j h. (==_iff (get_or left j 0) (get_or right j 0)).0 (all j h)),
  )
  | inr (index, e, (inside, differs, before)) ↦
      let at : first_difference ◌==◌ 0 left right ≡ index = omega (arith, e) in
      inr (
        rw at (
          (λ same. ground (arith, differs)),
          inside,
          get_or_ext 0 (take index left) (take index right)
              (omega (arith, length-take index left, length-take index right, l))
              (λ j h.
                let below : j < index = omega (arith, h, length-take index left) in
                get_or-take left index j 0 below
                ∙ (==_iff (get_or left j 0) (get_or right j 0)).0 (before j below)
                ∙ sym (get_or-take right index j 0 below)),
        ))
]

first_difference-ge {ℓ} :
    {A : Type ℓ} (same : A → A → Bool) (start : ℕ) (left right : List A)
    → start + length left ≤ no_index
    → start ≤ first_difference same start left right
unfolding first_difference
first_difference-ge same start [] right h = omega arith
first_difference-ge same start (x ∷ left) [] h = omega arith
first_difference-ge same start (x ∷ left) (y ∷ right) h =
    ground (arith, first_difference-ge same (suc start) left right (omega arith))

all_single-first :
    (pvc1 : Pvc1) (count start : ℕ) (left right : List WorkingState)
    → length left ≡ length right
    → count ≤ length left
    → start + length left ≤ no_index
    → all_single pvc1 count left right
      ≡ leb (start + count) (
          first_difference
            (λ (a b : WorkingState). total (working_state_distance pvc1 a b) == 1)
            start
            left
            right)
unfolding all_single first_difference
all_single-first pvc1 count start [] right l c h = ground arith
all_single-first pvc1 count start (x ∷ left) [] l c h = absurd (omega arith)
all_single-first pvc1 zero start (x ∷ left) (y ∷ right) l c h = ground (
  arith,
  first_difference-ge (λ (a b : WorkingState). total (working_state_distance pvc1 a b) == 1)
      (suc start) left right (omega arith),
)
all_single-first pvc1 (suc count) start (x ∷ left) (y ∷ right) l c h = ground (
  arith,
  all_single-first pvc1 count (suc start) left right (omega arith) (omega arith) (omega arith),
)

-- The state is at distance one up to an output byte exactly if the first stage at another distance
-- comes later. Both traces have their 83 stages, and the byte is one of the 64.
pub remains_single_bit_until_output-first :
    (pvc1 : Pvc1) (canonical faulted : FinalizationTrace) (output_byte : ℕ)
    → length canonical.stages ≡ 83
    → length faulted.stages ≡ 83
    → output_byte < 64
    → remains_single_bit_until_output pvc1 canonical faulted output_byte
      ≡ ok (ltb (18 + output_byte) (first_non_single_stage pvc1 canonical faulted))
unfolding remains_single_bit_until_output first_non_single_stage
remains_single_bit_until_output-first pvc1 canonical faulted output_byte l m h = ground (
  arith,
  all_single-first pvc1 (19 + output_byte) 0 canonical.stages faulted.stages (l ∙ sym m)
      (omega (arith, l)) (omega (arith, l)),
)
