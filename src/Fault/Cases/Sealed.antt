-- ===== src/Fault/Cases/Sealed.antt =====
-- The cases of the fault campaign over a documented A1.
use perfectvaluecubesymmetri.Base.{
  ℕ, ◌≡◌, refl, sym, subst, ◌∙◌, true, false, some, List, String, [], ◌∷◌, arith, same_bytes,
  same_bytes_refl, Bytes, length, ok,
}
use perfectvaluecubesymmetri.Fault.Cases.{
  seed, associated_data_bytes, plaintext_bytes, seal_case, make_case, make_cases,
}
use perfectvaluecubesymmetri.Fault.Random.{
  random_vector, random_bytes, next_random, random_vector-length,
}
use perfectvaluecubesymmetri.Fault.TagFaults.{CampaignCase}
use perfectvaluecubesymmetri.Fault.TagFaults.Rejected.{IsSealed}
use perfectvaluecubesymmetri.Symmetric.{
  KeyPair512, TagSize, bits128, bits192, bits256, Aead, is_supported_tag_size, seal, open_sealed,
}
use perfectvaluecubesymmetri.Symmetric.Messages.{seal-lengths, open_sealed-iff-seal}
use perfectvaluecubesymmetri.Symmetric.Profile.{Primitives, Documented, Fits}

-- The two keys that a case draws are different.
abbrev pub HasDifferentKeys : ℕ → Type 0
HasDifferentKeys state =
    let (encryption_key, next) = random_vector state 32 in
    same_bytes encryption_key (random_vector next 32).0 ≡ false

-- The state of the generator after the five draws of a case.
pub after_case : ℕ → ℕ
after_case state =
    let keys = (random_vector (random_vector state 32).1 32).1 in
    let nonce = (random_vector keys 24).1 in
    (random_vector (random_vector nonce associated_data_bytes).1 plaintext_bytes).1

-- A case as it is made: sealed, with the sizes that the campaign asks for.
pub record IsMade (a1 : Aead) (c : CampaignCase) (tag_size : TagSize) : Type 0 where
  pub sealed : IsSealed a1 c
  pub size : c.tag_size ≡ tag_size
  pub tag_length : length c.sealed.tag ≡ tag_size
  pub plaintext_length : length c.plaintext ≡ 96
  pub ciphertext_length : length c.sealed.ciphertext ≡ 96

module _ (a1 : Aead) (p : Primitives) (documented : Documented a1 p) where
  pub seal_case-ok :
      (message : String) (keys : KeyPair512) (nonce associated_data plaintext : Bytes)
      (tag_size : TagSize)
      → is_supported_tag_size tag_size ≡ true
      → Fits associated_data
      → length plaintext ≡ 96
      → (c : CampaignCase) × (seal_case a1 message keys nonce associated_data plaintext tag_size
          ≡ ok c)
        × IsMade a1 c tag_size
  unfolding seal_case
  seal_case-ok message keys nonce ad plaintext tag_size supported fits size =
      let (m, e, l, t) =
        (seal-lengths a1 p documented keys nonce ad plaintext tag_size fits).0 supported in
      let opened : open_sealed a1 keys nonce ad m.ciphertext m.tag ≡ ok (some plaintext) =
        (open_sealed-iff-seal a1 p documented keys nonce ad m.ciphertext m.tag plaintext fits).1
          (subst (λ n. seal a1 keys nonce ad plaintext n ≡ ok m) (sym t) e) in
      (
        record {
          keys = keys;
          nonce = nonce;
          associated_data = ad;
          plaintext = plaintext;
          tag_size = tag_size;
          sealed = m;
        },
        ground (arith, e, opened, same_bytes_refl plaintext),
        record {
          sealed = record { fits = fits; sealed = e };
          size = refl;
          tag_length = t;
          plaintext_length = size;
          ciphertext_length = l ∙ size;
        },
      )

  pub make_case-ok :
      (state : ℕ) (tag_size : TagSize)
      → is_supported_tag_size tag_size ≡ true
      → HasDifferentKeys state
      → (c : CampaignCase) × (make_case a1 state tag_size ≡ ok (c, after_case state))
        × IsMade a1 c tag_size
  unfolding make_case after_case
  make_case-ok state tag_size supported different =
      let (ek, s1) = random_vector state 32 in
      let (ak, s2) = random_vector s1 32 in
      let (nonce, s3) = random_vector s2 24 in
      let (ad, s4) = random_vector s3 33 in
      let plaintext = (random_vector s4 96).0 in
      let keys : KeyPair512 = record { encryption_key = ek; authentication_key = ak } in
      let (c, e, made) =
        seal_case-ok "baseline canonical round trip failed" keys nonce ad plaintext tag_size
          supported (omega (arith, (random_vector-length s3 33 0 (omega arith)).0))
          (random_vector-length s4 96 0 (omega arith)).0 in
      (c, ground (arith, different, e), made)

different_keys :
    HasDifferentKeys seed
    × HasDifferentKeys (after_case seed)
    × HasDifferentKeys (after_case (after_case seed))
unfolding random_vector random_bytes next_random after_case
different_keys = (refl, refl, refl)

supported_sizes :
    (is_supported_tag_size bits128 ≡ true)
    × (is_supported_tag_size bits192 ≡ true)
    × (is_supported_tag_size bits256 ≡ true)
unfolding is_supported_tag_size
supported_sizes = (refl, refl, refl)

-- The three cases, one of each profile.
abbrev pub AreMade : Aead → List CampaignCase → Type 0
AreMade a1 (first ∷ second ∷ third ∷ []) =
    IsMade a1 first bits128 × IsMade a1 second bits192 × IsMade a1 third bits256
AreMade a1 _ = ⊥

-- Over the documented A1 the three cases are made: the drawn keys differ, and each message is sealed
-- with the tag size of its profile, has 96 bytes, and opens.
pub make_cases-ok :
    (a1 : Aead) (p : Primitives)
    → Documented a1 p
    → (cases : List CampaignCase) × (make_cases a1 ≡ ok cases) × AreMade a1 cases
unfolding make_cases
make_cases-ok a1 p documented =
    let (s, s', s'') = supported_sizes in
    let (d, d', d'') = different_keys in
    let (c, e, made) = make_case-ok a1 p documented seed bits128 s d in
    let (c', e', made') = make_case-ok a1 p documented (after_case seed) bits192 s' d' in
    let (c'', e'', made'') =
      make_case-ok a1 p documented (after_case (after_case seed)) bits256 s'' d'' in
    (c ∷ c' ∷ c'' ∷ [], rw (e, e', e'') refl, (made, made', made''))
