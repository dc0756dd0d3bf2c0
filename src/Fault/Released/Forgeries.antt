-- ===== src/Fault/Released/Forgeries.antt =====
-- The four messages of the branch-skip test next to a sealed one, the forgeries among them, and the texts
-- that they release.
use perfectvaluecubesymmetri.Base.{
  ℕ, ◌+◌, ◌≡◌, none, List, [], ◌∷◌, bit_xor, Bytes, get_or, set, length, same_bytes, ok, err,
  Result, ◌==◌, if◌then◌else◌,
}
use perfectvaluecubesymmetri.Fault.Released.{Variant}
use perfectvaluecubesymmetri.Fault.Stream
use perfectvaluecubesymmetri.Fault.Stream.{Cipher, apply_stream}
use perfectvaluecubesymmetri.Fault.TagFaults.{CampaignCase}
use perfectvaluecubesymmetri.Fault.TagFaults.Rejected.{IsSealed}
use perfectvaluecubesymmetri.Symmetric.{
  Aead, A1TagSize, TagSize, a1_bits128, a1_bits192, a1_bits256,
}
use perfectvaluecubesymmetri.Symmetric.Profile.{Primitives, a1_tag_bytes}

-- The profile of a tag size, where there is one.
abbrev pub profile_of : TagSize → A1TagSize
profile_of size = if size == 16 then a1_bits128 else if size == 24 then a1_bits192 else a1_bits256

-- A sealed case with a nonce of 24 bytes and a tag of its profile.
pub record IsCase (a1 : Aead) (c : CampaignCase) : Type 0 where
  pub sealed : IsSealed a1 c
  pub named : Stream.to_a1_tag_size c.tag_size ≡ ok (profile_of c.tag_size)
  pub tag_length : length c.sealed.tag ≡ a1_tag_bytes (profile_of c.tag_size)
  pub nonce_length : length c.nonce ≡ 24

abbrev pub AllCases : Aead → List CampaignCase → Type 0
AllCases a1 [] = Unit
AllCases a1 (c ∷ cases) = IsCase a1 c × AllCases a1 cases

-- The first byte with its lowest bit changed.
abbrev pub changed : Bytes → Bytes
changed value = set value 0 (bit_xor (get_or value 0 0) 1)

-- The four messages that differ from that of the case in one bit of one field.
abbrev pub other_tag : CampaignCase → Variant
other_tag c = record {
  nonce = c.nonce;
  associated_data = c.associated_data;
  ciphertext = c.sealed.ciphertext;
  tag = changed c.sealed.tag;
}

abbrev pub other_ciphertext : CampaignCase → Variant
other_ciphertext c = record {
  nonce = c.nonce;
  associated_data = c.associated_data;
  ciphertext = changed c.sealed.ciphertext;
  tag = c.sealed.tag;
}

abbrev pub other_nonce : CampaignCase → Variant
other_nonce c = record {
  nonce = changed c.nonce;
  associated_data = c.associated_data;
  ciphertext = c.sealed.ciphertext;
  tag = c.sealed.tag;
}

abbrev pub other_associated_data : CampaignCase → Variant
other_associated_data c = record {
  nonce = c.nonce;
  associated_data = changed c.associated_data;
  ciphertext = c.sealed.ciphertext;
  tag = c.sealed.tag;
}

-- One for a message whose tag is its MAC, and zero for any other.
abbrev pub forgery : Primitives → CampaignCase → Variant → ℕ
forgery p c v =
    if same_bytes v.tag (
      p.mac c.keys.authentication_key v.nonce v.associated_data v.ciphertext
        (profile_of c.tag_size))
    then 1
    else 0

-- One for a released text that is not the plaintext.
abbrev pub is_wrong : Result Bytes → Bytes → ℕ
is_wrong (ok released) plaintext = if same_bytes released plaintext then 0 else 1
is_wrong (err e) plaintext = 0

abbrev pub wrong : Cipher → CampaignCase → Variant → ℕ
wrong cipher c v =
    is_wrong (apply_stream cipher c.keys.encryption_key v.nonce v.ciphertext c.tag_size none 0)
      c.plaintext

-- The forgeries among the messages with the sealed tag, and the wrong texts of all four.
abbrev pub forgeries : Primitives → List CampaignCase → ℕ
forgeries p [] = 0
forgeries p (c ∷ cases) =
    forgery p c (other_ciphertext c)
    + forgery p c (other_nonce c)
    + forgery p c (other_associated_data c)
    + forgeries p cases

abbrev pub wrong_texts : Cipher → List CampaignCase → ℕ
wrong_texts cipher [] = 0
wrong_texts cipher (c ∷ cases) =
    wrong cipher c (other_tag c)
    + wrong cipher c (other_ciphertext c)
    + wrong cipher c (other_nonce c)
    + wrong cipher c (other_associated_data c)
    + wrong_texts cipher cases
