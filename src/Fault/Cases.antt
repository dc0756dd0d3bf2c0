-- ===== src/Fault/Cases.antt =====
-- `make_case` and `make_cases` of analysis/fault_injection_campaign.cpp: the sealed messages that the
-- campaign faults.
pub mod Sealed
use perfectvaluecubesymmetri.Base.{
  ℕ, suc, ◌+◌, ◌^◌, ◌<◌, ◌≡◌, refl, sym, subst, ap, ◌∙◌, Bool, true, false, not, Option, none, some,
  List, String, [], ◌∷◌, arith, same_bytes, same_bytes_refl, Bytes, length, Result, ok, ◌>>=◌, ◌>>◌,
  require, runtime_error,
}
use perfectvaluecubesymmetri.Fault.Random.{
  random_vector, random_bytes, next_random, random_vector-length,
}
use perfectvaluecubesymmetri.Fault.TagFaults.{CampaignCase}
use perfectvaluecubesymmetri.Fault.TagFaults.Rejected.{IsSealed, AllSealed}
use perfectvaluecubesymmetri.Symmetric.{
  KeyPair512, SealedMessage, TagSize, bits128, bits192, bits256, Aead, is_supported_tag_size, seal,
  open_sealed,
}
use perfectvaluecubesymmetri.Symmetric.Messages.{seal-lengths, open_sealed-iff-seal}
use perfectvaluecubesymmetri.Symmetric.Profile.{Primitives, Documented, Fits}

-- `kSeed`, `kAssociatedDataBytes` and `kPlaintextBytes`.
abbrev pub seed : ℕ
seed = 5062421242461113930

abbrev pub associated_data_bytes : ℕ
associated_data_bytes = 33

abbrev pub plaintext_bytes : ℕ
plaintext_bytes = 96

-- `opened.has_value() && *opened == plaintext`.
abbrev pub opens_as : Option Bytes → Bytes → Bool
opens_as none plaintext = false
opens_as (some opened) plaintext = same_bytes opened plaintext

-- The sealing of one case and its baseline check, with the message of its failure.
pub seal_case : Aead → String → KeyPair512 → Bytes → Bytes → Bytes → TagSize → Result CampaignCase
seal_case a1 message keys nonce associated_data plaintext tag_size = do
  sealed ← seal a1 keys nonce associated_data plaintext tag_size
  opened ← open_sealed a1 keys nonce associated_data sealed.ciphertext sealed.tag
  require (opens_as opened plaintext) (runtime_error message)
  ok (record {
    keys = keys;
    nonce = nonce;
    associated_data = associated_data;
    plaintext = plaintext;
    tag_size = tag_size;
    sealed = sealed;
  })

-- The case, and the state of the generator after it.
pub make_case : Aead → ℕ → TagSize → Result (CampaignCase × ℕ)
unfolding seal_case
make_case a1 state tag_size = do
  let (encryption_key, state) = random_vector state 32
  let (authentication_key, state) = random_vector state 32
  require (not (same_bytes encryption_key authentication_key))
      (runtime_error "deterministic role keys unexpectedly match")
  let (nonce, state) = random_vector state 24
  let (associated_data, state) = random_vector state associated_data_bytes
  let (plaintext, state) = random_vector state plaintext_bytes
  let keys : KeyPair512 = record {
    encryption_key = encryption_key;
    authentication_key = authentication_key;
  }
  made ←
      seal_case a1 "baseline canonical round trip failed" keys nonce associated_data plaintext
        tag_size
  ok (made, state)

pub make_cases : Aead → Result (List CampaignCase)
unfolding make_case
make_cases a1 = do
  (first, state) ← make_case a1 seed bits128
  (second, state) ← make_case a1 state bits192
  (third, state) ← make_case a1 state bits256
  ok (first ∷ second ∷ third ∷ [])
