-- ===== src/Cli/Command.antt =====
-- `main` of app/main.cpp: the commands `seal` and `open`, as a function from the arguments to what the
-- process writes and its exit code.
pub mod EndToEnd
mod Tests
use perfectvaluecubesymmetri.Base.{
  ℕ, Bool, true, false, not, Option, none, some, List, [], ◌++◌, ltb, ◌==◌, if◌then◌else◌,
  same_bytes, Bytes, length, get_or, Text, codes, String, Result, ok, err, ◌>>=◌, Exception,
  runtime_error, invalid_argument, overflow_error, length_error, logic_error, system_error,
}
use perfectvaluecubesymmetri.Symmetric.{
  KeyPair512, SealedMessage, Aead, TagSize, bits128, bits192, bits256, seal, open_sealed,
}
use perfectvaluecubesymmetri.Cli.Hex.{from_hex, fixed_hex, to_hex}

pub record Run : Type 0 where
  pub stdout : Text
  pub stderr : Text
  pub code : ℕ

pub tag_size : Text → Result TagSize
tag_size bits =
    if same_bytes bits (codes "128")
    then ok bits128
    else if same_bytes bits (codes "192")
    then ok bits192
    else if same_bytes bits (codes "256")
    then ok bits256
    else err (invalid_argument "tag bits must be 128, 192, or 256")

-- `usage(); return 2;`
abbrev pub usage : Run
usage = record {
  stdout = [];
  stderr =
      codes "seal: pvc-rotsymenc1 seal ENC_KEY MAC_KEY NONCE TAG_BITS AD_HEX PLAINTEXT_HEX\n"
      ++ codes "open: pvc-rotsymenc1 open ENC_KEY MAC_KEY NONCE AD_HEX CIPHERTEXT_HEX TAG_HEX\n";
  code = 2;
}

abbrev pub what : Exception → String
what (runtime_error message) = message
what (invalid_argument message) = message
what (overflow_error message) = message
what (length_error message) = message
what (logic_error message) = message
what (system_error message) = message

-- `argv[i]`, which is in range wherever the code reads it.
abbrev pub argument : List Text → ℕ → Text
argument argv i = get_or argv i []

pub keys_of : List Text → Result KeyPair512
keys_of argv = do
  encryption_key ← fixed_hex 32 (argument argv 2) "encryption key"
  authentication_key ← fixed_hex 32 (argument argv 3) "authentication key"
  ok (record { encryption_key = encryption_key; authentication_key = authentication_key })

abbrev pub sealed_output : SealedMessage → Run
sealed_output sealed = record {
  stdout =
      codes "ciphertext="
      ++ to_hex sealed.ciphertext
      ++ codes "\n"
      ++ codes "tag="
      ++ to_hex sealed.tag
      ++ codes "\n";
  stderr = [];
  code = 0;
}

abbrev pub opened_output : Option Bytes → Run
opened_output none = record { stdout = codes "authentication=failed\n"; stderr = []; code = 1 }
opened_output (some plaintext) = record {
  stdout = codes "authentication=ok\nplaintext=" ++ to_hex plaintext ++ codes "\n";
  stderr = [];
  code = 0;
}

pub seal_command : Aead → List Text → Result Run
unfolding keys_of tag_size
seal_command a1 argv = do
  keys ← keys_of argv
  nonce ← fixed_hex 24 (argument argv 4) "nonce"
  ad ← from_hex (argument argv 6)
  plaintext ← from_hex (argument argv 7)
  size ← tag_size (argument argv 5)
  sealed ← seal a1 keys nonce ad plaintext size
  ok (sealed_output sealed)

pub open_command : Aead → List Text → Result Run
unfolding keys_of
open_command a1 argv = do
  keys ← keys_of argv
  nonce ← fixed_hex 24 (argument argv 4) "nonce"
  ad ← from_hex (argument argv 5)
  ciphertext ← from_hex (argument argv 6)
  tag ← from_hex (argument argv 7)
  plaintext ← open_sealed a1 keys nonce ad ciphertext tag
  ok (opened_output plaintext)

pub dispatch : Aead → List Text → Result Run
unfolding seal_command open_command
dispatch a1 argv =
    if ltb (length argv) 2
    then ok usage
    else if same_bytes (argument argv 1) (codes "seal")
    then (if not (length argv == 8) then ok usage else seal_command a1 argv)
    else if same_bytes (argument argv 1) (codes "open")
    then (if not (length argv == 8) then ok usage else open_command a1 argv)
    else ok usage

-- The `try` block and its handler.
pub main : Aead → List Text → Run
unfolding dispatch
main a1 argv = elim (dispatch a1 argv) [
  | ok run ↦ run
  | err e ↦ record { stdout = []; stderr = codes (what e) ++ codes "\n"; code = 1 }
]
