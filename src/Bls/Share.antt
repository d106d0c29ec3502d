-- ===== src/Bls/Share.antt =====
-- examples/bls/share.go and reconstruct.go: a node's share of a network's key.
use p2pmq.Base.{
  ℕ, ◌+◌, ◌-◌, ◌/◌, ◌%◌, Bool, false, List, [], ◌∷◌, Option, none, some, length, nat_key,
}
use p2pmq.Base.Dict.{Dict, lookup}
use p2pmq.Bls.Report.{SignedReport}
use p2pmq.Bls.Crypto.{Crypto}

pub record Share (c : Crypto) : Type 0 where
  pub signer_id : ℕ
  pub private_key : c.SecretKey
  pub signers : Dict ℕ c.PublicKey

-- `(count - 1) / 3` rounds towards zero, so it is 0 at 0.
unfoldable pub threshold : ℕ → ℕ
threshold count = count - (count - 1) / 3

-- With no signers the code divides by zero; a share has at least its own.
unfoldable pub round_robin_leader : ℕ → ℕ → ℕ
round_robin_leader seq signers = seq % signers + 1

module _ (c : Crypto) where
  open c use {
    Sign, SignerId, sign_byte, verify_byte, serialize_to_hex_str, deserialize_hex_str, deserialize,
    set_dec_string, recover, decimal,
  }

  unfoldable pub sign : Share c → SignedReport → SignedReport
  sign share sr = record sr {
    sig_hex = serialize_to_hex_str (sign_byte share.private_key sr.bytes);
    signer_id = share.signer_id;
  }

  unfoldable pub validate : Share c → SignedReport → Bool
  validate share sr = elim (lookup sr.signer_id share.signers) [
    | none ↦ false
    | some pk ↦ elim (deserialize_hex_str sr.sig_hex) [
      | none ↦ false
      | some sig ↦ verify_byte sig pk sr.bytes
    ]
  ]

  unfoldable pub quorum_count : Share c → ℕ
  quorum_count share = threshold (length share.signers)

  -- The loop of `ReconstructSigs`, with the two vectors that it fills.
  unfoldable pub reconstruct_from : List Sign → List SignerId → Dict ℕ (List ℕ) → Option Sign
  reconstruct_from sigs ids [] = recover sigs ids
  reconstruct_from sigs ids ((index, signature) ∷ m) = elim (set_dec_string (decimal index)) [
    | none ↦ none
    | some id ↦ elim (deserialize signature) [
      | none ↦ none
      | some sig ↦ reconstruct_from (sig ∷ sigs) (id ∷ ids) m
    ]
  ]

  unfoldable pub reconstruct_sigs : Dict ℕ (List ℕ) → Option Sign
  reconstruct_sigs m = reconstruct_from [] [] m
