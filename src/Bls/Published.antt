-- ===== src/Bls/Published.antt =====
-- A report that a quorum of a network's signers publishes verifies under the network's key.
use p2pmq.Base.{
  ℕ, zero, suc, ◌+◌, ◌≤◌, ◌<◌, ◌≡◌, refl, ap, String, true, List, [], ◌∷◌, Option, none, some, All,
  length, ltb, leb, arith, string_key, if◌then◌else◌, returns,
}
use p2pmq.Base.Dict.{Dict, lookup}
use p2pmq.Bls.Report.{SignedReport}
use p2pmq.Bls.ReportBuffer.{ReportBuffer, validate_sequence}
use p2pmq.Bls.Crypto.{Crypto}
use p2pmq.Bls.Gen.{Keys, random_keys, gen_shares}
use p2pmq.Bls.Shares.{AreShares, gen_shares-AreShares}
use p2pmq.Bls.Share.{Share, quorum_count, threshold, reconstruct_sigs}
use p2pmq.Bls.Node.{Node, node_validate, node_quorum_count, has_quorum}
use p2pmq.Bls.InternalNet.{collect_signatures, prepare_report, on_quorum}
use p2pmq.Bls.Collected.{AreApart, IsPart, IsHonest, collect_signatures-IsPart}
use p2pmq.Bls.Quorum.{collect_signatures-le}
use p2pmq.Bls.Recovered.{IsScheme, recovered}
mod Tests

module _ (c : Crypto) where
  open c use {SecretKey, sign_byte, get_public_key, serialize_to_hex_str}

  random_keys-le : (n : ℕ) (drawn : List SecretKey) → length (random_keys c n drawn) ≤ n
  unfolding random_keys
  random_keys-le zero drawn = omega arith
  random_keys-le (suc n) [] = omega arith
  random_keys-le (suc n) (k ∷ drawn) = omega (arith, random_keys-le n drawn)

  -- The report, signed by the network's key.
  abbrev pub under_key : SecretKey → SignedReport → SignedReport
  under_key sk sr = record sr {
    sig_hex = serialize_to_hex_str (sign_byte sk sr.bytes);
    signer_id = 0;
  }

  -- A node that knows the network's key has nothing but the sequence number to object to.
  under_key-node_validate :
      (scheme : IsScheme c) (sk : SecretKey) (sr : SignedReport) (v : Node c)
      → lookup sr.network v.pubstore ≡ some (get_public_key sk)
      → node_validate c sr.network (some (under_key sk sr)) v
        ≡ validate_sequence (under_key sk sr) v.reports
  unfolding node_validate
  under_key-node_validate scheme sk sr v known =
      rw
        (known, node_validate, scheme.hex_back (sign_byte sk sr.bytes), scheme.verifies sk sr.bytes)
        refl

  on_quorum-publishes :
      (sk : SecretKey) (sr : SignedReport) (reports : ReportBuffer) (signers : List String)
      (n : Node c)
      → node_quorum_count c sr.network n
        < length (collect_signatures c sr.seq_number reports signers)
      → reconstruct_sigs c (collect_signatures c sr.seq_number reports signers)
        ≡ some (sign_byte sk sr.bytes)
      → on_quorum c sr reports signers n ≡ under_key sk sr ∷ []
  unfolding on_quorum has_quorum prepare_report
  on_quorum-publishes sk sr reports signers n enough sig =
      ground (arith, collect_signatures-le c sr.seq_number reports signers)

  shared_quorum :
      (net : String) (share : Share c) (n : Node c) (msk : List SecretKey) (count : ℕ)
      (keys : Keys c)
      → AreShares c msk (suc count) keys
      → share.signers ≡ keys.1
      → lookup net n.shares ≡ some share
      → node_quorum_count c net n ≡ threshold count
  unfolding node_quorum_count quorum_count
  shared_quorum net share n msk count keys made given held =
      rw (held, node_quorum_count) (ap threshold (rw given (omega (arith, made.count))))

  module _ (scheme : IsScheme c) (sk : SecretKey) (m count : ℕ) (drawn : List SecretKey)
      (keys : Keys c) (generated : gen_shares c sk (suc m) count drawn ≡ returns (some keys))
      (sized : suc m ≡ threshold count) where
    -- Let GenShares deal out a key to n signers with the threshold of n, in a scheme where that
    -- many signatures of one text by shares recover the key's only signature of it. When a node
    -- with these signers' public keys has collected more signatures for a report than the quorum
    -- count, and every report that it found for a signer has the report's data and passes
    -- Share.Validate under that signer's id, then it publishes the report with the key's
    -- signature, and a node that knows the key's public key for that network answers to it what
    -- its sequence number deserves.
    pub on_quorum-node_validate :
        (share : Share c) (sr : SignedReport) (reports : ReportBuffer) (signers : List String)
        (n v : Node c)
        → share.signers ≡ keys.1
        → lookup sr.network n.shares ≡ some share
        → All (IsHonest c share sr.bytes sr.seq_number reports) signers
        → node_quorum_count c sr.network n
          < length (collect_signatures c sr.seq_number reports signers)
        → lookup sr.network v.pubstore ≡ some (get_public_key sk)
        → (on_quorum c sr reports signers n ≡ under_key sk sr ∷ [])
          × (node_validate c sr.network (some (under_key sk sr)) v
              ≡ validate_sequence (under_key sk sr) v.reports)
    on_quorum-node_validate share sr reports signers n v given held honest enough known = (
      on_quorum-publishes sk sr reports signers n enough (
          recovered c scheme (sk ∷ random_keys c m drawn) count keys made share given sr.bytes sk
            (random_keys c m drawn) signatures refl parts.0 parts.1
            (omega (arith, random_keys-le m drawn, quorum, sized, enough))),
      under_key-node_validate scheme sk sr v known,
    )
      where
        made : AreShares c (sk ∷ random_keys c m drawn) (suc count) keys
        made = gen_shares-AreShares c sk m count drawn keys generated

        signatures : Dict ℕ (List ℕ)
        signatures = collect_signatures c sr.seq_number reports signers

        parts : All (IsPart c share sr.bytes) signatures × AreApart signatures
        parts =
            collect_signatures-IsPart c share sr.bytes sr.seq_number reports scheme.serial signers
              honest

        quorum : node_quorum_count c sr.network n ≡ threshold count
        quorum = shared_quorum sr.network share n _ count keys made given held
