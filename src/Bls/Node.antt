-- ===== src/Bls/Node.antt =====
-- examples/bls/node.go and store.go: the state of a node, and the parts of its handlers that need
-- no other node. `NewStore` is an empty map, `Add` and `Get` a write and a read under a lock.
use p2pmq.Base.{
  ℕ, String, Bool, false, ◌&&◌, not, List, [], ◌∷◌, Option, none, some, length, ltb, leb, ◌==◌,
  if◌then◌else◌, string_key, nat_key, ◌||◌,
}
use p2pmq.Base.Dict.{Dict, lookup}
use p2pmq.Bls.Report.{SignedReport}
use p2pmq.Proto.{ValidationResult, accept, reject, ignore}
use p2pmq.Bls.ReportBuffer.{ReportBuffer, get, validate_sequence}
use p2pmq.Bls.Crypto.{Crypto}
use p2pmq.Bls.Share.{Share, validate, quorum_count, round_robin_leader}

pub record Node (c : Crypto) : Type 0 where
  pub pubstore : Dict String c.PublicKey
  pub reports : ReportBuffer
  pub shares : Dict String (Share c)
  pub internal_reports : Dict String ReportBuffer

-- `isProcessable`: the loop over the signers, with its two flags.
unfoldable pub flags : String → String → Bool → Bool → List String → Bool × Bool
flags opid leader leader_signed signed [] = (leader_signed, signed)
flags opid leader leader_signed signed (s ∷ ss) =
    flags opid leader (leader == s || leader_signed) (opid == s || signed) ss

unfoldable pub is_processable : String → String → List String → Bool
is_processable opid leader signers =
    let (leader_signed, signed) = flags opid leader false false signers in
    leader_signed && not signed

module _ (c : Crypto) where
  open c use {decimal, deserialize_hex_str, verify_byte}

  unfoldable pub node_quorum_count : String → Node c → ℕ
  node_quorum_count net n = elim (lookup net n.shares) [
    | none ↦ 0
    | some share ↦ quorum_count c share
  ]

  unfoldable pub has_quorum : SignedReport → List String → Node c → Bool
  has_quorum sr signers n = leb (node_quorum_count sr.network n) (length signers)

  unfoldable pub get_leader : String → ℕ → Node c → ℕ
  get_leader net seq n = elim (lookup net n.shares) [
    | none ↦ 0
    | some share ↦ round_robin_leader seq (length share.signers)
  ]

  unfoldable pub validate_internal_net : SignedReport → Node c → ValidationResult
  validate_internal_net sr n = elim (lookup sr.network n.shares) [
    | none ↦ ignore
    | some share ↦
        if validate c share sr
        then elim (lookup sr.network n.internal_reports) [
          | none ↦ accept
          | some reports ↦ elim (get (decimal sr.signer_id) sr.seq_number reports) [
            | some _ ↦ ignore
            | none ↦ accept
          ]
        ]
        else reject
  ]

  -- `Validate`, after the message is unpacked: `none` where the JSON is bad.
  unfoldable pub node_validate : String → Option SignedReport → Node c → ValidationResult
  node_validate topic report n = elim (lookup topic n.pubstore) [
    | none ↦ ignore
    | some pubkey ↦ elim report [
      | none ↦ reject
      | some sr ↦
          if ltb 0 sr.signer_id
          then validate_internal_net sr n
          else elim (deserialize_hex_str sr.sig_hex) [
            | none ↦ reject
            | some sig ↦
                if verify_byte sig pubkey sr.bytes then validate_sequence sr n.reports else reject
          ]
    ]
  ]
