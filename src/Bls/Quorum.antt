-- ===== src/Bls/Quorum.antt =====
-- The quorum and the leader, and how many signatures a report needs.
use p2pmq.Base.{
  ℕ, suc, ◌+◌, ◌-◌, ◌*◌, ◌/◌, ◌≤◌, ◌<◌, ◌≡◌, String, true, List, [], ◌∷◌, length, Option-cases, inl,
  inr, arith, string_key, nat_key,
}
use p2pmq.Base.Dict.{Dict, length-insert}
use p2pmq.Bls.Report.{SignedReport}
use p2pmq.Bls.ReportBuffer.{ReportBuffer, get}
use p2pmq.Bls.Crypto.{Crypto}
use p2pmq.Bls.Share.{threshold}
use p2pmq.Bls.Node.{Node, has_quorum, node_quorum_count}
use p2pmq.Bls.InternalNet.{collect_one, collect_from, collect_signatures, on_quorum}

-- Of n > 0 signers, f = (n - 1) / 3 of them faulty, the threshold is the number of the others, and
-- any two sets of that size have more than f signers in common: n + f < 2 * threshold n.
pub threshold_intersects :
    (n : ℕ) → 0 < n → (threshold n + (n - 1) / 3 ≡ n) × (n + (n - 1) / 3 < 2 * threshold n)
unfolding threshold
threshold_intersects n h = omega arith

module _ (c : Crypto) where
  collect_one-le :
      (seq : ℕ) (reports : ReportBuffer) (s : String) (m : Dict ℕ (List ℕ))
      → length (collect_one c seq reports s m) ≤ suc (length m)
  unfolding collect_one
  collect_one-le seq reports s m = elim (Option-cases (c.parse_uint s)) [
    | inl e ↦ rw (e, collect_one) (omega arith)
    | inr (id, e) ↦ elim (Option-cases (get s seq reports)) [
      | inl f ↦ rw (e, collect_one) (rw f (omega arith))
      | inr (rep, f) ↦ elim (Option-cases (c.deserialize_hex_str rep.sig_hex)) [
        | inl g ↦ rw (e, collect_one) (rw f (rw g (omega arith)))
        | inr (sig, g) ↦
            rw (e, collect_one) (rw f (rw g (ground (arith, length-insert id (c.serialize sig) m))))
      ]
    ]
  ]

  collect_from-le :
      (seq : ℕ) (reports : ReportBuffer) (ss : List String) (m : Dict ℕ (List ℕ))
      → length (collect_from c seq reports ss m) ≤ length ss + length m
  unfolding collect_from
  collect_from-le seq reports [] m = omega arith
  collect_from-le seq reports (s ∷ ss) m = omega (
    arith,
    collect_from-le seq reports ss (collect_one c seq reports s m),
    collect_one-le seq reports s m,
  )

  -- There are at most as many signatures as signers.
  pub collect_signatures-le :
      (seq : ℕ) (reports : ReportBuffer) (ss : List String)
      → length (collect_signatures c seq reports ss) ≤ length ss
  unfolding collect_signatures
  collect_signatures-le seq reports ss = omega (arith, collect_from-le seq reports ss [])

  -- With exactly as many signers as the quorum count, hasQuorum holds but nothing is published.
  pub quorum_publishes_nothing :
      (sr : SignedReport) (reports : ReportBuffer) (signers : List String) (n : Node c)
      → length signers ≡ node_quorum_count c sr.network n
      → (has_quorum c sr signers n ≡ true) × (on_quorum c sr reports signers n ≡ [])
  unfolding on_quorum has_quorum collect_signatures
  quorum_publishes_nothing sr reports signers n h =
      (ground arith, ground (arith, collect_from-le sr.seq_number reports signers []))
