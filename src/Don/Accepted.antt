-- ===== src/Don/Accepted.antt =====
-- When a verifier accepts a report.
use p2pmq.Base.{
  returns, ℕ, suc, ◌+◌, ◌≤◌, ◌≡◌, inl, inr, true, Bool-cases, List, [], ◌∷◌, none, some,
  Option-cases, length, string_key, nat_key, All, arith,
}
use p2pmq.Base.Int.{sub_i64, ◌≤ℤ◌}
use p2pmq.Base.Dict.{Dict, lookup}
use p2pmq.Don.Report.{Ocr, Report, get_report_data, signer_verify}
use p2pmq.Don.ReportBuffer.{ReportBuffer, get, get_latest}
use p2pmq.Don.Verifier.{needed, skip_threshold, count_valid}

module _ (o : Ocr) where
  -- A key's signature is missing or verifies.
  abbrev pub IsSound : Report o → ℕ × o.OnchainPublicKey → Type 0
  IsSound r (oid, pk) =
      (sig : List ℕ)
      → lookup oid r.sigs ≡ some sig
      → o.keyring_verify pk r.ctx (get_report_data o r) sig ≡ true

  -- How many keys have signed.
  abbrev pub signed : Report o → Dict ℕ o.OnchainPublicKey → ℕ
  signed r [] = 0
  signed r ((oid, pk) ∷ keys) = elim (lookup oid r.sigs) [
    | none ↦ signed r keys
    | some _ ↦ suc (signed r keys)
  ]

  pub count_valid-counts :
      (r : Report o) (v m : ℕ) (keys : Dict ℕ o.OnchainPublicKey)
      → count_valid o r v keys ≡ some m
      → All (IsSound r) keys × (m ≡ v + signed r keys)
  unfolding count_valid signer_verify
  count_valid-counts r v m [] e = (tt, ground arith)
  count_valid-counts r v m ((oid, pk) ∷ keys) e = elim (Option-cases (lookup oid r.sigs)) [
    | inl z ↦
        let (h, k) = count_valid-counts r v m keys (ground arith) in
        ((λ sig f. absurd (ground arith), h), ground arith)
    | inr (sig, z) ↦ elim (Bool-cases (o.keyring_verify pk r.ctx (get_report_data o r) sig)) [
      | inr b ↦ absurd (ground arith)
      | inl b ↦
          let (h, k) = count_valid-counts r (suc v) m keys (ground arith) in
          ((λ sig' f. ground arith, h), ground arith)
    ]
  ]

  -- What a verifier asks of a report, given the keys of its DON.
  pub record IsAcceptable (r : Report o) (keys : Dict ℕ o.OnchainPublicKey) (rb : ReportBuffer o)
      : Type 0 where
    pub sound : All (IsSound r) keys
    pub enough : needed (length keys) ≤ signed r keys
    pub unseen : get o r.src r.seq_number rb ≡ returns none
    pub near :
        (latest : Report o)
        → get_latest o r.src rb ≡ some latest
        → sub_i64 r.seq_number latest.seq_number ≤ℤ skip_threshold
