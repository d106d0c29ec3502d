-- ===== src/Don/Verifier.antt =====
-- examples/don/verifier.go: what a node makes of a report that it is asked to validate.
use p2pmq.Base.{
  Outcome, returns, panics, ℕ, suc, ◌-◌, ◌/◌, String, List, [], ◌∷◌, Option, none, some, ok, err,
  length, ltb, if◌then◌else◌, string_key, nat_key,
}
use p2pmq.Base.Int.{ℤ, pos, ltb_ℤ, sub_i64}
use p2pmq.Base.Dict.{Dict, lookup}
use p2pmq.Proto.{ValidationResult, accept, reject, ignore}
use p2pmq.Don.Report.{Ocr, Report, get_report_data, signer_verify}
use p2pmq.Don.ReportBuffer.{ReportBuffer, get, get_latest}

abbrev pub skip_threshold : ℤ
skip_threshold = pos 5

abbrev pub invalid_threshold : ℤ
invalid_threshold = pos 25

-- `n - (n - 1) / 3` on `int`, where the division rounds towards zero: nothing for no keys.
unfoldable pub needed : ℕ → ℕ
needed n = n - (n - 1) / 3

module _ (o : Ocr) where
  pub record ReportVerifier : Type 0 where
    pub reports : ReportBuffer o
    pub dons : Dict String (Dict ℕ o.OnchainPublicKey)

  unfoldable pub new_report_verifier : ReportBuffer o → ReportVerifier
  new_report_verifier reports = record { reports = reports; dons = [] }

  -- The loop over the keys, in Go's order: the number of valid signatures, or `none` where it
  -- returns because one is not. A key with no signature is passed over.
  unfoldable pub count_valid : Report o → ℕ → Dict ℕ o.OnchainPublicKey → Option ℕ
  count_valid r valid [] = some valid
  count_valid r valid ((oid, pk) ∷ keys) = elim (lookup oid r.sigs) [
    | none ↦ count_valid r valid keys
    | some sig ↦ elim (signer_verify o pk r.ctx (get_report_data o r) sig) [
      | some e ↦ none
      | none ↦ count_valid r (suc valid) keys
    ]
  ]

  -- What `validateSequence` says of a report that is not too far ahead.
  unfoldable pub validate_seen : Report o → ReportVerifier → Outcome ValidationResult
  validate_seen r rv = elim (get o r.src r.seq_number rv.reports) [
    | panics ↦ panics
    | returns (some _) ↦ returns ignore
    | returns none ↦ returns accept
  ]

  -- The `switch` on how far the report is ahead of the latest.
  unfoldable pub judge : ℤ → Outcome ValidationResult → Outcome ValidationResult
  judge diff seen =
      if ltb_ℤ invalid_threshold diff
      then returns reject
      else if ltb_ℤ skip_threshold diff
      then returns ignore
      else seen

  unfoldable pub validate_sequence : Report o → ReportVerifier → Outcome ValidationResult
  validate_sequence r rv = elim (get_latest o r.src rv.reports) [
    | none ↦ validate_seen r rv
    | some latest ↦ judge (sub_i64 r.seq_number latest.seq_number) (validate_seen r rv)
  ]

  -- The signatures, then the sequence number.
  unfoldable pub process_signed :
      Report o → Dict ℕ o.OnchainPublicKey → ReportVerifier → Outcome ValidationResult
  process_signed r pubkeys rv = elim (count_valid r 0 pubkeys) [
    | none ↦ returns reject
    | some valid ↦
        if ltb valid (needed (length pubkeys)) then returns reject else validate_sequence r rv
  ]

  -- `Process` without the raw data that it passes on.
  unfoldable pub process : List ℕ → ReportVerifier → Outcome ValidationResult
  process raw rv = elim (o.unmarshal_report raw) [
    | err e ↦ returns reject
    | ok r ↦ elim (lookup r.src rv.dons) [
      | none ↦ returns ignore
      | some pubkeys ↦ process_signed r pubkeys rv
    ]
  ]
