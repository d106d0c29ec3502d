-- ===== src/Bls/InternalNet.antt =====
-- examples/bls/node_internalnet.go: what a signer does with a report of another signer. The
-- goroutines that a message starts run to their end here, one after the other (Goroutines has
-- them in steps); `broadcast` is the error that `Broadcast` returns, and the reports given to it are part of the result.
use p2pmq.Base.{
  ℕ, String, List, [], ◌∷◌, ◌++◌, Option, none, some, length, ltb, ◌==◌, if◌then◌else◌, string_key,
  nat_key,
}
use p2pmq.Base.Dict.{Dict, lookup, insert}
use p2pmq.Bls.Report.{SignedReport}
use p2pmq.Bls.ReportBuffer.{
  ReportBuffer, add, get, lookup_seq, new_report_buffer, report_buffer_size,
}
use p2pmq.Bls.Crypto.{Crypto}
use p2pmq.Bls.Share.{Share, sign, reconstruct_sigs}
use p2pmq.Bls.Node.{Node, is_processable, has_quorum, node_quorum_count, get_leader}

module _ (c : Crypto) where
  open c use {decimal, parse_uint, deserialize_hex_str, serialize, serialize_to_hex_str}

  -- One round of the loop of `collectSignatures`.
  unfoldable pub collect_one : ℕ → ReportBuffer → String → Dict ℕ (List ℕ) → Dict ℕ (List ℕ)
  collect_one seq reports s signatures = elim (parse_uint s) [
    | none ↦ signatures
    | some id ↦ elim (get s seq reports) [
      | none ↦ signatures
      | some rep ↦ elim (deserialize_hex_str rep.sig_hex) [
        | none ↦ signatures
        | some sig ↦ insert id (serialize sig) signatures
      ]
    ]
  ]

  unfoldable pub collect_from : ℕ → ReportBuffer → List String → Dict ℕ (List ℕ) → Dict ℕ (List ℕ)
  collect_from seq reports [] signatures = signatures
  collect_from seq reports (s ∷ ss) signatures =
      collect_from seq reports ss (collect_one seq reports s signatures)

  unfoldable pub collect_signatures : ℕ → ReportBuffer → List String → Dict ℕ (List ℕ)
  collect_signatures seq reports signers = collect_from seq reports signers []

  unfoldable pub prepare_report : Dict ℕ (List ℕ) → SignedReport → Option SignedReport
  prepare_report signatures sr = elim (reconstruct_sigs c signatures) [
    | none ↦ none
    | some sig ↦ some (record sr { sig_hex = serialize_to_hex_str sig; signer_id = 0 })
  ]

  -- The end of `consumeInternalNet`: what is broadcast once the quorum is there.
  unfoldable pub on_quorum : SignedReport → ReportBuffer → List String → Node c → List SignedReport
  on_quorum sr reports signers n =
      if has_quorum c sr signers n
      then (let signatures = collect_signatures sr.seq_number reports signers in
          if ltb (node_quorum_count c sr.network n) (length signatures)
          then elim (prepare_report signatures sr) [ none ↦ [] | some signed ↦ signed ∷ [] ]
          else [])
      else []

  module _ (broadcast : SignedReport → Option String) where
    -- After the report is stored: the node's own signature, if it is due, and the quorum.
    unfoldable pub on_stored :
        Share c → SignedReport → ReportBuffer → Node c → ReportBuffer × List SignedReport
    on_stored share sr reports n =
        let signers = lookup_seq sr.seq_number reports in
        let own = decimal share.signer_id in
        if is_processable own (decimal (get_leader c sr.network sr.seq_number n)) signers
        then (let signed = sign c share sr in
            let reports' = (add own signed reports).0 in
            elim (broadcast signed) [
              | some e ↦ (reports', signed ∷ [])
              | none ↦ (reports', signed ∷ on_quorum signed reports' (signers ++ (own ∷ [])) n)
            ])
        else (reports, on_quorum sr reports signers n)

    -- The reports of the network's signers, a new buffer where there is none.
    unfoldable pub signer_reports : String → Node c → ReportBuffer
    signer_reports net n = elim (lookup net n.internal_reports) [
      | none ↦ new_report_buffer report_buffer_size
      | some reports ↦ reports
    ]

    unfoldable pub consume_internal_net : SignedReport → Node c → Node c × List SignedReport
    consume_internal_net sr n = elim (lookup sr.network n.shares) [
      | none ↦ (n, [])
      | some share ↦
          let (reports, added) = add (decimal sr.signer_id) sr (signer_reports sr.network n) in
          let (final, sent) = if added then on_stored share sr reports n else (reports, []) in
          (record n { internal_reports = insert sr.network final n.internal_reports }, sent)
    ]

    -- `Consume`, after the message is unpacked: `none` where the JSON is bad.
    unfoldable pub node_consume : Option SignedReport → Node c → Node c × List SignedReport
    node_consume none n = (n, [])
    node_consume (some sr) n =
        if ltb 0 sr.signer_id
        then consume_internal_net sr n
        else (record n { reports = (add sr.network sr n.reports).0 }, [])

    -- `TriggerReport`: the leader of the round signs, stores and broadcasts.
    unfoldable pub trigger_report : SignedReport → Node c → Node c × List SignedReport
    trigger_report report n = elim (lookup report.network n.shares) [
      | none ↦ (n, [])
      | some share ↦
          let signed = sign c share report in
          if get_leader c report.network report.seq_number n == share.signer_id
          then (record n { reports = (add report.network signed n.reports).0 }, signed ∷ [])
          else (n, [])
    ]
