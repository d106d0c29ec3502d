-- ===== src/Don/Tests.antt =====
-- Keyrings whose signatures are what they sign behind the key, and the theorems on a DON of two.
use p2pmq.Base.{
  returns, panics, ℕ, ◌≡◌, ◌↔◌, Bool, true, false, ◌&&◌, List, [], ◌∷◌, ok, eqb, length, string_key,
  nat_key, arith, refl,
}
use p2pmq.Base.Int.{pos, negsuc}
use p2pmq.Base.Dict.{Dict, lookup, insert}
use p2pmq.Proto.{reject}
use p2pmq.Don.Report.{
  MockedSignedReport, Ocr, Report, zero_report, get_report_data, signer_sign, signer_verify,
  sign_all, new_mocked_signed_report,
}
use p2pmq.Don.ReportBuffer.{
  new_report_buffer, index_of, ring_for, add, get, latest_from, get_latest,
}
use p2pmq.Don.Verifier.{
  ReportVerifier, needed, count_valid, judge, validate_seen, validate_sequence, process_signed,
  process,
}
use p2pmq.Don.Node.{consume}
use p2pmq.Don.Signed.{IsScheme, second_signer-reject}
use p2pmq.Don.Negative.{negative-panics}

abbrev same_list : List ℕ → List ℕ → Bool
same_list [] [] = true
same_list (x ∷ xs) (y ∷ ys) = eqb x y && same_list xs ys
same_list _ _ = false

same_list_iff : (xs ys : List ℕ) → (same_list xs ys ≡ true) ↔ (xs ≡ ys)
same_list_iff [] [] = ground arith
same_list_iff [] (y ∷ ys) = ground arith
same_list_iff (x ∷ xs) [] = ground arith
same_list_iff (x ∷ xs) (y ∷ ys) = ground (arith, same_list_iff xs ys)

-- Every message unpacks to the report given.
abbrev ocr : MockedSignedReport (Unit {0}) → Ocr
ocr r = record {
  EvmKeyring = ℕ;
  OnchainPublicKey = ℕ;
  ReportContext = Unit {0};
  zero_context = tt;
  keyring_sign = λ k ctx m. ok (k ∷ m);
  keyring_verify = λ pk ctx n sig. same_list sig (pk ∷ n);
  format = λ sr. length sr.sigs ∷ sr.bytes;
  marshal_report = λ sr. ok [];
  unmarshal_report = λ raw. ok r;
}

ocr-IsScheme : (r : MockedSignedReport (Unit {0})) → IsScheme (ocr r) (λ k. k)
ocr-IsScheme r = record {
  verifies = λ k ctx m n sig e. ground (arith, same_list_iff sig (k ∷ n));
  prints = λ a b e f. ground arith;
}

program : Unit {0}
unfolding get_report_data signer_sign signer_verify sign_all new_mocked_signed_report
    new_report_buffer index_of ring_for add get latest_from get_latest needed count_valid judge
    validate_seen validate_sequence process_signed process consume lookup insert
program = tt

-- The report of one signer, and of two.
abbrev lone : MockedSignedReport (Unit {0})
lone = record {
  src = "d";
  seq_number = pos 1;
  bytes = 9 ∷ [];
  sigs = (0, 5 ∷ 0 ∷ 9 ∷ []) ∷ [];
  ctx = tt;
}

abbrev paired : MockedSignedReport (Unit {0})
paired = record lone { sigs = (0, 5 ∷ 0 ∷ 9 ∷ []) ∷ (1, 6 ∷ 1 ∷ 9 ∷ []) ∷ [] }

abbrev none_yet : MockedSignedReport (Unit {0})
none_yet = zero_report (ocr lone)

abbrev verifier : (r : MockedSignedReport (Unit {0})) → Dict ℕ ℕ → ReportVerifier (ocr r)
verifier r keys = record {
  reports = record { reports = []; buffer_size = 4 };
  dons = ("d", keys) ∷ [];
}

second_signer-reject_example :
    process (ocr paired) [] (verifier paired ((0, 5) ∷ (1, 6) ∷ [])) ≡ returns reject
unfolding program
second_signer-reject_example =
    second_signer-reject (ocr paired) (λ k. k) (ocr-IsScheme paired) 0 1 (record { k = 5; oid = 0 })
      (record { k = 6; oid = 1 }) [] (pos 1) "d" (9 ∷ []) [] paired ((0, 5) ∷ (1, 6) ∷ [])
      (verifier paired ((0, 5) ∷ (1, 6) ∷ [])) refl refl refl refl refl

abbrev negative : MockedSignedReport (Unit {0})
negative = record lone { seq_number = negsuc 0 }

abbrev used : ReportVerifier (ocr negative)
used = record (verifier negative ((0, 5) ∷ [])) {
  reports = record {
    reports = ("d", none_yet ∷ lone ∷ none_yet ∷ none_yet ∷ []) ∷ [];
    buffer_size = 4;
  };
}

negative-panics_example :
    (process (ocr negative) [] used ≡ panics) × (consume (ocr negative) [] used.reports ≡ panics)
unfolding program
negative-panics_example =
    negative-panics (ocr negative) [] negative ((0, 5) ∷ []) 0 1 used refl refl refl (ground arith)
      refl (ground arith) (omega arith) (λ latest e. ground arith)
