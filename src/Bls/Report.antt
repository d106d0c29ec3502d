-- ===== src/Bls/Report.antt =====
-- examples/bls/report.go. JSON, which packs a report, is not modelled.
use p2pmq.Base.{ℕ, String, List, []}

pub record SignedReport : Type 0 where
  pub network : String
  pub bytes : List ℕ
  pub sig_hex : String
  pub seq_number : ℕ
  pub signer_id : ℕ

-- `SignedReport{}`
abbrev pub zero_report : SignedReport
zero_report = record { network = ""; bytes = []; sig_hex = ""; seq_number = 0; signer_id = 0 }
