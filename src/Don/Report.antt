-- ===== src/Don/Report.antt =====
-- examples/don/report.go and signer_ocr.go. The keyring and the types of ocr_evm_keyring.go and
-- ocr_types.go are copies of libocr, so they are parameters here, as are JSON and `fmt.Sprintf`.
use p2pmq.Base.{
  ℕ, String, Bool, List, [], ◌∷◌, Result, ok, err, if◌then◌else◌, nat_key, Option, none, some,
}
use p2pmq.Base.Int.{ℤ}
use p2pmq.Base.Dict.{Dict, insert}

-- `Sigs` goes by the oracles' ids.
pub record MockedSignedReport (Context : Type 0) : Type 0 where
  pub src : String
  pub seq_number : ℤ
  pub bytes : List ℕ
  pub sigs : Dict ℕ (List ℕ)
  pub ctx : Context

pub record Ocr : Type 1 where
  pub EvmKeyring : Type 0
  pub OnchainPublicKey : Type 0
  pub ReportContext : Type 0
  pub zero_context : ReportContext
  pub keyring_sign : EvmKeyring → ReportContext → List ℕ → Result (List ℕ)
  -- `Verify` does not look at the keyring that it is called on.
  pub keyring_verify : OnchainPublicKey → ReportContext → List ℕ → List ℕ → Bool
  -- `[]byte(fmt.Sprintf("%+v", sr))`, and JSON.
  pub format : MockedSignedReport ReportContext → List ℕ
  pub marshal_report : MockedSignedReport ReportContext → Result (List ℕ)
  pub unmarshal_report : List ℕ → Result (MockedSignedReport ReportContext)

module _ (o : Ocr) where
  open o use {
    EvmKeyring, OnchainPublicKey, ReportContext, zero_context, keyring_sign, keyring_verify, format,
  }

  abbrev pub Report : Type 0
  Report = MockedSignedReport ReportContext

  -- `MockedSignedReport{}`
  abbrev pub zero_report : Report
  zero_report = record { src = ""; seq_number = ℤ.pos 0; bytes = []; sigs = []; ctx = zero_context }

  pub record OcrSigner : Type 0 where
    pub k : EvmKeyring
    pub oid : ℕ

  unfoldable pub signer_sign : OcrSigner → ReportContext → List ℕ → Result (List ℕ)
  signer_sign s ctx report = keyring_sign s.k ctx report

  -- The error, if any.
  unfoldable pub signer_verify : OnchainPublicKey → ReportContext → List ℕ → List ℕ → Option String
  signer_verify pub_key ctx report signed =
      if keyring_verify pub_key ctx report signed then none else some "invalid report"

  unfoldable pub get_report_data : Report → List ℕ
  get_report_data r =
      format (record zero_report { src = r.src; seq_number = r.seq_number; bytes = r.bytes })

  -- The loop of `NewMockedSignedReport`, in the order that Go takes the signers in. Each signs the
  -- report as it is then, with the signatures before its own.
  unfoldable pub sign_all : Dict ℕ OcrSigner → Report → Result Report
  sign_all [] sr = ok sr
  sign_all ((oid, s) ∷ rest) sr = elim (signer_sign s zero_context (format sr)) [
    | err e ↦ err e
    | ok sig ↦ sign_all rest (record sr { sigs = insert oid sig sr.sigs })
  ]

  unfoldable pub new_mocked_signed_report : Dict ℕ OcrSigner → ℤ → String → List ℕ → Result Report
  new_mocked_signed_report signers seq_number src_don bytes =
      elim (sign_all signers
        (record zero_report { src = src_don; seq_number = seq_number; bytes = bytes })) [
          | err e ↦ err e
          | ok sr ↦ ok (record sr { ctx = zero_context })
        ]
