-- ===== src/Don/Node.antt =====
-- examples/don/node.go, transmitter.go and localdon.go: the handlers that a node gives to its clients
-- of the gRPC API, what it publishes, and a network that makes one report after the other. The
-- clients themselves, and the goroutines of `run`, `broadcast` and `Start`, are not modelled.
use Prim.Native.String.{◌++◌ as append}
use p2pmq.Base.{
  Outcome, returns, panics, ℕ, suc, ◌%◌, String, List, [], ◌∷◌, ◌++◌, Option, none, some, Result,
  ok, err, nat_key,
}
use p2pmq.Base.Int.{ℤ, pos, add_i64}
use p2pmq.Base.Dict.{Dict, insert}
use p2pmq.Proto.{ValidationResult}
use p2pmq.Don.Report.{Ocr, Report, OcrSigner, new_mocked_signed_report}
use p2pmq.Don.ReportBuffer.{ReportBuffer, add, new_report_buffer}
use p2pmq.Don.Verifier.{ReportVerifier, new_report_verifier, process}

unfoldable pub don_topic : String → String
don_topic don_id = append "don." don_id

module _ (o : Ocr) where
  open o use {EvmKeyring, unmarshal_report, marshal_report}

  pub record NodeOpts : Type 0 where
    pub report_manipulator : Report o → Report o
    pub buffer_size : ℕ
    pub signer : Option (OcrSigner o)

  unfoldable pub default_node_opts : NodeOpts
  default_node_opts = record { report_manipulator = λ r. r; buffer_size = 1024; signer = none }

  unfoldable pub with_report_manipulator : (Report o → Report o) → NodeOpts → NodeOpts
  with_report_manipulator manipulator opts = record opts { report_manipulator = manipulator }

  unfoldable pub with_buffer_size : ℕ → NodeOpts → NodeOpts
  with_buffer_size size opts = record opts { buffer_size = size }

  unfoldable pub with_signer : OcrSigner o → NodeOpts → NodeOpts
  with_signer signer opts = record opts { signer = some signer }

  -- The buffer and the verifier's table are all the state that the handlers share.
  pub record Node : Type 0 where
    pub report_manipulator : Report o → Report o
    pub verifier : ReportVerifier o
    pub signers : Dict String (OcrSigner o)

  unfoldable pub apply_opts : List (NodeOpts → NodeOpts) → NodeOpts → NodeOpts
  apply_opts [] opts = opts
  apply_opts (f ∷ fs) opts = apply_opts fs (f opts)

  unfoldable pub new_node : List (NodeOpts → NodeOpts) → Node
  new_node opts =
      let node_opts = apply_opts opts default_node_opts in
      record {
        report_manipulator = node_opts.report_manipulator;
        verifier = new_report_verifier o (new_report_buffer o node_opts.buffer_size);
        signers = [];
      }

  -- The consumer's handler, with its error if any.
  unfoldable pub consume : List ℕ → ReportBuffer o → Outcome (ReportBuffer o × Option String)
  consume raw reports = elim (unmarshal_report raw) [
    | err e ↦ returns (reports, some e)
    | ok r ↦ elim (add o r.src r reports) [
      | panics ↦ panics
      | returns (after, new) ↦ returns (after, none)
    ]
  ]

  -- The verifier's handler.
  unfoldable pub verify : List ℕ → Node → Outcome ValidationResult
  verify raw n = process o raw n.verifier

  -- What `Transmit` publishes, with its error if any, over what `Connect` and gRPC's client do. The
  -- manipulator changes the report in place; here it gives the changed one.
  module _ {Conn : Type 0} where
    unfoldable pub transmit :
        (connected : Result Conn)
        → (publish : Conn → String → List ℕ → Option String) → (Report o → Report o)
        → Report o
        → String
        → Option String
    transmit (err e) publish manipulator report don_id = some e
    transmit (ok conn) publish manipulator report don_id =
        elim (marshal_report (manipulator report)) [
          | err e ↦ some e
          | ok raw ↦ publish conn (don_topic don_id) raw
        ]

  pub record MockedDon : Type 0 where
    pub id : String
    pub nodes : List (OcrSigner o)
    pub reports : List (Report o)

  -- The signers of `newMockedDon`, of which `OracleID(i)` keeps eight bits.
  unfoldable pub don_signers : ℕ → List EvmKeyring → List (OcrSigner o)
  don_signers i [] = []
  don_signers i (k ∷ ks) = record { k = k; oid = i % 256 } ∷ don_signers (suc i) ks

  unfoldable pub new_mocked_don : String → List EvmKeyring → MockedDon
  new_mocked_don id keyrings = record { id = id; nodes = don_signers 0 keyrings; reports = [] }

  -- The loop of `Signers`.
  unfoldable pub collect_signers : List (OcrSigner o) → Dict ℕ (OcrSigner o) → Dict ℕ (OcrSigner o)
  collect_signers [] signers = signers
  collect_signers (s ∷ ss) signers = collect_signers ss (insert s.oid s signers)

  unfoldable pub signers : MockedDon → Dict ℕ (OcrSigner o)
  signers d = collect_signers d.nodes []

  unfoldable pub last_seq : ℤ → List (Report o) → ℤ
  last_seq last [] = last
  last_seq last (r ∷ rs) = last_seq r.seq_number rs

  -- `nextReport`, over the text that the report carries.
  unfoldable pub next_report : (ℤ → List ℕ) → MockedDon → Outcome (MockedDon × Report o)
  next_report dummy d =
      let seq = add_i64 (last_seq (pos 0) d.reports) (pos 1) in
      elim (new_mocked_signed_report o (signers d) seq d.id (dummy seq)) [
        | err e ↦ panics
        | ok r ↦ returns (record d { reports = d.reports ++ (r ∷ []) }, r)
      ]
