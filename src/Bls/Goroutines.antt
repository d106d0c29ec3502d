-- ===== src/Bls/Goroutines.antt =====
-- examples/bls/node_internalnet.go: the goroutines of consumeInternalNet for one network whose buffer is there, as steps
-- between which another goroutine can run. What follows the quorum is one step, at the time of collectSignatures.
use p2pmq.Base.{
  ℕ, ◌≡◌, String, List, [], ◌∷◌, ◌++◌, Option, none, some, if◌then◌else◌, string_key, nat_key,
}
use p2pmq.Router.Queue.{pick}
use p2pmq.Bls.Report.{SignedReport}
use p2pmq.Bls.ReportBuffer.{ReportBuffer, add, lookup_seq}
use p2pmq.Bls.Crypto.{Crypto}
use p2pmq.Bls.Share.{Share, sign}
use p2pmq.Bls.Node.{Node, is_processable, get_leader}
use p2pmq.Bls.InternalNet.{on_quorum}

-- Where a goroutine is: past its Add, past its Lookup, past its own Add, and before the quorum.
pub data Stage : Type 0 where
  stored : SignedReport → Stage
  looked signed counted : SignedReport → List String → Stage

-- The shared buffer, the goroutines that run, and all that is given to Broadcast.
pub record Signer : Type 0 where
  pub reports : ReportBuffer
  pub running : List Stage
  pub sent : List SignedReport

module _ (c : Crypto) (send : SignedReport → Option String) (share : Share c) (n : Node c) where
  abbrev pub own_id : String
  own_id = c.decimal share.signer_id

  pub data Op : Type 0 where
    begins : SignedReport → Op
    goes_on : ℕ → Op

  -- A message starts a goroutine, which ends where its report is not added.
  unfoldable pub begin : SignedReport → Signer → Signer
  begin sr s =
      let (reports, added) = add (c.decimal sr.signer_id) sr s.reports in
      record s {
        reports = reports;
        running = if added then s.running ++ (stored sr ∷ []) else s.running;
      }

  -- The next step of a goroutine, in a state without it.
  unfoldable pub go_on : Stage → Signer → Signer
  go_on (stored sr) s = record s {
    running = looked sr (lookup_seq sr.seq_number s.reports) ∷ s.running;
  }
  go_on (looked sr signers) s =
      if is_processable own_id (c.decimal (get_leader c sr.network sr.seq_number n)) signers
      then (let mine = sign c share sr in
          record s {
            reports = (add own_id mine s.reports).0;
            running = signed mine signers ∷ s.running;
          })
      else record s { running = counted sr signers ∷ s.running }
  go_on (signed mine signers) s =
      let s' = record s { sent = s.sent ++ (mine ∷ []) } in
      elim (send mine) [
        | some e ↦ s'
        | none ↦ record s' { running = counted mine (signers ++ (own_id ∷ [])) ∷ s.running }
      ]
  go_on (counted sr signers) s = record s { sent = s.sent ++ on_quorum c sr s.reports signers n }

  unfoldable pub step : Op → Signer → Option Signer
  step (begins sr) s = some (begin sr s)
  step (goes_on i) s = elim (pick i s.running) [
    | none ↦ none
    | some (stage, others) ↦ some (go_on stage (record s { running = others }))
  ]

  pub data Reach (r : Signer) : Signer → Type 0 where
    here : Reach r r
    next : {s t : Signer} → Reach r s → (o : Op) → step o s ≡ some t → Reach r t
