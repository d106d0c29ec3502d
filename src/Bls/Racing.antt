-- ===== src/Bls/Racing.antt =====
-- Two goroutines of consumeInternalNet at once, and one alone.
use p2pmq.Base.{
  ◌≡◌, refl, ap, Bool, true, false, String, List, [], ◌∷◌, ◌++◌, Option, none, some, inl, inr,
  Bool-cases, Option-cases,
}
use p2pmq.Router.Queue.{pick}
use p2pmq.Bls.Report.{SignedReport}
use p2pmq.Bls.ReportBuffer.{ReportBuffer, add, lookup_seq}
use p2pmq.Bls.Crypto.{Crypto}
use p2pmq.Bls.Share.{Share, sign}
use p2pmq.Bls.Node.{Node, is_processable, get_leader}
use p2pmq.Bls.InternalNet.{on_stored}
use p2pmq.Bls.Goroutines.{
  stored, looked, signed, counted, Signer, begins, goes_on, begin, go_on, step, Reach, here, next,
}

-- A node none of whose goroutines runs.
abbrev pub idle : ReportBuffer → Signer
idle reports = record { reports = reports; running = []; sent = [] }

module _ (c : Crypto) (send : SignedReport → Option String) (share : Share c) (n : Node c) where
  abbrev due : SignedReport → List String → Bool
  due sr signers =
      is_processable (c.decimal share.signer_id)
        (c.decimal (get_leader c sr.network sr.seq_number n)) signers

  begin-stored :
      (sr : SignedReport) (s : Signer)
      → (add (c.decimal sr.signer_id) sr s.reports).1 ≡ true
      → begin c send share n sr s ≡ record s {
        reports = (add (c.decimal sr.signer_id) sr s.reports).0;
        running = s.running ++ (stored sr ∷ []);
      }
  unfolding begin
  begin-stored sr s e = rw e refl

  go_on-signed :
      (sr : SignedReport) (signers : List String) (s : Signer)
      → due sr signers ≡ true
      → go_on c send share n (looked sr signers) s ≡ record s {
        reports = (add (c.decimal share.signer_id) (sign c share sr) s.reports).0;
        running = signed (sign c share sr) signers ∷ s.running;
      }
  unfolding go_on
  go_on-signed sr signers s e = rw e refl

  go_on-sent :
      (m : SignedReport) (xs : List String) (s : Signer)
      → send m ≡ none
      → go_on c send share n (signed m xs) s ≡ record s {
        sent = s.sent ++ (m ∷ []);
        running = counted m (xs ++ (c.decimal share.signer_id ∷ [])) ∷ s.running;
      }
  unfolding go_on
  go_on-sent m xs s e = rw (e, go_on) refl

  go_on-failed :
      (m : SignedReport) (xs : List String) (s : Signer) (x : String)
      → send m ≡ some x
      → go_on c send share n (signed m xs) s ≡ record s { sent = s.sent ++ (m ∷ []) }
  unfolding go_on
  go_on-failed m xs s x e = rw (e, go_on) refl

  go_on-skipped :
      (sr : SignedReport) (signers : List String) (s : Signer)
      → due sr signers ≡ false
      → go_on c send share n (looked sr signers) s
        ≡ record s { running = counted sr signers ∷ s.running }
  unfolding go_on
  go_on-skipped sr signers s e = rw e refl

  abbrev after : ReportBuffer × List SignedReport → Signer
  after (reports, sent) = record { reports = reports; running = []; sent = sent }

  -- A goroutine that runs alone does what on_stored does.
  alone-on_stored :
      (sr : SignedReport) (reports : ReportBuffer)
      → (add (c.decimal sr.signer_id) sr reports).1 ≡ true
      → Reach c send share n
          (idle reports)
          (after (on_stored c send share sr (add (c.decimal sr.signer_id) sr reports).0 n))
  unfolding step pick on_stored go_on
  alone-on_stored sr reports h =
      let one = (add (c.decimal sr.signer_id) sr reports).0 in
      let signers = lookup_seq sr.seq_number one in
      let mine = sign c share sr in
      let two = (add (c.decimal share.signer_id) mine one).0 in
      let k1 = next here (begins sr) (ap some (begin-stored sr (idle reports) h)) in
      let k2 : Reach c send share n (idle reports)
          (record { reports = one; running = looked sr signers ∷ []; sent = [] }) =
        next k1 (goes_on 0) refl in
      elim (Bool-cases (due sr signers)) [
        | inr idle_now ↦
            let k3 = next k2 (goes_on 0) (ap some (go_on-skipped sr signers (idle one) idle_now)) in
            rw (idle_now, on_stored) (next k3 (goes_on 0) refl)
        | inl d ↦
            let k3 = next k2 (goes_on 0) (ap some (go_on-signed sr signers (idle one) d)) in
            elim (Option-cases (send mine)) [
              | inr (x, e) ↦
                  rw (d, on_stored)
                    (rw e
                      (next k3 (goes_on 0) (ap some (go_on-failed mine signers (idle two) x e))))
              | inl e ↦
                  let k4 = next k3 (goes_on 0) (ap some (go_on-sent mine signers (idle two) e)) in
                  rw (d, on_stored) (rw e (next k4 (goes_on 0) refl))
            ]
      ]
