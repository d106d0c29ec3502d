-- ===== src/Bls/Signs.antt =====
-- What one report that a node consumes makes it sign.
use p2pmq.Base.{
  ℕ, suc, ◌+◌, ◌<◌, ◌≡◌, ◌⊎◌, refl, String, Bool, true, ◌&&◌, List, [], ◌∷◌, ◌++◌, Option, some,
  ltb, eqb, ◌==◌, inl, inr, Bool-cases, Option-cases, arith, string_key, if◌then◌else◌,
}
use p2pmq.Base.Dict.{lookup, insert, lookup-insert}
use p2pmq.Bls.Report.{SignedReport}
use p2pmq.Bls.ReportBuffer.{ReportBuffer, add, lookup_seq, report_buffer_size}
use p2pmq.Bls.Crypto.{Crypto}
use p2pmq.Bls.Share.{Share, sign}
use p2pmq.Bls.Node.{Node, is_processable, get_leader}
use p2pmq.Bls.InternalNet.{on_stored, signer_reports, consume_internal_net}
use p2pmq.Bls.Signing.{AreUnsigned, on_quorum-AreUnsigned}
use p2pmq.Bls.Slot.{IsAt, IsFull, add-IsAt, add-IsFull, own-IsFull, full-idle}

-- How many reports of a number of a network have a signer.
unfoldable pub counts : String → ℕ → SignedReport → Bool
counts net seq r = (r.network == net) && (eqb r.seq_number seq && ltb 0 r.signer_id)

unfoldable pub signed_count : String → ℕ → List SignedReport → ℕ
unfolding counts
signed_count net seq [] = 0
signed_count net seq (r ∷ l) =
    let rest = signed_count net seq l in if counts net seq r then suc rest else rest

pub signed_count-append :
    (net : String) (seq : ℕ) (l k : List SignedReport)
    → signed_count net seq (l ++ k) ≡ signed_count net seq l + signed_count net seq k
unfolding signed_count
signed_count-append net seq [] k = omega arith
signed_count-append net seq (r ∷ l) k = ground (arith, signed_count-append net seq l k)

module _ (c : Crypto) (net : String) (seq : ℕ) where
  pub AreUnsigned-count : (l : List SignedReport) → AreUnsigned c l → signed_count net seq l ≡ 0
  unfolding signed_count
  AreUnsigned-count [] h = refl
  AreUnsigned-count (r ∷ l) h = ground (arith, AreUnsigned-count l h.1)

  module _ (send : SignedReport → Option String) (share : Share c) where
    abbrev pub own : String
    own = c.decimal share.signer_id

    -- Either nothing was signed for the number, or it was signed once and the slot is now full.
    abbrev pub Signs : ReportBuffer → ReportBuffer → List SignedReport → Type 0
    Signs before after sent =
        ((signed_count net seq sent ≡ 0) × (IsFull own seq before → IsFull own seq after))
        ⊎ ((signed_count net seq sent ≡ 1) × (¬ IsFull own seq before) × IsFull own seq after)

    module _ (sr : SignedReport) (rb : ReportBuffer) (n : Node c) (pos : 0 < seq)
        (h : IsAt own seq rb) (near : sr.seq_number < seq + report_buffer_size) where
      -- The node's report is signed and sent, and then only reports with no signer.
      due-Signs :
          (leader : String) (rest : List SignedReport)
          → is_processable own leader (lookup_seq sr.seq_number rb) ≡ true
          → AreUnsigned c rest
          → Signs rb (add own (sign c share sr) rb).0 (sign c share sr ∷ rest)
      unfolding sign signed_count counts
      due-Signs leader rest due unsigned = elim (Bool-cases (counts net seq (sign c share sr))) [
        | inl b ↦ inr (
          ground (arith, AreUnsigned-count rest unsigned),
          λ full. ground (arith, full-idle own seq leader rb pos h full),
          own-IsFull own seq (sign c share sr) rb h (ground arith),
        )
        | inr b ↦ inl (
          ground (arith, AreUnsigned-count rest unsigned),
          add-IsFull own seq own (sign c share sr) rb h near,
        )
      ]

      on_stored-Signs :
          let (after, sent) = on_stored c send share sr rb n in
          IsAt own seq after × Signs rb after sent
      unfolding on_stored sign
      on_stored-Signs = elim (Bool-cases (is_processable own leader signers)) [
        | inr idle ↦
            rw (idle, on_stored)
              (h, inl (AreUnsigned-count _ (on_quorum-AreUnsigned c sr rb signers n), λ full. full))
        | inl due ↦ elim (Option-cases (send (sign c share sr))) [
          | inr (x, e) ↦ rw (due, on_stored) (rw e (stored, due-Signs leader [] due tt))
          | inl e ↦
              rw (due, on_stored)
                (rw e (
                  stored,
                  due-Signs leader _ due (on_quorum-AreUnsigned c (sign c share sr) _ _ n),
                ))
        ]
      ]
        where
          leader : String
          leader = c.decimal (get_leader c sr.network sr.seq_number n)

          signers : List String
          signers = lookup_seq sr.seq_number rb

          stored : IsAt own seq (add own (sign c share sr) rb).0
          stored = add-IsAt own seq own (sign c share sr) rb h near

    -- What becomes of the signers' reports, and what is sent.
    abbrev pub outcome : SignedReport → ReportBuffer → Node c → ReportBuffer × List SignedReport
    outcome sr rb n =
        let (reports, added) = add (c.decimal sr.signer_id) sr rb in
        if added then on_stored c send share sr reports n else (reports, [])

    pub outcome-Signs :
        (sr : SignedReport) (rb : ReportBuffer) (n : Node c) (pos : 0 < seq) (h : IsAt own seq rb)
        (near : sr.seq_number < seq + report_buffer_size)
        → IsAt own seq (outcome sr rb n).0 × Signs rb (outcome sr rb n).0 (outcome sr rb n).1
    unfolding signed_count
    outcome-Signs sr rb n pos h near = elim (Bool-cases (add from sr rb).1) [
      | inr old ↦ rw old (stored, inl (refl, keeps))
      | inl new ↦ rw new (
          let (at, signs) = on_stored-Signs sr (add from sr rb).0 n pos stored near in
          (at, after_add _ _ _ keeps signs))
    ]
      where
        from : String
        from = c.decimal sr.signer_id

        stored : IsAt own seq (add from sr rb).0
        stored = add-IsAt own seq from sr rb h near

        keeps : IsFull own seq rb → IsFull own seq (add from sr rb).0
        keeps = add-IsFull own seq from sr rb h near

        after_add :
            (mid after : ReportBuffer) (sent : List SignedReport)
            → (IsFull own seq rb → IsFull own seq mid)
            → Signs mid after sent
            → Signs rb after sent
        after_add mid after sent k (inl (none_signed, g)) = inl (none_signed, λ full. g (k full))
        after_add mid after sent k (inr (one_signed, free, full)) =
            inr (one_signed, λ f. free (k f), full)

    -- The signers' reports of a network after a write.
    pub signer_reports-insert :
        (j : String) (rb : ReportBuffer) (n : Node c)
        → signer_reports c send net (record n { internal_reports = insert j rb n.internal_reports })
          ≡ (if j == net then rb else signer_reports c send net n)
    unfolding signer_reports
    signer_reports-insert j rb n = ground (arith, lookup-insert j net rb n.internal_reports)

    pub consume_held :
        (sr : SignedReport) (n : Node c)
        → lookup sr.network n.shares ≡ some share
        → consume_internal_net c send sr n ≡ (
          record n {
            internal_reports =
                insert sr.network
                  (outcome sr (signer_reports c send sr.network n) n).0
                  n.internal_reports;
          },
          (outcome sr (signer_reports c send sr.network n) n).1,
        )
    unfolding consume_internal_net
    consume_held sr n e = rw (e, consume_internal_net) refl
