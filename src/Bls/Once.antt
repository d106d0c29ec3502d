-- ===== src/Bls/Once.antt =====
-- A node signs a sequence number of a network at most once, whatever it consumes.
use p2pmq.Base.{
  ℕ, ◌+◌, ◌≤◌, ◌<◌, ◌≡◌, ◌≢◌, ◌⊎◌, refl, ap, String, List, [], ◌∷◌, Option, some, All, ltb, ◌==◌,
  inl, inr, Bool-cases, Option-cases, arith, string_key,
}
use p2pmq.Base.Dict.{lookup, insert}
use mathlib.Core.Path.{subst}
use native.Mathlib.Nat.{add-zero}
use p2pmq.Bls.Report.{SignedReport}
use p2pmq.Bls.ReportBuffer.{ReportBuffer, add, lookup_seq, new_report_buffer, report_buffer_size}
use p2pmq.Bls.Crypto.{Crypto}
use p2pmq.Bls.Share.{Share, sign}
use p2pmq.Bls.Node.{Node, is_processable, get_leader}
use p2pmq.Bls.InternalNet.{on_quorum, on_stored, signer_reports, consume_internal_net, node_consume}
use p2pmq.Bls.Nodes.{consume_all}
use p2pmq.Bls.Signing.{on_quorum-All}
use p2pmq.Bls.Slot.{IsAt, IsFull, new-IsAt}
use p2pmq.Bls.Signs.{
  counts, signed_count, signed_count-append, own, Signs, outcome, outcome-Signs,
  signer_reports-insert, consume_held,
}

module _ (c : Crypto) (net : String) (seq : ℕ) where
  module _ (send : SignedReport → Option String) (share : Share c) where
    -- What a node may have come to: whether a report of the number was signed.
    record IsOnce (n : Node c) (signed : ℕ) : Type 0 where
      known : lookup net n.shares ≡ some share
      at : IsAt (own c net seq send share) seq (signer_reports c send net n)
      count :
          (signed ≡ 0)
          ⊎ ((signed ≡ 1) × IsFull (own c net seq send share) seq (signer_reports c send net n))

    step_count :
        (signed : ℕ) (before after : ReportBuffer) (sent : List SignedReport)
        → (signed ≡ 0) ⊎ ((signed ≡ 1) × IsFull (own c net seq send share) seq before)
        → Signs c net seq send share before after sent
        → (signed + signed_count net seq sent ≡ 0)
          ⊎ ((signed + signed_count net seq sent ≡ 1) × IsFull (own c net seq send share) seq after)
    step_count signed before after sent (inl z) (inl (z', k)) = inl (omega (arith, z, z'))
    step_count signed before after sent (inl z) (inr (o, free, full)) =
        inr (omega (arith, z, o), full)
    step_count signed before after sent (inr (o, f)) (inl (z', k)) = inr (omega (arith, o, z'), k f)
    step_count signed before after sent (inr (o, f)) (inr (o', free, full)) = absurd (free f)

    own_net-IsOnce :
        (sr : SignedReport) (n : Node c) (signed : ℕ)
        → 0 < seq
        → sr.network ≡ net
        → sr.seq_number < seq + report_buffer_size
        → IsOnce n signed
        → let (n', sent) = consume_internal_net c send sr n in
          IsOnce n' (signed + signed_count net seq sent)
    own_net-IsOnce sr n signed pos same near h =
        rw (consume_held c net seq send share sr n (rw same h.known)) (record {
          known = h.known;
          at = rw after now.0;
          count =
              rw (after, ap (λ j. signer_reports c send j n) same)
                (step_count signed _ _ _ h.count now.1);
        })
      where
        now :
            IsAt
              (own c net seq send share)
              seq
              (outcome c net seq send share sr (signer_reports c send net n) n).0
            × Signs c net seq send share
                (signer_reports c send net n)
                (outcome c net seq send share sr (signer_reports c send net n) n).0
                (outcome c net seq send share sr (signer_reports c send net n) n).1
        now = outcome-Signs c net seq send share sr (signer_reports c send net n) n pos h.at near

        after :
            signer_reports c send net (record n {
              internal_reports =
                  insert sr.network
                    (outcome c net seq send share sr (signer_reports c send sr.network n) n).0
                    n.internal_reports;
            })
            ≡ (outcome c net seq send share sr (signer_reports c send net n) n).0
        after = ground (
          arith,
          signer_reports-insert c net seq send share sr.network
              (outcome c net seq send share sr (signer_reports c send sr.network n) n).0 n,
          string_key.same_iff sr.network net,
          same,
        )

  -- Reports of a network.
  abbrev AreOf : String → List SignedReport → Type 0
  AreOf j l = All (λ r. r.network ≡ j) l

  other-count :
      (j : String) (l : List SignedReport) → j ≢ net → AreOf j l → signed_count net seq l ≡ 0
  unfolding signed_count counts
  other-count j [] ne h = refl
  other-count j (r ∷ l) ne h =
      ground (arith, other-count j l ne h.1, string_key.same_iff r.network net, h.0)

  module _ (send : SignedReport → Option String) where
    on_stored-AreOf :
        (share : Share c) (sr : SignedReport) (rb : ReportBuffer) (n : Node c)
        → AreOf sr.network (on_stored c send share sr rb n).1
    unfolding on_stored sign
    on_stored-AreOf share sr rb n = elim (Bool-cases (is_processable own_id leader signers)) [
      | inr idle ↦ rw (idle, on_stored) (published sr rb signers)
      | inl due ↦ elim (Option-cases (send (sign c share sr))) [
        | inr (x, e) ↦ rw (due, on_stored) (rw e (refl, tt))
        | inl e ↦ rw (due, on_stored) (rw e (refl, published (sign c share sr) _ _))
      ]
    ]
      where
        own_id : String
        own_id = c.decimal share.signer_id

        leader : String
        leader = c.decimal (get_leader c sr.network sr.seq_number n)

        signers : List String
        signers = lookup_seq sr.seq_number rb

        published :
            (r : SignedReport) (reports : ReportBuffer) (ids : List String)
            → AreOf r.network (on_quorum c r reports ids n)
        published r reports ids =
            on_quorum-All c (λ x. x.network ≡ r.network) r reports ids n (λ hex. refl)

    outcome-AreOf :
        (share : Share c) (sr : SignedReport) (rb : ReportBuffer) (n : Node c)
        → AreOf sr.network (outcome c net seq send share sr rb n).1
    outcome-AreOf share sr rb n = elim (Bool-cases (add (c.decimal sr.signer_id) sr rb).1) [
      | inr old ↦ rw old tt
      | inl new ↦ rw new (on_stored-AreOf share sr _ n)
    ]

    -- A report of another network signs nothing for this one.
    other_net :
        (sr : SignedReport) (n : Node c)
        → sr.network ≢ net
        → (signed_count net seq (consume_internal_net c send sr n).1 ≡ 0)
          × (signer_reports c send net (consume_internal_net c send sr n).0
              ≡ signer_reports c send net n)
          × ((consume_internal_net c send sr n).0.shares ≡ n.shares)
    unfolding consume_internal_net signed_count
    other_net sr n ne = elim (Option-cases (lookup sr.network n.shares)) [
      | inl e ↦ rw (e, consume_internal_net) (refl, refl, refl)
      | inr (share, e) ↦
          let rb = signer_reports c send sr.network n in
          rw (consume_held c net seq send share sr n e) (
            other-count sr.network _ ne (outcome-AreOf share sr rb n),
            ground (
              arith,
              signer_reports-insert c net seq send share sr.network
                  (outcome c net seq send share sr rb n).0 n,
              string_key.same_iff sr.network net,
            ),
            refl,
          )
    ]

    module _ (share : Share c) (pos : 0 < seq) where
      same_IsOnce :
          (n n' : Node c) (signed more : ℕ)
          → signer_reports c send net n' ≡ signer_reports c send net n
          → n'.shares ≡ n.shares
          → more ≡ 0
          → IsOnce send share n signed
          → IsOnce send share n' (signed + more)
      same_IsOnce n n' signed more same_reports same_shares none_more h = record {
        known = rw same_shares h.known;
        at = rw same_reports h.at;
        count = rw same_reports (rw none_more (rw (add-zero signed) h.count));
      }

      consume-IsOnce :
          (sr : SignedReport) (n : Node c) (signed : ℕ)
          → (sr.network ≡ net → sr.seq_number < seq + report_buffer_size)
          → IsOnce send share n signed
          → let (n', sent) = node_consume c send (some sr) n in
            IsOnce send share n' (signed + signed_count net seq sent)
      unfolding node_consume signed_count signer_reports
      consume-IsOnce sr n signed near h = elim (Bool-cases (ltb 0 sr.signer_id)) [
        | inr public ↦ rw public (same_IsOnce n _ signed 0 refl refl refl h)
        | inl internal ↦ elim (Bool-cases (sr.network == net)) [
          | inl b ↦
              let same = (string_key.same_iff sr.network net).0 b in
              rw internal (own_net-IsOnce send share sr n signed pos same (near same) h)
          | inr other ↦
              let (none_more, same_reports, same_shares) =
                other_net sr n (λ e. ground (arith, string_key.same_iff sr.network net)) in
              rw internal (same_IsOnce n _ signed _ same_reports same_shares none_more h)
        ]
      ]

      consume_all-IsOnce :
          (l : List SignedReport) (n : Node c) (signed : ℕ)
          → All (λ r. r.network ≡ net → r.seq_number < seq + report_buffer_size) l
          → IsOnce send share n signed
          → let (n', sent) = consume_all c send l n in
            IsOnce send share n' (signed + signed_count net seq sent)
      unfolding consume_all signed_count
      consume_all-IsOnce [] n signed near h = same_IsOnce n n signed 0 refl refl refl h
      consume_all-IsOnce (sr ∷ l) n signed near h =
          let (n', sent) = node_consume c send (some sr) n in
          let later = (consume_all c send l n').1 in
          subst (IsOnce send share _) (omega (arith, signed_count-append net seq sent later)) (
            consume_all-IsOnce l n' (signed + signed_count net seq sent) near.1
              (consume-IsOnce sr n signed near.0 h))

    -- A node that has consumed nothing.
    new-IsOnce :
        (share : Share c) (n : Node c)
        → n.internal_reports ≡ []
        → lookup net n.shares ≡ some share
        → IsOnce send share n 0
    unfolding signer_reports lookup new_report_buffer
    new-IsOnce share n new known =
        let none_yet : signer_reports c send net n ≡ new_report_buffer report_buffer_size =
          rw (new, signer_reports) refl in
        record {
          known = known;
          at = rw none_yet (new-IsAt (own c net seq send share) seq);
          count = inl refl;
        }

    -- Where the goroutines that a message starts end before the next message is consumed: a node
    -- that has a share of a network and has consumed no message of another signer yet signs and
    -- broadcasts at most one report of each positive sequence number of that network by consuming
    -- messages, whatever reports it consumes and whatever Broadcast returns, as long as the
    -- sequence numbers of those for that network are less than 128 ahead.
    pub signs_at_most_once :
        (share : Share c) (l : List SignedReport) (n : Node c)
        → 0 < seq
        → n.internal_reports ≡ []
        → lookup net n.shares ≡ some share
        → All (λ r. r.network ≡ net → r.seq_number < seq + report_buffer_size) l
        → signed_count net seq (consume_all c send l n).1 ≤ 1
    signs_at_most_once share l n pos new known near =
        ground
          (arith, (consume_all-IsOnce share pos l n 0 near (new-IsOnce share n new known)).count)
