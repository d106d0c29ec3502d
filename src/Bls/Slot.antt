-- ===== src/Bls/Slot.antt =====
-- The slot of a ring that a node's own reports of a sequence number go to.
use p2pmq.Base.{
  ℕ, ◌+◌, ◌%◌, ◌≤◌, ◌<◌, ◌≡◌, refl, get_or-replicate, String, false, arith, string_key,
}
use p2pmq.Base.Dict.{lookup}
use p2pmq.Bls.Report.{SignedReport, zero_report}
use p2pmq.Bls.ReportBuffer.{
  ReportBuffer, ring_for, add, lookup_seq, new_report_buffer, report_buffer_size,
}
use p2pmq.Bls.Ring.{
  IsBuffer, held, held-add, get-held, add-IsBuffer, same_slot-le, new_report_buffer-IsBuffer,
}
use p2pmq.Bls.Window.{add_stores, held_same, buffer_size-add}
use p2pmq.Bls.Node.{is_processable}
use p2pmq.Bls.Signing.{is_processable_lem, lookup_seq-contains}

-- The slot of a sequence number holds no later report.
pub record IsAt (own : String) (seq : ℕ) (rb : ReportBuffer) : Type 0 where
  pub buffer : IsBuffer rb
  pub sized : rb.buffer_size ≡ report_buffer_size
  pub bound : (held own seq rb).seq_number ≤ seq

pub new-IsAt : (own : String) (seq : ℕ) → IsAt own seq (new_report_buffer report_buffer_size)
unfolding held ring_for new_report_buffer lookup
new-IsAt own seq = record {
  buffer = new_report_buffer-IsBuffer report_buffer_size (omega arith);
  sized = refl;
  bound =
      rw (get_or-replicate report_buffer_size (seq % report_buffer_size) zero_report) (omega arith);
}

module _ (own : String) (seq : ℕ) where
  abbrev pub IsFull : ReportBuffer → Type 0
  IsFull rb = (held own seq rb).seq_number ≡ seq

  -- A report that is less than a ring ahead keeps that, and a slot that has its report.
  module _ (j : String) (sr : SignedReport) (rb : ReportBuffer) (h : IsAt own seq rb)
      (near : sr.seq_number < seq + report_buffer_size) where
    pub add-IsAt : IsAt own seq (add j sr rb).0
    add-IsAt = record {
      buffer = add-IsBuffer j sr rb h.buffer;
      sized = ground (arith, buffer_size-add j sr rb, h.sized);
      bound = ground (
        arith,
        h.bound,
        h.sized,
        h.buffer.sized,
        held-add j sr rb h.buffer own seq,
        same_slot-le rb.buffer_size seq sr.seq_number,
      );
    }

    pub add-IsFull : IsFull rb → IsFull (add j sr rb).0
    add-IsFull full = ground (
      arith,
      h.bound,
      h.sized,
      h.buffer.sized,
      held-add j sr rb h.buffer own seq,
      add_stores j sr rb,
      held_same own sr.seq_number seq rb,
      string_key.same_iff j own,
      same_slot-le rb.buffer_size seq sr.seq_number,
    )

  -- The node's own report of the number fills the slot.
  pub own-IsFull :
      (sr : SignedReport) (rb : ReportBuffer)
      → IsAt own seq rb
      → sr.seq_number ≡ seq
      → IsFull (add own sr rb).0
  own-IsFull sr rb h e = ground (
    arith,
    h.bound,
    held-add own sr rb h.buffer own seq,
    add_stores own sr rb,
    string_key.same_iff own own,
  )

  -- A signer whose slot is full is not processable.
  pub full-idle :
      (leader : String) (rb : ReportBuffer)
      → 0 < seq
      → IsAt own seq rb
      → IsFull rb
      → is_processable own leader (lookup_seq seq rb) ≡ false
  full-idle leader rb pos h full = ground (
    arith,
    is_processable_lem own leader (lookup_seq seq rb),
    lookup_seq-contains own seq rb (held own seq rb),
    get-held own seq rb h.buffer pos,
  )
