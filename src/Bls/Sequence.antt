-- ===== src/Bls/Sequence.antt =====
-- `getLatest` and `ValidateSequence` of a report buffer.
use p2pmq.Base.{◌+◌, ◌<◌, ◌≡◌, none, some, ltb, if◌then◌else◌, string_key, arith}
use p2pmq.Base.Int.{u64_mod}
use p2pmq.Bls.Report.{SignedReport}
use p2pmq.Proto.{accept, reject, ignore}
use p2pmq.Bls.ReportBuffer.{ReportBuffer, get, get_latest, validate_sequence}

-- Where the buffer has a latest report and the number is not some 2^64 behind it, ValidateSequence
-- rejects a report behind the latest and one more than 25 ahead, ignores one more than 5 ahead and
-- one of the others that the buffer holds, and accepts the rest.
pub validate_sequence_window :
    (sr l : SignedReport) (rb : ReportBuffer)
    → get_latest sr.network rb ≡ some l
    → sr.seq_number < u64_mod
    → l.seq_number + 25 < sr.seq_number + u64_mod
    → validate_sequence sr rb ≡ (
        if ltb sr.seq_number l.seq_number
        then reject
        else if ltb (l.seq_number + 25) sr.seq_number
        then reject
        else if ltb (l.seq_number + 5) sr.seq_number
        then ignore
        else elim (get sr.network sr.seq_number rb) [ none ↦ accept | some _ ↦ ignore ])
unfolding validate_sequence
validate_sequence_window sr l rb e small near = rw (e, validate_sequence) (ground arith)
