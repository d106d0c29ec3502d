-- ===== src/Bls/ReportBuffer.antt =====
-- examples/bls/reportbuf.go: for each network, or signer, a ring of reports by sequence number.
-- `bufferSize` is positive: `make` and `%` panic or give no slot otherwise. The map's nil and its
-- empty value read alike. The order of Go's iteration over the map is that of the list here.
use p2pmq.Base.{
  ℕ, suc, ◌+◌, ◌-◌, ◌%◌, String, Bool, true, false, List, [], ◌∷◌, Option, none, some, set, get_or,
  replicate, ltb, eqb, if◌then◌else◌, string_key,
}
use p2pmq.Base.Dict.{Dict, lookup, insert}
use p2pmq.Base.Int.{u64_mod}
use p2pmq.Bls.Report.{SignedReport, zero_report}
use p2pmq.Proto.{ValidationResult, accept, reject, ignore}

abbrev pub report_buffer_size : ℕ
report_buffer_size = 128

abbrev pub skip_threshold : ℕ
skip_threshold = 5

abbrev pub invalid_threshold : ℕ
invalid_threshold = 25

pub record ReportBuffer : Type 0 where
  pub reports : Dict String (List SignedReport)
  pub buffer_size : ℕ

unfoldable pub new_report_buffer : ℕ → ReportBuffer
new_report_buffer size = record { reports = []; buffer_size = size }

-- `rb.reports[net]`, the nil slice for a missing key.
abbrev pub buffer_of : String → ReportBuffer → List SignedReport
buffer_of net rb = elim (lookup net rb.reports) [ none ↦ [] | some buf ↦ buf ]

-- The ring that `Add` writes to: a new one of zero reports where there is none.
unfoldable pub ring_for : String → ReportBuffer → List SignedReport
ring_for net rb = elim (buffer_of net rb) [
  | [] ↦ replicate rb.buffer_size zero_report
  | r ∷ rs ↦ r ∷ rs
]

abbrev pub slot : ℕ → List SignedReport → SignedReport
slot i buf = get_or buf i zero_report

unfoldable pub add : String → SignedReport → ReportBuffer → ReportBuffer × Bool
add net sr rb =
    let buf = ring_for net rb in
    let i = sr.seq_number % rb.buffer_size in
    if ltb (slot i buf).seq_number sr.seq_number
    then (record rb { reports = insert net (set buf i sr) rb.reports }, true)
    else (rb, false)

unfoldable pub get : String → ℕ → ReportBuffer → Option SignedReport
get net seq rb = elim (buffer_of net rb) [
  | [] ↦ none
  | r ∷ rs ↦
      let s = slot (seq % rb.buffer_size) (r ∷ rs) in if eqb s.seq_number seq then some s else none
]

-- The loop of `getLatest`.
unfoldable pub latest_from : SignedReport → List SignedReport → SignedReport
latest_from latest [] = latest
latest_from latest (r ∷ rs) =
    latest_from (if ltb latest.seq_number r.seq_number then r else latest) rs

unfoldable pub get_latest : String → ReportBuffer → Option SignedReport
get_latest net rb = elim (buffer_of net rb) [
  | [] ↦ none
  | r ∷ rs ↦ some (latest_from zero_report (r ∷ rs))
]

-- The loop of `Lookup` over the map's entries.
unfoldable pub lookup_ids : ℕ → ℕ → Dict String (List SignedReport) → List String
lookup_ids size seq [] = []
lookup_ids size seq ((id, buf) ∷ m) =
    let rest = lookup_ids size seq m in
    if eqb (slot (seq % size) buf).seq_number seq then id ∷ rest else rest

unfoldable pub lookup_seq : ℕ → ReportBuffer → List String
lookup_seq seq rb = lookup_ids rb.buffer_size seq rb.reports

-- What the pointers of `GetAll` point to: Go 1.21 has one variable for all rounds of a loop, so
-- each of them points to the last report of the ring.
stored_count : List SignedReport → ℕ
stored_count [] = 0
stored_count (r ∷ rs) = let rest = stored_count rs in if eqb r.seq_number 0 then rest else suc rest

last_report : SignedReport → List SignedReport → SignedReport
last_report last [] = last
last_report last (r ∷ rs) = last_report r rs

unfoldable pub get_all : String → ReportBuffer → List SignedReport
unfolding stored_count last_report
get_all net rb =
    let buf = buffer_of net rb in replicate (stored_count buf) (last_report zero_report buf)

-- `diff` is a `uint64` and wraps around.
unfoldable pub validate_sequence : SignedReport → ReportBuffer → ValidationResult
validate_sequence sr rb =
    let seen : ValidationResult = elim (get sr.network sr.seq_number rb) [
      | some _ ↦ ignore
      | none ↦ accept
    ] in
    elim (get_latest sr.network rb) [
      | none ↦ seen
      | some latest ↦
          let diff = (sr.seq_number + u64_mod - latest.seq_number) % u64_mod in
          if ltb invalid_threshold diff
          then reject
          else if ltb skip_threshold diff
          then ignore
          else seen
    ]
