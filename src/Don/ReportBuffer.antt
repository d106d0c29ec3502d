-- ===== src/Don/ReportBuffer.antt =====
-- examples/don/reportbuf.go: for each DON a ring of reports by sequence number, an `int64`. The size
-- is not negative: `make` panics otherwise. The map's nil and its empty value read alike.
use p2pmq.Base.{
  Outcome, returns, panics, ℕ, zero, suc, ◌%◌, String, Bool, true, false, List, [], ◌∷◌, Option,
  none, some, set, get_or, replicate, eqb, if◌then◌else◌, string_key,
}
use p2pmq.Base.Int.{ℤ, pos, negsuc, ltb_ℤ, eqb_ℤ}
use p2pmq.Base.Dict.{Dict, lookup, insert}
use p2pmq.Don.Report.{Ocr, Report, zero_report}

-- `seq % int64(bufferSize)` as an index: Go's remainder has the sign of `seq`, and an index below
-- zero panics, as does a division by zero.
unfoldable pub index_of : ℤ → ℕ → Option ℕ
index_of seq zero = none
index_of (pos a) (suc n) = some (a % suc n)
index_of (negsuc a) (suc n) = if eqb (suc a % suc n) 0 then some 0 else none

module _ (o : Ocr) where
  pub record ReportBuffer : Type 0 where
    pub reports : Dict String (List (Report o))
    pub buffer_size : ℕ

  unfoldable pub new_report_buffer : ℕ → ReportBuffer
  new_report_buffer size = record { reports = []; buffer_size = size }

  abbrev pub buffer_of : String → ReportBuffer → List (Report o)
  buffer_of don rb = elim (lookup don rb.reports) [ none ↦ [] | some buf ↦ buf ]

  -- The ring that `Add` writes to: a new one where there is none.
  unfoldable pub ring_for : String → ReportBuffer → List (Report o)
  ring_for don rb = elim (buffer_of don rb) [
    | [] ↦ replicate rb.buffer_size (zero_report o)
    | r ∷ rs ↦ r ∷ rs
  ]

  abbrev pub slot : ℕ → List (Report o) → Report o
  slot i buf = get_or buf i (zero_report o)

  unfoldable pub add : String → Report o → ReportBuffer → Outcome (ReportBuffer × Bool)
  add don sr rb =
      let buf = ring_for don rb in
      elim (index_of sr.seq_number rb.buffer_size) [
        | none ↦ panics
        | some i ↦
            if ltb_ℤ (slot i buf).seq_number sr.seq_number
            then returns (record rb { reports = insert don (set buf i sr) rb.reports }, true)
            else returns (rb, false)
      ]

  unfoldable pub get : String → ℤ → ReportBuffer → Outcome (Option (Report o))
  get don seq rb = elim (buffer_of don rb) [
    | [] ↦ returns none
    | r ∷ rs ↦ elim (index_of seq rb.buffer_size) [
      | none ↦ panics
      | some i ↦
          let s = slot i (r ∷ rs) in returns (if eqb_ℤ s.seq_number seq then some s else none)
    ]
  ]

  -- The loop of `GetLatest`.
  unfoldable pub latest_from : Report o → List (Report o) → Report o
  latest_from latest [] = latest
  latest_from latest (r ∷ rs) =
      latest_from (if ltb_ℤ latest.seq_number r.seq_number then r else latest) rs

  unfoldable pub get_latest : String → ReportBuffer → Option (Report o)
  get_latest don rb = elim (buffer_of don rb) [
    | [] ↦ none
    | r ∷ rs ↦ some (latest_from (zero_report o) (r ∷ rs))
  ]
