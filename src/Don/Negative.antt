-- ===== src/Don/Negative.antt =====
-- Sequence numbers below zero, for which Go's remainder is no index.
use p2pmq.Base.{
  Outcome, returns, panics, ℕ, zero, suc, ◌+◌, ◌%◌, ◌≡◌, ◌≢◌, ◌≤◌, ◌<◌, ◌^◌, String, true,
  Bool-cases, List, [], ◌∷◌, none, some, Option-cases, inl, inr, length, string_key, nat_key, arith,
  refl, ap, ◌∙◌, ok,
}
use mathlib.Core.Path.{subst}
use p2pmq.Base.Int.{ℤ, pos, negsuc, sub_i64, ltb_ℤ, ◌≤ℤ◌}
use p2pmq.Base.Dict.{Dict, lookup}
use p2pmq.Proto.{ValidationResult, accept}
use p2pmq.Don.Report.{Ocr, Report, zero_report}
use p2pmq.Don.ReportBuffer.{ReportBuffer, index_of, get, add, get_latest, latest_from, buffer_of}
use p2pmq.Don.Verifier.{
  ReportVerifier, needed, count_valid, judge, validate_seen, validate_sequence, process_signed,
  process,
}
use p2pmq.Don.Node.{consume}

pos_above : (x : ℤ) (n : ℕ) → ltb_ℤ (pos n) x ≡ true → (m : ℕ) × (x ≡ pos m)
pos_above (pos m) n h = (m, refl)
pos_above (negsuc m) n h = absurd (ground arith)

module _ (o : Ocr) where
  latest_from-pos :
      (l : Report o) (rs : List (Report o)) (n : ℕ)
      → l.seq_number ≡ pos n
      → (m : ℕ) × ((latest_from o l rs).seq_number ≡ pos m)
  unfolding latest_from
  latest_from-pos l [] n e = (n, e)
  latest_from-pos l (r ∷ rs) n e = elim (Bool-cases (ltb_ℤ l.seq_number r.seq_number)) [
    | inl b ↦
        let (m, f) = pos_above r.seq_number n (subst (λ x. ltb_ℤ x r.seq_number ≡ true) e b) in
        rw (b, latest_from) (latest_from-pos r rs m f)
    | inr b ↦ rw (b, latest_from) (latest_from-pos l rs n e)
  ]

  index_of-negative : (a size : ℕ) → suc a % size ≢ 0 → index_of (negsuc a) size ≡ none
  unfolding index_of
  index_of-negative a zero h = refl
  index_of-negative a (suc n) h = ground arith

  sub_i64-negative : (a n : ℕ) → suc a + n ≤ 2 ^ 63 → sub_i64 (negsuc a) (pos n) ≡ negsuc (a + n)
  sub_i64-negative a n h = ground arith

  latest-pos :
      (don : String) (rb : ReportBuffer o) (latest : Report o)
      → get_latest o don rb ≡ some latest
      → (m : ℕ) × (latest.seq_number ≡ pos m)
  unfolding get_latest
  latest-pos don rb latest e = go (buffer_of o don rb) refl
    where
      go :
          (buf : List (Report o)) → buffer_of o don rb ≡ buf → (m : ℕ) × (latest.seq_number ≡ pos m)
      go [] f = absurd (ground arith)
      go (r ∷ rs) f =
          let (m, g) = latest_from-pos (zero_report o) (r ∷ rs) 0 refl in (m, ground arith)

  sequence_missing :
      (r : Report o) (rv : ReportVerifier o)
      → get_latest o r.src rv.reports ≡ none
      → validate_sequence o r rv ≡ returns accept
  unfolding validate_sequence validate_seen get get_latest
  sequence_missing r rv e = go (buffer_of o r.src rv.reports) refl
    where
      go :
          (buf : List (Report o))
          → buffer_of o r.src rv.reports ≡ buf
          → validate_sequence o r rv ≡ returns accept
      go [] f = ground arith
      go (x ∷ xs) f = absurd (ground arith)

  get-negative :
      (r latest : Report o) (rb : ReportBuffer o)
      → get_latest o r.src rb ≡ some latest
      → index_of r.seq_number rb.buffer_size ≡ none
      → get o r.src r.seq_number rb ≡ panics
  unfolding get get_latest
  get-negative r latest rb e i = go (buffer_of o r.src rb) refl
    where
      go :
          (buf : List (Report o))
          → buffer_of o r.src rb ≡ buf
          → get o r.src r.seq_number rb ≡ panics
      go [] f = absurd (ground arith)
      go (x ∷ xs) f = ground arith

  judge-negative :
      (d : ℤ) (n : ℕ) (seen : Outcome ValidationResult) → d ≡ negsuc n → judge o d seen ≡ seen
  unfolding judge
  judge-negative d n seen e = rw e (ground arith)

  sequence_negative :
      (r : Report o) (rv : ReportVerifier o) (latest : Report o) (a : ℕ)
      → get_latest o r.src rv.reports ≡ some latest
      → r.seq_number ≡ negsuc a
      → suc a % rv.reports.buffer_size ≢ 0
      → latest.seq_number ≤ℤ pos (2 ^ 62)
      → a < 2 ^ 62
      → validate_sequence o r rv ≡ panics
  unfolding validate_sequence validate_seen judge
  sequence_negative r rv latest a e negative off small near =
      let (m, f) = latest-pos r.src rv.reports latest e in
      let g =
        get-negative r latest rv.reports e
          (rw negative (index_of-negative a rv.reports.buffer_size off)) in
      rw (e, validate_sequence)
        (rw (g, validate_seen)
          (judge-negative (sub_i64 r.seq_number latest.seq_number) (a + m) panics (
            ap (λ x. sub_i64 x latest.seq_number) negative
            ∙ ap (λ x. sub_i64 (negsuc a) x) f
            ∙ sub_i64-negative a m (omega (arith, subst (λ x. x ≤ℤ pos (2 ^ 62)) f small)))))

  -- A report that unpacks and carries enough valid signatures, whose sequence number is negative,
  -- not a multiple of the size of the buffer and above -2^62, is accepted where the buffer has no
  -- report of its DON and makes the verifier panic where it has one with latest number at most
  -- 2^62; and the consumer panics on it in either case.
  pub negative-panics :
      (raw : List ℕ) (r : Report o) (keys : Dict ℕ o.OnchainPublicKey) (a v : ℕ)
      (rv : ReportVerifier o)
      → o.unmarshal_report raw ≡ ok r
      → lookup r.src rv.dons ≡ some keys
      → count_valid o r 0 keys ≡ some v
      → needed (length keys) ≤ v
      → r.seq_number ≡ negsuc a
      → suc a % rv.reports.buffer_size ≢ 0
      → a < 2 ^ 62
      → ((latest : Report o)
          → get_latest o r.src rv.reports ≡ some latest
          → latest.seq_number ≤ℤ pos (2 ^ 62))
      → (process o raw rv
          ≡ elim (get_latest o r.src rv.reports) [ none ↦ returns accept | some _ ↦ panics ])
        × (consume o raw rv.reports ≡ panics)
  unfolding consume add process process_signed
  negative-panics raw r keys a v rv packed known counted enough negative off near small = (
    reached ∙ elim (Option-cases (get_latest o r.src rv.reports)) [
      | inl e ↦ rw e (sequence_missing r rv e)
      | inr (latest, e) ↦
          rw e (sequence_negative r rv latest a e negative off (small latest e) near)
    ],
    rw (packed, consume) (rw (index, add) refl),
  )
    where
      reached : process o raw rv ≡ validate_sequence o r rv
      reached = rw (packed, process) (rw known (rw (counted, process_signed) (ground arith)))

      index : index_of r.seq_number rv.reports.buffer_size ≡ none
      index = rw negative (index_of-negative a rv.reports.buffer_size off)
