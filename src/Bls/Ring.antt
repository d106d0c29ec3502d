-- ===== src/Bls/Ring.antt =====
-- What the rings of a report buffer keep.
use p2pmq.Base.{
  ℕ, ◌+◌, ◌%◌, ◌≤◌, ◌<◌, ◌≡◌, refl, String, ◌&&◌, List, [], ◌∷◌, none, some, length, set, replicate,
  length-set, length-replicate, get_or-set_self, get_or-set_ne, get_or-replicate, ltb, eqb,
  if◌then◌else◌, string_key, ◌==◌, Bool-cases, Option-cases, ◌⊎◌, inl, inr, arith, ◌∙◌,
}
use native.Mathlib.Nat.{mod-lt}
use mathlib.Core.Path.{subst}
use p2pmq.Base.Dict.{lookup, insert, lookup-insert}
use p2pmq.Bls.Report.{SignedReport, zero_report}
use p2pmq.Bls.ReportBuffer.{ReportBuffer, new_report_buffer, ring_for, slot, add, get}

-- A ring has a slot for each residue, which is empty or holds a report of that residue.
pub record IsRing (size : ℕ) (buf : List SignedReport) : Type 0 where
  pub full : length buf ≡ size
  pub placed :
      (i : ℕ) → i < size → (slot i buf ≡ zero_report) ⊎ ((slot i buf).seq_number % size ≡ i)

pub record IsBuffer (rb : ReportBuffer) : Type 0 where
  pub sized : 0 < rb.buffer_size
  pub rings :
      (net : String) (buf : List SignedReport)
      → lookup net rb.reports ≡ some buf
      → IsRing rb.buffer_size buf

empty-IsRing : (size : ℕ) → IsRing size (replicate size zero_report)
empty-IsRing size = record {
  full = length-replicate size zero_report;
  placed = λ i h. inl (get_or-replicate size i zero_report);
}

-- A new buffer has no ring yet.
pub new_report_buffer-IsBuffer : (size : ℕ) → 0 < size → IsBuffer (new_report_buffer size)
unfolding new_report_buffer lookup
new_report_buffer-IsBuffer size h = record { sized = h; rings = λ net buf e. absurd (ground arith) }

pub ring_for_found :
    (net : String) (rb : ReportBuffer) (buf : List SignedReport)
    → IsBuffer rb
    → lookup net rb.reports ≡ some buf
    → ring_for net rb ≡ buf
unfolding ring_for
ring_for_found net rb [] h e = absurd (omega (arith, (h.rings net [] e).full, h.sized))
ring_for_found net rb (r ∷ rs) h e = rw (e, ring_for)

pub ring_for_missing :
    (net : String) (rb : ReportBuffer)
    → lookup net rb.reports ≡ none
    → ring_for net rb ≡ replicate rb.buffer_size zero_report
unfolding ring_for
ring_for_missing net rb e = rw (e, ring_for)

pub ring_for-IsRing :
    (net : String) (rb : ReportBuffer) → IsBuffer rb → IsRing rb.buffer_size (ring_for net rb)
ring_for-IsRing net rb h = elim (Option-cases (lookup net rb.reports)) [
  | inl e ↦ rw (ring_for_missing net rb e) (empty-IsRing rb.buffer_size)
  | inr (buf, e) ↦ rw (ring_for_found net rb buf h e) (h.rings net buf e)
]

-- The report of the slot of a sequence number, zero where the network has no ring.
unfoldable pub held : String → ℕ → ReportBuffer → SignedReport
held net seq rb = slot (seq % rb.buffer_size) (ring_for net rb)

set-IsRing :
    (size : ℕ) (buf : List SignedReport) (sr : SignedReport)
    → 0 < size
    → IsRing size buf
    → IsRing size (set buf (sr.seq_number % size) sr)
set-IsRing size buf sr pos h = record {
  full = length-set buf _ sr ∙ h.full;
  placed = λ i hi. elim (Bool-cases (eqb i (sr.seq_number % size))) [
    | inl e ↦ ground (
      arith,
      get_or-set_self buf (sr.seq_number % size) sr zero_report,
      mod-lt sr.seq_number pos,
      h.full,
    )
    | inr e ↦
        ground (arith, get_or-set_ne buf (sr.seq_number % size) i sr zero_report, h.placed i hi)
  ];
}

-- A slot's next report comes a whole ring later.
pub same_slot-le : (size s t : ℕ) → 0 < size → s < t → s % size ≡ t % size → s + size ≤ t
same_slot-le size s t pos lt e = grind arith

ring_for-insert :
    (net j : String) (buf : List SignedReport) (rb : ReportBuffer)
    → 0 < length buf
    → ring_for j (record rb { reports = insert net buf rb.reports })
      ≡ (if net == j then buf else ring_for j rb)
unfolding ring_for
ring_for-insert net j [] rb h = absurd (omega arith)
ring_for-insert net j (r ∷ rs) rb h = ground (arith, lookup-insert net j (r ∷ rs) rb.reports)

module _ (net : String) (sr : SignedReport) (rb : ReportBuffer) (valid : IsBuffer rb) where
  -- Add keeps a buffer valid: its size is positive and every ring has that many slots, each empty
  -- or with a report whose number belongs there.
  pub add-IsBuffer : IsBuffer (add net sr rb).0
  unfolding add held
  add-IsBuffer = elim (Bool-cases (ltb (held net sr.seq_number rb).seq_number sr.seq_number)) [
    | inr b ↦ rw (b, add) valid
    | inl b ↦
        rw (b, add)
          (record {
            sized = valid.sized;
            rings = λ j buf e. elim (Bool-cases (net == j)) [
              | inl same ↦
                  subst (IsRing rb.buffer_size)
                    (ground (arith, lookup-insert net j written rb.reports))
                    (set-IsRing rb.buffer_size (ring_for net rb) sr valid.sized
                      (ring_for-IsRing net rb valid))
              | inr other ↦
                  valid.rings j buf (ground (arith, lookup-insert net j written rb.reports))
            ];
          })
  ]
    where
      written : List SignedReport
      written = set (ring_for net rb) (sr.seq_number % rb.buffer_size) sr

  -- The slots after an `Add`: that of the report, if it held an older one, and all others.
  pub held-add :
      (j : String) (t : ℕ)
      → held j t (add net sr rb).0 ≡ (
          if (net == j)
            && (eqb (sr.seq_number % rb.buffer_size) (t % rb.buffer_size) && (add net sr rb).1)
          then sr
          else held j t rb)
  unfolding add held
  held-add j t = elim (Bool-cases (ltb (held net sr.seq_number rb).seq_number sr.seq_number)) [
    | inr b ↦ rw (b, add) (ground arith)
    | inl b ↦
        rw (b, add)
          (ground (
            arith,
            ring_for-insert net j (set (ring_for net rb) k sr) rb,
            length-set (ring_for net rb) k sr,
            (ring_for-IsRing net rb valid).full,
            get_or-set_self (ring_for net rb) k sr zero_report,
            get_or-set_ne (ring_for net rb) k (t % rb.buffer_size) sr zero_report,
            mod-lt sr.seq_number valid.sized,
            string_key.same_iff net j,
          ))
  ]
    where
      k : ℕ
      k = sr.seq_number % rb.buffer_size

pub get-held :
    (net : String) (seq : ℕ) (rb : ReportBuffer)
    → IsBuffer rb
    → 0 < seq
    → get net seq rb
      ≡ (if eqb (held net seq rb).seq_number seq then some (held net seq rb) else none)
unfolding get held
get-held net seq rb h pos = elim (Option-cases (lookup net rb.reports)) [
  | inl e ↦
      rw (e, get)
        (rw (ring_for_missing net rb e)
          (rw (get_or-replicate rb.buffer_size (seq % rb.buffer_size) zero_report) (ground arith)))
  | inr (buf, e) ↦ found buf e
]
  where
    found :
        (buf : List SignedReport)
        → lookup net rb.reports ≡ some buf
        → get net seq rb
          ≡ (if eqb (held net seq rb).seq_number seq then some (held net seq rb) else none)
    found [] e = absurd (omega (arith, (h.rings net [] e).full, h.sized))
    found (r ∷ rs) e = rw (e, get) (rw (ring_for_found net rb (r ∷ rs) h e) refl)
