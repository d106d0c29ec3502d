-- ===== src/Bls/Window.antt =====
-- `Add` and `Get` of a report buffer, over one and over many reports.
use p2pmq.Base.{
  ℕ, ◌+◌, ◌%◌, ◌<◌, ◌≡◌, String, ◌&&◌, List, [], ◌∷◌, none, some, ltb, eqb, if◌then◌else◌,
  string_key, ◌==◌, arith, All, ◌∙◌,
}
use p2pmq.Bls.Report.{SignedReport}
use p2pmq.Bls.ReportBuffer.{ReportBuffer, add, get}
use p2pmq.Bls.Ring.{IsBuffer, held, held-add, get-held, add-IsBuffer, same_slot-le}

-- What Get finds after an Add to a valid buffer, for every network and positive number: in the
-- slot of a report that was stored, that report and no other; elsewhere, and after a refused
-- report, what it found before.
pub get-add :
    (net j : String) (sr : SignedReport) (t : ℕ) (rb : ReportBuffer)
    → IsBuffer rb
    → 0 < t
    → get j t (add net sr rb).0 ≡ (
        if (net == j)
          && (eqb (sr.seq_number % rb.buffer_size) (t % rb.buffer_size) && (add net sr rb).1)
        then (if eqb sr.seq_number t then some sr else none)
        else get j t rb)
get-add net j sr t rb h pos =
    get-held j t (add net sr rb).0 (add-IsBuffer net sr rb h) pos
    ∙ ground (arith, held-add net sr rb h j t, get-held j t rb h pos)

-- A report is stored exactly when its number is above that of the slot's report.
pub add_stores :
    (net : String) (sr : SignedReport) (rb : ReportBuffer)
    → (add net sr rb).1 ≡ ltb (held net sr.seq_number rb).seq_number sr.seq_number
unfolding add held
add_stores net sr rb = ground arith

-- The reports of several calls of `Add`, the first of the list first.
unfoldable pub add_all : List (String × SignedReport) → ReportBuffer → ReportBuffer
add_all [] rb = rb
add_all ((net, sr) ∷ l) rb = add_all l (add net sr rb).0

pub buffer_size-add :
    (net : String) (sr : SignedReport) (rb : ReportBuffer)
    → (add net sr rb).0.buffer_size ≡ rb.buffer_size
unfolding add
buffer_size-add net sr rb = ground arith

pub held_same :
    (net : String) (s t : ℕ) (rb : ReportBuffer)
    → s % rb.buffer_size ≡ t % rb.buffer_size
    → held net s rb ≡ held net t rb
unfolding held
held_same net s t rb e = rw e

-- One report that is less than a ring ahead does not displace a report.
keeps_one :
    (net j : String) (sr r : SignedReport) (s : ℕ) (rb : ReportBuffer)
    → IsBuffer rb
    → 0 < s
    → get net s rb ≡ some r
    → (j ≡ net → sr.seq_number < s + rb.buffer_size)
    → get net s (add j sr rb).0 ≡ some r
keeps_one net j sr r s rb h pos e near = ground (
  arith,
  get-add j net sr s rb h pos,
  add_stores j sr rb,
  get-held net s rb h pos,
  same_slot-le rb.buffer_size s sr.seq_number h.sized,
  string_key.same_iff j net,
  held_same net sr.seq_number s rb,
)

-- All the reports for a network are less than a ring ahead of a number.
abbrev pub AreNear : String → ℕ → List (String × SignedReport) → Type 0
AreNear net bound l = All (λ x. x.0 ≡ net → x.1.seq_number < bound) l

-- In a valid report buffer, a stored report of a positive number is found until a report for its
-- network comes a whole ring later: whatever is added in between, for its network below that bound
-- or for other networks, Get returns it.
pub get-add_all :
    (net : String) (r : SignedReport) (s : ℕ) (l : List (String × SignedReport)) (rb : ReportBuffer)
    → IsBuffer rb
    → 0 < s
    → get net s rb ≡ some r
    → AreNear net (s + rb.buffer_size) l
    → get net s (add_all l rb) ≡ some r
unfolding add_all
get-add_all net r s [] rb h pos e near = e
get-add_all net r s ((j, sr) ∷ l) rb h pos e near =
    get-add_all net r s l (add j sr rb).0 (add-IsBuffer j sr rb h) pos
      (keeps_one net j sr r s rb h pos e near.0) (rw (buffer_size-add j sr rb) near.1)
