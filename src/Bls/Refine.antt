-- ===== src/Bls/Refine.antt =====
-- A report buffer and the history of what was added to it.
use p2pmq.Base.{
  ℕ, ◌%◌, ◌<◌, ◌≡◌, refl, String, false, ◌&&◌, [], ◌∷◌, ◌++◌, none, some, Bool-cases, inl, inr, ltb,
  eqb, if◌then◌else◌, string_key, ◌==◌, arith, ◌∙◌, sym, ap, get_or-replicate, ltb→lt, eqb_iff,
}
use mathlib.Core.Path.{subst}
use mathlib.Core.List.{append_assoc, append-nil}
use p2pmq.Base.Dict.{lookup}
use p2pmq.Bls.Report.{SignedReport, zero_report}
use p2pmq.Bls.ReportBuffer.{ReportBuffer, new_report_buffer, ring_for, add, get}
use p2pmq.Bls.Ring.{IsBuffer, new_report_buffer-IsBuffer, held, held-add, get-held, add-IsBuffer}
use p2pmq.Bls.Window.{add_all, add_stores, buffer_size-add, held_same}
use p2pmq.Bls.History.{
  History, first_of, above, expected, first_of-append, above-append, above_mono, first_of-above,
  above-first_of, above_same,
}

-- What every slot holds: the first of its reports with the largest number.
record IsLatest (rb : ReportBuffer) (l : History) (net : String) (t : ℕ) : Type 0 where
  highest : above rb.buffer_size net t (held net t rb).seq_number l ≡ false
  first :
      0 < (held net t rb).seq_number
      → first_of net (held net t rb).seq_number l ≡ some (held net t rb)
  placed :
      0 < (held net t rb).seq_number
      → (held net t rb).seq_number % rb.buffer_size ≡ t % rb.buffer_size

module _ (j : String) (sr : SignedReport) (rb : ReportBuffer) (valid : IsBuffer rb) (l : History)
    (net : String) (t : ℕ) where
  -- A report that is stored in the slot.
  taken-IsLatest :
      j ≡ net
      → sr.seq_number % rb.buffer_size ≡ t % rb.buffer_size
      → (held net t rb).seq_number < sr.seq_number
      → held net t (add j sr rb).0 ≡ sr
      → IsLatest rb l net t
      → IsLatest (add j sr rb).0 (l ++ ((j, sr) ∷ [])) net t
  taken-IsLatest same near more now h = record {
    highest = rw (buffer_size-add j sr rb) (
        rw now (
          above-append rb.buffer_size net t sr.seq_number l j sr
          ∙ ground (
            arith,
            above_mono rb.buffer_size net t (held net t rb).seq_number sr.seq_number l (omega arith)
                h.highest,
          )));
    first = λ pos. rw now (
        first_of-append net sr.seq_number l j sr
        ∙ ground (
          arith,
          first_of-above rb.buffer_size net (held net t rb).seq_number sr.seq_number l more (
              above_same rb.buffer_size net sr.seq_number t (held net t rb).seq_number l near
              ∙ h.highest),
          string_key.same_iff j net,
        ));
    placed = λ pos. rw (buffer_size-add j sr rb) (rw now near);
  }

  -- One that goes elsewhere or is no newer.
  left-IsLatest :
      ((j == net)
          && (eqb (sr.seq_number % rb.buffer_size) (t % rb.buffer_size)
              && ltb (held net t rb).seq_number sr.seq_number))
        ≡ false
      → held net t (add j sr rb).0 ≡ held net t rb
      → IsLatest rb l net t
      → IsLatest (add j sr rb).0 (l ++ ((j, sr) ∷ [])) net t
  left-IsLatest other now h = record {
    highest = rw (buffer_size-add j sr rb) (
        rw now (
          above-append rb.buffer_size net t (held net t rb).seq_number l j sr
          ∙ ground (arith, other, h.highest)));
    first = λ pos.
        rw now (first_of-append net (held net t rb).seq_number l j sr ∙ ground (arith, h.first));
    placed = λ pos. rw (buffer_size-add j sr rb) (rw now (h.placed (rw now at pos)));
  }

  -- Whether the slot takes the report.
  stored : held net t (add j sr rb).0 ≡ (
      if (j == net)
        && (eqb (sr.seq_number % rb.buffer_size) (t % rb.buffer_size)
            && ltb (held net t rb).seq_number sr.seq_number)
      then sr
      else held net t rb)
  stored =
      held-add j sr rb valid net t
      ∙ ground
          (arith, add_stores j sr rb, held_same net sr.seq_number t rb, string_key.same_iff j net)

  add-IsLatest : IsLatest rb l net t → IsLatest (add j sr rb).0 (l ++ ((j, sr) ∷ [])) net t
  add-IsLatest h =
      elim (Bool-cases (
        (j == net)
        && (eqb (sr.seq_number % rb.buffer_size) (t % rb.buffer_size)
            && ltb (held net t rb).seq_number sr.seq_number))) [
              | inl b ↦
                  taken-IsLatest (ground (arith, string_key.same_iff j net)) (ground arith)
                    (ground arith) (stored ∙ ground arith) h
              | inr b ↦ left-IsLatest b (stored ∙ ground arith) h
            ]

add_all-IsLatest :
    (more l : History) (rb : ReportBuffer)
    → IsBuffer rb
    → ((net : String) (t : ℕ) → IsLatest rb l net t)
    → IsBuffer (add_all more rb)
      × ((net : String) (t : ℕ) → IsLatest (add_all more rb) (l ++ more) net t)
unfolding add_all
add_all-IsLatest [] l rb valid h =
    (valid, λ net t. subst (λ x. IsLatest rb x net t) (sym (append-nil l)) (h net t))
add_all-IsLatest ((j, sr) ∷ more) l rb valid h =
    let (v, k) =
      add_all-IsLatest more (l ++ ((j, sr) ∷ [])) (add j sr rb).0 (add-IsBuffer j sr rb valid)
        (λ net t. add-IsLatest j sr rb valid l net t (h net t)) in
    (
      v,
      λ net t.
          subst (λ x. IsLatest (add_all more (add j sr rb).0) x net t)
            (append_assoc l ((j, sr) ∷ []) more) (k net t),
    )

held_new : (size : ℕ) (net : String) (t : ℕ) → held net t (new_report_buffer size) ≡ zero_report
unfolding new_report_buffer held ring_for lookup
held_new size net t = get_or-replicate size (t % size) zero_report

new-IsLatest : (size : ℕ) (net : String) (t : ℕ) → IsLatest (new_report_buffer size) [] net t
new-IsLatest size net t = record {
  highest = refl;
  first = λ pos. absurd (ground (arith, held_new size net t));
  placed = λ pos. absurd (ground (arith, held_new size net t));
}

latest-expected :
    (rb : ReportBuffer) (l : History) (net : String) (n : ℕ)
    → IsLatest rb l net n
    → 0 < n
    → (if eqb (held net n rb).seq_number n then some (held net n rb) else none)
      ≡ expected rb.buffer_size net n l
unfolding expected
latest-expected rb l net n h pos =
    let top = (held net n rb).seq_number in
    elim (Bool-cases (ltb top n)) [
      | inl below ↦ ground (
        arith,
        above_mono rb.buffer_size net n top n l (omega (arith, ltb→lt top n below)) h.highest,
        first_of-above rb.buffer_size net top n l (ltb→lt top n below) h.highest,
      )
      | inr reached ↦ elim (Bool-cases (eqb top n)) [
        | inl same ↦
            let e : top ≡ n = (eqb_iff top n).0 same in
            ground (
              arith,
              subst (λ x. above rb.buffer_size net n x l ≡ false) e h.highest,
              subst (λ x. first_of net x l ≡ some (held net n rb)) e (h.first (ground arith)),
            )
        | inr other ↦ ground (
          arith,
          above-first_of rb.buffer_size net n n top (held net n rb) l (ground arith)
              (h.placed (ground arith)) (h.first (ground arith)),
        )
      ]
    ]

buffer_size-add_all :
    (l : History) (rb : ReportBuffer) → (add_all l rb).buffer_size ≡ rb.buffer_size
unfolding add_all
buffer_size-add_all [] rb = refl
buffer_size-add_all ((j, sr) ∷ l) rb =
    buffer_size-add_all l (add j sr rb).0 ∙ buffer_size-add j sr rb

-- For any reports added to a new report buffer of a positive size and any positive number, Get
-- finds the first report of that number that was added for the network, unless one for it whose
-- number is larger by a multiple of the size was added at any time: then it finds nothing.
pub get-expected :
    (size : ℕ) (l : History) (net : String) (n : ℕ)
    → 0 < size
    → 0 < n
    → get net n (add_all l (new_report_buffer size)) ≡ expected size net n l
unfolding new_report_buffer
get-expected size l net n sized pos =
    let (valid, latest) =
      add_all-IsLatest l [] (new_report_buffer size) (new_report_buffer-IsBuffer size sized)
        (new-IsLatest size) in
    get-held net n (add_all l (new_report_buffer size)) valid pos
    ∙ latest-expected (add_all l (new_report_buffer size)) l net n (latest net n) pos
    ∙ ap (λ x. expected x net n l) (buffer_size-add_all l (new_report_buffer size))
