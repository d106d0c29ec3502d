-- ===== src/Bls/History.antt =====
-- The specification of a report buffer, by the reports that were ever added to it.
use p2pmq.Base.{
  ℕ, ◌%◌, ◌≤◌, ◌<◌, ◌≡◌, refl, String, Bool, true, false, ◌&&◌, ◌||◌, List, [], ◌∷◌, ◌++◌, Option,
  none, some, ltb, eqb, if◌then◌else◌, string_key, ◌==◌, arith,
}
use p2pmq.Bls.Report.{SignedReport}

-- Calls of `Add`, the first of the list first.
abbrev pub History : Type 0
History = List (String × SignedReport)

-- The first report of a number for a network.
abbrev pub first_of : String → ℕ → History → Option SignedReport
first_of net n [] = none
first_of net n ((j, sr) ∷ l) =
    if (j == net) && eqb sr.seq_number n then some sr else first_of net n l

-- Whether some report for the network has a number above `n` and the remainder of `t`.
abbrev pub above : ℕ → String → ℕ → ℕ → History → Bool
above size net t n [] = false
above size net t n ((j, sr) ∷ l) =
    ((j == net) && (eqb (sr.seq_number % size) (t % size) && ltb n sr.seq_number))
    || above size net t n l

-- What a buffer promises: the first report of a number, unless one whose number is larger by a
-- multiple of the size has come.
unfoldable pub expected : ℕ → String → ℕ → History → Option SignedReport
expected size net n l = if above size net n n l then none else first_of net n l

pub first_of-append :
    (net : String) (n : ℕ) (l : History) (j : String) (sr : SignedReport)
    → first_of net n (l ++ ((j, sr) ∷ [])) ≡ elim (first_of net n l) [
      | some r ↦ some r
      | none ↦ if (j == net) && eqb sr.seq_number n then some sr else none
    ]
first_of-append net n [] j sr = ground arith
first_of-append net n ((i, r) ∷ l) j sr = ground (arith, first_of-append net n l j sr)

pub above-append :
    (size : ℕ) (net : String) (t n : ℕ) (l : History) (j : String) (sr : SignedReport)
    → above size net t n (l ++ ((j, sr) ∷ [])) ≡ (
        above size net t n l
        || ((j == net) && (eqb (sr.seq_number % size) (t % size) && ltb n sr.seq_number)))
above-append size net t n [] j sr = ground arith
above-append size net t n ((i, r) ∷ l) j sr = ground (arith, above-append size net t n l j sr)

pub above_mono :
    (size : ℕ) (net : String) (t n m : ℕ) (l : History)
    → n ≤ m
    → above size net t n l ≡ false
    → above size net t m l ≡ false
above_mono size net t n m [] h e = refl
above_mono size net t n m ((i, r) ∷ l) h e = ground (arith, above_mono size net t n m l h)

-- Nothing above a number, so nothing of a larger one.
pub first_of-above :
    (size : ℕ) (net : String) (n m : ℕ) (l : History)
    → n < m
    → above size net m n l ≡ false
    → first_of net m l ≡ none
first_of-above size net n m [] h e = refl
first_of-above size net n m ((i, r) ∷ l) h e = ground (arith, first_of-above size net n m l h)

pub above-first_of :
    (size : ℕ) (net : String) (t n m : ℕ) (r : SignedReport) (l : History)
    → n < m
    → m % size ≡ t % size
    → first_of net m l ≡ some r
    → above size net t n l ≡ true
above-first_of size net t n m r [] h f e = absurd (ground arith)
above-first_of size net t n m r ((i, x) ∷ l) h f e =
    ground (arith, above-first_of size net t n m r l h f)

pub above_same :
    (size : ℕ) (net : String) (t u n : ℕ) (l : History)
    → t % size ≡ u % size
    → above size net t n l ≡ above size net u n l
above_same size net t u n [] e = refl
above_same size net t u n ((i, r) ∷ l) e = ground (arith, above_same size net t u n l e)
