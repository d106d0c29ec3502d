-- ===== src/Bls/Signing.antt =====
-- When a signer signs, and that a reconstructed report has no signer.
use p2pmq.Base.{
  ℕ, ◌%◌, ◌≡◌, refl, String, Bool, true, false, ◌&&◌, ◌||◌, not, List, [], ◌∷◌, Option, none, some,
  length, Option-cases, ltb, ◌==◌, Bool-cases, inl, inr, arith, string_key, nat_key, All, ◌∙◌,
}
use p2pmq.Base.Dict.{Dict, lookup}
use p2pmq.Bls.Report.{SignedReport}
use p2pmq.Bls.ReportBuffer.{ReportBuffer, get, lookup_seq, lookup_ids, slot}
use p2pmq.Bls.Crypto.{Crypto}
use p2pmq.Bls.Share.{reconstruct_sigs}
use p2pmq.Bls.Node.{Node, flags, is_processable, has_quorum, node_quorum_count}
use p2pmq.Bls.InternalNet.{collect_signatures, on_quorum, prepare_report}

abbrev pub contains : String → List String → Bool
contains x [] = false
contains x (s ∷ ss) = x == s || contains x ss

flags_lem :
    (opid leader : String) (a b : Bool) (ss : List String)
    → flags opid leader a b ss ≡ (a || contains leader ss, b || contains opid ss)
unfolding flags
flags_lem opid leader a b [] = ground arith
flags_lem opid leader a b (s ∷ ss) =
    flags_lem opid leader (leader == s || a) (opid == s || b) ss ∙ ground arith

-- A signer goes on exactly when the leader has signed and it has not signed itself.
pub is_processable_lem :
    (opid leader : String) (ss : List String)
    → is_processable opid leader ss ≡ (contains leader ss && not (contains opid ss))
unfolding is_processable
is_processable_lem opid leader ss = rw (flags_lem opid leader false false ss)

-- A report that `Get` finds is one that `Lookup` lists.
lookup_ids-contains :
    (size seq : ℕ) (id : String) (m : Dict String (List SignedReport)) (buf : List SignedReport)
    → lookup id m ≡ some buf
    → (slot (seq % size) buf).seq_number ≡ seq
    → contains id (lookup_ids size seq m) ≡ true
unfolding lookup_ids lookup
lookup_ids-contains size seq id [] buf e h = absurd (ground arith)
lookup_ids-contains size seq id ((j, b) ∷ m) buf e h = elim (Bool-cases (j == id)) [
  | inl same ↦ ground (arith, string_key.same_iff j id, string_key.same_iff id j)
  | inr other ↦ ground (arith, lookup_ids-contains size seq id m buf, string_key.same_iff j id)
]

pub lookup_seq-contains :
    (id : String) (seq : ℕ) (rb : ReportBuffer) (r : SignedReport)
    → get id seq rb ≡ some r
    → contains id (lookup_seq seq rb) ≡ true
unfolding lookup_seq get
lookup_seq-contains id seq rb r e = go (lookup id rb.reports) refl
  where
    go :
        (o : Option (List SignedReport))
        → lookup id rb.reports ≡ o
        → contains id (lookup_ids rb.buffer_size seq rb.reports) ≡ true
    go none m = absurd (ground arith)
    go (some []) m = absurd (ground arith)
    go (some (x ∷ xs)) m =
        lookup_ids-contains rb.buffer_size seq id rb.reports (x ∷ xs) m (ground arith)

module _ (c : Crypto) where
  abbrev pub AreUnsigned : List SignedReport → Type 0
  AreUnsigned l = All (λ s. s.signer_id ≡ 0) l

  -- What is published at a quorum is the report with a signature and no signer.
  pub on_quorum-All :
      (P : SignedReport → Type 0) (sr : SignedReport) (reports : ReportBuffer)
      (signers : List String) (n : Node c)
      → ((hex : String) → P (record sr { sig_hex = hex; signer_id = 0 }))
      → All P (on_quorum c sr reports signers n)
  unfolding on_quorum prepare_report
  on_quorum-All P sr reports signers n h = elim (Bool-cases (has_quorum c sr signers n)) [
    | inr few ↦ rw (few, on_quorum) tt
    | inl enough ↦ elim (Bool-cases (ltb (node_quorum_count c sr.network n) (length signatures))) [
      | inr below ↦ rw (enough, on_quorum) (rw below tt)
      | inl above ↦ elim (Option-cases (reconstruct_sigs c signatures)) [
        | inl e ↦ rw (enough, on_quorum) (rw (above, e) tt)
        | inr (sig, e) ↦ rw (enough, on_quorum) (rw (above, e) (h (c.serialize_to_hex_str sig), tt))
      ]
    ]
  ]
    where
      signatures : Dict ℕ (List ℕ)
      signatures = collect_signatures c sr.seq_number reports signers

  pub on_quorum-AreUnsigned :
      (sr : SignedReport) (reports : ReportBuffer) (signers : List String) (n : Node c)
      → AreUnsigned (on_quorum c sr reports signers n)
  on_quorum-AreUnsigned sr reports signers n =
      on_quorum-All (λ s. s.signer_id ≡ 0) sr reports signers n (λ hex. refl)
