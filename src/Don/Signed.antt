-- ===== src/Don/Signed.antt =====
-- Whether the reports of `NewMockedSignedReport` verify.
use p2pmq.Base.{
  returns, ℕ, ◌≡◌, ◌≢◌, ◌↔◌, inl, inr, String, true, Bool-cases, List, [], ◌∷◌, none, some,
  Option-cases, ok, Result-cases, string_key, nat_key, All, arith, refl, ◌==◌, ◌∙◌, sym, ap,
}
use mathlib.Core.Path.{subst}
use p2pmq.Base.Int.{ℤ}
use p2pmq.Base.Dict.{Dict, lookup, insert, lookup-insert, lookup-insert_self}
use p2pmq.Proto.{reject}
use p2pmq.Don.Report.{
  Ocr, Report, OcrSigner, zero_report, get_report_data, signer_sign, sign_all,
  new_mocked_signed_report,
}
use p2pmq.Don.Verifier.{ReportVerifier, count_valid, process_signed, process}
use p2pmq.Don.Accepted.{IsSound, count_valid-counts}

All-lookup :
    {V : Type 0} (P : ℕ × V → Type 0) (keys : Dict ℕ V) (j : ℕ) (v : V)
    → All P keys
    → lookup j keys ≡ some v
    → P (j, v)
unfolding lookup
All-lookup P [] j v h e = absurd (ground arith)
All-lookup P ((i, w) ∷ keys) j v (h, hs) e = elim (Bool-cases (i == j)) [
  | inl same ↦ subst P (ground (arith, nat_key.same_iff i j)) h
  | inr other ↦ All-lookup P keys j v hs (ground arith)
]

-- What is said of keyrings: the key that a signature verifies with, which it does for what was
-- signed and for nothing else.
pub record IsScheme (o : Ocr) (public_key : o.EvmKeyring → o.OnchainPublicKey) : Type 0 where
  pub verifies :
      (k : o.EvmKeyring) (ctx : o.ReportContext) (m n sig : List ℕ)
      → o.keyring_sign k ctx m ≡ ok sig
      → (o.keyring_verify (public_key k) ctx n sig ≡ true) ↔ (n ≡ m)
  -- The text of a report shows whether there are signatures.
  pub prints : (r s : Report o) → o.format r ≡ o.format s → r.sigs ≡ [] → s.sigs ≡ []

module _ (o : Ocr) where
  -- Signing leaves all else as it is, and the signatures of those who are not asked.
  pub record IsSigned (sr r : Report o) (signers : Dict ℕ (OcrSigner o)) : Type 0 where
    pub same_src : r.src ≡ sr.src
    pub same_seq : r.seq_number ≡ sr.seq_number
    pub same_bytes : r.bytes ≡ sr.bytes
    pub same_sig : (j : ℕ) → lookup j signers ≡ none → lookup j r.sigs ≡ lookup j sr.sigs

  sign_all-IsSigned :
      (signers : Dict ℕ (OcrSigner o)) (sr r : Report o)
      → sign_all o signers sr ≡ ok r
      → IsSigned sr r signers
  unfolding sign_all lookup
  sign_all-IsSigned [] sr r e =
      let f : sr ≡ r = ground arith in
      record {
        same_src = ap (λ x. x.src) (sym f);
        same_seq = ap (λ x. x.seq_number) (sym f);
        same_bytes = ap (λ x. x.bytes) (sym f);
        same_sig = λ j h. ap (λ x. lookup j x.sigs) (sym f);
      }
  sign_all-IsSigned ((i, s) ∷ rest) sr r e =
      elim (Result-cases (signer_sign o s o.zero_context (o.format sr))) [
        | inr (x, z) ↦ absurd (ground arith)
        | inl (sig, z) ↦
            let h =
              sign_all-IsSigned rest (record sr { sigs = insert i sig sr.sigs }) r (ground arith) in
            record {
              same_src = h.same_src;
              same_seq = h.same_seq;
              same_bytes = h.same_bytes;
              same_sig = λ j f. ground (arith, h.same_sig j, lookup-insert i j sig sr.sigs);
            }
      ]

  unfoldable pub unsigned : ℤ → String → List ℕ → Report o
  unsigned seq don bytes = record (zero_report o) { src = don; seq_number = seq; bytes = bytes }

  new_mocked_split :
      (signers : Dict ℕ (OcrSigner o)) (seq : ℤ) (don : String) (bytes : List ℕ) (r : Report o)
      → new_mocked_signed_report o signers seq don bytes ≡ ok r
      → (t : Report o) × (sign_all o signers (unsigned seq don bytes) ≡ ok t)
        × (r ≡ record t { ctx = o.zero_context })
  unfolding new_mocked_signed_report unsigned
  new_mocked_split signers seq don bytes r e =
      elim (Result-cases (sign_all o signers (unsigned seq don bytes))) [
        | inr (x, z) ↦ absurd (ground arith)
        | inl (t, z) ↦ (t, z, ground arith)
      ]

  -- A signer's signature on the report `p`, as it stands in `r`.
  record HasSigned (r p : Report o) (j : ℕ) (s : OcrSigner o) : Type 0 where
    sig : List ℕ
    made : o.keyring_sign s.k o.zero_context (o.format p) ≡ ok sig
    found : lookup j r.sigs ≡ some sig

  -- What the signatures are checked against does not show any.
  data_made :
      (signers : Dict ℕ (OcrSigner o)) (seq : ℤ) (don : String) (bytes : List ℕ) (r : Report o)
      → new_mocked_signed_report o signers seq don bytes ≡ ok r
      → (get_report_data o r ≡ o.format (unsigned seq don bytes))
        × (r.ctx ≡ o.zero_context)
        × (r.src ≡ don)
  unfolding get_report_data unsigned
  data_made signers seq don bytes r e =
      let (t, f, g) = new_mocked_split signers seq don bytes r e in
      let h = sign_all-IsSigned signers (unsigned seq don bytes) t f in
      (ap o.format (ground arith), ap (λ x. x.ctx) g, ap (λ x. x.src) g ∙ h.same_src)

  sign_all-HasSigned :
      (i : ℕ) (s : OcrSigner o) (rest : Dict ℕ (OcrSigner o)) (sr r : Report o)
      → lookup i rest ≡ none
      → sign_all o ((i, s) ∷ rest) sr ≡ ok r
      → HasSigned r sr i s
  unfolding sign_all signer_sign
  sign_all-HasSigned i s rest sr r once e =
      elim (Result-cases (o.keyring_sign s.k o.zero_context (o.format sr))) [
        | inr (x, z) ↦ absurd (ground arith)
        | inl (sig, z) ↦
            let h =
              sign_all-IsSigned rest (record sr { sigs = insert i sig sr.sigs }) r (ground arith) in
            record {
              sig = sig;
              made = z;
              found = h.same_sig i once ∙ lookup-insert_self i sig sr.sigs;
            }
      ]

  -- The second signer asked signs a report that shows a signature.
  sign_second :
      (i : ℕ) (s : OcrSigner o) (rest : Dict ℕ (OcrSigner o)) (sr r : Report o)
      → sr.sigs ≡ []
      → sign_all o ((i, s) ∷ rest) sr ≡ ok r
      → (p : Report o) × (p.sigs ≢ []) × (sign_all o rest p ≡ ok r)
  unfolding sign_all insert
  sign_second i s rest sr r none_yet e =
      elim (Result-cases (signer_sign o s o.zero_context (o.format sr))) [
        | inr (x, z) ↦ absurd (ground arith)
        | inl (sig, z) ↦
            (record sr { sigs = insert i sig sr.sigs }, (λ f. ground arith), ground arith)
      ]

module _ (o : Ocr) (public_key : o.EvmKeyring → o.OnchainPublicKey)
    (law : IsScheme o public_key) where
  -- A verifier reaches the signatures of a report that it unpacks.
  process_packed :
      (r : Report o) (raw : List ℕ) (keys : Dict ℕ o.OnchainPublicKey) (rv : ReportVerifier o)
      → o.unmarshal_report raw ≡ ok r
      → lookup r.src rv.dons ≡ some keys
      → process o raw rv ≡ process_signed o r keys rv
  unfolding process
  process_packed r raw keys rv packed known = rw (packed, process) (rw known refl)

  -- A signature verifies where what was signed is what the verifier looks at.
  verifies_made :
      (r t p : Report o) (j : ℕ) (s : OcrSigner o) (h : HasSigned o t p j s)
      → r ≡ record t { ctx = o.zero_context }
      → (lookup j r.sigs ≡ some h.sig)
        × ((o.keyring_verify (public_key s.k) r.ctx (get_report_data o r) h.sig ≡ true)
            ↔ (get_report_data o r ≡ o.format p))
  unfolding get_report_data
  verifies_made r t p j s h g = (
    ap (λ x. lookup j x.sigs) g ∙ h.found,
    rw (ap (λ x. x.ctx) g)
        (law.verifies s.k o.zero_context (o.format p) (get_report_data o r) h.sig h.made),
  )

  -- Where a signature verifies for what was signed and for nothing else, and the text of a report
  -- shows whether there are signatures, a report that NewMockedSignedReport makes for two signers
  -- or more is rejected by every verifier that knows the key of the second signer asked: that one
  -- signs the text with the first signature, and GetReportData has none.
  pub second_signer-reject :
      (i j : ℕ) (s t : OcrSigner o) (rest : Dict ℕ (OcrSigner o)) (seq : ℤ) (don : String)
      (bytes raw : List ℕ) (r : Report o) (keys : Dict ℕ o.OnchainPublicKey) (rv : ReportVerifier o)
      → lookup j rest ≡ none
      → new_mocked_signed_report o ((i, s) ∷ (j, t) ∷ rest) seq don bytes ≡ ok r
      → o.unmarshal_report raw ≡ ok r
      → lookup don rv.dons ≡ some keys
      → lookup j keys ≡ some (public_key t.k)
      → process o raw rv ≡ returns reject
  unfolding process_signed unsigned
  second_signer-reject i j s t rest seq don bytes raw r keys rv once made packed known keyed =
      let (u, f, g) = new_mocked_split o ((i, s) ∷ (j, t) ∷ rest) seq don bytes r made in
      let (p, some_sig, k) =
        sign_second o i s ((j, t) ∷ rest) (unsigned o seq don bytes) u refl f in
      let h = sign_all-HasSigned o j t rest p u once k in
      let (shown, zeroed, from) = data_made o ((i, s) ∷ (j, t) ∷ rest) seq don bytes r made in
      let (found, valid) = verifies_made r u p j t h g in
      process_packed r raw keys rv packed (rw from known)
      ∙ elim (Option-cases (count_valid o r 0 keys)) [
        | inl z ↦ ground arith
        | inr (m, z) ↦
            let sound =
              All-lookup (IsSound o r) keys j (public_key t.k) (count_valid-counts o r 0 m keys z).0
                keyed in
            absurd (
              some_sig (
                law.prints (unsigned o seq don bytes) p (sym shown ∙ valid.0 (sound h.sig found))
                  refl))
      ]
