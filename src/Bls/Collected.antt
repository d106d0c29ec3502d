-- ===== src/Bls/Collected.antt =====
-- What `collectSignatures` collects: signatures of distinct signers that verify.
use p2pmq.Base.{
  ℕ, ◌≡◌, ◌≢◌, String, true, List, [], ◌∷◌, some, All, Option-cases, Bool-cases, inl, inr, arith,
  nat_key, ◌==◌,
}
use mathlib.Core.Path.{subst}
use p2pmq.Base.Dict.{Dict, lookup, insert}
use p2pmq.Bls.Report.{SignedReport}
use p2pmq.Bls.ReportBuffer.{ReportBuffer, get}
use p2pmq.Bls.Crypto.{Crypto}
use p2pmq.Bls.Share.{Share, validate}
use p2pmq.Bls.InternalNet.{collect_one, collect_from, collect_signatures}

All-insert :
    {V : Type 0} (P : ℕ × V → Type 0) (k : ℕ) (v : V) (m : Dict ℕ V)
    → P (k, v)
    → All P m
    → All P (insert k v m)
unfolding insert
All-insert P k v [] h hs = (h, tt)
All-insert P k v ((j, w) ∷ m) h hs = elim (Bool-cases (j == k)) [
  | inl b ↦ rw (b, insert) (h, hs.1)
  | inr b ↦ rw (b, insert) (hs.0, All-insert P k v m h hs.1)
]

-- No key stands twice.
abbrev pub AreApart : {V : Type 0} → Dict ℕ V → Type 0
AreApart [] = Unit
AreApart ((k, v) ∷ m) = All (λ e. e.0 ≢ k) m × AreApart m

insert-AreApart : {V : Type 0} (k : ℕ) (v : V) (m : Dict ℕ V) → AreApart m → AreApart (insert k v m)
unfolding insert
insert-AreApart k v [] h = (tt, tt)
insert-AreApart {V} k v ((j, w) ∷ m) h = elim (Bool-cases (j == k)) [
  | inl b ↦
      rw (b, insert)
        (subst (λ i. All (λ (e : ℕ × V). e.0 ≢ i) m) ((nat_key.same_iff j k).0 b) h.0, h.1)
  | inr b ↦
      rw (b, insert) (All-insert (λ e. e.0 ≢ j) k v m (ground arith) h.0, insert-AreApart k v m h.1)
]

module _ (c : Crypto) where
  open c use {Sign, PublicKey, serialize, deserialize, deserialize_hex_str, verify_byte, parse_uint}

  -- `Deserialize` reads back what `Serialize` writes.
  pub record IsSerial : Type 0 where
    pub bytes_back : (s : Sign) → deserialize (serialize s) ≡ some s

  module _ (share : Share c) (bytes : List ℕ) where
    -- A signature of the bytes by the signer of that id.
    pub record IsPart (e : ℕ × List ℕ) : Type 0 where
      pub key : PublicKey
      pub sig : Sign
      pub known : lookup e.0 share.signers ≡ some key
      pub readable : deserialize e.1 ≡ some sig
      pub verified : verify_byte sig key bytes ≡ true

    -- The report that is found for a signer is that signer's, verifies and has these bytes.
    abbrev pub IsHonest : ℕ → ReportBuffer → String → Type 0
    IsHonest seq reports s =
        (id : ℕ) (rep : SignedReport)
        → parse_uint s ≡ some id
        → get s seq reports ≡ some rep
        → (rep.signer_id ≡ id) × (validate c share rep ≡ true) × (rep.bytes ≡ bytes)

    validate-IsPart :
        (id : ℕ) (rep : SignedReport) (sig : Sign)
        → IsSerial
        → rep.signer_id ≡ id
        → validate c share rep ≡ true
        → rep.bytes ≡ bytes
        → deserialize_hex_str rep.sig_hex ≡ some sig
        → IsPart (id, serialize sig)
    unfolding validate
    validate-IsPart id rep sig serial own valid same read =
        elim (Option-cases (lookup rep.signer_id share.signers)) [
          | inl n ↦ absurd (ground arith)
          | inr (pk, n) ↦ record {
            key = pk;
            sig = sig;
            known = rw own at n;
            readable = serial.bytes_back sig;
            verified = rw same at (rw (n, read, validate) at valid);
          }
        ]

    module _ (seq : ℕ) (reports : ReportBuffer) (serial : IsSerial) where
      collect_one-IsPart :
          (s : String) (m : Dict ℕ (List ℕ))
          → IsHonest seq reports s
          → All IsPart m × AreApart m
          → All IsPart (collect_one c seq reports s m) × AreApart (collect_one c seq reports s m)
      unfolding collect_one
      collect_one-IsPart s m honest h = elim (Option-cases (parse_uint s)) [
        | inl e ↦ rw (e, collect_one) h
        | inr (id, e) ↦ elim (Option-cases (get s seq reports)) [
          | inl f ↦ rw (e, collect_one) (rw f h)
          | inr (rep, f) ↦ elim (Option-cases (deserialize_hex_str rep.sig_hex)) [
            | inl g ↦ rw (e, collect_one) (rw f (rw g h))
            | inr (sig, g) ↦
                let (own, valid, same) = honest id rep e f in
                rw (e, collect_one)
                  (rw f (
                    rw g (
                      All-insert IsPart id (serialize sig) m
                          (validate-IsPart id rep sig serial own valid same g) h.0,
                      insert-AreApart id (serialize sig) m h.1,
                    )))
          ]
        ]
      ]

      collect_from-IsPart :
          (signers : List String) (m : Dict ℕ (List ℕ))
          → All (IsHonest seq reports) signers
          → All IsPart m × AreApart m
          → All IsPart (collect_from c seq reports signers m)
            × AreApart (collect_from c seq reports signers m)
      unfolding collect_from
      collect_from-IsPart [] m honest h = h
      collect_from-IsPart (s ∷ ss) m honest h =
          collect_from-IsPart ss (collect_one c seq reports s m) honest.1
            (collect_one-IsPart s m honest.0 h)

      -- The collected signatures verify, each under the key of its signer, who has only one.
      pub collect_signatures-IsPart :
          (signers : List String)
          → All (IsHonest seq reports) signers
          → All IsPart (collect_signatures c seq reports signers)
            × AreApart (collect_signatures c seq reports signers)
      unfolding collect_signatures
      collect_signatures-IsPart signers honest = collect_from-IsPart signers [] honest (tt, tt)
