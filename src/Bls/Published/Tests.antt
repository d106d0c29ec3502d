-- ===== src/Bls/Published/Tests.antt =====
-- Four signers, three of whom are needed: a scheme in which every share is the key itself, a key
-- signs with its sum with the text, and a signature is written as so many strokes.
use p2pmq.Base.{
  ℕ, zero, suc, ◌+◌, ◌≡◌, refl, String, true, List, [], ◌∷◌, Option, none, some, All, eqb, arith,
  string_key, nat_key, returns, ap, length, ◌≤◌,
}
use mathlib.Core.Path.{subst}
use p2pmq.Base.Dict.{lookup, insert}
use p2pmq.Bls.Report.{SignedReport}
use p2pmq.Bls.ReportBuffer.{ReportBuffer, new_report_buffer, add, get, ring_for, validate_sequence}
use p2pmq.Bls.Crypto.{Crypto}
use p2pmq.Bls.Gen.{Keys, gen_shares, master_keys, random_keys, share_at, shares_from, gen_bls_key}
use p2pmq.Bls.Shares.{AreShares, gen_shares-AreShares}
use p2pmq.Bls.Share.{Share, validate, threshold, quorum_count}
use p2pmq.Bls.Node.{Node, node_validate, node_quorum_count}
use p2pmq.Bls.InternalNet.{collect_one, collect_from, collect_signatures, on_quorum}
use p2pmq.Bls.Collected.{AreApart, IsHonest}
use p2pmq.Bls.Recovered.{IsScheme, AreSharesOf, Shares, signatures_of, ids_of}
use p2pmq.Bls.Published.{under_key, on_quorum-node_validate}

strokes : ℕ → String
strokes zero = String.[]
strokes (suc n) = String.◌∷◌ "|" (strokes n)

count_strokes : String → ℕ
count_strokes String.[] = 0
count_strokes (String.◌∷◌ c s) = suc (count_strokes s)

count-strokes : (n : ℕ) → count_strokes (strokes n) ≡ n
unfolding strokes count_strokes
count-strokes zero = refl
count-strokes (suc n) = ap suc (count-strokes n)

sum : List ℕ → ℕ
sum [] = 0
sum (x ∷ xs) = x + sum xs

abbrev simple : Crypto
simple = record {
  PublicKey = ℕ;
  SecretKey = ℕ;
  Sign = ℕ;
  SignerId = ℕ;
  sign_byte = λ k bytes. k + sum bytes;
  verify_byte = λ s k bytes. eqb s (k + sum bytes);
  serialize_to_hex_str = strokes;
  deserialize_hex_str = λ s. some (count_strokes s);
  serialize = λ s. s ∷ [];
  deserialize = λ bytes. elim bytes [ [] ↦ none | s ∷ _ ↦ some s ];
  set_dec_string = λ s. some (count_strokes s);
  get_public_key = λ k. k;
  set = λ keys id. elim keys [ [] ↦ none | k ∷ _ ↦ some k ];
  recover = λ sigs ids. elim sigs [ [] ↦ none | s ∷ _ ↦ some s ];
  decimal = strokes;
  parse_uint = λ s. some (count_strokes s);
}

simple-recovers :
    (sk : ℕ) (rest : List ℕ) (m : List ℕ) (shares : Shares simple)
    → AreSharesOf simple (sk ∷ rest) shares
    → AreApart shares
    → suc (length rest) ≤ length shares
    → simple.recover (signatures_of simple m shares) (ids_of simple shares)
      ≡ some (simple.sign_byte sk m)
simple-recovers sk rest m [] h apart enough = absurd (omega arith)
simple-recovers sk rest m (e ∷ shares) h apart enough = ground (arith, h.0)

simple-IsScheme : IsScheme simple
simple-IsScheme = record {
  serial = record { bytes_back = λ s. refl };
  hex_back = λ s. ap some (count-strokes s);
  verifies = λ k m. ground arith;
  unique = λ s k m e. ground arith;
  recovers = simple-recovers;
}

program : Unit {0}
unfolding lookup insert new_report_buffer add get ring_for strokes count_strokes gen_shares
    master_keys random_keys share_at shares_from gen_bls_key validate collect_one collect_from
    collect_signatures sum node_quorum_count quorum_count threshold
program = tt

abbrev keys : Keys simple
keys = ((1, 7) ∷ (2, 7) ∷ (3, 7) ∷ (4, 7) ∷ [], (1, 7) ∷ (2, 7) ∷ (3, 7) ∷ (4, 7) ∷ [])

generated : gen_shares simple 7 3 4 (8 ∷ 9 ∷ []) ≡ returns (some keys)
unfolding program
generated = refl

-- The report of number 5 by a signer.
abbrev signed_by : ℕ → SignedReport
signed_by id = record {
  network = "net";
  bytes = 2 ∷ 3 ∷ [];
  sig_hex = strokes 12;
  seq_number = 5;
  signer_id = id;
}

abbrev share : Share simple
share = record { signer_id = 3; private_key = 7; signers = keys.1 }

abbrev stored : ReportBuffer
stored =
    (add "||||" (signed_by 4)
      (add "|||" (signed_by 3)
        (add "||" (signed_by 2) (add "|" (signed_by 1) (new_report_buffer 8)).0).0).0).0

abbrev four : List String
four = "|" ∷ "||" ∷ "|||" ∷ "||||" ∷ []

abbrev node : Node simple
node = record {
  pubstore = ("net", 7) ∷ [];
  reports = new_report_buffer 8;
  shares = ("net", share) ∷ [];
  internal_reports = ("net", stored) ∷ [];
}

honest_lem :
    (s : String) (i : ℕ) (r : SignedReport)
    → simple.parse_uint s ≡ some i
    → get s 5 stored ≡ some r
    → r.signer_id ≡ i
    → validate simple share r ≡ true
    → IsHonest simple share r.bytes 5 stored s
honest_lem s i r parsed found own valid id rep e f =
    subst
      (λ (q : SignedReport).
        (q.signer_id ≡ id) × (validate simple share q ≡ true) × (q.bytes ≡ r.bytes))
      (stored_once (get s 5 stored) found f) (ground arith, valid, refl)
  where
    stored_once : (o : Option SignedReport) → o ≡ some r → o ≡ some rep → r ≡ rep
    stored_once o p q = ground arith

four-IsHonest : All (IsHonest simple share (2 ∷ 3 ∷ []) 5 stored) four
unfolding program
four-IsHonest = (
  honest_lem "|" 1 (signed_by 1) refl refl refl refl,
  (
    honest_lem "||" 2 (signed_by 2) refl refl refl refl,
    (
      honest_lem "|||" 3 (signed_by 3) refl refl refl refl,
      (honest_lem "||||" 4 (signed_by 4) refl refl refl refl, tt),
    ),
  ),
)

on_quorum-node_validate_example :
    (on_quorum simple (signed_by 3) stored four node ≡ under_key simple 7 (signed_by 3) ∷ [])
    × (node_validate simple "net" (some (under_key simple 7 (signed_by 3))) node
        ≡ validate_sequence (under_key simple 7 (signed_by 3)) node.reports)
unfolding program
on_quorum-node_validate_example =
    on_quorum-node_validate simple simple-IsScheme 7 2 4 (8 ∷ 9 ∷ []) keys generated refl share
      (signed_by 3) stored four node node refl refl four-IsHonest (omega arith) refl

all_dealt : AreShares simple (7 ∷ 8 ∷ 9 ∷ []) 5 keys
unfolding program
all_dealt = gen_shares-AreShares simple 7 2 4 (8 ∷ 9 ∷ []) keys generated
