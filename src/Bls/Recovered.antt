-- ===== src/Bls/Recovered.antt =====
-- A report that a quorum of a network's signers publishes verifies under the network's key.
use p2pmq.Base.{
  ℕ, suc, ◌+◌, ◌≤◌, ◌≡◌, ◌≢◌, refl, ◌∙◌, sym, ap, true, List, [], ◌∷◌, map, some, All, All-map,
  Option-cases, Bool-cases, inl, inr, length, ltb, leb, arith, nat_key, string_key,
}
use mathlib.Core.Path.{subst}
use p2pmq.Base.Dict.{Dict}
use p2pmq.Bls.Crypto.{Crypto}
use p2pmq.Bls.Gen.{Keys, share_at}
use p2pmq.Bls.Shares.{AreShares}
use p2pmq.Bls.Share.{Share, reconstruct_from, reconstruct_sigs}
use p2pmq.Bls.Collected.{AreApart, IsSerial, IsPart}

module _ (c : Crypto) where
  open c use {
    Sign, SignerId, SecretKey, sign_byte, verify_byte, get_public_key, set, set_dec_string, decimal,
    deserialize, recover, serialize_to_hex_str, deserialize_hex_str,
  }

  -- Shares of a polynomial, by their indices, with the ids of these.
  abbrev pub Shares : Type 0
  Shares = Dict ℕ (SignerId × SecretKey)

  abbrev pub AreSharesOf : List SecretKey → Shares → Type 0
  AreSharesOf msk =
      All (λ e. (set_dec_string (decimal e.0) ≡ some e.1.0) × (set msk e.1.0 ≡ some e.1.1))

  abbrev pub signatures_of : List ℕ → Shares → List Sign
  signatures_of bytes = map (λ e. sign_byte e.1.1 bytes)

  abbrev pub ids_of : Shares → List SignerId
  ids_of = map (λ e. e.1.0)

  -- What the nodes rely on: a key has one signature of a text, which reads back from its two
  -- encodings, and signatures by as many shares as the polynomial has coefficients, or more, give
  -- that of its first coefficient.
  pub record IsScheme : Type 0 where
    pub serial : IsSerial c
    pub hex_back : (s : Sign) → deserialize_hex_str (serialize_to_hex_str s) ≡ some s
    pub verifies :
        (k : SecretKey) (m : List ℕ) → verify_byte (sign_byte k m) (get_public_key k) m ≡ true
    pub unique :
        (s : Sign) (k : SecretKey) (m : List ℕ)
        → verify_byte s (get_public_key k) m ≡ true
        → s ≡ sign_byte k m
    pub recovers :
        (sk : SecretKey) (rest : List SecretKey) (m : List ℕ) (shares : Shares)
        → AreSharesOf (sk ∷ rest) shares
        → AreApart shares
        → suc (length rest) ≤ length shares
        → recover (signatures_of m shares) (ids_of shares) ≡ some (sign_byte sk m)

  All-every : {A : Type 0} (P : A → Type 0) → ((x : A) → P x) → (l : List A) → All P l
  All-every P h [] = tt
  All-every P h (x ∷ l) = (h x, All-every P h l)

  both : {A : Type 0} (P Q : A → Type 0) (l : List A) → All P l → All Q l → All (λ x. P x × Q x) l
  both P Q [] h k = tt
  both P Q (x ∷ l) h k = ((h.0, k.0), both P Q l h.1 k.1)

  module _ (scheme : IsScheme) (msk : List SecretKey) (count : ℕ) (keys : Keys c)
      (made : AreShares c msk (suc count) keys) (share : Share c) (given : share.signers ≡ keys.1)
      (bytes : List ℕ) where
    -- The share behind a signature that verifies.
    record Behind (e : ℕ × List ℕ) : Type 0 where
      id : SignerId
      key : SecretKey
      named : set_dec_string (decimal e.0) ≡ some id
      value : set msk id ≡ some key
      signed : deserialize e.1 ≡ some (sign_byte key bytes)

    share-Behind :
        (e : ℕ × List ℕ) (k : SecretKey)
        → share_at c msk e.0 ≡ some k
        → deserialize e.1 ≡ some (sign_byte k bytes)
        → Behind e
    unfolding share_at
    share-Behind e k at signed = elim (Option-cases (set_dec_string (decimal e.0))) [
      | inl n ↦ absurd (ground arith)
      | inr (id, n) ↦ record {
        id = id;
        key = k;
        named = n;
        value = rw (n, share_at) at at;
        signed = signed;
      }
    ]

    part-Behind : (e : ℕ × List ℕ) → IsPart c share bytes e → Behind e
    part-Behind e part = elim (Bool-cases (leb 1 e.0)) [
      | inr zero_index ↦ absurd (ground (arith, made.below e.0, given, part.known))
      | inl from_one ↦ elim (Bool-cases (ltb e.0 (suc count))) [
        | inr beyond ↦ absurd (ground (arith, made.above e.0, given, part.known))
        | inl inside ↦
            let (k, at, _, public) = made.within e.0 (ground arith) (ground arith) in
            share-Behind e k at (
              part.readable
              ∙ ap some (
                  scheme.unique part.sig k bytes (
                    subst (λ pk. verify_byte part.sig pk bytes ≡ true)
                      (ground (arith, public, part.known, given)) part.verified)))
      ]
    ]

    -- The shares that the loop of `ReconstructSigs` has been through.
    record Gathered (seen : Shares) (m : Dict ℕ (List ℕ)) : Type 0 where
      shares : Shares
      run :
          reconstruct_from c (signatures_of bytes seen) (ids_of seen) m
          ≡ recover (signatures_of bytes shares) (ids_of shares)
      of_master : AreSharesOf msk shares
      apart : AreApart shares
      counted : length shares ≡ length seen + length m

    one_more :
        (seen : Shares) (i : ℕ) (signature : List ℕ) (m : Dict ℕ (List ℕ))
        (b : Behind (i, signature))
        → Gathered ((i, (b.id, b.key)) ∷ seen) m
        → Gathered seen ((i, signature) ∷ m)
    unfolding reconstruct_from
    one_more seen i signature m b g = record {
      shares = g.shares;
      run = rw (b.named, b.signed, reconstruct_from) g.run;
      of_master = g.of_master;
      apart = g.apart;
      counted = omega (arith, g.counted);
    }

    gather :
        (seen : Shares) (m : Dict ℕ (List ℕ))
        → AreSharesOf msk seen
        → AreApart seen
        → All (IsPart c share bytes) m
        → AreApart m
        → All (λ e. All (λ q. q.0 ≢ e.0) seen) m
        → Gathered seen m
    unfolding reconstruct_from
    gather seen [] of_master apart parts new fresh = record {
      shares = seen;
      run = refl;
      of_master = of_master;
      apart = apart;
      counted = omega arith;
    }
    gather seen ((i, signature) ∷ m) of_master apart parts new fresh =
        let b = part-Behind (i, signature) parts.0 in
        one_more seen i signature m b (
          gather ((i, (b.id, b.key)) ∷ seen) m ((b.named, b.value), of_master) (fresh.0, apart)
            parts.1 new.1 (both _ _ m (All-map (λ e n h. n (sym h)) m new.0) fresh.1))

    -- What the signers recover.
    pub recovered :
        (sk : SecretKey) (rest : List SecretKey) (m : Dict ℕ (List ℕ))
        → msk ≡ sk ∷ rest
        → All (IsPart c share bytes) m
        → AreApart m
        → suc (length rest) ≤ length m
        → reconstruct_sigs c m ≡ some (sign_byte sk bytes)
    unfolding reconstruct_sigs
    recovered sk rest m master parts apart enough =
        g.run
        ∙ scheme.recovers sk rest bytes g.shares
            (subst (λ l. AreSharesOf l g.shares) master g.of_master) g.apart
            (omega (arith, g.counted))
      where
        g : Gathered [] m
        g = gather [] m tt tt parts apart (All-every _ (λ e. tt) m)
