-- ===== src/Bls/Shares.antt =====
-- What `GenShares` returns.
use p2pmq.Base.{
  ℕ, zero, suc, ◌+◌, ◌<◌, ◌≤◌, ◌≡◌, inl, inr, refl, Bool-cases, List, [], ◌∷◌, none, some, returns,
  nat_key, length, arith, Option-cases, ◌==◌,
}
use mathlib.Core.Path.{subst₂}
use p2pmq.Base.Dict.{lookup, insert, lookup-insert, length-insert}
use p2pmq.Bls.Crypto.{Crypto}
use p2pmq.Bls.Gen.{Keys, random_keys, master_keys, share_at, shares_from, gen_shares}

module _ (c : Crypto) where
  open c use {SecretKey, PublicKey, get_public_key}

  -- The shares of the indices from 1 to below `i`, and no other.
  pub record AreShares (msk : List SecretKey) (i : ℕ) (keys : Keys c) : Type 0 where
    pub within :
        (j : ℕ)
        → 1 ≤ j
        → j < i
        → (k : SecretKey) × (share_at c msk j ≡ some k)
          × (lookup j keys.0 ≡ some k)
          × (lookup j keys.1 ≡ some (get_public_key k))
    pub below : (j : ℕ) → j < 1 → (lookup j keys.0 ≡ none) × (lookup j keys.1 ≡ none)
    pub above : (j : ℕ) → i ≤ j → (lookup j keys.0 ≡ none) × (lookup j keys.1 ≡ none)
    pub count : length keys.1 + 1 ≡ i

  share-AreShares :
      (msk : List SecretKey) (i : ℕ) (k : SecretKey) (keys : Keys c)
      → 1 ≤ i
      → share_at c msk i ≡ some k
      → AreShares msk i keys
      → AreShares msk (suc i) (insert i k keys.0, insert i (get_public_key k) keys.1)
  share-AreShares msk i k keys pos e h = record {
    within = λ j l u. elim (Bool-cases (i == j)) [
      | inl b ↦ (
        k,
        rw (← (nat_key.same_iff i j).0 b) e,
        ground (arith, lookup-insert i j k keys.0),
        ground (arith, lookup-insert i j (get_public_key k) keys.1),
      )
      | inr b ↦
          let (k', s, x, y) = h.within j l (ground arith) in
          (
            k',
            s,
            ground (arith, lookup-insert i j k keys.0),
            ground (arith, lookup-insert i j (get_public_key k) keys.1),
          )
    ];
    below = λ j l.
        ground (
          arith,
          h.below j,
          lookup-insert i j k keys.0,
          lookup-insert i j (get_public_key k) keys.1,
        );
    above = λ j l.
        ground (
          arith,
          h.above j,
          lookup-insert i j k keys.0,
          lookup-insert i j (get_public_key k) keys.1,
        );
    count = ground (arith, h.above i, h.count, length-insert i (get_public_key k) keys.1);
  }

  shares_from-AreShares :
      (msk : List SecretKey) (i left n : ℕ) (keys final : Keys c)
      → 1 ≤ i
      → i + left ≡ n
      → AreShares msk i keys
      → shares_from c msk i left keys ≡ some final
      → AreShares msk n final
  unfolding shares_from
  shares_from-AreShares msk i zero n keys final pos whole h e =
      subst₂ (AreShares msk) (omega (arith, whole)) (ground arith) h
  shares_from-AreShares msk i (suc left) n keys final pos whole h e =
      elim (Option-cases (share_at c msk i)) [
        | inl none_at ↦ absurd (ground arith)
        | inr (k, at) ↦
            shares_from-AreShares msk (suc i) left n _ final (omega arith) (omega (arith, whole))
              (share-AreShares msk i k keys pos at h) (rw (at, shares_from) at e)
      ]

  none_yet : (msk : List SecretKey) → AreShares msk 1 ([], [])
  unfolding lookup
  none_yet msk = record {
    within = λ j l u. absurd (omega arith);
    below = λ j l. (refl, refl);
    above = λ j l. (refl, refl);
    count = refl;
  }

  -- What GenShares deals out are shares of the master keys.
  pub gen_shares-AreShares :
      (sk : SecretKey) (m count : ℕ) (drawn : List SecretKey) (keys : Keys c)
      → gen_shares c sk (suc m) count drawn ≡ returns (some keys)
      → AreShares (sk ∷ random_keys c m drawn) (suc count) keys
  unfolding gen_shares master_keys
  gen_shares-AreShares sk m count drawn keys e =
      shares_from-AreShares (sk ∷ random_keys c m drawn) 1 count (suc count) ([], []) keys
        (omega arith) (omega arith) (none_yet _) (ground arith)
