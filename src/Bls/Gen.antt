-- ===== src/Bls/Gen.antt =====
-- examples/bls/gen.go: a network's key, and its shares. The keys that `SetByCSPRNG` draws are a
-- parameter, the next one first; they are as many as are asked for.
use p2pmq.Base.{ℕ, zero, suc, List, [], ◌∷◌, Option, none, some, Outcome, returns, panics, nat_key}
use p2pmq.Base.Dict.{Dict, insert}
use p2pmq.Bls.Crypto.{Crypto}

module _ (c : Crypto) where
  open c use {SecretKey, PublicKey, get_public_key, set, set_dec_string, decimal}

  abbrev pub Keys : Type 0
  Keys = Dict ℕ SecretKey × Dict ℕ PublicKey

  unfoldable pub gen_bls_key : SecretKey → SecretKey × PublicKey
  gen_bls_key drawn = (drawn, get_public_key drawn)

  -- The loop that fills `msk` from 1 on.
  unfoldable pub random_keys : ℕ → List SecretKey → List SecretKey
  random_keys zero drawn = []
  random_keys (suc n) [] = []
  random_keys (suc n) (k ∷ drawn) = (gen_bls_key k).0 ∷ random_keys n drawn

  -- `msk`; writing the key to the slot 0 of an empty slice panics.
  unfoldable pub master_keys : SecretKey → ℕ → List SecretKey → Outcome (List SecretKey)
  master_keys sk zero drawn = panics
  master_keys sk (suc n) drawn = returns (sk ∷ random_keys n drawn)

  -- The share of one index.
  unfoldable pub share_at : List SecretKey → ℕ → Option SecretKey
  share_at msk i = elim (set_dec_string (decimal i)) [ none ↦ none | some id ↦ set msk id ]

  -- The loop over the indices: `i` is the next one, and so many are left.
  unfoldable pub shares_from : List SecretKey → ℕ → ℕ → Keys → Option Keys
  shares_from msk i zero keys = some keys
  shares_from msk i (suc left) keys = elim (share_at msk i) [
    | none ↦ none
    | some sk ↦
        shares_from msk (suc i) left (insert i sk keys.0, insert i (get_public_key sk) keys.1)
  ]

  -- `GenShares`; `none` is an error, with which it returns no maps.
  unfoldable pub gen_shares : SecretKey → ℕ → ℕ → List SecretKey → Outcome (Option Keys)
  gen_shares sk threshold count drawn = elim (master_keys sk threshold drawn) [
    | panics ↦ panics
    | returns msk ↦ returns (shares_from msk 1 count ([], []))
  ]
