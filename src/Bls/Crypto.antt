-- ===== src/Bls/Crypto.antt =====
-- What the nodes use of herumi's BLS library, and of Go's decimal printing and parsing, which are
-- not part of the repository. A call that can fail is an `Option`.
use p2pmq.Base.{ℕ, String, Bool, List, Option}

pub record Crypto : Type 1 where
  pub PublicKey : Type 0
  pub SecretKey : Type 0
  pub Sign : Type 0
  pub SignerId : Type 0
  pub sign_byte : SecretKey → List ℕ → Sign
  pub verify_byte : Sign → PublicKey → List ℕ → Bool
  pub serialize_to_hex_str : Sign → String
  pub deserialize_hex_str : String → Option Sign
  pub serialize : Sign → List ℕ
  pub deserialize : List ℕ → Option Sign
  pub set_dec_string : String → Option SignerId
  pub get_public_key : SecretKey → PublicKey
  -- `sk.Set(msk, &id)`: the value at the id of the polynomial that the keys are
  pub set : List SecretKey → SignerId → Option SecretKey
  pub recover : List Sign → List SignerId → Option Sign
  -- `fmt.Sprintf("%d", n)` and `strconv.ParseUint(s, 10, 64)`
  pub decimal : ℕ → String
  pub parse_uint : String → Option ℕ
