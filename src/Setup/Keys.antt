-- ===== src/Setup/Keys.antt =====
-- commons/net.go and commons/io.go: the node's private key and its configuration file. The keys are
-- libp2p's; they, base64, the files and their formats are parameters.
use p2pmq.Base.{
  wrapped, ℕ, ◌≡◌, ◌≢◌, String, Bool, ◌||◌, List, Option, none, some, Result, ok, err, Result-cases,
  ◌==◌, if◌then◌else◌, string_key, inl, inr, arith, Bool-cases,
}

pub record KeyLib : Type 1 where
  pub PrivKey : Type 0
  -- what a generation draws from `crand.Reader`
  pub Entropy : Type 0
  pub generate_key : Entropy → Result PrivKey
  pub marshal_private_key : PrivKey → Result (List ℕ)
  pub unmarshal_private_key : List ℕ → Result PrivKey
  pub encode_to_string : List ℕ → String
  pub decode_string : String → Result (List ℕ)

-- What the libraries say of themselves: they read a key that they wrote, and write none as
-- nothing.
pub record IsKeyLib (l : KeyLib) : Type 0 where
  pub decodes :
      (sk : l.PrivKey) (b : List ℕ)
      → l.marshal_private_key sk ≡ ok b
      → l.decode_string (l.encode_to_string b) ≡ ok b
  pub unmarshals :
      (sk : l.PrivKey) (b : List ℕ)
      → l.marshal_private_key sk ≡ ok b
      → l.unmarshal_private_key b ≡ ok sk
  pub writes :
      (sk : l.PrivKey) (b : List ℕ) → l.marshal_private_key sk ≡ ok b → l.encode_to_string b ≢ ""

module _ (l : KeyLib) where
  -- The three results: a key or nil, its text, and an error or nil.
  pub record KeyResult : Type 0 where
    pub sk : Option l.PrivKey
    pub encoded_b64 : String
    pub error : Option String

  abbrev pub failed : String → String → KeyResult
  failed text e = record { sk = none; encoded_b64 = text; error = some e }

  unfoldable pub generate : l.Entropy → KeyResult
  generate drawn = elim (l.generate_key drawn) [
    | err e ↦ failed "" (wrapped "could not generate private key" e)
    | ok sk ↦ elim (l.marshal_private_key sk) [
      | err e ↦ failed "" e
      | ok encoded ↦ record { sk = some sk; encoded_b64 = l.encode_to_string encoded; error = none }
    ]
  ]

  unfoldable pub parse : String → KeyResult
  parse text = elim (l.decode_string text) [
    | err e ↦ failed text (wrapped "failed to decode private key with base64" e)
    | ok encoded ↦ elim (l.unmarshal_private_key encoded) [
      | err e ↦ failed text (wrapped "failed to unmarshal private key" e)
      | ok sk ↦ record { sk = some sk; encoded_b64 = text; error = none }
    ]
  ]

  unfoldable pub get_or_generate_private_key : l.Entropy → String → KeyResult
  get_or_generate_private_key drawn text = if text == "" then generate drawn else parse text

  abbrev pub given : l.PrivKey → String → KeyResult
  given sk text = record { sk = some sk; encoded_b64 = text; error = none }

  generated :
      (drawn : l.Entropy)
      → (generate drawn).error ≡ none
      → (sk : l.PrivKey) × (b : List ℕ) × (l.marshal_private_key sk ≡ ok b)
        × (generate drawn ≡ given sk (l.encode_to_string b))
  unfolding generate
  generated drawn e = elim (Result-cases (l.generate_key drawn)) [
    | inr (x, f) ↦ absurd (ground arith)
    | inl (sk, f) ↦ elim (Result-cases (l.marshal_private_key sk)) [
      | inr (x, g) ↦ absurd (ground arith)
      | inl (b, g) ↦ (sk, b, g, ground arith)
    ]
  ]

  parsed : (text : String) → (parse text).error ≡ none → (parse text).encoded_b64 ≡ text
  unfolding parse
  parsed text e = ground arith

  -- Where libp2p and base64 read back the keys that they write and write none as an empty text:
  -- when GetOrGeneratePrivateKey succeeds, with a new key or a given one, then it yields the same
  -- key and text, and no error, when it is called with the text that it returned, whatever
  -- crypto/rand would give that second call.
  pub private_key_again :
      (text : String) (drawn later : l.Entropy)
      → IsKeyLib l
      → (get_or_generate_private_key drawn text).error ≡ none
      → get_or_generate_private_key later (get_or_generate_private_key drawn text).encoded_b64
        ≡ get_or_generate_private_key drawn text
  unfolding get_or_generate_private_key parse
  private_key_again text drawn later law e = elim (Bool-cases (text == "")) [
    | inr given_text ↦ ground (arith, parsed text)
    | inl empty ↦
        let (sk, b, f, g) = generated drawn (ground arith) in
        ground (
          arith,
          g,
          law.writes sk b f,
          law.decodes sk b f,
          law.unmarshals sk b f,
          string_key.same_iff (l.encode_to_string b) "",
        )
  ]

-- `ReadConfig`, over what files and the two formats hold.
unfoldable pub read_config :
    {C : Type 0}
    → (read_file : String → Result (List ℕ)) → (contains : String → String → Bool)
    → (yaml json : List ℕ → Result C) → String
    → Result C
read_config read_file contains yaml json cfg_addr = elim (read_file cfg_addr) [
  | err e ↦ err (wrapped "could not read config file" e)
  | ok raw ↦
      elim (if contains cfg_addr ".yaml" || contains cfg_addr ".yml" then yaml raw else json raw) [
        | err e ↦ err (wrapped "could not unmarshal config file" e)
        | ok cfg ↦ ok cfg
      ]
]
