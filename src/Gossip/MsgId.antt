-- ===== src/Gossip/MsgId.antt =====
-- core/gossip/msg_id.go. A `pubsub.MsgIdFunction` is a closure over its size; here it is the data
-- that the closure captures. The hash functions are parameters: they are Go's standard library.
use p2pmq.Base.{
  ℕ, ◌+◌, ◌-◌, ◌/◌, ◌%◌, String, List, [], ◌∷◌, length, take, ltb, ◌==◌, string_key, if◌then◌else◌,
}
use p2pmq.Base.Int.{ℤ, pos, negsuc}

-- `MsgIDFuncType` is a string, and `MsgIDSize` an `int`.
abbrev pub msg_id_sha256_type : String
msg_id_sha256_type = "sha256"

abbrev pub msg_id_md5_type : String
msg_id_md5_type = "md5"

pub data MsgIdFn : Type 0 where
  sha256 md5 : ℤ → MsgIdFn

abbrev pub default_msg_id_fn : MsgIdFn
default_msg_id_fn = sha256 (pos 20)

unfoldable pub msg_id_fn : String → ℤ → MsgIdFn
msg_id_fn tp size =
    if tp == msg_id_sha256_type
    then sha256 size
    else if tp == msg_id_md5_type
    then md5 size
    else default_msg_id_fn

-- What a call gives: the id, or a fault, beside the size that the closure holds afterwards.
pub data IdResult : Type 0 where
  id_bytes : List ℕ → IdResult
  slice_panic : IdResult

-- `if msgSize := MsgIDSize(len(h)); size > msgSize { size = msgSize }`
unfoldable pub clamp_size : ℤ → ℕ → ℤ
clamp_size (pos n) len = if ltb len n then pos len else pos n
clamp_size (negsuc n) len = negsuc n

-- `hex.EncodeToString`: two lower case digits for each byte, as ASCII codes.
abbrev hex_digit : ℕ → ℕ
hex_digit d = if ltb d 10 then b'0' + d else b'a' + d - 10

unfoldable pub encode_to_string : List ℕ → List ℕ
encode_to_string [] = []
encode_to_string (b ∷ bs) = hex_digit (b / 16) ∷ hex_digit (b % 16) ∷ encode_to_string bs

-- `h[:size]` panics on a negative size; a size past the end is clamped before.
unfoldable pub slice_to : List ℕ → ℤ → IdResult
unfolding encode_to_string
slice_to h (pos n) = id_bytes (encode_to_string (take n h))
slice_to h (negsuc n) = slice_panic

-- The body of both closures, over the hash that it calls.
unfoldable pub hash_id : (List ℕ → List ℕ) → ℤ → List ℕ → ℤ × IdResult
unfolding clamp_size slice_to
hash_id sum size [] = (size, id_bytes [])
hash_id sum size (b ∷ msg) =
    let h = sum (b ∷ msg) in let size' = clamp_size size (length h) in (size', slice_to h size')
