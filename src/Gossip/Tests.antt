-- ===== src/Gossip/Tests.antt =====
-- A hash of three bytes.
use p2pmq.Base.{ℕ, ◌≡◌, refl, List, [], ◌∷◌, length}
use p2pmq.Base.Int.{pos}
use p2pmq.Gossip.MsgId.{hash_id, id_bytes, clamp_size, slice_to, encode_to_string}
use p2pmq.Gossip.Ids.{hash_id_again}

abbrev sum : List ℕ → List ℕ
sum msg = 1 ∷ 255 ∷ length msg ∷ []

length-sum : (msg : List ℕ) → length (sum msg) ≡ 3
length-sum msg = refl

-- "01ff"
two_bytes : (hash_id sum (pos 2) (7 ∷ [])).1 ≡ id_bytes (b'0' ∷ b'1' ∷ b'f' ∷ b'f' ∷ [])
unfolding hash_id clamp_size slice_to encode_to_string
two_bytes = refl

hash_id_again_example :
    (hash_id sum (hash_id sum (pos 20) (7 ∷ [])).0 (8 ∷ [])).1 ≡ (hash_id sum (pos 20) (8 ∷ [])).1
hash_id_again_example = hash_id_again sum 3 length-sum (pos 20) (7 ∷ []) (8 ∷ [])
