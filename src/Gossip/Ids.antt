-- ===== src/Gossip/Ids.antt =====
-- The ids of messages.
use p2pmq.Base.{ℕ, ◌*◌, ◌≡◌, refl, List, [], ◌∷◌, length, take, length-take, min, arith, ap}
use p2pmq.Base.Int.{ℤ, pos, negsuc}
use p2pmq.Gossip.MsgId.{
  IdResult, id_bytes, slice_panic, clamp_size, slice_to, hash_id, encode_to_string,
}

abbrev pub id_length : IdResult → ℕ
id_length (id_bytes l) = length l
id_length slice_panic = 0

length-encode_to_string : (l : List ℕ) → length (encode_to_string l) ≡ 2 * length l
unfolding encode_to_string
length-encode_to_string [] = omega arith
length-encode_to_string (b ∷ bs) = omega (arith, length-encode_to_string bs)

slice_to-clamp :
    (n : ℕ) (h : List ℕ)
    → id_length (slice_to h (clamp_size (pos n) (length h))) ≡ 2 * min n (length h)
unfolding clamp_size slice_to
slice_to-clamp n h = ground (
  arith,
  length-encode_to_string (take (length h) h),
  length-encode_to_string (take n h),
  length-take (length h) h,
  length-take n h,
)

-- A clamped size is clamped already.
clamp_again : (size : ℤ) (len : ℕ) → clamp_size (clamp_size size len) len ≡ clamp_size size len
unfolding clamp_size
clamp_again (pos n) len = ground arith
clamp_again (negsuc n) len = refl

module _ (sum : List ℕ → List ℕ) (len : ℕ) (fixed : (m : List ℕ) → length (sum m) ≡ len) where
  -- With a hash function of a fixed length, the size that a call of an id function leaves in the
  -- closure does not change what later calls return.
  pub hash_id_again :
      (size : ℤ) (m1 m2 : List ℕ)
      → (hash_id sum (hash_id sum size m1).0 m2).1 ≡ (hash_id sum size m2).1
  unfolding hash_id clamp_size slice_to
  hash_id_again size [] m2 = refl
  hash_id_again size (b ∷ m1) [] = refl
  hash_id_again size (b ∷ m1) (c ∷ m2) =
      ap (slice_to (sum (c ∷ m2)))
        (rw (fixed (c ∷ m2)) (rw (fixed (b ∷ m1)) (clamp_again size len)))
