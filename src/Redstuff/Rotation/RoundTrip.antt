-- ===== src/Redstuff/Rotation/RoundTrip.antt =====
-- Shard indices and sliver-pair indices are two numberings of the same slivers
-- (pytusk/core/encoding/redstuff.py).
use native.Mathlib.Nat.{mod-lt}
use pytusk.Prelude.{ℕ, ◌+◌, ◌-◌, ◌%◌, ◌<◌, ◌≡◌, ap, ◌∙◌, arith, length}
use pytusk.Prelude.Bytes.{Bytes, from_bytes_big}
use pytusk.Errors.{ok}
use pytusk.Redstuff.Rotation.{shard_index_to_pair_index, pair_index_to_shard_index}

-- The arithmetic of one rotation and its inverse.
rotate_back : (n s o : ℕ) → s < n → o < n → ((n + s - o) % n + o) % n ≡ s
rotate_back n s o hs ho = grind arith

rotate_forth : (n p o : ℕ) → p < n → o < n → (n + (p + o) % n - o) % n ≡ p
rotate_forth n p o hp ho = grind arith

module _ (blob_id : Bytes) (n : ℕ) (len : length blob_id ≡ 32) where
  abbrev offset : ℕ
  offset = from_bytes_big blob_id % n

  pair_of_shard :
      (s : ℕ) → s < n → shard_index_to_pair_index s blob_id n ≡ ok ((n + s - offset) % n)
  unfolding shard_index_to_pair_index
  pair_of_shard s h = ground arith

  shard_of_pair : (p : ℕ) → p < n → pair_index_to_shard_index p blob_id n ≡ ok ((p + offset) % n)
  unfolding pair_index_to_shard_index
  shard_of_pair p h = ground arith

  -- For a blob ID of 32 bytes: every shard index of the committee has a pair index in range, which
  -- leads back to it.
  pub pair_index-shard_index :
      (s : ℕ)
      → s < n
      → (p : ℕ) × (shard_index_to_pair_index s blob_id n ≡ ok p)
        × (p < n)
        × (pair_index_to_shard_index p blob_id n ≡ ok s)
  pair_index-shard_index s h =
      let o : offset < n = mod-lt _ (omega arith) in
      let lt : (n + s - offset) % n < n = mod-lt _ (omega arith) in
      (
        (n + s - offset) % n,
        pair_of_shard s h,
        lt,
        shard_of_pair _ lt ∙ ap ok (rotate_back n s offset h o),
      )

  -- For a blob ID of 32 bytes: every pair index in range has a shard index in range, which leads
  -- back to it.
  pub shard_index-pair_index :
      (p : ℕ)
      → p < n
      → (s : ℕ) × (pair_index_to_shard_index p blob_id n ≡ ok s)
        × (s < n)
        × (shard_index_to_pair_index s blob_id n ≡ ok p)
  shard_index-pair_index p h =
      let o : offset < n = mod-lt _ (omega arith) in
      let lt : (p + offset) % n < n = mod-lt _ (omega arith) in
      (
        (p + offset) % n,
        shard_of_pair p h,
        lt,
        pair_of_shard _ lt ∙ ap ok (rotate_forth n p offset h o),
      )
