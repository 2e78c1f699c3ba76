-- ===== src/Layers/Writing.antt =====
-- PutChunks does not fail when files can be written.
use k8e.Common.{
  ℕ, zero, suc, String, ◌≡◌, refl, ◌⊎◌, inr, none, List, [], ◌∷◌, arith, Bool-cases, length, take,
  drop,
}
use k8e.Common.Int.{ℤ}
use k8e.Layers.Store.{
  Bytes, LayerError, Store, Disk, Zstd, chunk_size_or_default, publish, has_layer, and_then_chunk,
  put, put_slices, put_chunks,
}

pub record IsWriting (disk : Disk) : Type 0 where
  pub publishes : (d : String) → disk.publishes d ≡ none

module _ (digest : Bytes → String) (zstd : Zstd) where
  pub put_ok :
      (disk : Disk) (content : Bytes) (st : Store)
      → IsWriting disk
      → (put digest zstd disk content st).1 ≡ inr (digest content)
  unfolding put publish
  put_ok disk content st w =
      ground (arith, w.publishes (digest content), Bool-cases (has_layer disk (digest content) st))

  and_then_chunk_ok :
      (d : String) (ds : List String) (first : Store × (LayerError ⊎ String))
      (later : Store × (LayerError ⊎ List String))
      → first.1 ≡ inr d
      → later.1 ≡ inr ds
      → (and_then_chunk first later).1 ≡ inr (d ∷ ds)
  unfolding and_then_chunk
  and_then_chunk_ok d ds (st, r) (st', rs) p q = rw (p, q, and_then_chunk) refl

  put_slices_ok :
      (disk : Disk) (fuel size : ℕ) (rest : Bytes) (st : Store)
      → IsWriting disk
      → (ds : List String) × ((put_slices digest zstd disk fuel size rest st).1 ≡ inr ds)
  unfolding put_slices
  put_slices_ok disk fuel size [] st w = ([], refl)
  put_slices_ok disk zero size (b ∷ bs) st w = ([], refl)
  put_slices_ok disk (suc fuel) size (b ∷ bs) st w =
      let first = put digest zstd disk (take size (b ∷ bs)) st in
      let (ds, later) = put_slices_ok disk fuel size (drop size (b ∷ bs)) first.0 w in
      (
        digest (take size (b ∷ bs)) ∷ ds,
        and_then_chunk_ok (digest (take size (b ∷ bs))) ds first
            (put_slices digest zstd disk fuel size (drop size (b ∷ bs)) first.0)
            (put_ok disk (take size (b ∷ bs)) st w) later,
      )

  pub put_chunks_ok :
      (disk : Disk) (content : Bytes) (size : ℤ) (st : Store)
      → IsWriting disk
      → (ds : List String) × ((put_chunks digest zstd disk content size st).1 ≡ inr ds)
  unfolding put_chunks
  put_chunks_ok disk [] size st w =
      let first = put digest zstd disk [] st in
      (
        digest [] ∷ [],
        and_then_chunk_ok (digest []) [] first (first.0, inr []) (put_ok disk [] st w) refl,
      )
  put_chunks_ok disk (b ∷ bs) size st w =
      put_slices_ok disk (length (b ∷ bs)) (chunk_size_or_default size) (b ∷ bs) st w
