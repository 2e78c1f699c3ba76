-- ===== src/Layers/Chunks.antt =====
-- PutChunks and Assemble of layerstore.go are inverse.
use k8e.Common.{
  ℕ, zero, suc, ◌+◌, ◌≤◌, ◌<◌, String, ◌≡◌, refl, sym, ◌∙◌, ◌⊎◌, inl, inr, Option, none, some, List,
  [], ◌∷◌, ◌++◌, arith, Bool-cases, length, take, drop, take-append-drop, drop-drop, length-drop,
}
use mathlib.Core.Path.{subst}
use mathlib.Core.Sum.{inl-ne-inr}
use k8e.Common.Int.{ℤ, pos, negsuc}
use k8e.Common.Assoc.{lookup-insert, has-lookup}
use text.Mathlib.TextPositions.{eq_refl as text_refl}
use k8e.Layers.Store.{
  Bytes, PublishStep, LayerError, publishing, Store, Disk, Zstd, chunk_size_or_default, compress,
  decompress, publish, has_layer, and_then_chunk, assemble, put, put_slices, put_chunks,
}
use k8e.Layers.Writing.{IsWriting, put_chunks_ok}
use k8e.Layers.Sound.{
  IsZstd, decompress-compress, Holds, Builds, Extends, IsReading, assemble_lem, IsCollisionFree,
  IsSound, IsPut, IsPut-refl, IsPut-trans, put-IsPut,
}

-- Every part of a content is met.
unfoldable pub AreMet : (Bytes → Type 0) → Bytes → Type 0
AreMet Met content = (n m : ℕ) → Met (take n (drop m content))

module _ (digest : Bytes → String) (zstd : Zstd) (Met : Bytes → Type 0) where
  -- A content is in the layers of the digests that are returned.
  pub record IsStored (st : Store) (r : Store × (LayerError ⊎ List String)) (content : Bytes)
      : Type 0 where
    pub is_put : IsPut digest zstd Met st r.0
    pub digests : List String
    pub returned : r.1 ≡ inr digests
    pub builds : Builds zstd r.0 digests content

  -- An error is returned, and what was held stays.
  pub record IsFailed (st : Store) (r : Store × (LayerError ⊎ List String)) : Type 0 where
    pub is_put : IsPut digest zstd Met st r.0
    pub error : LayerError
    pub returned : r.1 ≡ inl error

  module _ (z : IsZstd zstd) (free : IsCollisionFree digest zstd Met) where
    publish_lem :
        (o : Option PublishStep) (content : Bytes) (st : Store)
        → let r = publish o (digest content) (compress zstd content) st in
          ((e : LayerError) × (r.1 ≡ inl e))
          ⊎ ((r.1 ≡ inr (digest content)) × Holds zstd r.0 (digest content) content)
    unfolding publish Holds
    publish_lem (some stage) content st = inl (publishing stage, refl)
    publish_lem none content st = inr (
      refl,
      (
        compress zstd content,
        lookup-insert (digest content) (digest content) (compress zstd content) st.layers
            ∙ rw (text_refl (digest content)) refl,
        decompress-compress zstd content z,
      ),
    )

    pub put_lem :
        (disk : Disk) (content : Bytes) (st : Store)
        → IsSound digest zstd Met st
        → Met content
        → ((e : LayerError) × ((put digest zstd disk content st).1 ≡ inl e))
          ⊎ (((put digest zstd disk content st).1 ≡ inr (digest content))
              × Holds zstd (put digest zstd disk content st).0 (digest content) content)
    unfolding put publish has_layer IsSound IsCollisionFree Holds
    put_lem disk content st s met = elim (Bool-cases (has_layer disk (digest content) st)) [
      | inl there ↦
          let (b, stored) = has-lookup (digest content) st.layers (ground arith) in
          let (met_b, same) = s (digest content) b stored in
          rw (there, put) (inr (refl, (b, stored, free (decompress zstd b) content met_b met same)))
      | inr new ↦ rw (new, put) (publish_lem (disk.publishes (digest content)) content st)
    ]

    and_then_chunk-IsFailed :
        (st : Store) (e : LayerError) (first : Store × (LayerError ⊎ String))
        (later : Store × (LayerError ⊎ List String))
        → IsPut digest zstd Met st first.0
        → first.1 ≡ inl e
        → IsFailed st (and_then_chunk first later)
    unfolding and_then_chunk
    and_then_chunk-IsFailed st e (st', r) later p failed =
        rw (failed, and_then_chunk) (record { is_put = p; error = e; returned = refl })

    and_then_chunk_lem :
        (st : Store) (d : String) (content rest : Bytes) (first : Store × (LayerError ⊎ String))
        (later : Store × (LayerError ⊎ List String))
        → IsPut digest zstd Met st first.0
        → first.1 ≡ inr d
        → Holds zstd first.0 d content
        → (IsFailed first.0 later ⊎ IsStored first.0 later rest)
        → IsFailed st (and_then_chunk first later)
          ⊎ IsStored st (and_then_chunk first later) (content ++ rest)
    unfolding and_then_chunk Builds Extends
    and_then_chunk_lem st d content rest (st', r) (st'', rs) p put held (inl failed) =
        rw (put, failed.returned, and_then_chunk)
          (inl (record {
            is_put = IsPut-trans digest zstd Met st st' st'' p failed.is_put;
            error = failed.error;
            returned = refl;
          }))
    and_then_chunk_lem st d content rest (st', r) (st'', rs) p put held (inr stored) =
        rw (put, stored.returned, and_then_chunk)
          (inr (record {
            is_put = IsPut-trans digest zstd Met st st' st'' p stored.is_put;
            digests = d ∷ stored.digests;
            returned = refl;
            builds = (content, rest, stored.is_put.extends d content held, stored.builds, refl);
          }))

    -- A chunk, and what is made of the rest.
    next_lem :
        (disk : Disk) (content rest : Bytes) (st : Store)
        (later : Store × (LayerError ⊎ List String))
        → IsSound digest zstd Met st
        → Met content
        → (let first = put digest zstd disk content st in
            IsSound digest zstd Met first.0 → IsFailed first.0 later ⊎ IsStored first.0 later rest)
        → let r = and_then_chunk (put digest zstd disk content st) later in
          IsFailed st r ⊎ IsStored st r (content ++ rest)
    next_lem disk content rest st later s met then_lem =
        let p = put-IsPut digest zstd Met z free disk content st s met in
        let first = put digest zstd disk content st in
        elim (put_lem disk content st s met) [
          | inl (e, failed) ↦ inl (and_then_chunk-IsFailed st e first later p failed)
          | inr (ok, held) ↦
              and_then_chunk_lem st (digest content) content rest first later p ok held
                (then_lem p.sound)
        ]

    none_stored : (st : Store) → IsSound digest zstd Met st → IsStored st (st, inr []) []
    unfolding Builds
    none_stored st s = record {
      is_put = IsPut-refl digest zstd Met st s;
      digests = [];
      returned = refl;
      builds = refl;
    }

    put_slices_lem :
        (disk : Disk) (fuel size : ℕ) (rest : Bytes) (st : Store)
        → length rest ≤ fuel
        → 0 < size
        → IsSound digest zstd Met st
        → AreMet Met rest
        → let r = put_slices digest zstd disk fuel size rest st in
          IsFailed st r ⊎ IsStored st r rest
    unfolding put_slices AreMet
    put_slices_lem disk fuel size [] st enough some_size s met = inr (none_stored st s)
    put_slices_lem disk zero size (b ∷ bs) st enough some_size s met = absurd (omega arith)
    put_slices_lem disk (suc fuel) size (b ∷ bs) st enough some_size s met =
        let first = put digest zstd disk (take size (b ∷ bs)) st in
        let rest = put_slices digest zstd disk fuel size (drop size (b ∷ bs)) first.0 in
        subst
          (λ c. IsFailed st (and_then_chunk first rest) ⊎ IsStored st (and_then_chunk first rest) c)
          (take-append-drop size (b ∷ bs))
          (next_lem disk (take size (b ∷ bs)) (drop size (b ∷ bs)) st rest s (met size 0) (λ sound.
            put_slices_lem disk fuel size (drop size (b ∷ bs)) first.0
              (omega (arith, length-drop size (b ∷ bs))) some_size sound
              (λ n m.
                subst (λ part. Met (take n part)) (sym (drop-drop m size (b ∷ bs)))
                  (met n (size + m)))))

    chunk_size_pos : (size : ℤ) → 0 < chunk_size_or_default size
    unfolding chunk_size_or_default
    chunk_size_pos (pos zero) = omega arith
    chunk_size_pos (pos (suc n)) = omega arith
    chunk_size_pos (negsuc n) = omega arith

    pub put_chunks_lem :
        (disk : Disk) (content : Bytes) (size : ℤ) (st : Store)
        → IsSound digest zstd Met st
        → AreMet Met content
        → let r = put_chunks digest zstd disk content size st in
          IsFailed st r ⊎ IsStored st r content
    unfolding put_chunks AreMet
    put_chunks_lem disk [] size st s met =
        let first = put digest zstd disk [] st in
        next_lem disk [] [] st (first.0, inr []) s (met 0 0)
          (λ sound. inr (none_stored first.0 sound))
    put_chunks_lem disk (b ∷ bs) size st s met =
        put_slices_lem disk (length (b ∷ bs)) (chunk_size_or_default size) (b ∷ bs) st (omega arith)
          (chunk_size_pos size) s met

    -- When files can be written, the content is stored.
    pub put_chunks-IsStored :
        (disk : Disk) (content : Bytes) (size : ℤ) (st : Store)
        → IsWriting disk
        → IsSound digest zstd Met st
        → AreMet Met content
        → IsStored st (put_chunks digest zstd disk content size st) content
    put_chunks-IsStored disk content size st w s met =
        elim (put_chunks_lem disk content size st s met) [
          | inl failed ↦
              let (ds, ok) = put_chunks_ok digest zstd disk content size st w in
              absurd (inl-ne-inr (sym failed.returned ∙ ok))
          | inr stored ↦ stored
        ]

    -- On a sound store, with zstd decoding what it encoded and no two parts of contents that are met
    -- having one digest: when files can be written, PutChunks returns digests whatever the chunk size
    -- is (zero and negative ones included) and whatever layers are there before, and when files can be
    -- read, Assemble of these digests gives the content back.
    pub assemble-put_chunks :
        (disk later : Disk) (content : Bytes) (size : ℤ) (st : Store)
        → IsWriting disk
        → IsReading later
        → IsSound digest zstd Met st
        → AreMet Met content
        → (ds : List String) × ((put_chunks digest zstd disk content size st).1 ≡ inr ds)
          × (assemble zstd later ds (put_chunks digest zstd disk content size st).0 ≡ inr content)
    assemble-put_chunks disk later content size st w r s met =
        let done = put_chunks-IsStored disk content size st w s met in
        (
          done.digests,
          done.returned,
          assemble_lem zstd later (put_chunks digest zstd disk content size st).0 done.digests
              content r done.builds,
        )
