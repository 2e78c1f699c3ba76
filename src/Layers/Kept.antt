-- ===== src/Layers/Kept.antt =====
-- The commands on the store of snapshots, and what those on other snapshots keep of one.
use k8e.Common.{
  String, ◌≡◌, refl, ap, ◌∙◌, ◌≢◌, ◌⊎◌, inl, inr, Bool, false, ◌&&◌, List, [], ◌∷◌, str_eq,
  Bool-cases, length, take, drop,
}
use mathlib.Core.Sum.{inl-ne-inr}
use k8e.Common.Assoc.{lookup, has, remove, lookup-remove}
use k8e.Layers.Store.{
  Bytes, LayerError, Store, Disk, Zstd, and_then_chunk, put, put_slices, put_chunks,
  chunk_size_or_default, delete_manifest, assemble,
}
use k8e.Layers.Collection.{gc}
use k8e.Layers.Sound.{Holds, Extends, Builds-Extends, IsSound}
use k8e.Layers.Chunks.{AreMet}
use k8e.Layers.Leases.{IsListing, gc-Builds, gc-IsSound, gc_manifests}
use k8e.Layers.Saved.{IsSave, IsLease}
use k8e.Layers.Snapshots.{snapshot_chunk_size, read_layers, release_snapshot, store_snapshot_layer}

-- A command on the store of snapshots.
pub data Command : Type 0 where
  save : Bool → Disk → String → Bytes → Command
  delete : Bool → Disk → String → Command

module _ (digest : Bytes → String) (zstd : Zstd) where
  unfoldable pub perform : Command → Store → Store
  perform (save opens disk name content) st =
      (store_snapshot_layer digest zstd opens disk name content st).0
  perform (delete opens disk name) st = release_snapshot opens disk name st

  unfoldable pub perform_all : List Command → Store → Store
  unfolding perform
  perform_all [] st = st
  perform_all (c ∷ cs) st = perform_all cs (perform c st)

and_then_chunk-ne-nil :
    (first : Store × (LayerError ⊎ String)) (later : Store × (LayerError ⊎ List String))
    (ds : List String)
    → (and_then_chunk first later).1 ≡ inr ds
    → ds ≢ []
unfolding and_then_chunk
and_then_chunk-ne-nil (st, inl e) later ds h = λ empty. inl-ne-inr h
and_then_chunk-ne-nil (st, inr d) (st', inl e) ds h = λ empty. inl-ne-inr h
and_then_chunk-ne-nil (st, inr d) (st', inr rest) ds h = λ empty. cc

pub put_chunks-ne-nil :
    (digest : Bytes → String) (zstd : Zstd) (disk : Disk) (content : Bytes) (st : Store)
    (ds : List String)
    → (put_chunks digest zstd disk content snapshot_chunk_size st).1 ≡ inr ds
    → ds ≢ []
unfolding put_chunks put_slices
put_chunks-ne-nil digest zstd disk [] st ds h =
    let first = put digest zstd disk [] st in and_then_chunk-ne-nil first (first.0, inr []) ds h
put_chunks-ne-nil digest zstd disk (b ∷ bs) st ds h =
    let size = chunk_size_or_default snapshot_chunk_size in
    let first = put digest zstd disk (take size (b ∷ bs)) st in
    and_then_chunk-ne-nil first
      (put_slices digest zstd disk (length bs) size (drop size (b ∷ bs)) first.0) ds h

pub layers_read :
    (zstd : Zstd) (disk : Disk) (tar : LayerError ⊎ Bytes) (ds : List String) (st : Store)
    → ds ≢ []
    → read_layers zstd disk tar ds st ≡ assemble zstd disk ds st
unfolding read_layers
layers_read zstd disk tar [] st some_layer = absurd (some_layer refl)
layers_read zstd disk tar (d ∷ ds) st some_layer = refl

module _ (digest : Bytes → String) (zstd : Zstd) (Met : Bytes → Type 0) where
  -- A command on another snapshot: its content is met, or its GC can list and read the manifests.
  unfoldable pub IsElsewhere : String → Command → Type 0
  IsElsewhere name (save opens disk other content) =
      (str_eq other name ≡ false) × AreMet Met content
  IsElsewhere name (delete opens disk other) = (str_eq other name ≡ false) × IsListing disk

  -- The store can be read, and has the snapshot.
  pub record IsKept (st : Store) (name : String) (content : Bytes) : Type 0 where
    pub sound : IsSound digest zstd Met st
    pub lease : IsLease digest zstd Met st name content

  pub save-IsKept :
      (st st' : Store) (other name : String) (content : Bytes)
      → str_eq other name ≡ false
      → IsSave digest zstd Met other st st'
      → IsLease digest zstd Met st name content
      → IsKept st' name content
  save-IsKept st st' other name content differs s l = record {
    sound = s.sound;
    lease = record {
      manifest = l.manifest;
      saved = s.others name differs ∙ l.saved;
      builds = Builds-Extends zstd st st' l.manifest.layers content s.extends l.builds;
      some_layer = l.some_layer;
    };
  }

  pub delete-IsKept :
      (disk : Disk) (other name : String) (content : Bytes) (st : Store)
      → str_eq other name ≡ false
      → IsKept st name content
      → IsKept (delete_manifest disk other st).0 name content
  unfolding delete_manifest IsSound Extends Holds
  delete-IsKept disk other name content st differs k =
      elim (Bool-cases (has other st.manifests && disk.deletes other)) [
        | inl gone ↦
            rw (gone, delete_manifest)
              (record {
                sound = k.sound;
                lease = record {
                  manifest = k.lease.manifest;
                  saved = lookup-remove other name st.manifests ∙ rw differs k.lease.saved;
                  builds =
                      Builds-Extends zstd st (record st { manifests = remove other st.manifests })
                        k.lease.manifest.layers content (λ d c held. held) k.lease.builds;
                  some_layer = k.lease.some_layer;
                };
              })
        | inr there ↦ rw (there, delete_manifest) k
      ]

  pub gc-IsKept :
      (disk : Disk) (name : String) (content : Bytes) (st : Store)
      → IsListing disk
      → IsKept st name content
      → IsKept (gc disk st).0 name content
  gc-IsKept disk name content st listing k = record {
    sound = gc-IsSound digest zstd Met disk st k.sound;
    lease = record {
      manifest = k.lease.manifest;
      saved = ap (lookup name) (gc_manifests disk st) ∙ k.lease.saved;
      builds =
          gc-Builds zstd disk st name k.lease.manifest k.lease.manifest.layers content listing
            k.lease.saved (λ d inside. inside) k.lease.builds;
      some_layer = k.lease.some_layer;
    };
  }
