-- ===== src/Layers/Restore.antt =====
-- A snapshot over its life: it is stored, other snapshots are stored and deleted, it is restored.
use k8e.Common.{
  String, ◌≡◌, ap, ◌∙◌, ◌≢◌, ◌⊎◌, inl, inr, true, false, none, List, [], ◌∷◌, length, take-length,
  All,
}
use mathlib.Core.Path.{subst}
use k8e.Common.Assoc.{lookup}
use k8e.Layers.Store.{
  Bytes, LayerError, Store, Disk, Zstd, put_chunks, parsed, load_manifest, delete_manifest,
}
use k8e.Layers.Collection.{layers_of}
use k8e.Layers.Sound.{IsZstd, Extends, IsReading, assemble_lem, IsCollisionFree, IsSound}
use k8e.Layers.Writing.{IsWriting}
use k8e.Layers.Chunks.{AreMet, IsStored, IsFailed, put_chunks_lem, put_chunks-IsStored}
use k8e.Layers.Leases.{IsListing}
use k8e.Layers.Saved.{IsSave, save_manifest-IsSave, save_manifest-IsLease}
use k8e.Layers.Snapshots.{
  snapshot_chunk_size, read_snapshot_payload, release_snapshot, save_layers, store_snapshot_layer,
}
use k8e.Layers.Kept.{
  Command, save, delete, perform, perform_all, put_chunks-ne-nil, layers_read, IsElsewhere, IsKept,
  save-IsKept, delete-IsKept, gc-IsKept,
}

module _ (digest : Bytes → String) (zstd : Zstd) (Met : Bytes → Type 0) where
  module _ (z : IsZstd zstd) (free : IsCollisionFree digest zstd Met) where
    -- What a run of PutChunks leaves, and the save of what it returns.
    save_layers-IsSave :
        (disk : Disk) (name : String) (content : Bytes) (st : Store)
        (r : Store × (LayerError ⊎ List String))
        → Met content
        → IsFailed digest zstd Met st r ⊎ IsStored digest zstd Met st r content
        → IsSave digest zstd Met name st (save_layers digest zstd disk name r).0
    unfolding save_layers Extends
    save_layers-IsSave disk name content st (st', r) met (inl failed) =
        rw (failed.returned, save_layers)
          (record {
            sound = failed.is_put.sound;
            extends = failed.is_put.extends;
            others = λ other differs. ap (lookup other) failed.is_put.same_manifests;
          })
    save_layers-IsSave disk name content st (st', r) met (inr stored) =
        let s =
          save_manifest-IsSave digest zstd Met z free disk name stored.digests st' content
            stored.is_put.sound stored.builds met in
        rw (stored.returned, save_layers)
          (record {
            sound = s.sound;
            extends = λ d c held. s.extends d c (stored.is_put.extends d c held);
            others = λ other differs.
                s.others other differs ∙ ap (lookup other) stored.is_put.same_manifests;
          })

    whole-Met : (content : Bytes) → AreMet Met content → Met content
    unfolding AreMet
    whole-Met content met = subst Met (take-length content) (met (length content) 0)

    perform-IsKept :
        (c : Command) (name : String) (content : Bytes) (st : Store)
        → IsElsewhere digest zstd Met name c
        → IsKept digest zstd Met st name content
        → IsKept digest zstd Met (perform digest zstd c st) name content
    unfolding perform IsElsewhere store_snapshot_layer release_snapshot
    perform-IsKept (save false disk other written) name content st (differs, met) k = k
    perform-IsKept (save true disk other written) name content st (differs, met) k =
        let r = put_chunks digest zstd disk written snapshot_chunk_size st in
        save-IsKept digest zstd Met st (save_layers digest zstd disk other r).0 other name content
          differs
          (save_layers-IsSave disk other written st r (whole-Met written met)
            (put_chunks_lem digest zstd Met z free disk written snapshot_chunk_size st k.sound met))
          k.lease
    perform-IsKept (delete false disk other) name content st (differs, listing) k = k
    perform-IsKept (delete true disk other) name content st (differs, listing) k =
        gc-IsKept digest zstd Met disk name content (delete_manifest disk other st).0 listing
          (delete-IsKept digest zstd Met disk other name content st differs k)

    perform_all-IsKept :
        (cs : List Command) (name : String) (content : Bytes) (st : Store)
        → All (IsElsewhere digest zstd Met name) cs
        → IsKept digest zstd Met st name content
        → IsKept digest zstd Met (perform_all digest zstd cs st) name content
    unfolding perform_all
    perform_all-IsKept [] name content st elsewhere k = k
    perform_all-IsKept (c ∷ cs) name content st (here, elsewhere) k =
        perform_all-IsKept cs name content (perform digest zstd c st) elsewhere
          (perform-IsKept c name content st here k)

    read_kept :
        (disk : Disk) (tar : LayerError ⊎ Bytes) (name : String) (content : Bytes) (st : Store)
        → IsReading disk
        → IsListing disk
        → IsKept digest zstd Met st name content
        → read_snapshot_payload zstd true disk tar name st ≡ inr content
    unfolding read_snapshot_payload load_manifest parsed layers_of
    read_kept disk tar name content st r l k =
        rw (l.loads name, k.lease.saved, load_manifest, parsed, layers_of)
          (layers_read zstd disk tar k.lease.manifest.layers st k.lease.some_layer
            ∙ assemble_lem zstd disk st k.lease.manifest.layers content r k.lease.builds)

    save_layers-IsKept :
        (disk : Disk) (name : String) (content : Bytes) (st : Store)
        (r : Store × (LayerError ⊎ List String))
        → IsWriting disk
        → IsReading disk
        → disk.saves name ≡ none
        → Met content
        → ((ds : List String) → r.1 ≡ inr ds → ds ≢ [])
        → IsStored digest zstd Met st r content
        → ((save_layers digest zstd disk name r).1 ≡ none)
          × IsKept digest zstd Met (save_layers digest zstd disk name r).0 name content
    unfolding save_layers
    save_layers-IsKept disk name content st (st', r) w reads saves met some_layer stored =
        let (ok, lease) =
          save_manifest-IsLease digest zstd Met z free disk name stored.digests st' content w reads
            saves stored.is_put.sound stored.builds met
            (some_layer stored.digests stored.returned) in
        let s =
          save_manifest-IsSave digest zstd Met z free disk name stored.digests st' content
            stored.is_put.sound stored.builds met in
        rw (stored.returned, save_layers) (ok, record { sound = s.sound; lease = lease })

    -- On a sound store, with zstd decoding what it encoded and no two parts of contents that are met
    -- having one digest: a snapshot that is stored while files can be written and read is stored without
    -- an error, and read back, whatever commands run in between that store other snapshots (each with
    -- any answers of the disk, errors included) or delete others (each with a GC that can list and read
    -- the manifests), and whether or not its layers are squashed, when its files can be read at the end.
    pub restore-store :
        (disk later : Disk) (tar : LayerError ⊎ Bytes) (name : String) (content : Bytes)
        (cs : List Command) (st : Store)
        → IsWriting disk
        → IsReading disk
        → disk.saves name ≡ none
        → AreMet Met content
        → IsSound digest zstd Met st
        → All (IsElsewhere digest zstd Met name) cs
        → IsReading later
        → IsListing later
        → let r = store_snapshot_layer digest zstd true disk name content st in
          (r.1 ≡ none)
          × (read_snapshot_payload zstd true later tar name (perform_all digest zstd cs r.0)
              ≡ inr content)
    unfolding store_snapshot_layer
    restore-store disk later tar name content cs st w r saves met s elsewhere reads lists =
        let (ok, kept) =
          save_layers-IsKept disk name content st
            (put_chunks digest zstd disk content snapshot_chunk_size st) w r saves
            (whole-Met content met) (put_chunks-ne-nil digest zstd disk content st)
            (put_chunks-IsStored digest zstd Met z free disk content snapshot_chunk_size st w s
              met) in
        let stored = (store_snapshot_layer digest zstd true disk name content st).0 in
        (
          ok,
          read_kept later tar name content (perform_all digest zstd cs stored) reads lists
              (perform_all-IsKept cs name content stored elsewhere kept),
        )
