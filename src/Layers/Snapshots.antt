-- ===== src/Layers/Snapshots.antt =====
-- The callers of the layer store: the snapshot commands of pkg/sandboxcli/snapshot.go, and the snapshot
-- registry of pkg/sandboxmatrix/grpc/server.go.
use k8e.Common.{
  ℕ, ◌*◌, String, ◌⊎◌, inl, inr, Bool, Option, none, some, List, [], ◌∷◌, str_eq, if◌then◌else◌,
  length,
}
use k8e.Common.Int.{ℤ, pos}
use k8e.Layers.Store.{
  Bytes, LayerError, unopened, Manifest, Store, Disk, Zstd, assemble, put_chunks, save_manifest,
  load_manifest, delete_manifest,
}
use k8e.Layers.Collection.{layers_of, list_manifests, gc}

abbrev pub snapshot_chunk_size : ℤ
snapshot_chunk_size = pos (4 * 1024 * 1024)

-- The answer of a handler of the registry.
pub data RegistryError : Type 0 where
  failed_precondition invalid_argument not_found internal : RegistryError

-- A manifest without layers, or none: the legacy file.
unfoldable pub read_layers :
    Zstd → Disk → LayerError ⊎ Bytes → List String → Store → LayerError ⊎ Bytes
read_layers zstd disk tar [] st = tar
read_layers zstd disk tar (d ∷ ds) st = assemble zstd disk (d ∷ ds) st

-- `opens` is whether snapshotStore succeeds, `tar` what os.ReadFile answers on the legacy file.
unfoldable pub read_snapshot_payload :
    Zstd → Bool → Disk → LayerError ⊎ Bytes → String → Store → LayerError ⊎ Bytes
unfolding read_layers
read_snapshot_payload zstd opens disk tar name st =
    if opens then read_layers zstd disk tar (layers_of (load_manifest disk name st)) st else tar

-- The end of the delete command.
unfoldable pub release_snapshot : Bool → Disk → String → Store → Store
release_snapshot opens disk name st =
    if opens then (gc disk (delete_manifest disk name st).0).0 else st

module _ (digest : Bytes → String) (zstd : Zstd) where
  unfoldable pub save_layers :
      Disk → String → Store × (LayerError ⊎ List String) → Store × Option LayerError
  save_layers disk name (st, inl e) = (st, some e)
  save_layers disk name (st, inr layers) = save_manifest digest zstd disk name layers st

  unfoldable pub store_snapshot_layer :
      Bool → Disk → String → Bytes → Store → Store × Option LayerError
  unfolding save_layers
  store_snapshot_layer opens disk name content st =
      if opens
      then save_layers disk name (put_chunks digest zstd disk content snapshot_chunk_size st)
      else (st, some unopened)

  unfoldable pub answer_put :
      List String → Store × Option LayerError → Option Store × (RegistryError ⊎ ℕ)
  answer_put layers (st, some e) = (some st, inl internal)
  answer_put layers (st, none) = (some st, inr (length layers))

  unfoldable pub snapshot_put :
      Disk → String → List String → Option Store → Option Store × (RegistryError ⊎ ℕ)
  unfolding answer_put
  snapshot_put disk name layers none = (none, inl failed_precondition)
  snapshot_put disk name [] (some st) = (some st, inl invalid_argument)
  snapshot_put disk name (d ∷ ds) (some st) =
      if str_eq name ""
      then (some st, inl invalid_argument)
      else answer_put (d ∷ ds) (save_manifest digest zstd disk name (d ∷ ds) st)

unfoldable pub found_layers : Option Manifest → RegistryError ⊎ List String
found_layers none = inl not_found
found_layers (some m) = inr m.layers

unfoldable pub snapshot_get : Disk → String → Option Store → RegistryError ⊎ List String
unfolding found_layers
snapshot_get disk name none = inl failed_precondition
snapshot_get disk name (some st) = found_layers (load_manifest disk name st)

unfoldable pub listed_names : Option (List String) → RegistryError ⊎ List String
listed_names none = inl internal
listed_names (some names) = inr names

unfoldable pub snapshot_list : Disk → Option Store → RegistryError ⊎ List String
unfolding listed_names
snapshot_list disk none = inl failed_precondition
snapshot_list disk (some st) = listed_names (list_manifests disk st)
