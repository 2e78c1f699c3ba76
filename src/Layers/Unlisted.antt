-- ===== src/Layers/Unlisted.antt =====
-- GC of layerstore.go when the directory of manifests cannot be read.
use k8e.Common.{String, ◌≡◌, refl, ap, ◌∙◌, ◌⊎◌, inl, true, false, none, some, List, ◌∷◌, arith}
use k8e.Common.Assoc.{contains, lookup}
use k8e.Layers.Store.{
  Bytes, LayerError, unreadable, Manifest, Store, Disk, Zstd, parsed, load_manifest, opened_layer,
  append_layer, get, assemble,
}
use k8e.Layers.Collection.{
  list_manifests, layers_of, leased_by, referenced_layers, remove_layer, gc,
}
use k8e.Layers.Leases.{lookup-gc, gc_manifests}
use k8e.Layers.Snapshots.{read_layers, read_snapshot_payload}

lookup-gc_unlisted :
    (disk : Disk) (d : String) (st : Store)
    → disk.lists_manifests ≡ false
    → disk.lists_layers ≡ true
    → remove_layer disk d ≡ true
    → lookup d (gc disk st).0.layers ≡ none
unfolding referenced_layers list_manifests leased_by contains
lookup-gc_unlisted disk d st blind lists removes =
    let nothing : contains d (referenced_layers disk st) ≡ false =
      rw (blind, referenced_layers, list_manifests, leased_by) refl in
    lookup-gc disk st d ∙ ground (arith, nothing, lists, removes)

get_gone :
    (zstd : Zstd) (disk : Disk) (d : String) (st : Store)
    → lookup d st.layers ≡ none
    → get zstd disk d st ≡ inl (unreadable d)
unfolding get opened_layer
get_gone zstd disk d st gone = rw (gone, get) (ground arith)

-- When the directory of manifests cannot be read, GC takes every layer for unreferenced: a snapshot with
-- a saved manifest whose first layer can be removed is not restored, but ends in the error of that layer.
pub gc_unlisted :
    (zstd : Zstd) (disk later : Disk) (tar : LayerError ⊎ Bytes) (name d : String)
    (ds : List String) (m : Manifest) (st : Store)
    → disk.lists_manifests ≡ false
    → disk.lists_layers ≡ true
    → remove_layer disk d ≡ true
    → later.loads name ≡ true
    → lookup name st.manifests ≡ some (some m)
    → m.layers ≡ d ∷ ds
    → read_snapshot_payload zstd true later tar name (gc disk st).0 ≡ inl (unreadable d)
unfolding read_snapshot_payload read_layers load_manifest parsed layers_of assemble append_layer
gc_unlisted zstd disk later tar name d ds m st blind lists removes loads saved named =
    let after = (gc disk st).0 in
    let still : lookup name after.manifests ≡ some (some m) =
      ap (lookup name) (gc_manifests disk st) ∙ saved in
    let lost = get_gone zstd later d after (lookup-gc_unlisted disk d st blind lists removes) in
    rw (loads, still, load_manifest, parsed, layers_of)
      (ap (λ layers. read_layers zstd later tar layers after) named
        ∙ ap (λ g. append_layer g (assemble zstd later ds after)) lost)
