-- ===== src/Layers/Collection.antt =====
-- The manifests as leases on the layers: ListManifests, Delta, GC and SizeBytes of layerstore.go.
use k8e.Common.{
  ℕ, ◌+◌, String, ◌⊎◌, inl, inr, Bool, ◌&&◌, not, Option, none, some, List, [], ◌∷◌, ◌++◌,
  if◌then◌else◌, length, select,
}
use k8e.Common.Assoc.{contains}
use k8e.Common.Sorting.{sort_strings}
use k8e.Layers.Store.{Bytes, LayerError, unlisted, Manifest, Store, Disk, load_manifest}

unfoldable pub file_names {ℓ} : {V : Type ℓ} → List (String × V) → List String
file_names [] = []
file_names ((name, v) ∷ entries) = name ∷ file_names entries

unfoldable pub list_manifests : Disk → Store → Option (List String)
unfolding file_names
list_manifests disk st =
    if disk.lists_manifests then some (sort_strings (file_names st.manifests)) else none

unfoldable pub delta : Manifest → Manifest → List String
delta base target = select (λ d. not (contains d base.layers)) target.layers

unfoldable pub layers_of : Option Manifest → List String
layers_of none = []
layers_of (some m) = m.layers

unfoldable pub leased : Disk → Store → List String → List String
unfolding layers_of
leased disk st [] = []
leased disk st (name ∷ names) = layers_of (load_manifest disk name st) ++ leased disk st names

unfoldable pub leased_by : Disk → Store → Option (List String) → List String
leased_by disk st none = []
leased_by disk st (some names) = leased disk st names

unfoldable pub referenced_layers : Disk → Store → List String
unfolding leased_by
referenced_layers disk st = leased_by disk st (list_manifests disk st)

-- Whether removeLayer succeeds: DirEntry.Info, then os.Remove.
unfoldable pub remove_layer : Disk → String → Bool
remove_layer disk name = disk.sizes name && disk.removes name

-- The loop of GC over the entries: those that stay, and the bytes that are removed.
unfoldable pub sweep : Disk → List String → List (String × Bytes) → List (String × Bytes) × ℕ
unfolding remove_layer
sweep disk referenced [] = ([], 0)
sweep disk referenced ((name, b) ∷ entries) =
    let (kept, removed) = sweep disk referenced entries in
    if not (contains name referenced) && remove_layer disk name
    then (kept, length b + removed)
    else ((name, b) ∷ kept, removed)

unfoldable pub gc : Disk → Store → Store × (LayerError ⊎ ℕ)
unfolding sweep
gc disk st =
    let (kept, removed) = sweep disk (referenced_layers disk st) st.layers in
    if disk.lists_layers then (record st { layers = kept }, inr removed) else (st, inl unlisted)

unfoldable pub sum_sizes : Disk → List (String × Bytes) → ℕ
sum_sizes disk [] = 0
sum_sizes disk ((name, b) ∷ entries) =
    let rest = sum_sizes disk entries in if disk.sizes name then length b + rest else rest

unfoldable pub size_bytes : Disk → Store → Option ℕ
unfolding sum_sizes
size_bytes disk st = if disk.lists_layers then some (sum_sizes disk st.layers) else none
