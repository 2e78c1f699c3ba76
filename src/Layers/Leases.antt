-- ===== src/Layers/Leases.antt =====
-- GC of layerstore.go: the layers of the manifests that can be read stay.
use k8e.Common.{
  String, ◌≡◌, refl, ◌∙◌, inl, inr, true, ◌&&◌, not, none, some, List, [], ◌∷◌, arith, str_eq,
  eq_iff, if◌then◌else◌, Bool-cases,
}
use text.Mathlib.TextPositions.{eq_refl as text_refl}
use k8e.Common.Assoc.{contains, contains-append, lookup}
use k8e.Common.Sorting.{sort_strings, contains-sort_strings}
use k8e.Layers.Store.{Bytes, Manifest, Store, Disk, Zstd, parsed, load_manifest}
use k8e.Layers.Collection.{
  file_names, list_manifests, layers_of, leased, leased_by, referenced_layers, remove_layer, sweep,
  gc,
}
use k8e.Layers.Sound.{Holds, Builds, IsSound}

lookup-sweep :
    (disk : Disk) (referenced : List String) (d : String) (entries : List (String × Bytes))
    → lookup d (sweep disk referenced entries).0
      ≡ (if not (contains d referenced) && remove_layer disk d then none else lookup d entries)
unfolding sweep lookup
lookup-sweep disk referenced d [] = ground arith
lookup-sweep disk referenced d ((name, b) ∷ entries) =
    ground (arith, eq_iff name d, lookup-sweep disk referenced d entries)

contains-file_names {ℓ} :
    {V : Type ℓ} (name : String) (v : V) (entries : List (String × V))
    → lookup name entries ≡ some v
    → contains name (file_names entries) ≡ true
unfolding lookup file_names contains
contains-file_names name v [] h = cc
contains-file_names name v ((n, w) ∷ entries) h = ground (arith, contains-file_names name v entries)

contains-leased :
    (disk : Disk) (st : Store) (name d : String) (m : Manifest) (names : List String)
    → contains name names ≡ true
    → load_manifest disk name st ≡ some m
    → contains d m.layers ≡ true
    → contains d (leased disk st names) ≡ true
unfolding contains leased layers_of
contains-leased disk st name d m [] listed loaded held = cc
contains-leased disk st name d m (n ∷ names) listed loaded held =
    let split = contains-append d (layers_of (load_manifest disk n st)) (leased disk st names) in
    elim (Bool-cases (str_eq n name)) [
      | inl same ↦ split ∙ rw ((eq_iff n name).0 same, loaded, layers_of) (rw held refl)
      | inr other ↦
          let rest = contains-leased disk st name d m names (rw other at listed) loaded held in
          split ∙ rw rest (ground arith)
    ]

-- Manifests can be listed and read.
pub record IsListing (disk : Disk) : Type 0 where
  pub lists : disk.lists_manifests ≡ true
  pub loads : (name : String) → disk.loads name ≡ true

pub referenced_layers_lem :
    (disk : Disk) (st : Store) (name d : String) (m : Manifest)
    → IsListing disk
    → lookup name st.manifests ≡ some (some m)
    → contains d m.layers ≡ true
    → contains d (referenced_layers disk st) ≡ true
unfolding referenced_layers leased_by list_manifests load_manifest parsed
referenced_layers_lem disk st name d m l saved held =
    rw (l.lists, referenced_layers, leased_by, list_manifests)
      (contains-leased disk st name d m (sort_strings (file_names st.manifests))
        (contains-sort_strings name (file_names st.manifests)
          ∙ contains-file_names name (some m) st.manifests saved)
        (rw (l.loads name, saved, load_manifest, parsed) refl) held)

-- What a name finds after GC.
pub lookup-gc :
    (disk : Disk) (st : Store) (d : String)
    → lookup d (gc disk st).0.layers ≡ (
        if disk.lists_layers
          && (not (contains d (referenced_layers disk st)) && remove_layer disk d)
        then none
        else lookup d st.layers)
unfolding gc
lookup-gc disk st d = ground (arith, lookup-sweep disk (referenced_layers disk st) d st.layers)

-- GC keeps a layer that a saved manifest names, and what stays is as it was.
pub gc_keeps :
    (zstd : Zstd) (disk : Disk) (st : Store) (name d : String) (m : Manifest) (c : Bytes)
    → IsListing disk
    → lookup name st.manifests ≡ some (some m)
    → contains d m.layers ≡ true
    → Holds zstd st d c
    → Holds zstd (gc disk st).0 d c
unfolding Holds
gc_keeps zstd disk st name d m c l saved named (b, stored, held) =
    let kept = referenced_layers_lem disk st name d m l saved named in
    (b, lookup-gc disk st d ∙ ground (arith, kept, stored), held)

pub gc-Builds :
    (zstd : Zstd) (disk : Disk) (st : Store) (name : String) (m : Manifest) (ds : List String)
    (content : Bytes)
    → IsListing disk
    → lookup name st.manifests ≡ some (some m)
    → ((d : String) → contains d ds ≡ true → contains d m.layers ≡ true)
    → Builds zstd st ds content
    → Builds zstd (gc disk st).0 ds content
unfolding Builds contains
gc-Builds zstd disk st name m [] content l saved named built = built
gc-Builds zstd disk st name m (d ∷ ds) content l saved named (c, rest, held, built, joined) = (
  c,
  rest,
  gc_keeps zstd disk st name d m c l saved (named d (rw (text_refl d) refl)) held,
  gc-Builds zstd disk st name m ds rest l saved (λ e inside. named e (ground arith)) built,
  joined,
)

pub gc-IsSound :
    (digest : Bytes → String) (zstd : Zstd) (Met : Bytes → Type 0) (disk : Disk) (st : Store)
    → IsSound digest zstd Met st
    → IsSound digest zstd Met (gc disk st).0
unfolding IsSound
gc-IsSound digest zstd Met disk st s d b h = s d b (ground (arith, lookup-gc disk st d))

pub gc_manifests : (disk : Disk) (st : Store) → (gc disk st).0.manifests ≡ st.manifests
unfolding gc
gc_manifests disk st = ground arith
