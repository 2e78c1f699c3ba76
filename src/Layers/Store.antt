-- ===== src/Layers/Store.antt =====
-- layerstore.go of pkg/sandboxlayer. The directories are association lists by file name; what the
-- file system answers during a call is a `Disk`, and SHA-256 and zstd are parameters.
use k8e.Common.{
  ℕ, zero, suc, ◌*◌, String, ◌⊎◌, inl, inr, Bool, true, false, ◌&&◌, Option, none, some, List, [],
  ◌∷◌, ◌++◌, ltb, if◌then◌else◌, length, take, drop,
}
use k8e.Common.Int.{ℤ, pos, negsuc}
use k8e.Common.Assoc.{lookup, insert, remove, has}

abbrev pub Bytes : Type 0
Bytes = List ℕ

-- The steps in which a file is published: os.CreateTemp, Write, Sync, Close, os.Rename.
pub data PublishStep : Type 0 where
  staging writing syncing closing renaming : PublishStep

pub data LayerError : Type 0 where
  publishing : PublishStep → LayerError
  unreadable : String → LayerError
  unlisted unopened : LayerError

pub record Manifest : Type 0 where
  pub schema_version : ℕ
  pub layers : List String

-- A file of manifests/ that json.Unmarshal refuses is `none`.
pub record Store : Type 0 where
  pub layers : List (String × Bytes)
  pub manifests : List (String × Option Manifest)

-- What the file system answers during a call: whether a file that is there is found, read, measured,
-- removed, and the first step that fails when a file is published.
pub record Disk : Type 0 where
  pub stats : String → Bool
  pub publishes : String → Option PublishStep
  pub reads : String → Bool
  pub lists_layers : Bool
  pub sizes : String → Bool
  pub removes : String → Bool
  pub saves : String → Option PublishStep
  pub loads : String → Bool
  pub lists_manifests : Bool
  pub deletes : String → Bool

-- klauspost/compress/zstd: whether NewWriter and NewReader succeed, EncodeAll, and DecodeAll.
pub record Zstd : Type 0 where
  pub opens_writer : Bool
  pub opens_reader : Bool
  pub encode_all : Bytes → Bytes
  pub decode_all : Bytes → Option Bytes

abbrev pub squash_threshold : ℕ
squash_threshold = 32

abbrev pub manifest_version : ℕ
manifest_version = 1

abbrev pub default_chunk_size : ℕ
default_chunk_size = 4 * 1024 * 1024

unfoldable pub chunk_size_or_default : ℤ → ℕ
chunk_size_or_default (pos zero) = default_chunk_size
chunk_size_or_default (pos (suc n)) = suc n
chunk_size_or_default (negsuc n) = default_chunk_size

unfoldable pub decoded : Option Bytes → Bytes → Bytes
decoded (some out) b = out
decoded none b = b

unfoldable pub compress : Zstd → Bytes → Bytes
compress zstd content = if zstd.opens_writer then zstd.encode_all content else content

unfoldable pub decompress : Zstd → Bytes → Bytes
unfolding decoded
decompress zstd b = if zstd.opens_reader then decoded (zstd.decode_all b) b else b

-- os.Rename replaces what has the name.
unfoldable pub publish : Option PublishStep → String → Bytes → Store → Store × (LayerError ⊎ String)
publish (some stage) digest b st = (st, inl (publishing stage))
publish none digest b st = (record st { layers = insert digest b st.layers }, inr digest)

unfoldable pub has_layer : Disk → String → Store → Bool
has_layer disk digest st = has digest st.layers && disk.stats digest

-- The digests of a chunk and of the chunks after it.
unfoldable pub and_then_chunk :
    Store × (LayerError ⊎ String)
    → Store × (LayerError ⊎ List String)
    → Store × (LayerError ⊎ List String)
and_then_chunk (st, inl e) later = (st, inl e)
and_then_chunk (st, inr d) (later, inl e) = (later, inl e)
and_then_chunk (st, inr d) (later, inr ds) = (later, inr (d ∷ ds))

unfoldable pub append_layer : LayerError ⊎ Bytes → LayerError ⊎ Bytes → LayerError ⊎ Bytes
append_layer (inl e) later = inl e
append_layer (inr b) (inl e) = inl e
append_layer (inr b) (inr out) = inr (b ++ out)

-- What is read of a manifest: its file, and what it holds.
unfoldable pub parsed : Option (Option Manifest) → Option Manifest
parsed none = none
parsed (some m) = m

unfoldable pub write_manifest :
    Option PublishStep → String → List String → Store → Store × Option LayerError
write_manifest (some stage) name layers st = (st, some (publishing stage))
write_manifest none name layers st =
    let m : Manifest = record { schema_version = manifest_version; layers = layers } in
    (record st { manifests = insert name (some m) st.manifests }, none)

unfoldable pub load_manifest : Disk → String → Store → Option Manifest
unfolding parsed
load_manifest disk name st = if disk.loads name then parsed (lookup name st.manifests) else none

unfoldable pub delete_manifest : Disk → String → Store → Store × Bool
delete_manifest disk name st =
    if has name st.manifests && disk.deletes name
    then (record st { manifests = remove name st.manifests }, true)
    else (st, false)

-- What is read of a layer: its file, decompressed.
unfoldable pub opened_layer : Zstd → String → Option Bytes → LayerError ⊎ Bytes
opened_layer zstd digest none = inl (unreadable digest)
opened_layer zstd digest (some b) = inr (decompress zstd b)

unfoldable pub get : Zstd → Disk → String → Store → LayerError ⊎ Bytes
unfolding opened_layer
get zstd disk digest st =
    opened_layer zstd digest (if disk.reads digest then lookup digest st.layers else none)

unfoldable pub assemble : Zstd → Disk → List String → Store → LayerError ⊎ Bytes
unfolding append_layer
assemble zstd disk [] st = inr []
assemble zstd disk (d ∷ ds) st = append_layer (get zstd disk d st) (assemble zstd disk ds st)

module _ (digest : Bytes → String) (zstd : Zstd) where
  unfoldable pub put : Disk → Bytes → Store → Store × (LayerError ⊎ String)
  unfolding publish
  put disk content st =
      let d = digest content in
      if has_layer disk d st
      then (st, inr d)
      else publish (disk.publishes d) d (compress zstd content) st

  -- The loop of PutChunks, on the content that is left. Each turn takes a byte at least, so the length
  -- of the content is enough fuel.
  unfoldable pub put_slices : Disk → ℕ → ℕ → Bytes → Store → Store × (LayerError ⊎ List String)
  unfolding and_then_chunk
  put_slices disk fuel size [] st = (st, inr [])
  put_slices disk zero size (b ∷ bs) st = (st, inr [])
  put_slices disk (suc fuel) size (b ∷ bs) st =
      let first = put disk (take size (b ∷ bs)) st in
      and_then_chunk first (put_slices disk fuel size (drop size (b ∷ bs)) first.0)

  -- An empty content is one empty layer.
  unfoldable pub put_chunks : Disk → Bytes → ℤ → Store → Store × (LayerError ⊎ List String)
  unfolding and_then_chunk
  put_chunks disk [] size st = let first = put disk [] st in and_then_chunk first (first.0, inr [])
  put_chunks disk (b ∷ bs) size st =
      put_slices disk (length (b ∷ bs)) (chunk_size_or_default size) (b ∷ bs) st

  unfoldable pub put_squashed : Disk → LayerError ⊎ Bytes → Store → Store × (LayerError ⊎ String)
  put_squashed disk (inl e) st = (st, inl e)
  put_squashed disk (inr out) st = put disk out st

  unfoldable pub squash : Disk → List String → Store → Store × (LayerError ⊎ String)
  unfolding put_squashed
  squash disk layers st = put_squashed disk (assemble zstd disk layers st) st

  unfoldable pub save_squashed :
      Disk → String → Store × (LayerError ⊎ String) → Store × Option LayerError
  save_squashed disk name (st, inl e) = (st, some e)
  save_squashed disk name (st, inr d) = write_manifest (disk.saves name) name (d ∷ []) st

  unfoldable pub save_manifest : Disk → String → List String → Store → Store × Option LayerError
  unfolding save_squashed
  save_manifest disk name layers st =
      if ltb squash_threshold (length layers)
      then save_squashed disk name (squash disk layers st)
      else write_manifest (disk.saves name) name layers st
