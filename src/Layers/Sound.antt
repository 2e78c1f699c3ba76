-- ===== src/Layers/Sound.antt =====
-- What a layer file holds: a content with the digest that names the file. Every operation of
-- layerstore.go on the layers keeps it.
use k8e.Common.{
  String, ◌≡◌, refl, sym, ap, ◌∙◌, ◌⊎◌, inl, inr, true, Option, none, some, List, [], ◌∷◌, ◌++◌,
  str_eq, eq_iff, Bool-cases,
}
use mathlib.Core.Option.{some-injective}
use k8e.Common.Assoc.{lookup, insert, lookup-insert}
use k8e.Layers.Store.{
  Bytes, PublishStep, Store, Disk, Zstd, decoded, compress, decompress, publish, has_layer,
  append_layer, opened_layer, get, assemble, put,
}

-- zstd opens, and decodes what it has encoded.
pub record IsZstd (zstd : Zstd) : Type 0 where
  pub writer : zstd.opens_writer ≡ true
  pub reader : zstd.opens_reader ≡ true
  pub decode-encode : (content : Bytes) → zstd.decode_all (zstd.encode_all content) ≡ some content

pub decompress-compress :
    (zstd : Zstd) (content : Bytes)
    → IsZstd zstd
    → decompress zstd (compress zstd content) ≡ content
unfolding compress decompress decoded
decompress-compress zstd content z =
    rw (z.writer, z.reader, z.decode-encode content, decompress, compress, decoded) refl

-- A file of that name holds the content.
unfoldable pub Holds : Zstd → Store → String → Bytes → Type 0
Holds zstd st d content =
    (b : Bytes) × (lookup d st.layers ≡ some b) × (decompress zstd b ≡ content)

-- The layers, read in order, are the content.
unfoldable pub Builds : Zstd → Store → List String → Bytes → Type 0
unfolding Holds
Builds zstd st [] content = content ≡ []
Builds zstd st (d ∷ ds) content =
    (c rest : Bytes) × Holds zstd st d c × Builds zstd st ds rest × (content ≡ c ++ rest)

pub record IsReading (disk : Disk) : Type 0 where
  pub reads : (d : String) → disk.reads d ≡ true

get_lem :
    (zstd : Zstd) (disk : Disk) (st : Store) (d : String) (content : Bytes)
    → IsReading disk
    → Holds zstd st d content
    → get zstd disk d st ≡ inr content
unfolding Holds get opened_layer
get_lem zstd disk st d content r (b, stored, held) =
    rw (r.reads d, stored, get, opened_layer) (ap inr held)

pub assemble_lem :
    (zstd : Zstd) (disk : Disk) (st : Store) (ds : List String) (content : Bytes)
    → IsReading disk
    → Builds zstd st ds content
    → assemble zstd disk ds st ≡ inr content
unfolding Builds assemble append_layer
assemble_lem zstd disk st [] content r built = rw built refl
assemble_lem zstd disk st (d ∷ ds) content r (c, rest, held, built, joined) =
    (ap (λ g. append_layer g (assemble zstd disk ds st)) (get_lem zstd disk st d c r held)
      ∙ ap (append_layer (inr c)) (assemble_lem zstd disk st ds rest r built)
      ∙ ap inr (sym joined))

-- What is held stays held.
unfoldable pub Extends : Zstd → Store → Store → Type 0
Extends zstd st st' = (d : String) (c : Bytes) → Holds zstd st d c → Holds zstd st' d c

pub Builds-Extends :
    (zstd : Zstd) (st st' : Store) (ds : List String) (content : Bytes)
    → Extends zstd st st'
    → Builds zstd st ds content
    → Builds zstd st' ds content
unfolding Builds Extends
Builds-Extends zstd st st' [] content more built = built
Builds-Extends zstd st st' (d ∷ ds) content more (c, rest, held, built, joined) =
    (c, rest, more d c held, Builds-Extends zstd st st' ds rest more built, joined)

module _ (digest : Bytes → String) (zstd : Zstd) (Met : Bytes → Type 0) where
  -- Two contents that are met do not have one digest.
  unfoldable pub IsCollisionFree : Type 0
  IsCollisionFree = (a b : Bytes) → Met a → Met b → digest a ≡ digest b → a ≡ b

  unfoldable pub IsSound : Store → Type 0
  unfolding Holds
  IsSound st =
      (d : String) (b : Bytes)
      → lookup d st.layers ≡ some b
      → Met (decompress zstd b) × (digest (decompress zstd b) ≡ d)

  -- What `put` has done, whatever the disk answered.
  pub record IsPut (st st' : Store) : Type 0 where
    pub sound : IsSound st'
    pub extends : Extends zstd st st'
    pub same_manifests : st'.manifests ≡ st.manifests

  pub IsPut-refl : (st : Store) → IsSound st → IsPut st st
  unfolding Extends
  IsPut-refl st s = record { sound = s; extends = λ d c held. held; same_manifests = refl }

  pub IsPut-trans : (a b c : Store) → IsPut a b → IsPut b c → IsPut a c
  unfolding Extends
  IsPut-trans a b c first later = record {
    sound = later.sound;
    extends = λ d x held. later.extends d x (first.extends d x held);
    same_manifests = later.same_manifests ∙ first.same_manifests;
  }

  module _ (z : IsZstd zstd) (free : IsCollisionFree) where
    -- What a name finds after the layer is published.
    lookup_lem :
        (st : Store) (content : Bytes) (d : String)
        → ((digest content ≡ d)
            × (lookup d (insert (digest content) (compress zstd content) st.layers)
                ≡ some (compress zstd content)))
          ⊎ (lookup d (insert (digest content) (compress zstd content) st.layers)
              ≡ lookup d st.layers)
    lookup_lem st content d =
        let found = lookup-insert (digest content) d (compress zstd content) st.layers in
        elim (Bool-cases (str_eq (digest content) d)) [
          | inl same ↦ inl ((eq_iff (digest content) d).0 same, rw same at found)
          | inr other ↦ inr (rw other at found)
        ]

    insert-IsPut :
        (st : Store) (content : Bytes)
        → IsSound st
        → Met content
        → IsPut st
            (record st { layers = insert (digest content) (compress zstd content) st.layers })
    unfolding IsSound Extends Holds IsCollisionFree
    insert-IsPut st content s met =
        let back = decompress-compress zstd content z in
        record {
          sound = λ d b h. elim (lookup_lem st content d) [
            | inl (same, found) ↦
                let stored = some-injective (compress zstd content) b (sym found ∙ h) in
                rw (sym stored, back) (met, same)
            | inr found ↦ s d b (sym found ∙ h)
          ];
          extends = λ d c (b, stored, held). elim (lookup_lem st content d) [
            | inl (same, found) ↦
                let (met_b, same_b) = s d b stored in
                (
                  compress zstd content,
                  found,
                  back ∙ free content (decompress zstd b) met met_b (same ∙ sym same_b) ∙ held,
                )
            | inr found ↦ (b, found ∙ stored, held)
          ];
          same_manifests = refl;
        }

    publish-IsPut :
        (o : Option PublishStep) (st : Store) (content : Bytes)
        → IsSound st
        → Met content
        → IsPut st (publish o (digest content) (compress zstd content) st).0
    unfolding publish
    publish-IsPut (some stage) st content s met = IsPut-refl st s
    publish-IsPut none st content s met = insert-IsPut st content s met

    pub put-IsPut :
        (disk : Disk) (content : Bytes) (st : Store)
        → IsSound st
        → Met content
        → IsPut st (put digest zstd disk content st).0
    unfolding put
    put-IsPut disk content st s met = elim (Bool-cases (has_layer disk (digest content) st)) [
      | inl there ↦ rw (there, put) (IsPut-refl st s)
      | inr new ↦ rw (new, put) (publish-IsPut (disk.publishes (digest content)) st content s met)
    ]
