-- ===== src/Layers/Saved.antt =====
-- SaveManifest of layerstore.go, with and without the squash.
use k8e.Common.{
  String, ◌≡◌, refl, sym, ap, ◌∙◌, ◌≢◌, ◌⊎◌, inl, inr, false, Option, none, some, List, [], ◌∷◌,
  str_eq, ltb, Bool-cases, length,
}
use mathlib.Core.List.{append-nil}
use mathlib.Core.Sum.{inl-ne-inr}
use k8e.Common.Assoc.{lookup, insert, lookup-insert}
use text.Mathlib.TextPositions.{eq_refl as text_refl}
use k8e.Layers.Store.{
  Bytes, LayerError, unreadable, PublishStep, Manifest, manifest_version, Store, Disk, Zstd,
  append_layer, opened_layer, get, assemble, put_squashed, squash, save_squashed, write_manifest,
  save_manifest, squash_threshold,
}
use k8e.Layers.Sound.{
  IsZstd, Holds, Builds, Extends, Builds-Extends, IsReading, assemble_lem, IsCollisionFree, IsSound,
  IsPut, IsPut-refl, put-IsPut,
}
use k8e.Layers.Writing.{IsWriting, put_ok}
use k8e.Layers.Chunks.{put_lem}

get_cases :
    (zstd : Zstd) (disk : Disk) (st : Store) (d : String) (content : Bytes)
    → Holds zstd st d content
    → ((e : LayerError) × (get zstd disk d st ≡ inl e)) ⊎ (get zstd disk d st ≡ inr content)
unfolding Holds get opened_layer
get_cases zstd disk st d content (b, stored, held) = elim (Bool-cases (disk.reads d)) [
  | inl reads ↦ inr (rw (reads, stored, get, opened_layer) (ap inr held))
  | inr lost ↦ inl (unreadable d, rw (lost, get, opened_layer) refl)
]

-- What is assembled is the content, when it can be read.
assemble_cases :
    (zstd : Zstd) (disk : Disk) (st : Store) (ds : List String) (content : Bytes)
    → Builds zstd st ds content
    → ((e : LayerError) × (assemble zstd disk ds st ≡ inl e))
      ⊎ (assemble zstd disk ds st ≡ inr content)
unfolding Builds assemble append_layer
assemble_cases zstd disk st [] content built = inr (rw built refl)
assemble_cases zstd disk st (d ∷ ds) content (c, rest, held, built, joined) =
    elim (get_cases zstd disk st d c held) [
      | inl (e, lost) ↦ inl (e, ap (λ g. append_layer g (assemble zstd disk ds st)) lost)
      | inr got ↦
          let first = ap (λ g. append_layer g (assemble zstd disk ds st)) got in
          elim (assemble_cases zstd disk st ds rest built) [
            | inl (e, lost) ↦ inl (e, first ∙ ap (append_layer (inr c)) lost)
            | inr got_rest ↦ inr (first ∙ ap (append_layer (inr c)) got_rest ∙ ap inr (sym joined))
          ]
    ]

module _ (digest : Bytes → String) (zstd : Zstd) (Met : Bytes → Type 0) where
  -- What a save under a name keeps, whatever the disk answers.
  pub record IsSave (name : String) (st st' : Store) : Type 0 where
    pub sound : IsSound digest zstd Met st'
    pub extends : Extends zstd st st'
    pub others :
        (other : String)
        → str_eq name other ≡ false
        → lookup other st'.manifests ≡ lookup other st.manifests

  write_manifest-IsSave :
      (o : Option PublishStep) (name : String) (layers : List String) (before st : Store)
      → IsPut digest zstd Met before st
      → IsSave name before (write_manifest o name layers st).0
  unfolding write_manifest IsSound Extends Holds
  write_manifest-IsSave (some stage) name layers before st p = record {
    sound = p.sound;
    extends = p.extends;
    others = λ other differs. ap (lookup other) p.same_manifests;
  }
  write_manifest-IsSave none name layers before st p =
      let m : Manifest = record { schema_version = manifest_version; layers = layers } in
      record {
        sound = p.sound;
        extends = p.extends;
        others = λ other differs.
            lookup-insert name other (some m) st.manifests
            ∙ rw differs (ap (lookup other) p.same_manifests);
      }

  -- The manifest has layers, and they build the content.
  pub record IsLease (st : Store) (name : String) (content : Bytes) : Type 0 where
    pub manifest : Manifest
    pub saved : lookup name st.manifests ≡ some (some manifest)
    pub builds : Builds zstd st manifest.layers content
    pub some_layer : manifest.layers ≢ []

  write_manifest-IsLease :
      (name : String) (layers : List String) (st : Store) (content : Bytes)
      → Builds zstd st layers content
      → layers ≢ []
      → ((write_manifest none name layers st).1 ≡ none)
        × IsLease (write_manifest none name layers st).0 name content
  unfolding write_manifest Extends Holds
  write_manifest-IsLease name layers st content built some_layer =
      let m : Manifest = record { schema_version = manifest_version; layers = layers } in
      (
        refl,
        record {
          manifest = m;
          saved = lookup-insert name name (some m) st.manifests ∙ rw (text_refl name) refl;
          builds =
              Builds-Extends zstd st (record st { manifests = insert name (some m) st.manifests })
                layers content (λ d c held. held) built;
          some_layer = some_layer;
        },
      )

  module _ (z : IsZstd zstd) (free : IsCollisionFree digest zstd Met) where
    put_squashed-IsPut :
        (disk : Disk) (r : LayerError ⊎ Bytes) (content : Bytes) (st : Store)
        → IsSound digest zstd Met st
        → Met content
        → ((e : LayerError) × (r ≡ inl e)) ⊎ (r ≡ inr content)
        → IsPut digest zstd Met st (put_squashed digest zstd disk r st).0
    unfolding put_squashed
    put_squashed-IsPut disk r content st s met (inl (e, lost)) =
        rw (lost, put_squashed) (IsPut-refl digest zstd Met st s)
    put_squashed-IsPut disk r content st s met (inr got) =
        rw (got, put_squashed) (put-IsPut digest zstd Met z free disk content st s met)

    save_squashed-IsSave :
        (disk : Disk) (name : String) (before : Store) (r : Store × (LayerError ⊎ String))
        → IsPut digest zstd Met before r.0
        → IsSave name before (save_squashed digest zstd disk name r).0
    unfolding save_squashed
    save_squashed-IsSave disk name before (st, inl e) p = record {
      sound = p.sound;
      extends = p.extends;
      others = λ other differs. ap (lookup other) p.same_manifests;
    }
    save_squashed-IsSave disk name before (st, inr d) p =
        write_manifest-IsSave (disk.saves name) name (d ∷ []) before st p

    pub save_manifest-IsSave :
        (disk : Disk) (name : String) (layers : List String) (st : Store) (content : Bytes)
        → IsSound digest zstd Met st
        → Builds zstd st layers content
        → Met content
        → IsSave name st (save_manifest digest zstd disk name layers st).0
    unfolding save_manifest squash
    save_manifest-IsSave disk name layers st content s built met =
        elim (Bool-cases (ltb squash_threshold (length layers))) [
          | inl many ↦
              rw (many, save_manifest)
                (save_squashed-IsSave disk name st (squash digest zstd disk layers st) (
                  put_squashed-IsPut disk (assemble zstd disk layers st) content st s met
                    (assemble_cases zstd disk st layers content built)))
          | inr few ↦
              rw (few, save_manifest)
                (write_manifest-IsSave (disk.saves name) name layers st st
                  (IsPut-refl digest zstd Met st s))
        ]

    save_squashed-IsLease :
        (disk : Disk) (name : String) (d : String) (content : Bytes)
        (r : Store × (LayerError ⊎ String))
        → disk.saves name ≡ none
        → r.1 ≡ inr d
        → Holds zstd r.0 d content
        → ((save_squashed digest zstd disk name r).1 ≡ none)
          × IsLease (save_squashed digest zstd disk name r).0 name content
    unfolding save_squashed Builds
    save_squashed-IsLease disk name d content (st, r) saves ok held =
        rw (ok, saves, save_squashed)
          (write_manifest-IsLease name (d ∷ []) st content
            (content, [], held, refl, sym (append-nil content)) (λ e. cc))

    squash_lem :
        (disk : Disk) (layers : List String) (st : Store) (content : Bytes)
        → IsWriting disk
        → IsReading disk
        → IsSound digest zstd Met st
        → Builds zstd st layers content
        → Met content
        → ((squash digest zstd disk layers st).1 ≡ inr (digest content))
          × Holds zstd (squash digest zstd disk layers st).0 (digest content) content
    unfolding squash put_squashed
    squash_lem disk layers st content w r s built met =
        rw (assemble_lem zstd disk st layers content r built, squash, put_squashed)
          (elim (put_lem digest zstd Met z free disk content st s met) [
            | inl (e, failed) ↦
                absurd (inl-ne-inr (sym failed ∙ put_ok digest zstd disk content st w))
            | inr done ↦ done
          ])

    -- A manifest that is saved is a lease, squashed or not.
    pub save_manifest-IsLease :
        (disk : Disk) (name : String) (layers : List String) (st : Store) (content : Bytes)
        → IsWriting disk
        → IsReading disk
        → disk.saves name ≡ none
        → IsSound digest zstd Met st
        → Builds zstd st layers content
        → Met content
        → layers ≢ []
        → let r = save_manifest digest zstd disk name layers st in
          (r.1 ≡ none) × IsLease r.0 name content
    unfolding save_manifest
    save_manifest-IsLease disk name layers st content w r saves s built met some_layer =
        let (ok, held) = squash_lem disk layers st content w r s built met in
        elim (Bool-cases (ltb squash_threshold (length layers))) [
          | inl many ↦
              rw (many, save_manifest)
                (save_squashed-IsLease disk name (digest content) content
                  (squash digest zstd disk layers st) saves ok held)
          | inr few ↦
              rw (few, saves, save_manifest)
                (write_manifest-IsLease name layers st content built some_layer)
        ]
