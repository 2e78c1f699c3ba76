-- ===== src/Layers/Tests.antt =====
-- Concrete runs of the layer store: bytes that are bits, a digest that spells them, a zstd that marks
-- what it has encoded.
use k8e.Common.{
  ℕ, zero, suc, ◌<◌, String, ◌≡◌, refl, sym, ap, ◌∙◌, ◌≢◌, inl, inr, true, false, Option, none,
  some, List, [], ◌∷◌, arith, str_eq, eq_iff, take, drop, All,
}
use k8e.Common.Int.{pos}
use Prim.Native.String.{◌++◌ as str_append}
use text.Mathlib.TextLemmas.{append_inj, append-eq-nil_iff}
use k8e.Layers.Store.{
  Bytes, unreadable, Store, Disk, Zstd, unopened, assemble, has_layer, put, put_slices, put_chunks,
  chunk_size_or_default,
}
use k8e.Common.Assoc.{lookup, has, insert}
use k8e.Layers.Collection.{remove_layer, gc}
use k8e.Layers.Sound.{IsZstd, IsReading, IsCollisionFree, IsSound}
use k8e.Layers.Writing.{IsWriting}
use k8e.Layers.Chunks.{AreMet, assemble-put_chunks}
use k8e.Layers.Leases.{IsListing}
use k8e.Layers.Snapshots.{read_snapshot_payload, store_snapshot_layer}
use k8e.Layers.Kept.{Command, save, delete, perform_all, IsElsewhere}
use k8e.Layers.Restore.{restore-store}
use k8e.Layers.Unlisted.{gc_unlisted}

unfoldable marked : Bytes → Option Bytes
marked [] = none
marked (zero ∷ b) = none
marked (suc n ∷ b) = some b

abbrev zstd : Zstd
zstd = record {
  opens_writer = true;
  opens_reader = true;
  encode_all = λ content. 9 ∷ content;
  decode_all = marked;
}

zstd-IsZstd : IsZstd zstd
unfolding marked
zstd-IsZstd = record { writer = refl; reader = refl; decode-encode = λ content. refl }

-- A disk on which everything succeeds.
abbrev disk : Disk
disk = record {
  stats = λ d. true;
  publishes = λ d. none;
  reads = λ d. true;
  lists_layers = true;
  sizes = λ d. true;
  removes = λ d. true;
  saves = λ name. none;
  loads = λ name. true;
  lists_manifests = true;
  deletes = λ name. true;
}

unfoldable IsBits : Bytes → Type 0
IsBits content = All (λ b. b < 2) content

unfoldable digest : Bytes → String
digest [] = ""
digest (zero ∷ b) = str_append "0" (digest b)
digest (suc n ∷ b) = str_append "1" (digest b)

differ : (a b : String) → str_eq a b ≡ false → a ≢ b
differ a b h e = cc ((eq_iff a b).1 e)

digest_free : (a b : Bytes) → IsBits a → IsBits b → digest a ≡ digest b → a ≡ b
unfolding digest IsBits
digest_free [] [] p q e = refl
digest_free [] (zero ∷ b) p q e = absurd (differ "0" "" refl (append-eq-nil_iff.0 (sym e)).0)
digest_free [] (suc n ∷ b) p q e = absurd (differ "1" "" refl (append-eq-nil_iff.0 (sym e)).0)
digest_free (zero ∷ a) [] p q e = absurd (differ "0" "" refl (append-eq-nil_iff.0 e).0)
digest_free (suc m ∷ a) [] p q e = absurd (differ "1" "" refl (append-eq-nil_iff.0 e).0)
digest_free (zero ∷ a) (zero ∷ b) p q e =
    ap (λ l. 0 ∷ l) (digest_free a b p.1 q.1 (append_inj e refl).1)
digest_free (zero ∷ a) (suc n ∷ b) p q e = absurd (differ "0" "1" refl (append_inj e refl).0)
digest_free (suc m ∷ a) (zero ∷ b) p q e = absurd (differ "1" "0" refl (append_inj e refl).0)
digest_free (suc m ∷ a) (suc n ∷ b) p q e =
    let same : suc m ≡ suc n = omega (arith, p.0, q.0) in
    (ap (λ l. suc m ∷ l) (digest_free a b p.1 q.1 (append_inj e refl).1) ∙ ap (λ k. k ∷ b) same)

digest-IsCollisionFree : IsCollisionFree digest zstd IsBits
unfolding IsCollisionFree
digest-IsCollisionFree = digest_free

IsBits-take : (n : ℕ) (content : Bytes) → IsBits content → IsBits (take n content)
unfolding IsBits
IsBits-take zero content h = tt
IsBits-take (suc n) [] h = tt
IsBits-take (suc n) (b ∷ bs) h = (h.0, IsBits-take n bs h.1)

IsBits-drop : (n : ℕ) (content : Bytes) → IsBits content → IsBits (drop n content)
unfolding IsBits
IsBits-drop zero content h = h
IsBits-drop (suc n) [] h = h
IsBits-drop (suc n) (b ∷ bs) h = IsBits-drop n bs h.1

IsBits-AreMet : (content : Bytes) → IsBits content → AreMet IsBits content
unfolding AreMet
IsBits-AreMet content h n m = IsBits-take n (drop m content) (IsBits-drop m content h)

disk-IsReading : IsReading disk
disk-IsReading = record { reads = λ d. refl }

disk-IsWriting : IsWriting disk
disk-IsWriting = record { publishes = λ d. refl }

disk-IsListing : IsListing disk
disk-IsListing = record { lists = refl; loads = λ name. refl }

abbrev empty : Store
empty = record { layers = []; manifests = [] }

empty-IsSound : IsSound digest zstd IsBits empty
unfolding IsSound lookup
empty-IsSound d b h = cc

abbrev content : Bytes
content = 1 ∷ 0 ∷ 1 ∷ 1 ∷ 0 ∷ []

content-IsBits : IsBits content
unfolding IsBits
content-IsBits = ground arith

assemble-put_chunks_example :
    (ds : List String) × ((put_chunks digest zstd disk content (pos 2) empty).1 ≡ inr ds)
    × (assemble zstd disk ds (put_chunks digest zstd disk content (pos 2) empty).0 ≡ inr content)
assemble-put_chunks_example =
    assemble-put_chunks digest zstd IsBits zstd-IsZstd digest-IsCollisionFree disk disk content
      (pos 2) empty disk-IsWriting disk-IsReading empty-IsSound
      (IsBits-AreMet content content-IsBits)

-- Three chunks.
chunks_test : (put_chunks digest zstd disk content (pos 2) empty).1 ≡ inr ("10" ∷ "11" ∷ "0" ∷ [])
unfolding put_chunks put_slices put has_layer has chunk_size_or_default insert digest
chunks_test = refl

-- Another snapshot of the same content is stored and deleted.
abbrev commands : List Command
commands = save true disk "b" content ∷ delete true disk "b" ∷ []

commands-IsElsewhere : All (IsElsewhere digest zstd IsBits "a") commands
unfolding IsElsewhere
commands-IsElsewhere = ((refl, IsBits-AreMet content content-IsBits), ((refl, disk-IsListing), tt))

restore-store_example :
    let r = store_snapshot_layer digest zstd true disk "a" content empty in
    (r.1 ≡ none)
    × (read_snapshot_payload zstd true disk
          (inl unopened)
          "a"
          (perform_all digest zstd commands r.0)
        ≡ inr content)
restore-store_example =
    restore-store digest zstd IsBits zstd-IsZstd digest-IsCollisionFree disk disk (inl unopened) "a"
      content commands empty disk-IsWriting disk-IsReading refl
      (IsBits-AreMet content content-IsBits) empty-IsSound commands-IsElsewhere disk-IsReading
      disk-IsListing

abbrev two_chunks : Store
two_chunks = record {
  layers = ("10", 9 ∷ 1 ∷ 0 ∷ []) ∷ ("11", 9 ∷ 1 ∷ 1 ∷ []) ∷ [];
  manifests = ("a", some (record { schema_version = 1; layers = "10" ∷ "11" ∷ [] })) ∷ [];
}

abbrev blind : Disk
blind = record disk { lists_manifests = false }

gc_unlisted_example :
    read_snapshot_payload zstd true disk (inl unopened) "a" (gc blind two_chunks).0
    ≡ inl (unreadable "10")
unfolding lookup remove_layer
gc_unlisted_example =
    gc_unlisted zstd blind disk (inl unopened) "a" "10" ("11" ∷ [])
      (record { schema_version = 1; layers = "10" ∷ "11" ∷ [] }) two_chunks refl refl refl refl refl
      refl
