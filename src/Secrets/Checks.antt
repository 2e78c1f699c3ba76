-- ===== src/Secrets/Checks.antt =====
-- What the stages of pkg/server/secrets-encrypt.go look at and pick: annotations, the list of keys.
use k8e.Common.{
  String, ◌⊎◌, inl, inr, Bool, true, false, ◌&&◌, ◌||◌, not, Option, none, some, List, [], ◌∷◌,
  str_eq, if◌then◌else◌,
}
use k8e.Secrets.Cluster.{Stage, Key, Provider, Annotation, Node, Failure, Environment}

unfoldable pub eq_stage : Stage → Stage → Bool
eq_stage Stage.start Stage.start = true
eq_stage Stage.prepare Stage.prepare = true
eq_stage Stage.rotate Stage.rotate = true
eq_stage Stage.rotate_keys Stage.rotate_keys = true
eq_stage Stage.reencrypt_request Stage.reencrypt_request = true
eq_stage Stage.reencrypt_active Stage.reencrypt_active = true
eq_stage Stage.reencrypt_finished Stage.reencrypt_finished = true
eq_stage s t = false

-- `strings.Contains(prevStage, oldStage)`, where prevStage lists stages.
unfoldable pub is_stage : Stage → List Stage → Bool
unfolding eq_stage
is_stage s [] = false
is_stage s (t ∷ stages) = eq_stage s t || is_stage s stages

unfoldable pub eq_annotation : Annotation → Annotation → Bool
unfolding eq_stage
eq_annotation (Annotation.staged s h) (Annotation.staged t k) = eq_stage s t && str_eq h k
eq_annotation (Annotation.malformed x) (Annotation.malformed y) = str_eq x y
eq_annotation a b = false

-- Whether every annotation of the nodes is the given one.
unfoldable pub all_annotated : Annotation → List Node → Bool
unfolding eq_annotation
all_annotated first [] = true
all_annotated first (n ∷ nodes) = elim n.annotation [
  | none ↦ all_annotated first nodes
  | some a ↦ eq_annotation a first && all_annotated first nodes
]

-- The loop of verifyEncryptionHashAnnotation: the first annotation is compared with the others.
unfoldable pub same_annotations : List Node → Bool
unfolding all_annotated
same_annotations [] = true
same_annotations (n ∷ nodes) = elim n.annotation [
  | none ↦ same_annotations nodes
  | some a ↦ all_annotated a nodes
]

unfoldable pub find_node : String → List Node → Option Node
find_node name [] = none
find_node name (n ∷ nodes) = if str_eq n.name name then some n else find_node name nodes

-- The stage and the hash of an annotation.
unfoldable pub split_annotation : Option Annotation → Failure ⊎ (Stage × String)
split_annotation none = inl Failure.missing_annotation
split_annotation (some (Annotation.staged s h)) = inr (s, h)
split_annotation (some (Annotation.malformed x)) = inl Failure.invalid_annotation

-- What verifyEncryptionHashAnnotation says to this node's stage and hash, and the configuration.
unfoldable pub verify_stage :
    Environment → List Stage → Option (List Provider) → Failure ⊎ (Stage × String) → Option Failure
unfolding is_stage
verify_stage env prev config (inl e) = some e
verify_stage env prev none (inr (stage, hash)) = some Failure.no_config
verify_stage env prev (some providers) (inr (stage, hash)) =
    if not (is_stage stage prev)
    then some Failure.incorrect_stage
    else if str_eq hash (env.hash providers)
    then none
    else some Failure.invalid_hash

unfoldable pub last_of : Key → List Key → Key
last_of k [] = k
last_of k (j ∷ keys) = last_of j keys

unfoldable pub but_last : Key → List Key → List Key
but_last k [] = []
but_last k (j ∷ keys) = k ∷ but_last j keys

-- `append(keys[len(keys)-1:], keys[:len(keys)-1]...)`
unfoldable pub right_rotate : List Key → Failure ⊎ List Key
unfolding last_of but_last
right_rotate [] = inl Failure.panics
right_rotate (k ∷ keys) = inr (last_of k keys ∷ but_last k keys)

-- `keys[:len(keys)-1]`
unfoldable pub all_but_last : List Key → Failure ⊎ List Key
unfolding but_last
all_but_last [] = inl Failure.panics
all_but_last (k ∷ keys) = inr (but_last k keys)
