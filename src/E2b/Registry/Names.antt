-- ===== src/E2b/Registry/Names.antt =====
-- The index by name: what put and del do to it.
use text.Mathlib.TextPositions.{eq_refl as text_refl}
use k8e.Common.{String, ◌≡◌, false, some, str_eq}
use k8e.Common.Assoc.{lookup-insert}
use k8e.E2b.Registry.{Entry, Registry, get, name_of, by_key_name, put}

-- A sandbox that is put with a name is found by its ID and by its name; what other IDs and names
-- lead to does not change.
pub put_lem :
    (r : Registry) (e : Entry) (name : String)
    → name_of e ≡ some name
    → (get (put r e) e.sandbox_id ≡ some e)
      × (by_key_name (put r e) name ≡ some e.sandbox_id)
      × ((j : String) → str_eq e.sandbox_id j ≡ false → get (put r e) j ≡ get r j)
      × ((n : String) → str_eq name n ≡ false → by_key_name (put r e) n ≡ by_key_name r n)
unfolding put get by_key_name
put_lem r e name h = (
  rw (lookup-insert e.sandbox_id e.sandbox_id e r.by_id, text_refl e.sandbox_id),
  rw (h, put) (rw (lookup-insert name name e.sandbox_id r.by_name, text_refl name)),
  λ j n. rw (lookup-insert e.sandbox_id j e r.by_id, n),
  λ k n. rw (h, put) (rw (lookup-insert name k e.sandbox_id r.by_name, n)),
)
