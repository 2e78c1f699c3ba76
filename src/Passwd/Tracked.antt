-- ===== src/Passwd/Tracked.antt =====
-- The mark of a change: without it the users are those of the file.
use mathlib.Core.Sum.{inl-ne-inr, inr-injective}
use mathlib.Core.Path.{subst}
use k8e.Common.{
  String, ◌≡◌, refl, sym, ap, ◌∙◌, ◌⊎◌, inl, inr, Bool, true, false, ◌&&◌, ◌||◌, not, Option, none,
  some, List, [], ◌∷◌, arith, str_eq, eq_iff, if◌then◌else◌, Bool-cases, Option-cases,
}
use k8e.Common.Assoc.{lookup, lookup-insert}
use k8e.Passwd.Users.{
  UserEntry, Passwd, Csv, PasswdFile, absent, broken, contents, PasswdError, read_records,
  read_result, read_passwd, update_user, add_user, add_random, ensure_stripped, strip_token,
  ensure_user,
}
use k8e.Passwd.Rows.{HasDistinct, insert-HasDistinct, read_records-HasDistinct}

-- The users differ from those of the file only when the mark is set.
pub record IsTracked (base : List (String × UserEntry)) (p : Passwd) : Type 0 where
  pub distinct : HasDistinct p.names
  pub same : p.changed ≡ false → (j : String) → lookup j p.names ≡ lookup j base

rows_distinct :
    (clean : Bool) (p : Passwd) (o : PasswdError ⊎ List (String × UserEntry))
    → ((read : List (String × UserEntry)) → o ≡ inr read → HasDistinct read)
    → read_result clean o ≡ inr p
    → HasDistinct p.names
unfolding read_result
rows_distinct clean p (inl e) all h = absurd (inl-ne-inr h)
rows_distinct false p (inr read) all h = absurd (inl-ne-inr h)
rows_distinct true p (inr read) all h =
    subst (λ q. HasDistinct q.names) (inr-injective (record { changed = false; names = read }) p h)
      (all read refl)

pub read-IsTracked :
    {T : Type 0} (csv : Csv T) (f : PasswdFile T) (p : Passwd)
    → read_passwd csv f ≡ inr p
    → IsTracked p.names p
unfolding read_passwd HasDistinct read_result
read-IsTracked csv absent p h = record {
  distinct =
      subst (λ q. HasDistinct q.names) (inr-injective (record { changed = false; names = [] }) p h)
        tt;
  same = λ clean j. refl;
}
read-IsTracked csv broken p h = absurd (inl-ne-inr h)
read-IsTracked csv (contents t) p h = record {
  distinct =
      let (rows, clean) = csv.read t in
      rows_distinct clean p (read_records rows [])
        (λ read. read_records-HasDistinct rows [] read tt) h;
  same = λ clean j. refl;
}

add-IsTracked :
    (base : List (String × UserEntry)) (name role passwd : String) (p : Passwd)
    → IsTracked base p
    → IsTracked base (add_user name role passwd p)
unfolding add_user
add-IsTracked base name role passwd p t = record {
  distinct = insert-HasDistinct name (record { pass = passwd; role = role }) p.names t.distinct;
  same = λ clean. cc;
}

or_first : (a b c : Bool) → (a || (b || c)) ≡ false → a ≡ false
or_first a b c h = ground arith

or_left : (a b c : Bool) → (a || (b || c)) ≡ false → b ≡ false
or_left a b c h = ground arith

or_right : (a b c : Bool) → (a || (b || c)) ≡ false → c ≡ false
or_right a b c h = ground arith

unmoved :
    (name j : String) (e' e : UserEntry) (m : List (String × UserEntry)) (b : Bool)
    → str_eq name j ≡ b
    → e' ≡ e
    → lookup name m ≡ some e
    → (if b then some e' else lookup j m) ≡ lookup j m
unmoved name j e' e m true here kept there =
    ap some kept ∙ sym there ∙ ap (λ i. lookup i m) ((eq_iff name j).0 here)
unmoved name j e' e m false differs kept there = refl

update-IsTracked :
    (base : List (String × UserEntry)) (name role passwd : String) (e : UserEntry) (p : Passwd)
    → lookup name p.names ≡ some e
    → IsTracked base p
    → IsTracked base (update_user name role passwd e p)
unfolding update_user
update-IsTracked base name role passwd e p there t =
    let new_pass = not (str_eq passwd "") && not (str_eq e.pass passwd) in
    let new_role = not (str_eq e.role role) in
    let e' : UserEntry = record {
      pass = if new_pass then passwd else e.pass;
      role = if new_role then role else e.role;
    } in
    record {
      distinct = insert-HasDistinct name e' p.names t.distinct;
      same = λ clean j.
          let old_pass : new_pass ≡ false = or_left p.changed new_pass new_role clean in
          let old_role : new_role ≡ false = or_right p.changed new_pass new_role clean in
          let kept : e' ≡ e =
            ap
              (λ b. record e {
                pass = if b then passwd else e.pass;
                role = if new_role then role else e.role;
              })
              old_pass
            ∙ ap (λ b. record e { role = if b then role else e.role }) old_role in
          lookup-insert name j e' p.names
          ∙ unmoved name j e' e p.names (str_eq name j) refl kept there
          ∙ t.same (or_first p.changed new_pass new_role clean) j;
    }

-- A call of EnsureUser, with the answer of token.Random.
pub record EnsureCall : Type 0 where
  pub name : String
  pub role : String
  pub passwd : String
  pub random : Option String

unfoldable pub ensure_next : List EnsureCall → PasswdError ⊎ Passwd → PasswdError ⊎ Passwd
unfolding ensure_user
ensure_next rs (inl e) = inl e
ensure_next [] (inr p) = inr p
ensure_next (r ∷ rs) (inr p) = ensure_next rs (ensure_user r.name r.role r.passwd r.random p)

unfoldable pub IsFine : List (String × UserEntry) → PasswdError ⊎ Passwd → Type 0
IsFine base (inl e) = Unit
IsFine base (inr p) = IsTracked base p

add_random-IsFine :
    (base : List (String × UserEntry)) (name role : String) (random : Option String) (p : Passwd)
    → IsTracked base p
    → IsFine base (add_random name role random p)
unfolding add_random IsFine
add_random-IsFine base name role none p t = tt
add_random-IsFine base name role (some token) p t = add-IsTracked base name role token p t

ensure_user-IsFine :
    (base : List (String × UserEntry)) (name role passwd : String) (random : Option String)
    (p : Passwd)
    → IsTracked base p
    → IsFine base (ensure_user name role passwd random p)
unfolding ensure_user ensure_stripped IsFine
ensure_user-IsFine base name role passwd random p t =
    let token = strip_token name passwd in
    elim (Option-cases (lookup name p.names)) [
      | inr (e, there) ↦
          rw (there, ensure_user, ensure_stripped)
            (update-IsTracked base name role token e p there t)
      | inl new ↦
          rw (new, ensure_user, ensure_stripped)
            (elim (Bool-cases (str_eq token "")) [
              | inl empty ↦ rw empty (add_random-IsFine base name role random p t)
              | inr given ↦ rw given (add-IsTracked base name role token p t)
            ])
    ]

pub ensure_next-IsFine :
    (base : List (String × UserEntry)) (rs : List EnsureCall) (o : PasswdError ⊎ Passwd)
    → IsFine base o
    → IsFine base (ensure_next rs o)
unfolding ensure_next IsFine
ensure_next-IsFine base rs (inl e) t = tt
ensure_next-IsFine base [] (inr p) t = t
ensure_next-IsFine base (r ∷ rs) (inr p) t =
    ensure_next-IsFine base rs (ensure_user r.name r.role r.passwd r.random p)
      (ensure_user-IsFine base r.name r.role r.passwd r.random p t)
