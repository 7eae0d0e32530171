-- ===== src/Prelude/Maps.antt =====
-- Maps from texts, as association lists: `HashMap` and `IndexMap` keyed by a service id.
use Prim.Native.String.{String}
use mathlib.Core.Path.{◌≡◌, refl, sym}
use mathlib.Core.Bool.{Bool, true}
use mathlib.Core.List.{List, [], ◌∷◌}
use mathlib.Core.Option.{Option, none, some}
use native.Mathlib.Omega.{arith}
use text.Mathlib.Text.{◌==◌ as str_eq}
use text.Mathlib.TextEquality.{eq_iff}
use micromux.Prelude.Tests.{if◌then◌else◌}

abbrev pub text_eq : String → String → Bool
text_eq s t = str_eq s t

pub text_eq_iff_lem : (s t : String) → text_eq s t ≡ true → s ≡ t
text_eq_iff_lem s t = (eq_iff s t).0

pub text_eq_self : (s : String) → text_eq s s ≡ true
text_eq_self s = (eq_iff s s).1 refl

pub text_eq_back : (s t : String) → text_eq t s ≡ true → text_eq s t ≡ true
text_eq_back s t h = (eq_iff s t).1 (sym ((eq_iff t s).0 h))

module _ {ℓ} {A : Type ℓ} where
  unfoldable pub lookup : (id : String) → List (String × A) → Option A
  lookup id [] = none
  lookup id ((key, found) ∷ rest) = if text_eq key id then some found else lookup id rest

  unfoldable pub remove : (id : String) → List (String × A) → List (String × A)
  remove id [] = []
  remove id ((key, value) ∷ rest) = if text_eq key id then rest else (key, value) ∷ remove id rest

  -- Overwrites in place, or adds at the end.
  unfoldable pub insert : (id : String) (new : A) → List (String × A) → List (String × A)
  insert id new [] = (id, new) ∷ []
  insert id new ((key, old) ∷ rest) =
      if text_eq key id then (key, new) ∷ rest else (key, old) ∷ insert id new rest

  pub insert-insert :
      (id : String) (new old : A) (m : List (String × A))
      → insert id new (insert id old m) ≡ insert id new m
  unfolding insert
  insert-insert id new old [] = ground (arith, text_eq_self id)
  insert-insert id new old ((key, value) ∷ rest) = ground (arith, insert-insert id new old rest)

  pub lookup-insert :
      (id other : String) (new : A) (m : List (String × A))
      → lookup other (insert id new m) ≡ (if text_eq id other then some new else lookup other m)
  unfolding insert lookup
  lookup-insert id other new [] = refl
  lookup-insert id other new ((key, value) ∷ rest) =
      ground
        (lookup-insert id other new rest, eq_iff key other, eq_iff key id, eq_iff id other, arith)

  pub lookup-insert_self :
      (id : String) (new : A) (m : List (String × A)) → lookup id (insert id new m) ≡ some new
  lookup-insert_self id new m = rw (lookup-insert id id new m, text_eq_self id)
