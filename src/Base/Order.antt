-- ===== src/Base/Order.antt =====
-- `sorted` and `list.sort`: a stable insertion sort by a Boolean order.
use mathlib.Core.Path.{◌≡◌, refl, ap, ◌∙◌}
use mathlib.Core.Logic.{inl, inr}
use mathlib.Core.Bool.{Bool, true, false, ◌||◌, ◌&&◌}
use mathlib.Core.List.{List, [], ◌∷◌, Perm}
use mathlib.Core.List.Perm
use native.Mathlib.Omega.{arith}
use drift_mariadb_client.Base.Equality.{Bool-cases, ltb, leb, if◌then◌else◌}
use drift_mariadb_client.Base.Lists.{All}
use drift_mariadb_client.Base.Texts.{Text}

module _ {ℓ} {A : Type ℓ} (le : A → A → Bool) where
  -- Before the first element that is not smaller.
  unfoldable pub insert_by : A → List A → List A
  insert_by x [] = x ∷ []
  insert_by x (y ∷ ys) = if le x y then x ∷ y ∷ ys else y ∷ insert_by x ys

  unfoldable pub sort_by : List A → List A
  unfolding insert_by
  sort_by [] = []
  sort_by (x ∷ xs) = insert_by x (sort_by xs)

  abbrev pub IsSorted : List A → Type 0
  IsSorted [] = Unit {0}
  IsSorted (x ∷ []) = Unit {0}
  IsSorted (x ∷ y ∷ ys) = (le x y ≡ true) × IsSorted (y ∷ ys)

  pub insert_by-perm : (x : A) (ys : List A) → Perm (insert_by x ys) (x ∷ ys)
  unfolding insert_by
  insert_by-perm x [] = Perm.refl _
  insert_by-perm x (y ∷ ys) = ground (
    arith,
    Perm.refl (x ∷ y ∷ ys),
    Perm.trans (Perm.cons y (insert_by-perm x ys)) (Perm.swap x y ys),
  )

  pub sort_by-perm : (xs : List A) → Perm (sort_by xs) xs
  unfolding sort_by
  sort_by-perm [] = Perm.refl _
  sort_by-perm (x ∷ xs) = Perm.trans (insert_by-perm x (sort_by xs)) (Perm.cons x (sort_by-perm xs))

  module _ {κ} (P : A → Type κ) where
    insert_by-All : (x : A) (ys : List A) → P x → All P ys → All P (insert_by x ys)
    unfolding insert_by
    insert_by-All x [] h hs = (h, hs)
    insert_by-All x (y ∷ ys) h (here, hs) = elim (Bool-cases (le x y)) [
      | inl e ↦ rw e (h, (here, hs))
      | inr e ↦ rw e (here, insert_by-All x ys h hs)
    ]

    pub sort_by-All : (xs : List A) → All P xs → All P (sort_by xs)
    unfolding sort_by
    sort_by-All [] hs = hs
    sort_by-All (x ∷ xs) (h, hs) = insert_by-All x (sort_by xs) h (sort_by-All xs hs)

  -- Sorting changes nothing on a sorted list.
  pub sort_by_of_IsSorted : (xs : List A) → IsSorted xs → sort_by xs ≡ xs
  unfolding sort_by
  sort_by_of_IsSorted [] h = refl
  sort_by_of_IsSorted (x ∷ []) h = refl
  sort_by_of_IsSorted (x ∷ y ∷ ys) (h, hs) =
      ap (insert_by x) (sort_by_of_IsSorted (y ∷ ys) hs) ∙ (unfold insert_by in ground arith)

  -- The first element of a list, if any, is not below `x`.
  abbrev Bounds : A → List A → Type 0
  Bounds x [] = Unit {0}
  Bounds x (y ∷ ys) = le x y ≡ true

  IsSorted-Bounds : (x : A) (ys : List A) → IsSorted (x ∷ ys) → Bounds x ys
  IsSorted-Bounds x [] s = tt
  IsSorted-Bounds x (y ∷ ys) s = s.0

  IsSorted-tail : (x : A) (ys : List A) → IsSorted (x ∷ ys) → IsSorted ys
  IsSorted-tail x [] s = tt
  IsSorted-tail x (y ∷ ys) s = s.1

  module _ (total : (x y : A) → le x y ≡ false → le y x ≡ true) where
    insert_by-Bounds :
        (x y : A) (ys : List A) → le y x ≡ true → Bounds y ys → Bounds y (insert_by x ys)
    unfolding insert_by
    insert_by-Bounds x y [] h b = h
    insert_by-Bounds x y (z ∷ zs) h b = ground arith

    IsSorted-cons : (x : A) (ys : List A) → Bounds x ys → IsSorted ys → IsSorted (x ∷ ys)
    IsSorted-cons x [] b s = tt
    IsSorted-cons x (y ∷ ys) b s = (b, s)

    insert_by-IsSorted : (x : A) (ys : List A) → IsSorted ys → IsSorted (insert_by x ys)
    unfolding insert_by
    insert_by-IsSorted x [] s = tt
    insert_by-IsSorted x (y ∷ ys) s = elim (Bool-cases (le x y)) [
      | inl h ↦ rw h (h, s)
      | inr h ↦ rw h (
          IsSorted-cons y (insert_by x ys)
            (insert_by-Bounds x y ys (total x y h) (IsSorted-Bounds y ys s))
            (insert_by-IsSorted x ys (IsSorted-tail y ys s)))
    ]

    pub sort_by-IsSorted : (xs : List A) → IsSorted (sort_by xs)
    unfolding sort_by
    sort_by-IsSorted [] = tt
    sort_by-IsSorted (x ∷ xs) = insert_by-IsSorted x (sort_by xs) (sort_by-IsSorted xs)

-- Texts compare by code points, as Python's strings do.
unfoldable pub text_le : Text → Text → Bool
text_le [] t = true
text_le (a ∷ s) [] = false
text_le (a ∷ s) (b ∷ t) = ltb a b || (leb a b && text_le s t)

pub text_le_total : (s t : Text) → text_le s t ≡ false → text_le t s ≡ true
unfolding text_le
text_le_total [] t h = cc
text_le_total (a ∷ s) [] h = refl
text_le_total (a ∷ s) (b ∷ t) h = ground (arith, text_le_total s t)
