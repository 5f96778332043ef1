-- ===== src/Prelude/Sorting.antt =====
-- Rust's `sort_by`, which is stable, as an insertion sort: what it keeps, and that it sorts.
use Prim.Native.Nat.{suc, Ordering}
use mathlib.Core.Path.{◌≡◌, refl, ap, ◌∙◌}
use mathlib.Core.Logic.{◌≢◌}
use mathlib.Core.Bool.{Bool, true, false}
use mathlib.Core.List.{List, [], ◌∷◌, map, Permᴰ}
use mathlib.Core.List.Permᴰ
use native.Mathlib.Omega.{arith}
use hkgov_rethink.Prelude.Lists.{All, length, select}
use hkgov_rethink.Prelude.Tests.{if◌then◌else◌}
use hkgov_rethink.Prelude.Keys.{Key, then_with}

module _ {ℓ} {A : Type ℓ} (cmp : A → A → Ordering) where
  -- An element goes before the first that it does not come behind.
  unfoldable pub insert_by : A → List A → List A
  insert_by x [] = x ∷ []
  insert_by x (y ∷ ys) = elim (cmp x y) [
    | Ordering.gt ↦ y ∷ insert_by x ys
    | Ordering.lt ↦ x ∷ y ∷ ys
    | Ordering.eq ↦ x ∷ y ∷ ys
  ]

  unfoldable pub sort_by : List A → List A
  unfolding insert_by
  sort_by [] = []
  sort_by (x ∷ xs) = insert_by x (sort_by xs)

  All-insert_by {κ} :
      (P : A → Type κ) (x : A) (xs : List A) → P x → All P xs → All P (insert_by x xs)
  unfolding insert_by
  All-insert_by P x [] h a = (h, tt)
  All-insert_by P x (y ∷ ys) h a = ground (arith, All-insert_by P x ys h a.1)

  pub All-sort_by {κ} : (P : A → Type κ) (xs : List A) → All P xs → All P (sort_by xs)
  unfolding sort_by
  All-sort_by P [] a = tt
  All-sort_by P (x ∷ xs) a = All-insert_by P x (sort_by xs) a.0 (All-sort_by P xs a.1)

  insert_by-Permᴰ : (x : A) (xs : List A) → Permᴰ (insert_by x xs) (x ∷ xs)
  unfolding insert_by
  insert_by-Permᴰ x [] = Permᴰ.refl (x ∷ [])
  insert_by-Permᴰ x (y ∷ ys) =
      elim (cmp x y)
        as (λ o.
          Permᴰ
            (elim o [
              | Ordering.gt ↦ y ∷ insert_by x ys
              | Ordering.lt ↦ x ∷ y ∷ ys
              | Ordering.eq ↦ x ∷ y ∷ ys
            ])
            (x ∷ y ∷ ys)) [
              | Ordering.gt ↦
                  Permᴰ.trans (Permᴰ.cons refl (insert_by-Permᴰ x ys)) (Permᴰ.swap refl refl)
              | Ordering.lt ↦ Permᴰ.refl (x ∷ y ∷ ys)
              | Ordering.eq ↦ Permᴰ.refl (x ∷ y ∷ ys)
            ]

  -- Nothing is lost and nothing is added.
  pub sort_by-Permᴰ : (xs : List A) → Permᴰ (sort_by xs) xs
  unfolding sort_by
  sort_by-Permᴰ [] = Permᴰ.nil
  sort_by-Permᴰ (x ∷ xs) =
      Permᴰ.trans (insert_by-Permᴰ x (sort_by xs)) (Permᴰ.cons refl (sort_by-Permᴰ xs))

  -- No element comes behind one that stands after it.
  abbrev pub IsOrdered : List A → Type ℓ
  IsOrdered [] = Unit
  IsOrdered (x ∷ xs) = All (λ y. cmp x y ≢ Ordering.gt) xs × IsOrdered xs

  module _ (asym : (a b : A) → cmp a b ≡ Ordering.gt → cmp b a ≢ Ordering.gt)
      (trans : (a b d : A)
        → cmp a b ≢ Ordering.gt
        → cmp b d ≢ Ordering.gt
        → cmp a d ≢ Ordering.gt) where
    All-not_behind :
        (x y : A) (ys : List A)
        → cmp x y ≢ Ordering.gt
        → All (λ z. cmp y z ≢ Ordering.gt) ys
        → All (λ z. cmp x z ≢ Ordering.gt) ys
    All-not_behind x y [] h a = tt
    All-not_behind x y (z ∷ ys) h a = (trans x y z h a.0, All-not_behind x y ys h a.1)

    insert_by-IsOrdered : (x : A) (xs : List A) → IsOrdered xs → IsOrdered (insert_by x xs)
    unfolding insert_by
    insert_by-IsOrdered x [] s = (tt, tt)
    insert_by-IsOrdered x (y ∷ ys) s = ground (
      arith,
      insert_by-IsOrdered x ys s.1,
      All-insert_by (λ z. cmp y z ≢ Ordering.gt) x ys,
      asym x y,
      All-not_behind x y ys,
      s.0,
    )

    pub sort_by-IsOrdered : (xs : List A) → IsOrdered (sort_by xs)
    unfolding sort_by
    sort_by-IsOrdered [] = tt
    sort_by-IsOrdered (x ∷ xs) = insert_by-IsOrdered x (sort_by xs) (sort_by-IsOrdered xs)

-- Two comparisons that agree on a list sort it alike.
module _ {A : Type 0} (P : A → Type 0) (c d : A → A → Ordering)
    (agree : (a b : A) → P a → P b → c a b ≡ d a b) where
  insert_by-agree : (x : A) (xs : List A) → P x → All P xs → insert_by c x xs ≡ insert_by d x xs
  unfolding insert_by
  insert_by-agree x [] h a = refl
  insert_by-agree x (y ∷ ys) h a = ground (arith, agree x y h a.0, insert_by-agree x ys h a.1)

  pub sort_by-agree : (xs : List A) → All P xs → sort_by c xs ≡ sort_by d xs
  unfolding sort_by
  sort_by-agree [] a = refl
  sort_by-agree (x ∷ xs) a =
      rw (sort_by-agree xs a.1) (insert_by-agree x (sort_by d xs) a.0 (All-sort_by d P xs a.1))

-- By a total order the sorted list does not depend on the order of the given one.
module _ {ℓ} {A : Type ℓ} ⦃k : Key A⦄ where
  insert_by_comm :
      (a b : A) (xs : List A)
      → insert_by k.cmp a (insert_by k.cmp b xs) ≡ insert_by k.cmp b (insert_by k.cmp a xs)
  unfolding insert_by
  insert_by_comm a b [] = ground (arith, k.cmp_flip a b, k.cmp_back a b, k.cmp_eq a b, k.cmp_self a)
  insert_by_comm a b (c ∷ xs) = ground (
    arith,
    insert_by_comm a b xs,
    k.cmp_flip a b,
    k.cmp_back a b,
    k.cmp_eq a b,
    k.cmp_self a,
    k.cmp_eq a c,
    k.cmp_eq b c,
    k.cmp_back a c,
    k.cmp_back b c,
    k.cmp_flip a c,
    k.cmp_flip b c,
    k.cmp_trans a b c,
    k.cmp_trans b a c,
    k.cmp_trans a c b,
    k.cmp_trans b c a,
  )

  pub sort_by-eq_of_Permᴰ : {xs ys : List A} → Permᴰ xs ys → sort_by k.cmp xs ≡ sort_by k.cmp ys
  unfolding sort_by
  sort_by-eq_of_Permᴰ Permᴰ.nil = refl
  sort_by-eq_of_Permᴰ (Permᴰ.cons e h) = rw (e, sort_by-eq_of_Permᴰ h)
  sort_by-eq_of_Permᴰ (Permᴰ.swap {a = a} {b = b} {l = l} e f) =
      rw (← e, ← f) (insert_by_comm a b (sort_by k.cmp l))
  sort_by-eq_of_Permᴰ (Permᴰ.trans h l) = sort_by-eq_of_Permᴰ h ∙ sort_by-eq_of_Permᴰ l

pub length-Permᴰ {ℓ} : {A : Type ℓ} {xs ys : List A} → Permᴰ xs ys → length xs ≡ length ys
length-Permᴰ Permᴰ.nil = refl
length-Permᴰ (Permᴰ.cons e h) = ap suc (length-Permᴰ h)
length-Permᴰ (Permᴰ.swap e f) = refl
length-Permᴰ (Permᴰ.trans h k) = length-Permᴰ h ∙ length-Permᴰ k

module _ {ℓ κ} {A : Type ℓ} {B : Type κ} where
  pub map-Permᴰ : (f : A → B) {xs ys : List A} → Permᴰ xs ys → Permᴰ (map f xs) (map f ys)
  map-Permᴰ f Permᴰ.nil = Permᴰ.nil
  map-Permᴰ f (Permᴰ.cons e h) = Permᴰ.cons (ap f e) (map-Permᴰ f h)
  map-Permᴰ f (Permᴰ.swap e g) = Permᴰ.swap (ap f e) (ap f g)
  map-Permᴰ f (Permᴰ.trans h k) = Permᴰ.trans (map-Permᴰ f h) (map-Permᴰ f k)

module _ {ℓ} {A : Type ℓ} where
  kept_cons :
      (t : Bool) (a : A) {xs ys : List A}
      → Permᴰ xs ys
      → Permᴰ (if t then a ∷ xs else xs) (if t then a ∷ ys else ys)
  kept_cons true a h = Permᴰ.cons refl h
  kept_cons false a h = h

  kept_swap :
      (s t : Bool) (a b : A) (l : List A)
      → Permᴰ
          (if s then a ∷ (if t then b ∷ l else l) else (if t then b ∷ l else l))
          (if t then b ∷ (if s then a ∷ l else l) else (if s then a ∷ l else l))
  kept_swap true true a b l = Permᴰ.swap refl refl
  kept_swap true false a b l = Permᴰ.refl (a ∷ l)
  kept_swap false true a b l = Permᴰ.refl (b ∷ l)
  kept_swap false false a b l = Permᴰ.refl l

  pub select-Permᴰ :
      (p : A → Bool) {xs ys : List A} → Permᴰ xs ys → Permᴰ (select p xs) (select p ys)
  select-Permᴰ p Permᴰ.nil = Permᴰ.nil
  select-Permᴰ p (Permᴰ.cons {a = a} e h) = rw (← e) (kept_cons (p a) a (select-Permᴰ p h))
  select-Permᴰ p (Permᴰ.swap {a = a} {b = b} {l = l} e g) =
      rw (← e, ← g) (kept_swap (p a) (p b) a b (select p l))
  select-Permᴰ p (Permᴰ.trans h k) = Permᴰ.trans (select-Permᴰ p h) (select-Permᴰ p k)

-- Pairs, ordered by the first part and then by the second.
module _ {ℓ κ} {A : Type ℓ} {B : Type κ} ⦃k : Key A⦄ ⦃l : Key B⦄ where
  abbrev pub pair_cmp : A × B → A × B → Ordering
  pair_cmp (a, b) (c, d) = then_with (k.cmp a c) (l.cmp b d)

  pub pair_eq : (p q : A × B) → pair_cmp p q ≡ Ordering.eq → p ≡ q
  pair_eq (a, b) (c, d) h = ground (arith, k.cmp_eq a c, l.cmp_eq b d)

  pub pair_self : (p : A × B) → pair_cmp p p ≡ Ordering.eq
  pair_self (a, b) = ground (arith, k.cmp_self a, l.cmp_self b)

  pub pair_flip : (p q : A × B) → pair_cmp p q ≡ Ordering.lt → pair_cmp q p ≡ Ordering.gt
  pair_flip (a, b) (c, d) h =
      ground (arith, k.cmp_flip a c, l.cmp_flip b d, k.cmp_eq a c, k.cmp_self c)

  pub pair_back : (p q : A × B) → pair_cmp p q ≡ Ordering.gt → pair_cmp q p ≡ Ordering.lt
  pair_back (a, b) (c, d) h =
      ground (arith, k.cmp_back a c, l.cmp_back b d, k.cmp_eq a c, k.cmp_self c)

  pub pair_trans :
      (p q r : A × B)
      → pair_cmp p q ≡ Ordering.lt
      → pair_cmp q r ≡ Ordering.lt
      → pair_cmp p r ≡ Ordering.lt
  pair_trans (a, b) (c, d) (e, f) g h =
      ground (arith, k.cmp_trans a c e, l.cmp_trans b d f, k.cmp_eq a c, k.cmp_eq c e, k.cmp_self a)

  instance abbrev pub pair_key : Key (A × B)
  pair_key = record {
    cmp = pair_cmp;
    cmp_self = pair_self;
    cmp_eq = pair_eq;
    cmp_flip = pair_flip;
    cmp_back = pair_back;
    cmp_trans = pair_trans;
  }
