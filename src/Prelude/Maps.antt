-- ===== src/Prelude/Maps.antt =====
-- `BTreeMap` as its entries in the order of their keys, each key once. `HashMap` has the same
-- operations; its iteration order is not specified, and the order of the keys stands for it.
use Prim.Native.Nat.{suc, Ordering}
use mathlib.Core.Path.{◌≡◌, refl}
use mathlib.Core.Bool.{Bool}
use mathlib.Core.List.{List, [], ◌∷◌, ◌++◌}
use mathlib.Core.Option.{Option, none, some}
use native.Mathlib.Omega.{arith}
use hkgov_rethink.Prelude.Tests.{if◌then◌else◌}
use hkgov_rethink.Prelude.Keys.{Key, same, same_iff, same_refl}
use hkgov_rethink.Prelude.Lists.{All, length}

abbrev pub Map {ℓ κ} : Type ℓ → Type κ → Type (ℓ ⊔ κ)
Map K V = List (K × V)

module _ {ℓ κ} {K : Type ℓ} {V : Type κ} where
  abbrev pub values : Map K V → List V
  values [] = []
  values ((j, v) ∷ m) = v ∷ values m

  -- `retain`
  unfoldable pub retain : (K → V → Bool) → Map K V → Map K V
  retain p [] = []
  retain p ((j, v) ∷ m) = if p j v then (j, v) ∷ retain p m else retain p m

module _ {ℓ κ} {K : Type ℓ} {V : Type κ} ⦃k : Key K⦄ where
  unfoldable pub get : K → Map K V → Option V
  get q [] = none
  get q ((j, v) ∷ m) = if same q j then some v else get q m

  unfoldable pub insert : K → V → Map K V → Map K V
  insert q w [] = (q, w) ∷ []
  insert q w ((j, v) ∷ m) = elim (k.cmp q j) [
    | Ordering.lt ↦ (q, w) ∷ (j, v) ∷ m
    | Ordering.eq ↦ (q, w) ∷ m
    | Ordering.gt ↦ (j, v) ∷ insert q w m
  ]

  unfoldable pub remove : K → Map K V → Map K V
  remove q [] = []
  remove q ((j, v) ∷ m) = if same q j then remove q m else (j, v) ∷ remove q m

  -- Every key above `q`, and the keys in order.
  abbrev pub Above : K → Map K V → Type 0
  Above q [] = Unit {0}
  Above q ((j, v) ∷ m) = (k.cmp q j ≡ Ordering.lt) × Above q m

  abbrev pub IsSorted : Map K V → Type 0
  IsSorted [] = Unit {0}
  IsSorted ((j, v) ∷ m) = Above j m × IsSorted m

  pub get-insert :
      (q p : K) (w : V) (m : Map K V)
      → get p (insert q w m) ≡ (if same p q then some w else get p m)
  unfolding get insert
  get-insert q p w [] = refl
  get-insert q p w ((j, v) ∷ m) =
      ground (arith, get-insert q p w m, k.cmp_eq q j, k.cmp_eq p q, k.cmp_eq p j, k.cmp_self q)

  pub get-insert_self : (q : K) (w : V) (m : Map K V) → get q (insert q w m) ≡ some w
  get-insert_self q w m = rw (get-insert q q w m, same_refl q)

  pub get-remove :
      (q p : K) (m : Map K V) → get p (remove q m) ≡ (if same p q then none else get p m)
  unfolding get remove
  get-remove q p [] = ground arith
  get-remove q p ((j, v) ∷ m) =
      ground (arith, get-remove q p m, k.cmp_eq q j, k.cmp_eq p q, k.cmp_eq p j, k.cmp_self q)

  Above-trans : (q j : K) (m : Map K V) → k.cmp q j ≡ Ordering.lt → Above j m → Above q m
  Above-trans q j [] h a = tt
  Above-trans q j ((i, v) ∷ m) h a = (k.cmp_trans q j i h a.0, Above-trans q j m h a.1)

  Above-insert :
      (j q : K) (w : V) (m : Map K V) → k.cmp j q ≡ Ordering.lt → Above j m → Above j (insert q w m)
  unfolding insert
  Above-insert j q w [] h a = (h, tt)
  Above-insert j q w ((i, v) ∷ m) h a = ground (arith, Above-insert j q w m h a.1)

  pub insert-IsSorted : (q : K) (w : V) (m : Map K V) → IsSorted m → IsSorted (insert q w m)
  unfolding insert
  insert-IsSorted q w [] s = (tt, tt)
  insert-IsSorted q w ((j, v) ∷ m) s = ground (
    arith,
    insert-IsSorted q w m s.1,
    Above-insert j q w m,
    Above-trans q j m,
    k.cmp_back q j,
    k.cmp_eq q j,
  )

  -- A key above all others goes to the end.
  pub insert_last :
      (q : K) (w : V) (m : Map K V)
      → All (λ e. k.cmp e.0 q ≡ Ordering.lt) m
      → insert q w m ≡ m ++ (q, w) ∷ []
  unfolding insert
  insert_last q w [] a = refl
  insert_last q w ((j, v) ∷ m) a = ground (arith, insert_last q w m a.1, k.cmp_flip j q a.0)

  -- In a sorted map every entry is found under its key.
  pub Above-get : (q : K) (m : Map K V) → Above q m → get q m ≡ none
  unfolding get
  Above-get q [] a = refl
  Above-get q ((j, v) ∷ m) a = ground (arith, Above-get q m a.1)

  get-cons_ne :
      (q j : K) (v : V) (m : Map K V) → k.cmp j q ≡ Ordering.lt → get q ((j, v) ∷ m) ≡ get q m
  unfolding get
  get-cons_ne q j v m h = ground (arith, k.cmp_flip j q)

  found_behind :
      (j : K) (v : V) (m es : Map K V)
      → Above j es
      → All (λ e. get e.0 m ≡ some e.1) es
      → All (λ e. get e.0 ((j, v) ∷ m) ≡ some e.1) es
  found_behind j v m [] a h = tt
  found_behind j v m ((i, w) ∷ es) a h =
      (rw (get-cons_ne i j v m a.0) h.0, found_behind j v m es a.1 h.1)

  pub IsSorted-found : (m : Map K V) → IsSorted m → All (λ e. get e.0 m ≡ some e.1) m
  unfolding get
  IsSorted-found [] s = tt
  IsSorted-found ((j, v) ∷ m) s =
      (rw (same_refl j), found_behind j v m m s.0 (IsSorted-found m s.1))

  -- What holds of every entry, and of the new one, holds after an insertion.
  pub All-insert {μ} :
      (P : K × V → Type μ) (q : K) (w : V) (m : Map K V) → P (q, w) → All P m → All P (insert q w m)
  unfolding insert
  All-insert P q w [] h a = (h, tt)
  All-insert P q w ((j, v) ∷ m) h a = ground (arith, All-insert P q w m h a.1)

  pub All-remove {μ} : (P : K × V → Type μ) (q : K) (m : Map K V) → All P m → All P (remove q m)
  unfolding remove
  All-remove P q [] a = tt
  All-remove P q ((j, w) ∷ m) a = ground (arith, All-remove P q m a.1)

  pub All-get_entry {μ} :
      (P : K × V → Type μ) (q : K) (m : Map K V) (v : V) → All P m → get q m ≡ some v → P (q, v)
  unfolding get
  All-get_entry P q [] v a e = cc
  All-get_entry P q ((j, w) ∷ m) v a e =
      ground (arith, All-get_entry P q m v a.1, (same_iff q j).0, a.0)

  pub All-get {μ} :
      (P : V → Type μ) (q : K) (m : Map K V) {v : V} → All (λ e. P e.1) m → get q m ≡ some v → P v
  unfolding get
  All-get P q [] a e = cc
  All-get P q ((j, w) ∷ m) {v} a e = ground (arith, All-get P q m {v = v} a.1)

  -- The number of entries after an insertion under a new key, and after a removal of a key that is
  -- there.
  pub length-insert_new :
      (q : K) (w : V) (m : Map K V) → get q m ≡ none → length (insert q w m) ≡ suc (length m)
  unfolding get insert
  length-insert_new q w [] e = refl
  length-insert_new q w ((j, v) ∷ m) e = ground (arith, length-insert_new q w m)

  pub remove_absent : (q : K) (m : Map K V) → get q m ≡ none → remove q m ≡ m
  unfolding get remove
  remove_absent q [] e = refl
  remove_absent q ((j, v) ∷ m) e = ground (arith, remove_absent q m)

  pub length-remove :
      (q : K) (m : Map K V) {v : V}
      → IsSorted m
      → get q m ≡ some v
      → suc (length (remove q m)) ≡ length m
  unfolding get remove
  length-remove q [] s e = cc
  length-remove q ((j, u) ∷ m) {v} s e =
      ground
        (arith, length-remove q m {v = v} s.1, remove_absent q m, Above-get j m s.0, k.cmp_eq q j)

  Above-remove : (j q : K) (m : Map K V) → Above j m → Above j (remove q m)
  unfolding remove
  Above-remove j q [] a = tt
  Above-remove j q ((i, v) ∷ m) a = ground (arith, Above-remove j q m a.1)

  pub remove-IsSorted : (q : K) (m : Map K V) → IsSorted m → IsSorted (remove q m)
  unfolding remove
  remove-IsSorted q [] s = tt
  remove-IsSorted q ((j, v) ∷ m) s = ground (arith, remove-IsSorted q m s.1, Above-remove j q m)
