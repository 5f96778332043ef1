-- ===== src/Prelude/Rebuild.antt =====
-- Maps rebuilt from what they hold: from their values, each under the key that it holds, and from
-- their entries.
use Prim.Native.Nat.{Ordering}
use mathlib.Core.Path.{◌≡◌, sym, ap, ◌∙◌}
use mathlib.Core.List.{List, [], ◌∷◌, ◌++◌, append-nil, append_assoc}
use hkgov_rethink.Prelude.Keys.{Key}
use hkgov_rethink.Prelude.Lists.{All}
use hkgov_rethink.Prelude.Maps.{Map, values, insert, insert_last, Above, IsSorted}

module _ {ℓ κ} {K : Type ℓ} {V : Type κ} ⦃k : Key K⦄ where
  -- Values put into a map one after the other, each under the key that it holds.
  abbrev pub insert_all : (V → K) → Map K V → List V → Map K V
  insert_all f m [] = m
  insert_all f m (v ∷ vs) = insert_all f (insert (f v) v m) vs

  -- All of the first map's keys are below all of the second's.
  abbrev Before : Map K V → Map K V → Type 0
  Before acc [] = Unit {0}
  Before acc ((j, v) ∷ m) = All (λ e. k.cmp e.0 j ≡ Ordering.lt) acc × Before acc m

  Before-nil : (m : Map K V) → Before [] m
  Before-nil [] = tt
  Before-nil ((j, v) ∷ m) = (tt, Before-nil m)

  All-snoc {μ} :
      (P : K × V → Type μ) (xs : Map K V) (x : K × V) → All P xs → P x → All P (xs ++ x ∷ [])
  All-snoc P [] x a h = (h, tt)
  All-snoc P (y ∷ xs) x a h = (a.0, All-snoc P xs x a.1 h)

  Before-snoc :
      (acc m : Map K V) (j : K) (v : V) → Above j m → Before acc m → Before (acc ++ (j, v) ∷ []) m
  Before-snoc acc [] j v a b = tt
  Before-snoc acc ((i, w) ∷ m) j v a b =
      (All-snoc (λ e. k.cmp e.0 i ≡ Ordering.lt) acc (j, v) b.0 a.0, Before-snoc acc m j v a.1 b.1)

  insert_all-append :
      (f : V → K) (acc m : Map K V)
      → All (λ e. f e.1 ≡ e.0) m
      → IsSorted m
      → Before acc m
      → insert_all f acc (values m) ≡ acc ++ m
  insert_all-append f acc [] own s b = sym (append-nil acc)
  insert_all-append f acc ((j, v) ∷ m) own s b =
      ap (λ q. insert_all f (insert q v acc) (values m)) own.0
      ∙ ap (λ n. insert_all f n (values m)) (insert_last j v acc b.0)
      ∙ insert_all-append f (acc ++ (j, v) ∷ []) m own.1 s.1 (Before-snoc acc m j v s.0 b.1)
      ∙ append_assoc acc ((j, v) ∷ []) m

  -- A sorted map whose values hold their own keys is rebuilt from its values.
  pub insert_all-values :
      (f : V → K) (m : Map K V)
      → All (λ e. f e.1 ≡ e.0) m
      → IsSorted m
      → insert_all f [] (values m) ≡ m
  insert_all-values f m own s = insert_all-append f [] m own s (Before-nil m)

  -- Entries put into a map one after the other.
  abbrev pub insert_entries : Map K V → Map K V → Map K V
  insert_entries m [] = m
  insert_entries m ((j, v) ∷ es) = insert_entries (insert j v m) es

  insert_entries-append :
      (acc m : Map K V) → IsSorted m → Before acc m → insert_entries acc m ≡ acc ++ m
  insert_entries-append acc [] s b = sym (append-nil acc)
  insert_entries-append acc ((j, v) ∷ m) s b =
      ap (λ n. insert_entries n m) (insert_last j v acc b.0)
      ∙ insert_entries-append (acc ++ (j, v) ∷ []) m s.1 (Before-snoc acc m j v s.0 b.1)
      ∙ append_assoc acc ((j, v) ∷ []) m

  -- A sorted map is rebuilt from its entries.
  pub insert_entries-nil : (m : Map K V) → IsSorted m → insert_entries [] m ≡ m
  insert_entries-nil m s = insert_entries-append [] m s (Before-nil m)
