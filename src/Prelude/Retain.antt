-- ===== src/Prelude/Retain.antt =====
-- What `retain` keeps of a map.
use mathlib.Core.Path.{◌≡◌, refl}
use mathlib.Core.Bool.{Bool, true, false}
use mathlib.Core.List.{[], ◌∷◌}
use mathlib.Core.Option.{none, some}
use native.Mathlib.Omega.{arith}
use hkgov_rethink.Prelude.Keys.{Key, same_iff}
use hkgov_rethink.Prelude.Lists.{All}
use hkgov_rethink.Prelude.Maps.{Map, get, retain, Above, Above-get, IsSorted}

module _ {ℓ κ} {K : Type ℓ} {V : Type κ} ⦃k : Key K⦄ where
  Above-retain : (j : K) (p : K → V → Bool) (m : Map K V) → Above j m → Above j (retain p m)
  unfolding retain
  Above-retain j p [] a = tt
  Above-retain j p ((i, v) ∷ m) a = ground (arith, Above-retain j p m a.1)

  pub retain-IsSorted : (p : K → V → Bool) (m : Map K V) → IsSorted m → IsSorted (retain p m)
  unfolding retain
  retain-IsSorted p [] s = tt
  retain-IsSorted p ((j, v) ∷ m) s = ground (arith, retain-IsSorted p m s.1, Above-retain j p m s.0)

  pub get-retain_kept :
      (p : K → V → Bool) (q : K) (m : Map K V) {v : V}
      → get q m ≡ some v
      → p q v ≡ true
      → get q (retain p m) ≡ some v
  unfolding get retain
  get-retain_kept p q [] e h = e
  get-retain_kept p q ((j, w) ∷ m) {v} e h =
      ground (arith, get-retain_kept p q m {v = v}, (same_iff q j).0)

  pub get-retain_absent :
      (p : K → V → Bool) (q : K) (m : Map K V) → get q m ≡ none → get q (retain p m) ≡ none
  unfolding get retain
  get-retain_absent p q [] e = e
  get-retain_absent p q ((j, w) ∷ m) e = ground (arith, get-retain_absent p q m)

  pub get-retain_dropped :
      (p : K → V → Bool) (q : K) (m : Map K V) {v : V}
      → IsSorted m
      → get q m ≡ some v
      → p q v ≡ false
      → get q (retain p m) ≡ none
  unfolding get retain
  get-retain_dropped p q [] s e h = refl
  get-retain_dropped p q ((j, w) ∷ m) {v} s e h = ground (
    arith,
    get-retain_dropped p q m {v = v} s.1,
    get-retain_absent p j m,
    Above-get j m s.0,
    (same_iff q j).0,
  )

  pub get-retain_never :
      (p : K → V → Bool) (q : K) (m : Map K V)
      → ((v : V) → p q v ≡ false)
      → get q (retain p m) ≡ none
  unfolding get retain
  get-retain_never p q [] h = refl
  get-retain_never p q ((j, w) ∷ m) h =
      ground (arith, get-retain_never p q m h, (same_iff q j).0, h w)

  pub All-retain {μ} :
      (P : K × V → Type μ) (p : K → V → Bool) (m : Map K V) → All P m → All P (retain p m)
  unfolding retain
  All-retain P p [] a = tt
  All-retain P p ((j, w) ∷ m) a = ground (arith, All-retain P p m a.1)
