-- ===== src/Prelude/Texts.antt =====
-- Rust's `String` and `&str` as the list of their bytes, ordered as Rust orders them.
use Prim.Native.Nat.{ℕ, ◌+◌, compare, Ordering}
use Prim.Native.Char.{code}
use Prim.Native.String.{String}
use mathlib.Core.Path.{◌≡◌, refl}
use mathlib.Core.Bool.{Bool, true, false, ◌&&◌, ◌||◌}
use mathlib.Core.List.{List, [], ◌∷◌, ◌++◌}
use native.Mathlib.Omega.{arith}
use hkgov_rethink.Prelude.Tests.{◌==◌, leb, if◌then◌else◌}
use hkgov_rethink.Prelude.Keys.{Key, then_with}

abbrev pub Text : Type 0
Text = List ℕ

-- The bytes of a literal (all of the program's literals that matter are ASCII).
abbrev pub text : String → Text
text String.[] = []
text (String.◌∷◌ c s) = code c ∷ text s

abbrev pub text_cmp : Text → Text → Ordering
text_cmp [] [] = Ordering.eq
text_cmp [] (b ∷ t) = Ordering.lt
text_cmp (a ∷ s) [] = Ordering.gt
text_cmp (a ∷ s) (b ∷ t) = then_with (compare a b) (text_cmp s t)

pub text_self : (a : Text) → text_cmp a a ≡ Ordering.eq
text_self [] = refl
text_self (a ∷ s) = ground (arith, text_self s)

pub text_eq : (a b : Text) → text_cmp a b ≡ Ordering.eq → a ≡ b
text_eq [] [] h = refl
text_eq [] (b ∷ t) h = cc
text_eq (a ∷ s) [] h = cc
text_eq (a ∷ s) (b ∷ t) h = ground (arith, text_eq s t)

pub text_flip : (a b : Text) → text_cmp a b ≡ Ordering.lt → text_cmp b a ≡ Ordering.gt
text_flip [] [] h = cc
text_flip [] (b ∷ t) h = refl
text_flip (a ∷ s) [] h = cc
text_flip (a ∷ s) (b ∷ t) h = ground (arith, text_flip s t)

pub text_back : (a b : Text) → text_cmp a b ≡ Ordering.gt → text_cmp b a ≡ Ordering.lt
text_back [] [] h = cc
text_back [] (b ∷ t) h = cc
text_back (a ∷ s) [] h = refl
text_back (a ∷ s) (b ∷ t) h = ground (arith, text_back s t)

pub text_trans :
    (a b c : Text)
    → text_cmp a b ≡ Ordering.lt
    → text_cmp b c ≡ Ordering.lt
    → text_cmp a c ≡ Ordering.lt
text_trans [] [] c h k = cc
text_trans [] (b ∷ t) [] h k = cc
text_trans [] (b ∷ t) (c ∷ u) h k = refl
text_trans (a ∷ s) [] c h k = cc
text_trans (a ∷ s) (b ∷ t) [] h k = cc
text_trans (a ∷ s) (b ∷ t) (c ∷ u) h k = ground (arith, text_trans s t u)

instance abbrev pub text_key : Key Text
text_key = record {
  cmp = text_cmp;
  cmp_self = text_self;
  cmp_eq = text_eq;
  cmp_flip = text_flip;
  cmp_back = text_back;
  cmp_trans = text_trans;
}

-- `str::is_empty`
abbrev pub is_empty {ℓ} : {A : Type ℓ} → List A → Bool
is_empty [] = true
is_empty (x ∷ s) = false

-- `s.starts_with(p)`
abbrev pub starts_with : Text → Text → Bool
starts_with s [] = true
starts_with [] (b ∷ p) = false
starts_with (a ∷ s) (b ∷ p) = a == b && starts_with s p

-- `s.contains(p)` with a text for the pattern
abbrev pub contains : Text → Text → Bool
contains [] p = starts_with [] p
contains (a ∷ s) p = starts_with (a ∷ s) p || contains s p

-- `to_ascii_lowercase`, byte by byte: bytes outside `A`..`Z` stay.
abbrev pub to_ascii_lowercase : Text → Text
to_ascii_lowercase [] = []
to_ascii_lowercase (a ∷ s) = (if leb b'A' a && leb a b'Z' then a + 32 else a) ∷ to_ascii_lowercase s

-- `+` on texts, as `format!` and the hasher's `update` put them together.
abbrev pub concat : List Text → Text
concat [] = []
concat (s ∷ ss) = s ++ concat ss

-- `join`
abbrev pub join : Text → List Text → Text
join separator [] = []
join separator (s ∷ []) = s
join separator (s ∷ t ∷ ss) = s ++ (separator ++ join separator (t ∷ ss))

pub starts_with-append : (p s : Text) → starts_with (p ++ s) p ≡ true
starts_with-append [] s = refl
starts_with-append (a ∷ p) s = ground (arith, starts_with-append p s)

pub contains_front : (p s : Text) → contains (p ++ s) p ≡ true
contains_front [] [] = refl
contains_front [] (a ∷ s) = refl
contains_front (a ∷ p) s = ground (arith, starts_with-append p s)

pub contains-append : (a s p : Text) → contains s p ≡ true → contains (a ++ s) p ≡ true
contains-append [] s p h = h
contains-append (c ∷ a) s p h = ground (arith, contains-append a s p h)

pub contains_middle : (a p s : Text) → contains (a ++ (p ++ s)) p ≡ true
contains_middle a p s = contains-append a (p ++ s) p (contains_front p s)

starts_with_part : (s b p : Text) → starts_with s p ≡ true → starts_with (s ++ b) p ≡ true
starts_with_part [] [] [] h = refl
starts_with_part [] (c ∷ b) [] h = refl
starts_with_part [] b (d ∷ p) h = cc
starts_with_part (c ∷ s) b [] h = refl
starts_with_part (c ∷ s) b (d ∷ p) h = ground (arith, starts_with_part s b p)

-- What the front of a text contains, the text contains.
pub contains_part : (s b p : Text) → contains s p ≡ true → contains (s ++ b) p ≡ true
contains_part [] [] p h = h
contains_part [] (c ∷ b) p h = ground (arith, starts_with_part [] (c ∷ b) p)
contains_part (c ∷ s) b p h = ground (arith, contains_part s b p, starts_with_part (c ∷ s) b p)
