-- ===== src/Access/Guard.antt =====
-- Which requests the key guard (crates/api/src/auth.rs) lets through.
use hkgov_rethink.Prelude.{
  ◌≡◌, ◌⊎◌, inl, inr, refl, sym, ◌↔◌, ◌≢◌, Bool, true, false, ◌||◌, [], ◌∷◌, Option, none, some,
  Text, text, text_key, same_iff, trim, length, arith,
}
use hkgov_rethink.Access.{
  non_empty, ct_eq, constant_time_eq, secret_str_eq, is_exempt, provided_key, key_matches, guard,
}

ct_eq_sound : (a b : Text) → length a ≡ length b → ct_eq a b ≡ true → a ≡ b
unfolding ct_eq
ct_eq_sound [] [] n h = refl
ct_eq_sound [] (y ∷ b) n h = absurd (omega (arith, n))
ct_eq_sound (x ∷ a) [] n h = absurd (omega (arith, n))
ct_eq_sound (x ∷ a) (y ∷ b) n h = ground (arith, ct_eq_sound a b)

ct_eq_refl : (a : Text) → ct_eq a a ≡ true
unfolding ct_eq
ct_eq_refl [] = refl
ct_eq_refl (x ∷ a) = ground (arith, ct_eq_refl a)

-- The comparison in constant time is equality.
pub secret_str_eq_iff : (a b : Text) → (secret_str_eq a b ≡ true) ↔ (a ≡ b)
unfolding secret_str_eq constant_time_eq
secret_str_eq_iff a b = (λ h. ground (arith, ct_eq_sound a b), λ e. ground (arith, ct_eq_refl b))

abbrev pub IsExempt : Text → Type 0
IsExempt path =
    (path ≡ text "/")
    ⊎ ((path ≡ text "/health") ⊎ ((path ≡ text "/health/sources") ⊎ (path ≡ text "/ready")))

IsExempt-iff : (path : Text) → (is_exempt path ≡ true) ↔ IsExempt path
IsExempt-iff path = (
  λ h. ground (
    arith,
    (same_iff path (text "/")).0,
    (same_iff path (text "/health")).0,
    (same_iff path (text "/health/sources")).0,
    (same_iff path (text "/ready")).0,
  ),
  λ e. ground (
    arith,
    (same_iff path (text "/")).1,
    (same_iff path (text "/health")).1,
    (same_iff path (text "/health/sources")).1,
    (same_iff path (text "/ready")).1,
  ),
)

-- The header is there, and is the key but for white space around it.
abbrev pub HasKey : Text → Option Text → Type 0
HasKey expected none = ⊥
HasKey expected (some value) = trim value ≡ expected

non_empty_iff :
    (expected p : Text)
    → expected ≢ []
    → (key_matches expected (non_empty p) ≡ true) ↔ (p ≡ expected)
non_empty_iff expected [] given = (λ h. cc, λ e. absurd (given (sym e)))
non_empty_iff expected (x ∷ p) given = secret_str_eq_iff (x ∷ p) expected

key_iff :
    (expected : Text) (header : Option Text)
    → expected ≢ []
    → (key_matches expected (provided_key header) ≡ true) ↔ HasKey expected header
unfolding provided_key
key_iff expected none given = (λ h. cc, λ e. absurd e)
key_iff expected (some value) given = non_empty_iff expected (trim value) given

either_true : (a b : Bool) → (a || b ≡ true) ↔ ((a ≡ true) ⊎ (b ≡ true))
either_true true b = (λ h. inl refl, λ h. refl)
either_true false b = (λ h. inr h, λ h. ground (arith, h))

-- With a key set, the guard lets exactly those requests through that are for one of the four exempt
-- paths, character for character, or that carry the key in the header, white space around it aside.
pub guard_iff :
    (expected path : Text) (header : Option Text)
    → expected ≢ []
    → (guard expected path header ≡ true) ↔ (IsExempt path ⊎ HasKey expected header)
unfolding guard
guard_iff expected path header given =
    let (split, join) = either_true (is_exempt path) (key_matches expected (provided_key header)) in
    let (exempt, exempt') = IsExempt-iff path in
    let (key, key') = key_iff expected header given in
    (
      λ h. elim (split h) [ inl e ↦ inl (exempt e) | inr k ↦ inr (key k) ],
      λ h. elim h [ inl e ↦ join (inl (exempt' e)) | inr k ↦ join (inr (key' k)) ],
    )
