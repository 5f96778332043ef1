-- ===== src/Access.antt =====
-- Who gets to the API: the key guard (crates/api/src/auth.rs and secrets.rs), and the address that
-- the rate limiter counts by (crates/api/src/ratelimit.rs). A header is what `to_str` returned for it,
-- if it is there.
pub mod Guard
pub mod Proxies
pub mod Session
pub mod SignIn
mod Examples
use hkgov_rethink.Prelude.{
  ℕ, zero, suc, ◌+◌, ◌-◌, Bool, true, false, not, ◌&&◌, ◌||◌, List, [], ◌∷◌, ◌++◌, map, Option,
  none, some, Text, text, text_key, same, is_empty, trim, length, get_elem?, select, ltb, ◌==◌,
  if◌then◌else◌,
}

-- `Option::filter` for texts that are not empty.
abbrev pub non_empty : Text → Option Text
non_empty s = if is_empty s then none else some s

unfoldable pub make_guard : Option Text → Option Text
make_guard none = none
make_guard (some key) = non_empty key

-- `ct_eq` on slices of one length: every byte is compared, whatever the ones before gave.
unfoldable pub ct_eq : Text → Text → Bool
ct_eq [] bs = true
ct_eq (a ∷ s) [] = true
ct_eq (a ∷ s) (b ∷ bs) = ct_eq s bs && a == b

unfoldable pub constant_time_eq : Text → Text → Bool
unfolding ct_eq
constant_time_eq a b = if not (length a == length b) then false else ct_eq a b

unfoldable pub secret_str_eq : Text → Text → Bool
secret_str_eq a b = constant_time_eq a b

abbrev pub is_exempt : Text → Bool
is_exempt path =
    same path (text "/")
    || same path (text "/health")
    || same path (text "/health/sources")
    || same path (text "/ready")

unfoldable pub provided_key : Option Text → Option Text
provided_key none = none
provided_key (some value) = non_empty (trim value)

abbrev pub key_matches : Text → Option Text → Bool
key_matches expected none = false
key_matches expected (some p) = secret_str_eq p expected

-- Whether the request goes on to its handler; otherwise it is answered with a 401.
unfoldable pub guard : Text → Text → Option Text → Bool
unfolding provided_key
guard expected path header = is_exempt path || key_matches expected (provided_key header)

-- `split(',')`
abbrev pub split_commas : Text → Text → List Text
split_commas part [] = part ∷ []
split_commas part (a ∷ s) =
    if a == 44 then part ∷ split_commas [] s else split_commas (part ++ a ∷ []) s

unfoldable pub hops_of : Text → List Text
hops_of xff = select (λ s. not (is_empty s)) (map trim (split_commas [] xff))

abbrev pub hop_index : ℕ → ℕ → ℕ
hop_index trusted_hops n = if ltb trusted_hops n then n - 1 - trusted_hops else 0

module _ {Ip : Type 0} (parse_ip : Text → Option Ip) where
  abbrev pub ip_or : Ip → Option Text → Ip
  ip_or addr none = addr
  ip_or addr (some s) = elim (parse_ip s) [ some ip ↦ ip | none ↦ addr ]

  -- The entry that is chosen of a header's hops, if there are any.
  unfoldable pub chosen_ip : Ip → ℕ → List Text → Ip
  chosen_ip addr trusted_hops hops =
      ip_or addr (get_elem? hops (hop_index trusted_hops (length hops)))

  unfoldable pub safe_ip : Option Text → Ip → ℕ → Ip
  unfolding hops_of chosen_ip
  safe_ip header addr trusted_hops =
      if trusted_hops == 0
      then addr
      else elim header [ none ↦ addr | some xff ↦ chosen_ip addr trusted_hops (hops_of xff) ]
