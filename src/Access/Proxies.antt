-- ===== src/Access/Proxies.antt =====
-- Which hop of `X-Forwarded-For` the rate limiter (crates/api/src/ratelimit.rs) counts by, behind
-- proxies that append the address of the peer that they see.
use hkgov_rethink.Prelude.{
  ◌+◌, ◌≡◌, refl, ap, ◌∙◌, List, [], ◌∷◌, ◌++◌, Option, some, Text, length, length-append,
  get_elem?, arith,
}
use hkgov_rethink.Access.{hop_index, ip_or, chosen_ip}

get_elem?-append : (xs ys : List Text) (y : Text) → get_elem? (xs ++ y ∷ ys) (length xs) ≡ some y
get_elem?-append [] ys y = refl
get_elem?-append (x ∷ xs) ys y = get_elem?-append xs ys y

-- Behind as many proxies as are trusted, each of which appends the address that it sees, the hops
-- are what the client sent, the client's own address, and those of all proxies but the last. When
-- the client sends hops of its own, the limiter counts by the last of these, and not by the
-- client's address, which is the hop behind it. When the client sends none, it counts by the
-- client's address.
pub chosen_ip-client :
    {Ip : Type 0} (parse_ip : Text → Option Ip) (addr : Ip) (sent : List Text) (spoof client : Text)
    (proxies : List Text)
    → (chosen_ip parse_ip addr (length proxies + 1) (sent ++ spoof ∷ client ∷ proxies)
        ≡ ip_or parse_ip addr (some spoof))
      × (chosen_ip parse_ip addr (length proxies + 1) (client ∷ proxies)
          ≡ ip_or parse_ip addr (some client))
unfolding chosen_ip
chosen_ip-client parse_ip addr sent spoof client proxies =
    let size = length-append sent (spoof ∷ client ∷ proxies) in
    let index : hop_index (length proxies + 1) (length (sent ++ spoof ∷ client ∷ proxies))
        ≡ length sent =
      ground (arith, size) in
    let first : hop_index (length proxies + 1) (length (client ∷ proxies)) ≡ 0 = ground arith in
    (
      ap (ip_or parse_ip addr) (
          ap (get_elem? (sent ++ spoof ∷ client ∷ proxies)) index
          ∙ get_elem?-append sent (client ∷ proxies) spoof),
      ap (ip_or parse_ip addr) (ap (get_elem? (client ∷ proxies)) first),
    )
