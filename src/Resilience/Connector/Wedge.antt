-- ===== src/Resilience/Connector/Wedge.antt =====
-- A probe that ends in an error which is not the upstream's failure: the breaker is told nothing.
use hkgov_rethink.Prelude.{
  ◌-◌, ◌≡◌, ◌≤◌, refl, false, Option, none, some, text, Result, err, arith, List, [], ◌∷◌, map,
}
use hkgov_rethink.Common.Errors.{Error}
use hkgov_rethink.Resilience.Breaker.{open_state, half_open, before_call}
use hkgov_rethink.Resilience.Connector.Defs.{
  World, ResilientConnector, is_breaker_worthy, rejection, attempt, fetch,
}

module _ {S A : Type 0} (w : World S A) where
  -- The connector after a fetch; a panic leaves it as it was.
  connector_after :
      ResilientConnector → Option (Result A Error × ResilientConnector × S) → ResilientConnector
  connector_after c none = c
  connector_after c (some (r, d, s)) = d

  -- Fetches one after the other, each in a world of its own, with the connector that is left.
  unfoldable pub fetch_all :
      ResilientConnector
      → List S
      → ResilientConnector × List (Option (Result A Error × ResilientConnector × S))
  unfolding connector_after
  fetch_all c [] = (c, [])
  fetch_all c (s ∷ ss) =
      let o = fetch w c s in let (d, os) = fetch_all (connector_after c o) ss in (d, o ∷ os)

  -- A rejection for the probe in flight.
  abbrev pub stuck : ResilientConnector → S → Option (Result A Error × ResilientConnector × S)
  stuck c s = some (err (rejection c.source (text "circuit half-open (probe in flight)")), c, s)

  fetch-half_open :
      (c : ResilientConnector) (s : S) → c.breaker.state ≡ half_open → fetch w c s ≡ stuck c s
  unfolding fetch before_call
  fetch-half_open c s h = ground arith

  fetch_all-half_open :
      (c : ResilientConnector) (ss : List S)
      → c.breaker.state ≡ half_open
      → fetch_all c ss ≡ (c, map (stuck c) ss)
  unfolding fetch_all
  fetch_all-half_open c [] h = refl
  fetch_all-half_open c (s ∷ ss) h = rw (fetch-half_open c s h, fetch_all-half_open c ss h)

  -- The probe of a cooled breaker whose call ends in an error that is not the upstream's failure
  -- (a decode error, a 404) leaves the breaker half open with no probe in flight. Nothing gets it
  -- out of there: every later fetch, at any time, is rejected, and leaves the connector as it is.
  pub fetch-wedges :
      (c : ResilientConnector) (s t : S) (e : Error)
      → c.breaker.state ≡ open_state
      → c.breaker.cooldown_ms ≤ w.now s - c.breaker.opened_at_ms
      → attempt w c (w.acquire s) ≡ some (err e, t)
      → is_breaker_worthy e ≡ false
      → (d : ResilientConnector) × (fetch w c s ≡ some (err e, d, t))
        × (d.breaker.state ≡ half_open)
        × ((ss : List S) → fetch_all d ss ≡ (d, map (stuck d) ss))
  unfolding fetch before_call
  fetch-wedges c s t e h cool tried plain =
      let d = record c { breaker = record (c.breaker) { state = half_open } } in
      (d, ground arith, refl, λ ss. fetch_all-half_open d ss refl)
