-- ===== src/Identity/Sections.antt =====
-- The methods of `UserStore` (crates/agent/src/identity.rs) in any interleaving of their sections
-- under a lock, of any number of callers and sweeps: a token is worth one session.
use hkgov_rethink.Prelude.{
  ℕ, ◌≡◌, ◌⊎◌, inl, inr, refl, true, false, List, [], ◌∷◌, Option, none, some, Text, text, text_key,
  Map, get, insert, same, get-insert, get-insert_self, ltb, IsSorted, insert-IsSorted,
  retain-IsSorted, get-retain_absent, get-retain_dropped, All, arith, Bool-cases, Option-cases,
}
use hkgov_rethink.Identity.Store.{
  UserStore, Token, is_live_token, opaque_token, user_id_for, maybe_reap_expired, provision,
  mint_token, claim, claim_found, mint_session, reap_tokens, reap_sessions, reap_users,
}

-- A section with what its caller brings along: random bytes, times, and what it read before.
pub data Section : Type 0 where
  counts : Section
  provisions : Text → ℕ → Section
  mints_token : Text → Text → ℕ → Section
  claims : Text → ℕ → Section
  mints_session : Text → Text → ℕ → Section
  reaps_tokens reaps_sessions : ℕ → Section
  reaps_users : List Text → List Text → Section

module _ (sha : Text → Text) where
  unfoldable pub act : Section → UserStore → UserStore
  act counts s = (maybe_reap_expired sha s).0
  act (provisions email now) s = provision sha email now s
  act (mints_token bytes email now) s = (mint_token sha bytes email now s).0
  act (claims token now) s = (claim sha token now s).0
  act (mints_session bytes user_id now) s = (mint_session sha bytes user_id now s).0
  act (reaps_tokens now) s = reap_tokens sha now s
  act (reaps_sessions now) s = reap_sessions sha now s
  act (reaps_users by_token by_session) s = reap_users sha by_token by_session s

  unfoldable pub act_all : List Section → UserStore → UserStore
  act_all [] s = s
  act_all (x ∷ xs) s = act_all xs (act x s)

  -- A section that does not mint the token again: the random bytes see to that.
  abbrev pub IsFresh : Text → Section → Type 0
  IsFresh token (mints_token bytes email now) =
      (seq : ℕ) → same token (opaque_token sha bytes email seq (text "token")) ≡ false
  IsFresh token _ = Unit

  -- The token is gone, or marked.
  abbrev IsSpent : Text → Map Text Token → Type 0
  IsSpent token m =
      IsSorted m
      × ((get token m ≡ none) ⊎ ((t : Token) × (get token m ≡ some t) × (t.redeemed ≡ true)))

  pub claim_cases {ℓ} :
      (P : UserStore × Option Text → Type ℓ) (token : Text) (now : ℕ) (s : UserStore)
      → P (s, none)
      → ((t : Token)
          → get token s.tokens ≡ some t
          → t.redeemed ≡ false
          → P (
            record s { tokens = insert token (record t { redeemed = true }) s.tokens },
            some (user_id_for sha t.email),
          ))
      → P (claim sha token now s)
  unfolding claim claim_found
  claim_cases P token now s refused claimed = elim (Option-cases (get token s.tokens)) [
    | inl e ↦ rw (e, claim_found) refused
    | inr (t, e) ↦ elim (Bool-cases t.redeemed) [
      | inl used ↦ rw (e, claim_found, used) refused
      | inr new ↦ elim (Bool-cases (ltb t.expires_at now)) [
        | inl late ↦ rw (e, claim_found, new, late) refused
        | inr timely ↦ rw (e, claim_found, new, timely) (claimed t e new)
      ]
    ]
  ]

  claim_spent :
      (token : Text) (now : ℕ) (s : UserStore)
      → IsSpent token s.tokens
      → (claim sha token now s).1 ≡ none
  claim_spent token now s (sorted, spent) =
      claim_cases (λ r. r.1 ≡ none) token now s refl (λ t e new. ground (arith, spent))

  -- A token that is put into the map, marked if it is this one.
  insert-IsSpent :
      (token q : Text) (t : Token) (m : Map Text Token)
      → (same token q ≡ true → t.redeemed ≡ true)
      → IsSpent token m
      → IsSpent token (insert q t m)
  insert-IsSpent token q t m marked (sorted, spent) = (
    insert-IsSorted q t m sorted,
    elim (Bool-cases (same token q)) [
      | inl this ↦ inr (t, rw (get-insert q token t m, this), marked this)
      | inr other ↦ rw (get-insert q token t m, other) spent
    ],
  )

  -- A claim that succeeds marks the token.
  claim-IsSpent :
      (token : Text) (now : ℕ) (s : UserStore) {u : Text}
      → IsSorted s.tokens
      → (claim sha token now s).1 ≡ some u
      → IsSpent token (claim sha token now s).0.tokens
  claim-IsSpent token now s {u} sorted =
      claim_cases (λ r. r.1 ≡ some u → IsSpent token r.0.tokens) token now s (λ e. cc)
        (λ t e new h. (
          insert-IsSorted token (record t { redeemed = true }) s.tokens sorted,
          inr (record t { redeemed = true }, get-insert_self token _ s.tokens, refl),
        ))

  provision_tokens :
      (email : Text) (now : ℕ) (s : UserStore) → (provision sha email now s).tokens ≡ s.tokens
  unfolding provision
  provision_tokens email now s = ground arith

  act-IsSpent :
      (token : Text) (x : Section) (s : UserStore)
      → IsFresh token x
      → IsSpent token s.tokens
      → IsSpent token (act x s).tokens
  unfolding act maybe_reap_expired mint_token mint_session reap_tokens reap_sessions reap_users
  act-IsSpent token counts s fresh spent = spent
  act-IsSpent token (provisions email now) s fresh spent = rw (provision_tokens email now s) spent
  act-IsSpent token (mints_token bytes email now) s fresh spent =
      insert-IsSpent token _ _ s.tokens (λ this. absurd (cc (this, fresh s.counter))) spent
  act-IsSpent token (claims other now) s fresh spent =
      claim_cases (λ r. IsSpent token r.0.tokens) other now s spent
        (λ t e new.
          insert-IsSpent token other (record t { redeemed = true }) s.tokens (λ this. refl) spent)
  act-IsSpent token (mints_session bytes user_id now) s fresh spent = spent
  act-IsSpent token (reaps_tokens now) s fresh (sorted, inl gone) =
      (retain-IsSorted _ s.tokens sorted, inl (get-retain_absent _ token s.tokens gone))
  act-IsSpent token (reaps_tokens now) s fresh (sorted, inr (t, e, marked)) = (
    retain-IsSorted _ s.tokens sorted,
    inl (get-retain_dropped (λ k x. is_live_token now x) token s.tokens sorted e (rw marked)),
  )
  act-IsSpent token (reaps_sessions now) s fresh spent = spent
  act-IsSpent token (reaps_users by_token by_session) s fresh spent = spent

  act_all-IsSpent :
      (token : Text) (xs : List Section) (s : UserStore)
      → All (IsFresh token) xs
      → IsSpent token s.tokens
      → IsSpent token (act_all xs s).tokens
  unfolding act_all
  act_all-IsSpent token [] s fresh spent = spent
  act_all-IsSpent token (x ∷ xs) s fresh spent =
      act_all-IsSpent token xs (act x s) fresh.1 (act-IsSpent token x s fresh.0 spent)

  -- With sorted tokens, a token gives one session at most: after a claim of it that succeeded, and whatever sections of
  -- whatever callers and sweeps run then, in any order, as long as random bytes do not give the
  -- same token again, every further claim of it fails, at any time.
  pub claim_once :
      (token : Text) (xs : List Section) (s : UserStore) (t later : ℕ) (user_id : Text)
      → IsSorted s.tokens
      → (claim sha token t s).1 ≡ some user_id
      → All (IsFresh token) xs
      → (claim sha token later (act_all xs (claim sha token t s).0)).1 ≡ none
  claim_once token xs s t later user_id sorted claimed fresh =
      claim_spent token later _
        (act_all-IsSpent token xs _ fresh (claim-IsSpent token t s {u = user_id} sorted claimed))
