-- ===== src/Ingest/Limited.antt =====
-- `read_text_limited` of crates/connectors/src/limited.rs. A stream is what its chunks are; `lossy`
-- is `String::from_utf8_lossy`, and the error of a chunk is its text.
use hkgov_rethink.Prelude.{
  ℕ, ◌+◌, ◌-◌, ◌^◌, ◌≡◌, ◌<◌, ◌≤◌, refl, sym, true, false, List, [], ◌∷◌, ◌++◌, append-nil,
  append_assoc, map, Text, text, decimal, Result, ok, err, ltb, leb, min, if◌then◌else◌, length,
  length-append, concat, arith, Bool-cases, inl, inr,
}
use hkgov_rethink.Common.Errors.{Error, upstream}

-- `saturating_add` of two `usize`.
abbrev pub saturating_add : ℕ → ℕ → ℕ
saturating_add a b = min (a + b) (2 ^ 64 - 1)

-- The message, whose dash is three bytes of UTF-8.
unfoldable pub over_cap : Text → ℕ → Error
over_cap origin max_bytes = upstream origin 0 (
    text "upstream body exceeded "
    ++ (decimal max_bytes
        ++ (text " byte cap "
            ++ ((0xe2 ∷ 0x80 ∷ 0x94 ∷ [])
                ++ text " refusing to buffer further (possible runaway upstream)"))))

unfoldable pub broken_read : Text → Text → Error
broken_read origin e = upstream origin 0 (text "body read: " ++ e)

module _ (lossy : Text → Text) (origin : Text) (max_bytes : ℕ) where
  -- The loop, with its buffer.
  unfoldable pub read_from : Text → List (Result Text Text) → Result Text Error
  unfolding over_cap broken_read
  read_from buf [] = ok (lossy buf)
  read_from buf (err e ∷ stream) = err (broken_read origin e)
  read_from buf (ok chunk ∷ stream) =
      let rest = read_from (buf ++ chunk) stream in
      if ltb max_bytes (saturating_add (length buf) (length chunk))
      then err (over_cap origin max_bytes)
      else rest

  unfoldable pub read_text_limited : List (Result Text Text) → Result Text Error
  unfolding read_from
  read_text_limited stream = read_from [] stream

  unfoldable pub read_text_limited_then {ℓ} :
      {T : Type ℓ} → List (Result Text Text) → (Text → Result T Error) → Result T Error
  unfolding read_text_limited
  read_text_limited_then stream decode = elim (read_text_limited stream) [
    | ok t ↦ decode t
    | err e ↦ err e
  ]

  abbrev chunks : List Text → List (Result Text Text)
  chunks bs = map ok bs

  -- The stream after some chunks is only looked at if they fit.
  read_from-append :
      (buf : Text) (bs : List Text) (stream : List (Result Text Text))
      → max_bytes < 2 ^ 64 - 1
      → length buf ≤ max_bytes
      → read_from buf (chunks bs ++ stream) ≡ (
          if leb (length (buf ++ concat bs)) max_bytes
          then read_from (buf ++ concat bs) stream
          else err (over_cap origin max_bytes))
  unfolding read_from
  read_from-append buf [] stream m h =
      let fits : leb (length buf) max_bytes ≡ true = ground (arith, h) in
      rw (append-nil buf, fits) refl
  read_from-append buf (b ∷ bs) stream m h =
      let split = append_assoc buf b (concat bs) in
      let n = length-append buf b in
      let k = length-append (buf ++ b) (concat bs) in
      elim (Bool-cases (ltb max_bytes (saturating_add (length buf) (length b)))) [
        | inl e ↦
            let big : leb (length ((buf ++ b) ++ concat bs)) max_bytes ≡ false =
              ground (arith, e, n, k, m) in
            rw (e, ← split, big) refl
        | inr e ↦
            let fits : length (buf ++ b) ≤ max_bytes = ground (arith, e, n, m) in
            rw (e, ← split) (read_from-append (buf ++ b) bs stream m fits)
      ]

  -- A body is read whole if its chunks together are within the cap, whatever their sizes, and
  -- refused if they are not. A chunk that fails is reported only if what came before it is within
  -- the cap, and nothing behind it, or behind the cap, is looked at. The cap is below the largest
  -- `usize`.
  pub read_text_limited_lem :
      (bs : List Text) (e : Text) (stream : List (Result Text Text))
      → max_bytes < 2 ^ 64 - 1
      → (read_text_limited (chunks bs) ≡ (
          if leb (length (concat bs)) max_bytes
          then ok (lossy (concat bs))
          else err (over_cap origin max_bytes)))
        × (read_text_limited (chunks bs ++ err e ∷ stream) ≡ (
            if leb (length (concat bs)) max_bytes
            then err (broken_read origin e)
            else err (over_cap origin max_bytes)))
  unfolding read_text_limited read_from
  read_text_limited_lem bs e stream m = (
    rw (sym (append-nil (chunks bs))) (read_from-append [] bs [] m (omega arith)),
    read_from-append [] bs (err e ∷ stream) m (omega arith),
  )
