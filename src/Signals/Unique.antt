-- ===== src/Signals/Unique.antt =====
-- The ids of the signals of different owners (crates/agent/src/signal.rs) are different.
use hkgov_rethink.Prelude.{
  ℕ, zero, suc, ◌+◌, ◌/◌, ◌%◌, ◌≡◌, refl, sym, ap, ◌∙◌, [], ◌∷◌, ◌++◌, Text, text, length,
  length-append, take, append_cancel, arith,
}
use hkgov_rethink.Scheduler.Targets.{ScanTarget}
use hkgov_rethink.Analysis.Finding.{hex_digits, lower_hex}
use hkgov_rethink.Signals.Id.{signal_id, signal_bytes}

take-append : (xs ys : Text) → take (length xs) (xs ++ ys) ≡ xs
take-append [] [] = refl
take-append [] (y ∷ ys) = refl
take-append (x ∷ xs) ys = ap (λ t. x ∷ t) (take-append xs ys)

same_front : (xs ys us vs : Text) → xs ++ us ≡ ys ++ vs → length us ≡ length vs → xs ≡ ys
same_front xs ys us vs e l =
    let a = length-append xs us in
    let b = length-append ys vs in
    let c = ap length e in
    let n : length xs ≡ length ys = omega arith in
    sym (take-append xs us) ∙ (ap (take (length xs)) e ∙ (rw n (take-append ys vs)))

length-hex_digits : (n m : ℕ) (rest : Text) → length (hex_digits n m rest) ≡ n + length rest
length-hex_digits zero m rest = omega arith
length-hex_digits (suc n) m rest =
    let h = length-hex_digits n (m / 16) (lower_hex (m % 16) ∷ rest) in omega arith

-- Signals of different owners never share an id, whatever the hash does: the owner can be read off
-- an id, since the digits behind it are always sixteen.
pub signal_id-owner :
    (sip : Text → ℕ) (a b : Text) (t u : ScanTarget) → signal_id sip a t ≡ signal_id sip b u → a ≡ b
unfolding signal_id
signal_id-owner sip a b t u e = same_front a b _ _ (append_cancel (text "sig:") _ _ e) (
    ap suc (
      length-hex_digits 16 (sip (signal_bytes a t)) []
      ∙ sym (length-hex_digits 16 (sip (signal_bytes b u)) [])))
