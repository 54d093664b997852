-- ===== src/Otel/Endpoint.antt =====
-- The endpoint of a signal is itself an endpoint of that signal.
use mathlib.Core.List.{reverse, reverse-cons, reverse-append, reverse-reverse}
use policyengine_observabili.Base.{
  ℕ, nat_eq, nat_eq_iff, Text, text, lstrip, starts_with, ends_with, ◌++◌, ◌≡◌, refl, sym, ap, ◌∙◌,
  subst, is_empty, length, ◌≤◌, Bool, true, false, Bool-cases, inl, inr, if◌then◌else◌, [], ◌∷◌,
  arith,
}
use policyengine_observabili.Otel.{signal_path, without_slashes, http_signal_endpoint}

lstrip-lstrip : (p : ℕ → Bool) (t : Text) → lstrip p (lstrip p t) ≡ lstrip p t
lstrip-lstrip p [] = refl
lstrip-lstrip p (c ∷ t) = elim (Bool-cases (p c)) [
  | inl e ↦ rw e (lstrip-lstrip p t)
  | inr e ↦ rw e (rw e refl)
]

starts_with-append : (p t : Text) → starts_with p (p ++ t) ≡ true
starts_with-append [] t = refl
starts_with-append (c ∷ p) t = ground (arith, nat_eq_iff c c, starts_with-append p t)

length-lstrip : (p : ℕ → Bool) (t : Text) → length (lstrip p t) ≤ length t
length-lstrip p [] = omega arith
length-lstrip p (c ∷ t) = ground (arith, length-lstrip p t)

-- A text that nothing is stripped from begins the same way with more behind it.
lstrip-append :
    (p : ℕ → Bool) (s t : Text) → lstrip p s ≡ s → is_empty s ≡ false → lstrip p (s ++ t) ≡ s ++ t
lstrip-append p [] t h n = absurd (ground (arith, n))
lstrip-append p (c ∷ s) t h n = elim (Bool-cases (p c)) [
  | inl e ↦ absurd (too_long (subst (λ b. (if b then lstrip p s else c ∷ s) ≡ c ∷ s) e h))
  | inr e ↦ rw e refl
]
  where
    too_long : lstrip p s ≡ c ∷ s → ⊥
    too_long k = omega (arith, ap length k, length-lstrip p s)

-- What stripping leaves does not change by stripping again.
without_slashes-again : (t : Text) → without_slashes (without_slashes t) ≡ without_slashes t
without_slashes-again t = ap reverse (
    ap (lstrip (nat_eq b'/')) (reverse-reverse (lstrip (nat_eq b'/') (reverse t)))
    ∙ lstrip-lstrip (nat_eq b'/') (reverse t))

without_slashes-append :
    (v suffix : Text)
    → without_slashes suffix ≡ suffix
    → is_empty (reverse suffix) ≡ false
    → without_slashes (v ++ suffix) ≡ v ++ suffix
without_slashes-append v suffix h n =
    let kept : lstrip (nat_eq b'/') (reverse suffix) ≡ reverse suffix =
      sym (reverse-reverse _) ∙ ap reverse h in
    ap (λ t. reverse (lstrip (nat_eq b'/') t)) (reverse-append v suffix)
    ∙ ap reverse (lstrip-append (nat_eq b'/') (reverse suffix) (reverse v) kept n)
    ∙ ap reverse (sym (reverse-append v suffix))
    ∙ reverse-reverse (v ++ suffix)

is_empty-append : (t : Text) (c : ℕ) → is_empty (t ++ c ∷ []) ≡ false
is_empty-append [] c = refl
is_empty-append (d ∷ t) c = refl

is_empty-reverse : (c : ℕ) (t : Text) → is_empty (reverse (c ∷ t)) ≡ false
is_empty-reverse c t = rw (reverse-cons c t) (is_empty-append (reverse t) c)

ends_with-append : (v suffix : Text) → ends_with suffix (v ++ suffix) ≡ true
ends_with-append v suffix =
    ap (starts_with (reverse suffix)) (reverse-append v suffix)
    ∙ starts_with-append (reverse suffix) (reverse v)

-- If a signal's path does not end with a slash, the endpoint of a signal ends with the path of the
-- signal, and the endpoint of that endpoint is itself: an endpoint that names its signal is kept.
pub http_signal_endpoint_lem :
    (endpoint signal : Text)
    → without_slashes (signal_path signal) ≡ signal_path signal
    → (ends_with (signal_path signal) (http_signal_endpoint endpoint signal) ≡ true)
      × (http_signal_endpoint (http_signal_endpoint endpoint signal) signal
          ≡ http_signal_endpoint endpoint signal)
unfolding http_signal_endpoint
http_signal_endpoint_lem endpoint signal h =
    let path = signal_path signal in
    let n : is_empty (reverse path) ≡ false = is_empty-reverse b'/' (text "v1/" ++ signal) in
    let value = without_slashes endpoint in
    elim (Bool-cases (ends_with path value)) [
      | inl e ↦ rw e (e, rw (without_slashes-again endpoint) (rw e refl))
      | inr e ↦ rw e (
        ends_with-append value path,
        rw (without_slashes-append value path h n) (rw (ends_with-append value path) refl),
      )
    ]
