-- ===== src/Adapters/Fastapi/Headers.antt =====
-- Which headers a response has after those of the runtime were merged in.
use policyengine_observabili.Base.{
  Text, ◌++◌, ◌==◌, ==_iff, member, keep, not, Dict, map, Bool, true, false, Bool-cases,
  if◌then◌else◌, ◌≡◌, refl, ap, ◌∙◌, List, [], ◌∷◌, inl, inr, arith,
}
use policyengine_observabili.Adapters.Fastapi.{merge_headers}

keep-append :
    {A : Type 0} (p : A → Bool) (xs ys : List A) → keep p (xs ++ ys) ≡ keep p xs ++ keep p ys
keep-append p [] ys = refl
keep-append p (x ∷ xs) ys = elim (Bool-cases (p x)) [
  | inl e ↦ rw e (ap (λ zs. x ∷ zs) (keep-append p xs ys))
  | inr e ↦ rw e (keep-append p xs ys)
]

module _ (lower : Text → Text) (name : Text) where
  -- The headers of a name, whatever its case.
  abbrev pub named : List (Text × Text) → List (Text × Text)
  named headers = keep (λ header. lower header.0 == name) headers

  abbrev pub names : Dict Text → List Text
  names values = map (λ value. lower value.0) values

  named-keep-present :
      (taken : List Text) (headers : List (Text × Text))
      → member name taken ≡ true
      → named (keep (λ header. not (member (lower header.0) taken)) headers) ≡ []
  named-keep-present taken [] h = refl
  named-keep-present taken ((k, v) ∷ headers) h =
      let rest = named-keep-present taken headers h in
      elim (Bool-cases (member (lower k) taken)) [
        | inl e ↦ rw e rest
        | inr e ↦ elim (Bool-cases (lower k == name)) [
          | inl f ↦
              absurd (ground (arith, e, h, ap (λ t. member t taken) ((==_iff (lower k) name).0 f)))
          | inr f ↦ rw e (rw f rest)
        ]
      ]

  named-keep-absent :
      (taken : List Text) (headers : List (Text × Text))
      → member name taken ≡ false
      → named (keep (λ header. not (member (lower header.0) taken)) headers) ≡ named headers
  named-keep-absent taken [] h = refl
  named-keep-absent taken ((k, v) ∷ headers) h =
      let rest = named-keep-absent taken headers h in
      elim (Bool-cases (lower k == name)) [
        | inl f ↦
            (let e : member (lower k) taken ≡ false =
                ap (λ t. member t taken) ((==_iff (lower k) name).0 f) ∙ h in
              rw e (rw f (ap (λ zs. (k, v) ∷ zs) rest)))
        | inr f ↦ elim (Bool-cases (member (lower k) taken)) [
          | inl e ↦ rw e (rw f rest)
          | inr e ↦ rw e (rw f rest)
        ]
      ]

  named-absent : (values : Dict Text) → member name (names values) ≡ false → named values ≡ []
  named-absent [] h = refl
  named-absent ((k, v) ∷ values) h =
      let f : (lower k == name) ≡ false = ground (arith, h) in
      let rest : member name (names values) ≡ false = ground (arith, h) in
      rw f (named-absent values rest)

  append-empty : {A : Type 0} (xs : List A) → xs ++ [] ≡ xs
  append-empty [] = refl
  append-empty (x ∷ xs) = ap (λ zs. x ∷ zs) (append-empty xs)

  -- Of each name, in whatever case, the merged headers have those of the runtime if it gives the
  -- name, and otherwise those that the application gave, in their order.
  pub named-merge_headers :
      (existing : List (Text × Text)) (values : Dict Text)
      → named (merge_headers lower existing values)
        ≡ (if member name (names values) then named values else named existing)
  unfolding merge_headers
  named-merge_headers existing values =
      let kept = keep (λ header. not (member (lower header.0) (names values))) existing in
      keep-append (λ header. lower header.0 == name) kept values
      ∙ elim (Bool-cases (member name (names values))) [
        | inl e ↦
            rw e (ap (λ zs. zs ++ named values) (named-keep-present (names values) existing e))
        | inr e ↦ rw e (
            ap (λ zs. zs ++ named values) (named-keep-absent (names values) existing e)
            ∙ ap (λ zs. named existing ++ zs) (named-absent values e)
            ∙ append-empty (named existing))
      ]
