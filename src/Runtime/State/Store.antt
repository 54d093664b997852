-- ===== src/Runtime/State/Store.antt =====
-- Reading the store of states after a write and after an object was created.
use policyengine_observabili.Base.{
  ℕ, zero, suc, ◌<◌, ◌++◌, length, nat_eq, nat_eq_iff, ◌≡◌, refl, sym, ap, ◌∙◌, subst, false,
  Bool-cases, inl, inr, some_injective, Option, none, some, List, [], ◌∷◌, arith,
}
use policyengine_observabili.Runtime.State.{get, set_at, read, write}

module _ {ℓ} {A : Type ℓ} where
  pub get-bound : (xs : List A) (i : ℕ) (x : A) → get xs i ≡ some x → i < length xs
  unfolding get
  get-bound [] i x h = absurd (ground arith)
  get-bound (y ∷ xs) zero x h = omega arith
  get-bound (y ∷ xs) (suc i) x h = omega (arith, get-bound xs i x h)

  pub get-append : (xs ys : List A) (i : ℕ) (x : A) → get xs i ≡ some x → get (xs ++ ys) i ≡ some x
  unfolding get
  get-append [] ys i x h = absurd (ground arith)
  get-append (y ∷ xs) ys zero x h = h
  get-append (y ∷ xs) ys (suc i) x h = get-append xs ys i x h

  pub get-last : (xs : List A) (x : A) → get (xs ++ x ∷ []) (length xs) ≡ some x
  unfolding get
  get-last [] x = refl
  get-last (y ∷ xs) x = get-last xs x

  pub get-set_at-same :
      (i : ℕ) (x y : A) (xs : List A) → get xs i ≡ some x → get (set_at i y xs) i ≡ some y
  unfolding get set_at
  get-set_at-same i x y [] h = absurd (ground arith)
  get-set_at-same zero x y (z ∷ xs) h = refl
  get-set_at-same (suc i) x y (z ∷ xs) h = get-set_at-same i x y xs h

  pub get-set_at-other :
      (i j : ℕ) (y : A) (xs : List A) → nat_eq i j ≡ false → get (set_at i y xs) j ≡ get xs j
  unfolding get set_at
  get-set_at-other i j y [] h = refl
  get-set_at-other zero zero y (z ∷ xs) h = absurd (ground arith)
  get-set_at-other zero (suc j) y (z ∷ xs) h = refl
  get-set_at-other (suc i) zero y (z ∷ xs) h = refl
  get-set_at-other (suc i) (suc j) y (z ∷ xs) h = get-set_at-other i j y xs (ground arith)

-- Each object of a store is still there, in a state that `Same` relates to the one it had.
abbrev pub Kept {ℓ κ} : {A : Type ℓ} → (A → A → Type κ) → List A → List A → Type (ℓ ⊔ κ)
Kept {A = A} Same xs ys =
    (i : ℕ) (s : A) → get xs i ≡ some s → (t : A) × (get ys i ≡ some t) × Same s t

module _ {ℓ κ} {A : Type ℓ} (Same : A → A → Type κ) (same_refl : (s : A) → Same s s)
    (same_trans : (s t u : A) → Same s t → Same t u → Same s u) where
  pub Kept-refl : (xs : List A) → Kept Same xs xs
  Kept-refl xs i s h = (s, h, same_refl s)

  pub Kept-trans : (xs ys zs : List A) → Kept Same xs ys → Kept Same ys zs → Kept Same xs zs
  Kept-trans xs ys zs h k i s e =
      let t = h i s e in let u = k i t.0 t.1 in (u.0, u.1, same_trans s t.0 u.0 t.2 u.2)

  pub Kept-append : (xs ys : List A) → Kept Same xs (xs ++ ys)
  Kept-append xs ys i s h = (s, get-append xs ys i s h, same_refl s)

  -- A write through a variable, of a state related to the one that stands there.
  pub Kept-write :
      (o : Option ℕ) (xs : List A) (s t : A)
      → read o xs ≡ some s
      → Same s t
      → Kept Same xs (write o t xs)
  unfolding read write
  Kept-write none xs s t h same i u k = (u, k, same_refl u)
  Kept-write (some j) xs s t h same i u k = elim (Bool-cases (nat_eq j i)) [
    | inl e ↦ (
      t,
      ap (get (set_at j t xs)) (sym ((nat_eq_iff j i).0 e)) ∙ get-set_at-same j s t xs h,
      subst (λ x. Same x t) (some_injective (sym h ∙ (ap (get xs) ((nat_eq_iff j i).0 e) ∙ k)))
          same,
    )
    | inr e ↦ (u, get-set_at-other j i t xs e ∙ k, same_refl u)
  ]

  -- A write to the object that was created after `xs` leaves those of `xs`.
  pub Kept-later :
      (xs ys : List A) (t : A) (o : Option ℕ)
      → Kept Same xs ys
      → o ≡ some (length xs)
      → Kept Same xs (write o t ys)
  unfolding write
  Kept-later xs ys t o k e i u h =
      let v = k i u h in
      let other : nat_eq (length xs) i ≡ false =
        ground (arith, get-bound xs i u h, nat_eq_iff (length xs) i) in
      (v.0, rw e (get-set_at-other (length xs) i t ys other ∙ v.1), v.2)
