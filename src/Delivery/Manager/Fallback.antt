-- ===== src/Delivery/Manager/Fallback.antt =====
-- There is always a destination: standard output stands in where no other is left.
use policyengine_observabili.Base.{
  ◌≡◌, refl, ==_refl, Bool, true, false, List, [], ◌∷◌, ◌++◌, arith, Bool-cases, inl, inr, text,
  is_empty, keep, any, nat_eq,
}
use policyengine_observabili.Delivery.Manager.{
  Strategy, Inline, Manager, QueuedDestination, fall_back, is_silent, is_disabled, disable_inline,
  disable_each, emit, enqueue_each, write_inlines, add_strategy, configure, ensure_destination,
}

is_empty-append : {A : Type 0} (xs : List A) (x : A) → is_empty (xs ++ (x ∷ [])) ≡ false
is_empty-append [] x = refl
is_empty-append (y ∷ xs) x = refl

module _ {R E : Type 0} (stdout : Strategy R E) (starts : E → Bool)
    (builds : (e : E) → (stdout.writer.build e).0 ≡ true) where
  fall_back-loud : (m : Manager R E) → is_silent (fall_back stdout m) ≡ false
  unfolding fall_back
  fall_back-loud m = elim (Bool-cases (is_silent m)) [
    | inl silent ↦
        rw (silent, builds m.world) (unfold is_silent in ground (arith, is_empty-append m.inline))
    | inr loud ↦ rw loud loud
  ]

  disable_inline-loud :
      (d : Inline R E) (m : Manager R E)
      → is_silent m ≡ false
      → is_silent (disable_inline stdout starts d m) ≡ false
  unfolding disable_inline
  disable_inline-loud d m h = elim (Bool-cases (any (λ x. nat_eq x.ident d.ident) m.inline)) [
    | inl here ↦ rw here (fall_back-loud _)
    | inr gone ↦ rw gone h
  ]

  disable_each-loud :
      (ds : List (Inline R E)) (m : Manager R E)
      → is_silent m ≡ false
      → is_silent (disable_each stdout starts ds m) ≡ false
  unfolding disable_each
  disable_each-loud [] m h = h
  disable_each-loud (d ∷ ds) m h =
      disable_each-loud ds (disable_inline stdout starts d m) (disable_inline-loud d m h)

  is_empty-write_inlines :
      (r : R) (xs : List (Inline R E)) (e : E) → is_empty (write_inlines r xs e).0 ≡ is_empty xs
  unfolding write_inlines
  is_empty-write_inlines r [] e = refl
  is_empty-write_inlines r (x ∷ xs) e = refl

  is_empty-enqueue_each :
      (r : R) (xs : List (QueuedDestination R E)) → is_empty (enqueue_each r xs) ≡ is_empty xs
  unfolding enqueue_each
  is_empty-enqueue_each r [] = refl
  is_empty-enqueue_each r (x ∷ xs) = refl

  -- If the writer for standard output can be built, a manager with a destination still has one
  -- after `emit`, however the writers fail.
  pub is_silent-emit :
      (r : R) (m : Manager R E) → is_silent m ≡ false → is_silent (emit stdout starts r m) ≡ false
  unfolding emit
  is_silent-emit r m h =
      let written = write_inlines r m.inline m.world in
      let m1 = record m { inline = written.0; world = written.2; notes = m.notes ++ written.1 } in
      let start : is_silent m1 ≡ false =
        unfold is_silent in rw (is_empty-write_inlines r m.inline m.world) h in
      let ended = disable_each-loud (keep is_disabled written.0) m1 start in
      unfold is_silent in
      rw
        (is_empty-enqueue_each r
          (disable_each stdout starts (keep is_disabled written.0) m1).queued)
        ended

module _ {R E : Type 0} (stdout : Strategy R E)
    (builds : (e : E) → (stdout.writer.build e).0 ≡ true)
    (inline : stdout.delivery ≡ text "inline") where
  ensure_destination-loud : (m : Manager R E) → is_silent (ensure_destination stdout m) ≡ false
  unfolding ensure_destination
  ensure_destination-loud m = elim (Bool-cases (is_silent m)) [
    | inl silent ↦ rw silent (
        unfold add_strategy is_silent in
        ground (arith, inline, builds m.world, is_empty-append m.inline, ==_refl (text "inline")))
    | inr loud ↦ rw loud loud
  ]

  -- A new manager has a destination, whatever strategies fail, if standard output can be built.
  pub is_silent-configure :
      (strategies : List (Strategy R E)) (e : E) → is_silent (configure stdout strategies e) ≡ false
  unfolding configure
  is_silent-configure strategies e = ensure_destination-loud _
