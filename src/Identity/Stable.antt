-- ===== src/Identity/Stable.antt =====
-- A process keeps the identity that it was first given.
use policyengine_observabili.Base.{
  ℕ, nat_eq_iff, Text, ==_refl, strip, is_empty, ◌++◌, ◌≡◌, refl, ap, subst, Bool, true, false,
  Bool-cases, Option-cases, inl, inr, some_injective, if◌then◌else◌, Option, none, some, List, [],
  ◌∷◌, arith,
}
use policyengine_observabili.Identity.{
  Key, Table, same_key, find, set_default, generated, identify, process_instance_id, Call, run,
}

same_key_refl : (k : Key) → same_key k k ≡ true
same_key_refl k =
    ground (arith, nat_eq_iff k.process_id k.process_id, ==_refl k.service, ==_refl k.platform_id)

find-append :
    (k : Key) (v : Text) (table : Table) (more : Table)
    → find k table ≡ some v
    → find k (table ++ more) ≡ some v
unfolding find
find-append k v [] more h = absurd (ground (arith, h))
find-append k v ((j, w) ∷ table) more h = ground (arith, h, find-append k v table more)

find-last :
    (k : Key) (v : Text) (table : Table)
    → find k table ≡ none
    → find k (table ++ (k, v) ∷ []) ≡ some v
unfolding find
find-last k v [] h = rw (same_key_refl k) refl
find-last k v ((j, w) ∷ table) h = ground (arith, h, find-last k v table)

unless :
    (b : Bool) (x given : Text × Table)
    → b ≡ false
    → (if b then none else some x) ≡ some given
    → x ≡ given
unless true x given e h = absurd (ground (arith, e))
unless false x given e h = some_injective h

module _ (decimal : ℕ → Text) where
  -- What a call returns is in the table after it.
  find-identify :
      (k : Key) (uuid : Text) (table : Table)
      → find k (identify decimal k uuid table).1 ≡ some (identify decimal k uuid table).0
  unfolding identify set_default
  find-identify k uuid table = elim (Option-cases (find k table)) [
    | inl e ↦
        rw (e, identify) (rw (e, set_default) (find-last k (generated decimal k uuid) table e))
    | inr (v, e) ↦ rw (e, identify) e
  ]

  -- What is in the table stays there.
  find-kept :
      (k j : Key) (v uuid : Text) (table : Table)
      → find k table ≡ some v
      → find k (identify decimal j uuid table).1 ≡ some v
  unfolding identify set_default
  find-kept k j v uuid table h = elim (Option-cases (find j table)) [
    | inl e ↦ rw (e, identify) (rw (e, set_default) (find-append k v table _ h))
    | inr (w, e) ↦ rw (e, identify) h
  ]

  find-run :
      (k : Key) (v : Text) (calls : List Call) (table : Table)
      → find k table ≡ some v
      → find k (run decimal calls table) ≡ some v
  unfolding run process_instance_id
  find-run k v [] table h = h
  find-run k v (c ∷ calls) table h = elim (Bool-cases (is_empty (strip c.service_name))) [
    | inl e ↦ rw e (find-run k v calls table h)
    | inr e ↦ rw e (find-run k v calls _ (find-kept k _ v c.uuid table h))
  ]

  identify-found :
      (k : Key) (v uuid : Text) (table : Table)
      → find k table ≡ some v
      → identify decimal k uuid table ≡ (v, table)
  unfolding identify
  identify-found k v uuid table h = rw (h, identify) refl

  identify-again :
      (k : Key) (uuid uuid' : Text) (table : Table) (given : Text × Table) (calls : List Call)
      → identify decimal k uuid table ≡ given
      → identify decimal k uuid' (run decimal calls given.1) ≡ (given.0, run decimal calls given.1)
  identify-again k uuid uuid' table given calls h =
      identify-found k given.0 uuid' (run decimal calls given.1) (
        find-run k given.0 calls given.1
          (subst (λ (g : Text × Table). find k g.1 ≡ some g.0) h (find-identify k uuid table)))

  -- An identity that a call returns is returned by every later call of the same process for the same
  -- service and platform, whatever calls are made between and whatever UUIDs they draw.
  pub process_instance_id-run :
      (process_id : ℕ) (uuid uuid' service_name : Text) (platform : Option Text) (table : Table)
      (given : Text × Table) (calls : List Call)
      → process_instance_id decimal process_id uuid service_name platform table ≡ some given
      → process_instance_id decimal process_id uuid' service_name platform
          (run decimal calls given.1)
        ≡ some (given.0, run decimal calls given.1)
  unfolding process_instance_id
  process_instance_id-run process_id uuid uuid' service_name platform table given calls h =
      elim (Bool-cases (is_empty (strip service_name))) [
        | inl e ↦ absurd (ground (arith, h, e))
        | inr e ↦ rw e (
            ap some (
              identify-again _ uuid uuid' table given calls
                (unless (is_empty (strip service_name)) _ given e h)))
      ]
