-- ===== src/Adapters/Flask/Installed.antt =====
-- An installation at a Flask application is whole or leaves no trace but a report.
use policyengine_observabili.Base.{
  ℕ, Bool, true, false, Bool-cases, nat_eq, nat_eq_iff, any, or_else, ◌≡◌, ◌⊎◌, refl, Option, none,
  some, List, [], ◌∷◌, ◌++◌, inl, inr, arith,
}
use policyengine_observabili.Adapters.Flask.{
  Registry, Extension, of_runtime, other_object, App, Callbacks, without, move_callback_to_start,
  register_first, register_each, roll_back, install_callbacks, instrument_with, instrument_flask,
}

-- How Flask registers a callback when it returns: at the end of those under `None`.
abbrev pub Registers : (ℕ → Registry → Registry × Bool) → Type 0
Registers register =
    (callback : ℕ) (registry : Registry)
    → (register callback registry).1 ≡ true
    → (register callback registry).0
      ≡ record registry { own = some (or_else registry.own [] ++ callback ∷ []) }

-- A callback that Flask does not have yet.
abbrev pub IsFresh : ℕ → Registry → Type 0
IsFresh callback registry = any (λ c. nat_eq c callback) (or_else registry.own []) ≡ false

without-append :
    (callback : ℕ) (callbacks : List ℕ)
    → any (λ c. nat_eq c callback) callbacks ≡ false
    → without callback (callbacks ++ callback ∷ []) ≡ some callbacks
unfolding without
without-append callback [] h = rw ((nat_eq_iff callback callback).1 refl) refl
without-append callback (c ∷ callbacks) h =
    let other : nat_eq c callback ≡ false = ground (arith, h) in
    let rest : any (λ c. nat_eq c callback) callbacks ≡ false = ground (arith, h) in
    rw other (rw (without-append callback callbacks rest) refl)

move-append :
    (callback : ℕ) (registry : Registry)
    → IsFresh callback registry
    → move_callback_to_start callback
        (record registry { own = some (or_else registry.own [] ++ callback ∷ []) })
      ≡ some (record registry { own = some (callback ∷ or_else registry.own []) })
unfolding move_callback_to_start
move-append callback registry h =
    rw (without-append callback (or_else registry.own []) h, move_callback_to_start) refl

-- The registries of an application, and the runtime that it belongs to.
abbrev pub SameApp : App → App → Type 0
SameApp a b =
    (a.before_request_funcs ≡ b.before_request_funcs)
    × (a.after_request_funcs ≡ b.after_request_funcs)
    × (a.teardown_request_funcs ≡ b.teardown_request_funcs)
    × (a.extension ≡ b.extension)

abbrev pub first_of : ℕ → Registry → Registry
first_of callback registry = record registry { own = some (callback ∷ or_else registry.own []) }

abbrev pub has_runtime : Option Extension → Bool
has_runtime (some (of_runtime n)) = true
has_runtime _ = false

module _ (register : ℕ → Registry → Registry × Bool) where
  register_first-cases :
      (callback : ℕ) (registry : Registry)
      → Registers register
      → IsFresh callback registry
      → ((register_first register callback registry).1 ≡ false)
        ⊎ (register_first register callback registry ≡ (first_of callback registry, true))
  unfolding register_first
  register_first-cases callback registry h f = elim (Bool-cases (register callback registry).1) [
    | inr e ↦ inl (rw e refl)
    | inl e ↦ inr (rw e (rw (h callback registry e) (rw (move-append callback registry f) refl)))
  ]

  installed-fails :
      (callbacks : Callbacks) (stores : Bool) (me : ℕ) (app : App)
      → (register_each register callbacks stores me app).1 ≡ false
      → SameApp (install_callbacks register callbacks stores me app) app
  unfolding install_callbacks roll_back
  installed-fails callbacks stores me app e = rw e (refl, refl, refl, refl)

  -- The callbacks stand first, or last for the teardown, and the application has the runtime.
  abbrev pub IsInstalled : Callbacks → ℕ → App → App → Type 0
  IsInstalled callbacks me app b =
      (b.before_request_funcs ≡ first_of callbacks.begin_observed app.before_request_funcs)
      × (b.after_request_funcs ≡ first_of callbacks.finish_observed app.after_request_funcs)
      × (b.teardown_request_funcs ≡ record app.teardown_request_funcs {
        own = some (or_else (app.teardown_request_funcs).own [] ++ callbacks.close_observed ∷ []);
      })
      × (b.extension ≡ some (of_runtime me))

  install-cases :
      (callbacks : Callbacks) (stores : Bool) (me : ℕ) (app : App)
      → Registers register
      → IsFresh callbacks.begin_observed app.before_request_funcs
      → IsFresh callbacks.finish_observed app.after_request_funcs
      → ((register_each register callbacks stores me app).1 ≡ false)
        ⊎ (((register_each register callbacks stores me app).1 ≡ true)
            × IsInstalled callbacks me app (register_each register callbacks stores me app).0)
  unfolding register_each
  install-cases callbacks stores me app h f g =
      elim (register_first-cases callbacks.begin_observed app.before_request_funcs h f) [
        | inl a ↦ inl (rw a refl)
        | inr a ↦
            elim (register_first-cases callbacks.finish_observed app.after_request_funcs h g) [
              | inl b ↦ inl (rw a (rw b refl))
              | inr b ↦
                  elim (Bool-cases
                    (register callbacks.close_observed app.teardown_request_funcs).1) [
                      | inr c ↦ inl (rw a (rw b (rw c refl)))
                      | inl c ↦ elim (Bool-cases stores) [
                        | inr d ↦ inl (rw a (rw b (rw c (rw d refl))))
                        | inl d ↦ inr (
                            rw a (
                              rw b (
                                rw c (
                                  rw d (
                                    refl,
                                    (
                                      refl,
                                      refl,
                                      h callbacks.close_observed app.teardown_request_funcs c,
                                      refl,
                                    ),
                                  )))))
                      ]
                    ]
            ]
      ]

  install-whole :
      (callbacks : Callbacks) (stores : Bool) (me : ℕ) (app : App)
      → Registers register
      → IsFresh callbacks.begin_observed app.before_request_funcs
      → IsFresh callbacks.finish_observed app.after_request_funcs
      → SameApp (install_callbacks register callbacks stores me app) app
        ⊎ IsInstalled callbacks me app (install_callbacks register callbacks stores me app)
  install-whole callbacks stores me app h f g = elim (install-cases callbacks stores me app h f g) [
    | inl e ↦ inl (installed-fails callbacks stores me app e)
    | inr (e, i) ↦ inr (unfold install_callbacks in rw e i)
  ]

  instrument-new :
      (o : Option Extension) (callbacks : Callbacks) (stores : Bool) (me : ℕ) (app : App)
      → has_runtime o ≡ false
      → instrument_with register o callbacks stores me app
        ≡ (me, install_callbacks register callbacks stores me app)
  unfolding instrument_with
  instrument-new none callbacks stores me app h = refl
  instrument-new (some (other_object x)) callbacks stores me app h = refl
  instrument-new (some (of_runtime n)) callbacks stores me app h = absurd (ground (arith, h))

  -- If an application has no runtime yet, Flask appends a callback that it registers, and the
  -- callbacks are new to it, then after the installation either the callback that begins requests is
  -- the first before a request, the one that finishes them the first of those after it, which Flask
  -- runs last, the one that closes them the last of the teardown, and the application has the
  -- runtime; or all three registries and the extension are as they were, wherever it failed.
  pub instrument_flask-whole :
      (callbacks : Callbacks) (stores : Bool) (me : ℕ) (app : App)
      → Registers register
      → IsFresh callbacks.begin_observed app.before_request_funcs
      → IsFresh callbacks.finish_observed app.after_request_funcs
      → has_runtime app.extension ≡ false
      → SameApp (instrument_flask register callbacks stores me app).1 app
        ⊎ IsInstalled callbacks me app (instrument_flask register callbacks stores me app).1
  instrument_flask-whole callbacks stores me app h f g e =
      rw (instrument-new app.extension callbacks stores me app e)
        (install-whole callbacks stores me app h f g)
