-- ===== src/Runtime/Logging/Installed.antt =====
-- A runtime has at most one handler at a logger, and a failed installation leaves the logger.
use policyengine_observabili.Base.{
  ℕ, zero, suc, ◌++◌, Bool, true, false, if◌then◌else◌, nat_eq_iff, ◌≡◌, refl, sym, ap, ◌∙◌,
  Bool-cases, Option-cases, inl, inr, Option, none, some, List, [], ◌∷◌, arith, some_injective,
}
use policyengine_observabili.Runtime.State.{get, set_at}
use policyengine_observabili.Runtime.State.Store.{get-set_at-same}
use policyengine_observabili.Runtime.Logging.{
  Handler, Logging, is_of, installed, handlers_of, install, instrument_logging,
}

-- The handlers of a runtime at a logger.
abbrev pub count_of : ℕ → List Handler → ℕ
count_of me [] = 0
count_of me (h ∷ handlers) =
    let rest = count_of me handlers in if is_of me h then suc rest else rest

-- What `addHandler` does with a new handler when it returns.
abbrev pub Appends : (Handler → List Handler → List Handler × Bool) → Type 0
Appends add =
    (h : Handler) (handlers : List Handler)
    → (add h handlers).1 ≡ true
    → (add h handlers).0 ≡ handlers ++ h ∷ []

installed-append :
    (me : ℕ) (h : Handler) (handlers : List Handler)
    → installed me handlers ≡ none
    → is_of me h ≡ true
    → installed me (handlers ++ h ∷ []) ≡ some h
unfolding installed
installed-append me h [] e k = rw k refl
installed-append me h (g ∷ handlers) e k = elim (Bool-cases (is_of me g)) [
  | inl f ↦ absurd (ground (arith, e, f))
  | inr f ↦ rw f (installed-append me h handlers (ground (arith, e, f)) k)
]

handlers_of-set :
    (logger : ℕ) (l : Logging) (handlers ys : List Handler) (registered : List (ℕ × Handler))
    (n : ℕ)
    → get l.loggers logger ≡ some handlers
    → handlers_of logger
        (record l { loggers = set_at logger ys l.loggers; registered = registered; fresh = n })
      ≡ ys
unfolding handlers_of
handlers_of-set logger l handlers ys registered n h =
    rw (get-set_at-same logger handlers ys l.loggers h, handlers_of) refl

set_at-get {ℓ} : {A : Type ℓ} (i : ℕ) (x : A) (xs : List A) → get xs i ≡ some x → set_at i x xs ≡ xs
unfolding get set_at
set_at-get i x [] h = refl
set_at-get zero x (y ∷ xs) h = ap (λ z. z ∷ xs) (some_injective (sym h))
set_at-get (suc i) x (y ∷ xs) h = ap (λ zs. y ∷ zs) (set_at-get i x xs h)

module _ (add : Handler → List Handler → List Handler × Bool) where
  instrument-found :
      (me logger : ℕ) (replace : Bool) (l : Logging) (h : Handler)
      → installed me (handlers_of logger l) ≡ some h
      → instrument_logging add me logger replace l ≡ (some h, l)
  unfolding instrument_logging
  instrument-found me logger replace l h e = rw (e, instrument_logging) refl

  instrument-new :
      (me logger : ℕ) (replace : Bool) (l : Logging)
      → installed me (handlers_of logger l) ≡ none
      → instrument_logging add me logger replace l ≡ install add me logger replace l
  unfolding instrument_logging
  instrument-new me logger replace l e = rw (e, instrument_logging) refl

  installed-kept :
      (me : ℕ) (replace : Bool) (handlers : List Handler)
      → installed me handlers ≡ none
      → installed me (if replace then [] else handlers) ≡ none
  unfolding installed
  installed-kept me true handlers e = refl
  installed-kept me false handlers e = e

  abbrev new_handler : ℕ → Logging → Handler
  new_handler me l = record { id = l.fresh; runtime = some me }

  abbrev offered : ℕ → ℕ → Bool → Logging → List Handler × Bool
  offered me logger replace l =
      add (new_handler me l) (if replace then [] else handlers_of logger l)

  install-returned :
      (me logger : ℕ) (replace : Bool) (l : Logging)
      → (offered me logger replace l).1 ≡ true
      → install add me logger replace l ≡ (
        some (new_handler me l),
        record l {
          loggers = set_at logger (offered me logger replace l).0 l.loggers;
          registered = l.registered ++ (logger, new_handler me l) ∷ [];
          fresh = suc l.fresh;
        },
      )
  unfolding install
  install-returned me logger replace l f = rw f refl

  install-raised :
      (me logger : ℕ) (replace : Bool) (l : Logging)
      → (offered me logger replace l).1 ≡ false
      → install add me logger replace l ≡ (
        none,
        record l {
          loggers =
              set_at logger
                (if replace then handlers_of logger l else (offered me logger replace l).0)
                l.loggers;
          fresh = suc l.fresh;
        },
      )
  unfolding install
  install-raised me logger replace l f = rw f refl

  -- If a logger exists, and `addHandler` appends a new handler when it returns, then a runtime that
  -- has installed its handler at the logger gets the same handler when it installs it again,
  -- replacing the others or not, and changes nothing.
  pub instrument-again :
      (me logger : ℕ) (replace again : Bool) (l : Logging) (handlers : List Handler) (h : Handler)
      → Appends add
      → get l.loggers logger ≡ some handlers
      → (instrument_logging add me logger replace l).0 ≡ some h
      → instrument_logging add me logger again (instrument_logging add me logger replace l).1
        ≡ (some h, (instrument_logging add me logger replace l).1)
  instrument-again me logger replace again l handlers h appends there k =
      elim (Option-cases (installed me (handlers_of logger l))) [
        | inr (g, e) ↦
            (let found = instrument-found me logger replace l g e in
              rw found (
                instrument-found me logger again l h
                  (e ∙ sym (ap (λ (x : Option Handler × Logging). x.0) found) ∙ k)))
        | inl e ↦ elim (Bool-cases (offered me logger replace l).1) [
          | inl f ↦
              (let result =
                  instrument-new me logger replace l e ∙ install-returned me logger replace l f in
                rw result (
                  instrument-found me logger again _ h (
                    ap (installed me) (
                      handlers_of-set logger l handlers (offered me logger replace l).0
                        (l.registered ++ (logger, new_handler me l) ∷ []) (suc l.fresh) there
                      ∙ appends (new_handler me l) (if replace then [] else handlers_of logger l) f)
                    ∙ installed-append me (new_handler me l)
                        (if replace then [] else handlers_of logger l)
                        (installed-kept me replace (handlers_of logger l) e)
                        ((nat_eq_iff me me).1 refl)
                    ∙ sym (ap (λ (x : Option Handler × Logging). x.0) result)
                    ∙ k)))
          | inr f ↦
              (let result =
                  instrument-new me logger replace l e ∙ install-raised me logger replace l f in
                absurd
                  (ground (arith, sym (ap (λ (x : Option Handler × Logging). x.0) result) ∙ k)))
        ]
      ]

  -- If installing in place of the handlers of a logger that exists raises, then every logger has the
  -- handlers that it had, and no more handlers are registered.
  pub instrument-raised :
      (me logger : ℕ) (l : Logging) (handlers : List Handler)
      → get l.loggers logger ≡ some handlers
      → (instrument_logging add me logger true l).0 ≡ none
      → ((instrument_logging add me logger true l).1.loggers ≡ l.loggers)
        × ((instrument_logging add me logger true l).1.registered ≡ l.registered)
  unfolding handlers_of
  instrument-raised me logger l handlers there k =
      elim (Option-cases (installed me (handlers_of logger l))) [
        | inr (g, e) ↦ rw (instrument-found me logger true l g e) (refl, refl)
        | inl e ↦ elim (Bool-cases (offered me logger true l).1) [
          | inl f ↦
              (let result =
                  instrument-new me logger true l e ∙ install-returned me logger true l f in
                absurd
                  (ground (arith, sym (ap (λ (x : Option Handler × Logging). x.0) result) ∙ k)))
          | inr f ↦
              rw (instrument-new me logger true l e ∙ install-raised me logger true l f)
                (rw (there, handlers_of) (set_at-get logger handlers l.loggers there, refl))
        ]
      ]
