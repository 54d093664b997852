-- ===== src/Adapters/Flask.antt =====
-- policyengine_observability/adapters/flask.py: the callbacks of a request and their installation at
-- an application. A registry is what Flask keeps of one kind of callback: those under the key `None`
-- and those of the blueprints; callbacks are compared by identity. `register` is Flask's method that
-- registers a callback, with whether it returns, and may change the registry where it raises. The
-- registries and the extensions are plain dictionaries, whose own methods do not raise.
pub mod Installed
use policyengine_observabili.Base.{
  ℕ, Text, text, Dict, update, ℤ, pos, Bool, true, false, nat_eq, is_some, if◌then◌else◌, Option,
  none, some, or_else, List, [], ◌∷◌, ◌++◌,
}
use policyengine_observabili.Value.{Failure}
use policyengine_observabili.Runtime.State.{Runtime}
use policyengine_observabili.Runtime.Outside.{Outside}
use policyengine_observabili.Runtime.Requests.{
  response_headers, update_request_route, update_request_status, end_request,
}
use policyengine_observabili.Runtime.Requests.Nesting.{Request, begin}

pub record Registry : Type 0 where
  pub own : Option (List ℕ)
  pub blueprints : Dict (List ℕ)

-- What stands under the package's key in the extensions: a runtime, or any other object.
pub data Extension : Type 0 where
  of_runtime : ℕ → Extension
  other_object : ℕ → Extension

pub record App : Type 0 where
  pub before_request_funcs : Registry
  pub after_request_funcs : Registry
  pub teardown_request_funcs : Registry
  pub extension : Option Extension
  pub reports : List Text

-- `callbacks.pop(index)`: the list without the first callback that is `callback`, if there is one.
unfoldable pub without : ℕ → List ℕ → Option (List ℕ)
without callback [] = none
without callback (registered ∷ callbacks) =
    let rest = without callback callbacks in
    if nat_eq registered callback
    then some callbacks
    else elim rest [ none ↦ none | some others ↦ some (registered ∷ others) ]

-- `none` is the `RuntimeError` of a callback that is not there.
unfoldable pub move_callback_to_start : ℕ → Registry → Option Registry
move_callback_to_start callback registry = elim registry.own [
  | none ↦ none
  | some callbacks ↦ elim (without callback callbacks) [
    | none ↦ none
    | some others ↦ some (record registry { own = some (callback ∷ others) })
  ]
]

-- The callbacks that are installed.
pub record Callbacks : Type 0 where
  pub begin_observed : ℕ
  pub finish_observed : ℕ
  pub close_observed : ℕ

module _ (register : ℕ → Registry → Registry × Bool) where
  -- A callback is registered and moved, and whether nothing raised.
  unfoldable pub register_first : ℕ → Registry → Registry × Bool
  register_first callback registry =
      let registered = register callback registry in
      if registered.1
      then elim (move_callback_to_start callback registered.0) [
        | none ↦ (registered.0, false)
        | some moved ↦ (moved, true)
      ]
      else (registered.0, false)

  -- The body of the `try`, up to what raises in it; `stores` says whether the extensions take the
  -- runtime.
  unfoldable pub register_each : Callbacks → Bool → ℕ → App → App × Bool
  register_each callbacks stores me app =
      let before = register_first callbacks.begin_observed app.before_request_funcs in
      let after = register_first callbacks.finish_observed app.after_request_funcs in
      let teardown = register callbacks.close_observed app.teardown_request_funcs in
      let first = record app { before_request_funcs = before.0 } in
      let second = record first { after_request_funcs = after.0 } in
      let third = record second { teardown_request_funcs = teardown.0 } in
      if before.1
      then (if after.1
          then (if teardown.1
              then (if stores
                  then (record third { extension = some (of_runtime me) }, true)
                  else (third, false))
              else (third, false))
          else (second, false))
      else (first, false)

  -- The `except` clause: the registries and the extension of the snapshot.
  unfoldable pub roll_back : App → App → App
  roll_back snapshot app = record app {
    before_request_funcs = snapshot.before_request_funcs;
    after_request_funcs = snapshot.after_request_funcs;
    teardown_request_funcs = snapshot.teardown_request_funcs;
    extension = snapshot.extension;
    reports = app.reports ++ text "flask.callback_install" ∷ [];
  }

  unfoldable pub install_callbacks : Callbacks → Bool → ℕ → App → App
  install_callbacks callbacks stores me app =
      let result = register_each callbacks stores me app in
      if result.1 then result.0 else roll_back app result.0

  -- The runtime that is returned, and the application; an application that has a runtime keeps it.
  unfoldable pub instrument_with : Option Extension → Callbacks → Bool → ℕ → App → ℕ × App
  instrument_with (some (of_runtime existing)) callbacks stores me app = (existing, app)
  instrument_with (some (other_object x)) callbacks stores me app =
      (me, install_callbacks callbacks stores me app)
  instrument_with none callbacks stores me app = (me, install_callbacks callbacks stores me app)

  abbrev pub instrument_flask : Callbacks → Bool → ℕ → App → ℕ × App
  instrument_flask callbacks stores me app = instrument_with app.extension callbacks stores me app

-- The callbacks of a request. `rule` is the rule that the request matches, where there is one.
module _ (w : Outside) where
  unfoldable pub begin_observed_request : Request → Option Text → Runtime → Runtime
  begin_observed_request q rule r =
      begin w (record q { route = or_else rule (text "<unmatched>") }) r

  unfoldable pub finish_observed_request :
      Option Text → ℤ → Dict Text → Runtime → Dict Text × Runtime
  finish_observed_request rule status_code headers r =
      let routed : Runtime = elim rule [ none ↦ r | some route ↦ update_request_route route r ] in
      let counted = update_request_status status_code routed in
      (update headers (response_headers (w.inject counted.effects) counted), counted)

  unfoldable pub close_observed_request : Option Failure → Runtime → Runtime
  close_observed_request error r =
      end_request w (if is_some error then some (pos 500) else none) error r
