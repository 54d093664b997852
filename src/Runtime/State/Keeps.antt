-- ===== src/Runtime/State/Keeps.antt =====
-- What the calls between two others leave of a context: the variables, and the objects that are
-- there with what identifies them and says how they end.
use policyengine_observabili.Base.{ℕ, ◌≡◌, refl, ◌∙◌, Option, some}
use policyengine_observabili.Runtime.State.{
  RequestState, OperationState, Runtime, read, active_request, store_request, store_operation,
}
use policyengine_observabili.Runtime.State.Store.{Kept, Kept-refl, Kept-trans, Kept-write}

abbrev pub SameRequest : RequestState → RequestState → Type 0
SameRequest s t = (t.request_id ≡ s.request_id) × (t.token ≡ s.token) × (t.completed ≡ s.completed)

abbrev pub SameOperation : OperationState → OperationState → Type 0
SameOperation s t =
    (t.name ≡ s.name)
    × (t.request_id ≡ s.request_id)
    × (t.token ≡ s.token)
    × (t.completed ≡ s.completed)

-- The context carries the request and the operation that it carried, and no object that was there
-- is another one.
abbrev pub Keeps : Runtime → Runtime → Type 0
Keeps r q =
    (q.here ≡ r.here)
    × (q.request ≡ r.request)
    × (q.operation ≡ r.operation)
    × Kept SameRequest r.requests q.requests
    × Kept SameOperation r.operations q.operations

pub request_refl : (s : RequestState) → SameRequest s s
request_refl s = (refl, refl, refl)

pub request_trans : (s t u : RequestState) → SameRequest s t → SameRequest t u → SameRequest s u
request_trans s t u h k = (k.0 ∙ h.0, k.1 ∙ h.1, k.2 ∙ h.2)

pub operation_refl : (s : OperationState) → SameOperation s s
operation_refl s = (refl, refl, refl, refl)

pub operation_trans :
    (s t u : OperationState) → SameOperation s t → SameOperation t u → SameOperation s u
operation_trans s t u h k = (k.0 ∙ h.0, k.1 ∙ h.1, k.2 ∙ h.2, k.3 ∙ h.3)

pub requests_refl : (r : Runtime) → Kept SameRequest r.requests r.requests
requests_refl r = Kept-refl SameRequest request_refl request_trans r.requests

pub operations_refl : (r : Runtime) → Kept SameOperation r.operations r.operations
operations_refl r = Kept-refl SameOperation operation_refl operation_trans r.operations

pub Keeps-refl : (r : Runtime) → Keeps r r
Keeps-refl r = (refl, refl, refl, requests_refl r, operations_refl r)

pub Keeps-trans : (a b c : Runtime) → Keeps a b → Keeps b c → Keeps a c
Keeps-trans a b c h k = (
  k.0 ∙ h.0,
  k.1 ∙ h.1,
  k.2 ∙ h.2,
  Kept-trans SameRequest request_refl request_trans a.requests b.requests c.requests h.3 k.3,
  Kept-trans SameOperation operation_refl operation_trans a.operations b.operations c.operations h.4
      k.4,
)

pub store-Keeps :
    (r : Runtime) (s t : RequestState)
    → active_request r ≡ some s
    → SameRequest s t
    → Keeps r (store_request t r)
store-Keeps r s t h same = (
  refl,
  refl,
  refl,
  Kept-write SameRequest request_refl request_trans r.request r.requests s t h same,
  operations_refl r,
)

pub store_operation-Keeps :
    (o : Option ℕ) (r : Runtime) (s t : OperationState)
    → read o r.operations ≡ some s
    → SameOperation s t
    → Keeps r (store_operation o t r)
store_operation-Keeps o r s t h same = (
  refl,
  refl,
  refl,
  requests_refl r,
  Kept-write SameOperation operation_refl operation_trans o r.operations s t h same,
)
