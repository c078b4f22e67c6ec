-- ===== src/Workers/Response.antt =====
-- workers/dispatch.go: a push delivery's provider_response, the outcome of each endpoint.
use stonesuite_notify.Base.{
  String, Bool, ◌==◌, Option, none, some, List, [], ◌∷◌, find, upsert, Result, ok, err, ◌>>=◌, ◌≡◌,
  refl, ap, ◌∙◌,
}
use stonesuite_notify.Base.Json.{
  Json, Fields, member, omit_empty, text_field, text_field-omit_empty,
}

pub record EndpointOutcome : Type 0 where
  pub status : String
  pub error : String

-- Go's map from a subscription's id to its outcome; each key is there once.
abbrev pub Outcomes : Type 0
Outcomes = List (String × EndpointOutcome)

abbrev pub has_key : String → String × EndpointOutcome → Bool
has_key k e = e.0 == k

abbrev pub value_of : Option (String × EndpointOutcome) → Option EndpointOutcome
value_of none = none
value_of (some e) = some e.1

unfoldable pub lookup : String → Outcomes → Option EndpointOutcome
lookup k outcomes = value_of (find (has_key k) outcomes)

unfoldable pub put : String → EndpointOutcome → Outcomes → Outcomes
put k v outcomes = upsert (has_key k) (λ e. (e.0, v)) (k, v) outcomes

unfoldable pub encode_outcome : EndpointOutcome → Json
encode_outcome v =
    Json.obj (Fields.field "status" (Json.string v.status) (omit_empty "error" v.error Fields.end))

unfoldable pub encode_outcomes : Outcomes → Fields
unfolding encode_outcome
encode_outcomes [] = Fields.end
encode_outcomes ((k, v) ∷ es) = Fields.field k (encode_outcome v) (encode_outcomes es)

unfoldable pub encode_push_response : Outcomes → Json
unfolding encode_outcomes
encode_push_response outcomes =
    Json.obj (Fields.field "endpoints" (Json.obj (encode_outcomes outcomes)) Fields.end)

-- json.Unmarshal of one outcome.
unfoldable pub decode_outcome : Json → Result EndpointOutcome
decode_outcome (Json.obj fs) = do
  status ← text_field (member "status" fs)
  error ← text_field (member "error" fs)
  ok (record { status = status; error = error })
decode_outcome Json.null = ok (record { status = ""; error = "" })
decode_outcome _ = err "cannot unmarshal"

unfoldable pub decode_outcomes : Fields → Result Outcomes
unfolding decode_outcome
decode_outcomes Fields.end = ok []
decode_outcomes (Fields.field k v fs) = do
  outcome ← decode_outcome v
  rest ← decode_outcomes fs
  ok ((k, outcome) ∷ rest)

or_nothing : Result Outcomes → Outcomes
or_nothing (ok outcomes) = outcomes
or_nothing (err _) = []

endpoints_of : Option Json → Outcomes
unfolding or_nothing decode_outcomes
endpoints_of (some (Json.obj es)) = or_nothing (decode_outcomes es)
endpoints_of _ = []

-- A response that is missing or cannot be decoded has no endpoints.
unfoldable pub decode_push_response : Option Json → Outcomes
unfolding endpoints_of
decode_push_response (some (Json.obj fs)) = endpoints_of (member "endpoints" fs)
decode_push_response _ = []

decode_outcome-encode_outcome : (v : EndpointOutcome) → decode_outcome (encode_outcome v) ≡ ok v
unfolding decode_outcome encode_outcome text_field
decode_outcome-encode_outcome v =
    ap (λ r. r >>= λ error. ok (record { status = v.status; error = error }))
      (text_field-omit_empty "error" v.error Fields.end refl)

decode_outcomes-encode_outcomes :
    (outcomes : Outcomes) → decode_outcomes (encode_outcomes outcomes) ≡ ok outcomes
unfolding decode_outcomes encode_outcomes
decode_outcomes-encode_outcomes [] = refl
decode_outcomes-encode_outcomes ((k, v) ∷ es) =
    ap
      (λ r.
        r >>= λ outcome. decode_outcomes (encode_outcomes es) >>= λ rest. ok ((k, outcome) ∷ rest))
      (decode_outcome-encode_outcome v)
    ∙ ap (λ r. r >>= λ rest. ok ((k, v) ∷ rest)) (decode_outcomes-encode_outcomes es)

-- The outcomes of one attempt are those that the next one reads.
pub decode-encode_push_response :
    (outcomes : Outcomes) → decode_push_response (some (encode_push_response outcomes)) ≡ outcomes
unfolding decode_push_response encode_push_response
decode-encode_push_response outcomes = ap or_nothing (decode_outcomes-encode_outcomes outcomes)
