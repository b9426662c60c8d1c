-- ===== src/Api.antt =====
-- internal/errors/errors.go and internal/api/errors.go: the category of an error and the response
-- that tells it to a client.
use normgate.Prelude.{
  ℕ, ◌≡◌, ◌⊎◌, inl, inr, refl, Bool, true, ◌&&◌, ◌||◌, List, [], ◌∷◌, leb, ◌==◌, if◌then◌else◌, all,
  length, subst, Elem, Bool-cases, arith,
}
use normgate.Text.{Text, codes, text_eq}

-- A chain of errors as errors.As walks it: an *errors.Error, a *policy.Error with its code, an error
-- that wraps another, or one that ends the chain.
pub data Chain : Type 0 where
  coded : (code : Text) → Chain
  policy_coded : (code : Text) → Chain
  wraps : (text : Text) → Chain → Chain
  opaque : (text : Text) → Chain

abbrev pub validation_code : Text
validation_code = codes "ng.validation.invalid_input"

abbrev pub policy_code : Text
policy_code = codes "ng.policy.unavailable"

abbrev pub internal_code : Text
internal_code = codes "ng.internal.failure"

-- The category that a policy error unwraps to.
unfoldable pub policy_category : Text → Text
policy_category code =
    if text_eq code (codes "ng.policy.invalid_event") then validation_code else policy_code

-- CodeOf
unfoldable pub code_of : Chain → Text
unfolding policy_category
code_of (coded code) = code
code_of (policy_coded code) = policy_category code
code_of (wraps text chain) = code_of chain
code_of (opaque text) = internal_code

pub record Row : Type 0 where
  pub code : Text
  pub status : ℕ
  pub message : Text

abbrev row : Text → ℕ → Text → Row
row code status message = record { code = code; status = status; message = message }

-- The cases of the switch.
abbrev pub rows : List Row
rows =
    row validation_code 400 (codes "Invalid request.")
    ∷ row (codes "ng.authentication.unauthenticated") 401 (codes "Authentication required.")
    ∷ row policy_code 503 (codes "Policy unavailable.")
    ∷ row (codes "ng.enforcement.denied") 403 (codes "Operation denied.")
    ∷ row (codes "ng.storage.unavailable") 503 (codes "Storage unavailable.")
    ∷ row (codes "ng.upstream.unavailable") 502 (codes "Upstream unavailable.")
    ∷ []

abbrev pub internal_row : Row
internal_row = row internal_code 500 (codes "Internal failure.")

unfoldable pub switch : Text → List Row → Row
switch code [] = internal_row
switch code (r ∷ rs) = if text_eq code r.code then r else switch code rs

abbrev is_id_rune : ℕ → Bool
is_id_rune c =
    (leb 65 c && leb c 90)
    || (leb 97 c && leb c 122)
    || (leb 48 c && leb c 57)
    || c == 46
    || c == 95
    || c == 58
    || c == 45

-- requestID
unfoldable pub is_request_id : Text → Bool
is_request_id s = leb 1 (length s) && leb (length s) 256 && all is_id_rune s

pub record Response : Type 0 where
  pub status : ℕ
  pub schema_version : Text
  pub request_id : Text
  pub code : Text
  pub message : Text

abbrev pub uncorrelated : Text
uncorrelated = codes "uncorrelated"

abbrev respond : Row → Text → Response
respond r correlation = record {
  status = r.status;
  schema_version = codes "1.0";
  request_id = if is_request_id correlation then correlation else uncorrelated;
  code = r.code;
  message = r.message;
}

-- ErrorResponse
unfoldable pub error_response : Chain → Text → Response
error_response chain correlation = respond (switch (code_of chain) rows) correlation

switch-Elem :
    (code : Text) (rs : List Row) → Elem (switch code rs) rs ⊎ (switch code rs ≡ internal_row)
unfolding switch
switch-Elem code [] = inr refl
switch-Elem code (r ∷ rs) = elim (Bool-cases (text_eq code r.code)) [
  | inl e ↦ inl (inl (ground (arith, e)))
  | inr e ↦ elim (switch-Elem code rs) [
    | inl i ↦
        let step : switch code rs ≡ switch code (r ∷ rs) = ground (arith, e) in
        inl (inr (subst (λ x. Elem x rs) step i))
    | inr q ↦ inr (ground (arith, e, q))
  ]
]

-- What a client may be told: a row of the switch, and an id of the permitted form.
pub record IsRedacted (r : Response) : Type 0 where
  pub known :
      Elem (record { code = r.code; status = r.status; message = r.message }) (internal_row ∷ rows)
  pub clean : is_request_id r.request_id ≡ true

is_request_id-respond : (r : Row) (c : Text) → is_request_id (respond r c).request_id ≡ true
unfolding is_request_id
is_request_id-respond r c = elim (Bool-cases (is_request_id c)) [
  | inl e ↦ rw e e
  | inr e ↦ rw e refl
]

-- Whatever the error and its causes say, the response is one of the seven fixed answers, and its
-- request id has the permitted form.
pub error_response-IsRedacted :
    (chain : Chain) (correlation : Text) → IsRedacted (error_response chain correlation)
unfolding error_response
error_response-IsRedacted chain correlation =
    let r = switch (code_of chain) rows in
    record {
      known = elim (switch-Elem (code_of chain) rows) [ inl i ↦ inr i | inr q ↦ inl q ];
      clean = is_request_id-respond r correlation;
    }
