-- ===== src/Tests/Api.antt =====
-- Responses to a policy error that another error wraps.
use normgate.Prelude.{◌≡◌, refl}
use normgate.Text.{codes, text_eq}
use normgate.Api.{
  Chain, wraps, policy_coded, code_of, policy_category, switch, is_request_id, error_response,
  IsRedacted, error_response-IsRedacted,
}

abbrev chain : Chain
chain = wraps (codes "secret path") (policy_coded (codes "ng.policy.compile_error"))

status_test : (error_response chain (codes "r-1")).status ≡ 503
unfolding error_response switch code_of policy_category text_eq
status_test = refl

id_test : (error_response chain (codes "r 1")).request_id ≡ codes "uncorrelated"
unfolding error_response is_request_id
id_test = refl

error_response-IsRedacted_example : IsRedacted (error_response chain (codes "r 1"))
error_response-IsRedacted_example = error_response-IsRedacted chain (codes "r 1")
