-- ===== src/Apps.antt =====
-- watchpost/checks/apps.py: the requests of _HttpApiCheck and the handlers of its `probe`. What a
-- request meets is given: `status_error` is the text of `raise_for_status`.
pub mod Pages
pub mod HomeAssistant
pub mod UniFi
pub mod Technitium
use ip_montior.Base.{
  ℕ, String, Bool, true, false, ◌||◌, List, Option, none, some, str_eq, if◌then◌else◌, ◌==◌, ltb,
  leb, ◌<>◌, Try, done, raised, occurs,
}
use ip_montior.Check.{CheckResult, failed}

-- AuthFailed, LookupError, HTTPError by its type and text, and ValueError, the error of a body that is
-- no JSON
pub data ApiError : Type 0 where
  auth_failed : String → ApiError
  lookup_error : String → ApiError
  http_error : String → String → ApiError
  value_error : String → ApiError

-- An HTTPError of the request, or the status and the body, which may be no JSON.
pub data Reply (A : Type 0) : Type 0 where
  unanswered : String → String → Reply A
  answered : ℕ → Try String A → Reply A

-- `get` after the request, and the same tests in `unifi_list_all`
unfoldable pub get :
    {A : Type 0} (digits : ℕ → String) (status_error : ℕ → String)
    → String
    → Reply A
    → Try ApiError A
get digits status_error path (Reply.unanswered kind err) = raised (ApiError.http_error kind err)
get digits status_error path (Reply.answered code body) =
    if (code == 401) || (code == 403)
    then raised (ApiError.auth_failed ("HTTP " <> digits code))
    else if code == 404
    then raised (ApiError.lookup_error (path <> " not found (404)"))
    else if ltb code 200 || leb 300 code
    then raised (ApiError.http_error "HTTPStatusError" (status_error code))
    else elim body [ raised err ↦ raised (ApiError.value_error err) | done a ↦ done a ]

-- The handlers of `probe`
unfoldable pub on_api_error : ApiError → CheckResult
on_api_error (ApiError.auth_failed err) = failed ("authentication rejected (" <> err <> ")")
on_api_error (ApiError.lookup_error err) = failed err
on_api_error (ApiError.http_error kind err) = failed (
    (if occurs "CERTIFICATE_VERIFY_FAILED" err
      then "TLS certificate did not validate: "
      else kind <> ": ")
    <> err)
on_api_error (ApiError.value_error err) = failed ("unexpected response: " <> err)
