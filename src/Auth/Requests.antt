-- ===== src/Auth/Requests.antt =====
-- src/auth.rs: the answer of the server to a refresh.
use rcodex.Common.{◌≡◌, ap, Bool, true, false, not, Result, ok, err, Error, ◌>>=◌, ◌>>◌, bail_if}
use rcodex.Auth.{RefreshResponse}

-- The status is tested before the answer is parsed.
unfoldable pub checked_response :
    Result Error (Bool × Result Error RefreshResponse) → Result Error RefreshResponse
checked_response sent = do
  (success, parsed) ← sent
  bail_if (not success) "Codex OAuth token refresh failed"
  parsed

-- An answer is taken only if it came with a success and was parsed.
pub checked_response-eq-ok :
    (sent : Result Error (Bool × Result Error RefreshResponse)) (response : RefreshResponse)
    → checked_response sent ≡ ok response
    → sent ≡ ok (true, ok response)
unfolding checked_response
checked_response-eq-ok (err e) response h = cc
checked_response-eq-ok (ok (true, parsed)) response h = ap (λ p. ok (true, p)) h
checked_response-eq-ok (ok (false, parsed)) response h = cc
