-- ===== src/Oauth.antt =====
-- src/oauth.rs: the step-up of the credentials by an authorization in the browser. A time is the number
-- that is added to -2^63, in seconds or, for the password, in milliseconds. Base64, JSON, the parsing of
-- URLs, the browser, the server and what arrives at the callback are parameters.
pub mod Scopes
pub mod Urls
pub mod Callback
pub mod Stepped
pub mod Tests
use rcodex.Common.{
  ℕ, ◌+◌, ◌-◌, ◌*◌, ◌^◌, min, Bool, true, false, not, ◌&&◌, ◌||◌, Option, none, some, List, [], ◌∷◌,
  ◌++◌, ltb, leb, ◌==◌, if◌then◌else◌, Result, Error, bail_if, context, Text, Bytes, text, text_eq,
  is_whitespace, ◌>>=◌, ◌>>◌,
}
use rcodex.Auth.{second_part, nonempty, or_else}
use rcodex.Json.{and_then}

pub record StepUpIdentity : Type 0 where
  pub account_user_id : Option Text
  pub chatgpt_account_user_id : Option Text

pub record StepUpClaims : Type 0 where
  pub iat : ℕ
  pub pwd_auth_time : ℕ
  pub scope : Option Text
  pub scp : List Text
  pub auth : StepUpIdentity

abbrev pub enroll_scope : Text
enroll_scope = text "codex.remote_control.enroll"

abbrev pub starts_word : Text → Bool
starts_word [] = false
starts_word (c ∷ s) = not (is_whitespace c)

abbrev pub add_char : ℕ → Bool → List Text → List Text
add_char c true (w ∷ ws) = (c ∷ w) ∷ ws
add_char c _ ws = (c ∷ []) ∷ ws

unfoldable pub split_whitespace : Text → List Text
split_whitespace [] = []
split_whitespace (c ∷ s) =
    let rest = split_whitespace s in
    if is_whitespace c then rest else add_char c (starts_word s) rest

-- The order of strings.
unfoldable pub text_le : Text → Text → Bool
text_le [] t = true
text_le (c ∷ s) [] = false
text_le (c ∷ s) (d ∷ t) = let rest = text_le s t in if ltb c d then true else c == d && rest

unfoldable pub insert_text : Text → List Text → List Text
insert_text t [] = t ∷ []
insert_text t (u ∷ us) = let rest = insert_text t us in if text_le t u then t ∷ u ∷ us else u ∷ rest

unfoldable pub sort : List Text → List Text
sort [] = []
sort (t ∷ ts) = insert_text t (sort ts)

-- `dedup`: of equal neighbours one is kept.
unfoldable pub dedup : List Text → List Text
dedup [] = []
dedup (t ∷ []) = t ∷ []
dedup (t ∷ u ∷ us) = let rest = dedup (u ∷ us) in if text_eq t u then rest else t ∷ rest

abbrev pub all_scopes : StepUpClaims → List Text
all_scopes c = split_whitespace (elim c.scope [ none ↦ [] | some s ↦ s ]) ++ c.scp

abbrev pub is_enroll_only : List Text → Bool
is_enroll_only [] = false
is_enroll_only (s ∷ []) = text_eq s enroll_scope
is_enroll_only (s ∷ t ∷ rest) = false

-- `iat > now_epoch.saturating_add(60) || now_epoch.saturating_sub(iat) > 300`; where the second saturates,
-- the difference is above 300 too.
abbrev pub is_stale : ℕ → ℕ → Bool
is_stale iat now = ltb (min (now + 60) (2 ^ 64 - 1)) iat || ltb 300 (now - iat)

-- `now_epoch.saturating_mul(1000)`.
abbrev pub millis : ℕ → ℕ
millis now =
    if leb (2 ^ 63) now
    then min (2 ^ 63 + (now - 2 ^ 63) * 1000) (2 ^ 64 - 1)
    else 2 ^ 63 - (2 ^ 63 - now) * 1000

module _ (decode : Text → Option Bytes) (parse_claims : Bytes → Option StepUpClaims) where
  unfoldable pub step_up_claims : Text → Result Error StepUpClaims
  step_up_claims token = do
    payload ←
        context "remote-control step-up token is not a JWT" (and_then (second_part token) nonempty)
    bytes ← context "remote-control step-up token is not base64url" (decode payload)
    context "remote-control step-up token payload is invalid" (parse_claims bytes)

  -- `validate_step_up_token` from the claims on.
  unfoldable pub check_claims : StepUpClaims → Text → ℕ → Result Error (Unit {0})
  check_claims c expected now = do
    account ←
        context "remote-control step-up token has no account user ID"
          (or_else c.auth.chatgpt_account_user_id c.auth.account_user_id)
    bail_if (not (text_eq account expected))
        "remote-control step-up token belongs to a different account"
    bail_if (is_stale c.iat now) "remote-control step-up token is not fresh"
    bail_if (ltb 300000 (millis now - c.pwd_auth_time))
        "remote-control step-up token has no fresh password authentication"
    bail_if (not (is_enroll_only (dedup (sort (all_scopes c)))))
        "remote-control step-up token has unexpected authorization scopes"

  unfoldable pub validate_step_up_token : Text → Text → ℕ → Result Error (Unit {0})
  validate_step_up_token token expected now = do
    c ← step_up_claims token
    check_claims c expected now
