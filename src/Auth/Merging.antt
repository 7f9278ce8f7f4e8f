-- ===== src/Auth/Merging.antt =====
-- What `merge_refresh_response` of src/auth.rs changes of a document, and what it keeps.
use rcodex.Common.{
  ◌≡◌, refl, sym, ap, ◌∙◌, Option, none, some, if◌then◌else◌, ok, context, >>=-eq-ok, context-eq-ok,
  Text, Bytes, text, text_eq,
}
use rcodex.Json.{Value, Map, object, string, field, insert, as_object, and_then, field-insert}
use rcodex.Auth.{
  AccessTokenClaims, RefreshResponse, decode_access_token, merge_access, merge_secret,
  merge_refresh_response, validate_secret,
}

-- The value that a key has after an insertion that may have been left out.
abbrev pub replaced : Text → Option Text → Text → Option Value → Option Value
replaced key none j old = old
replaced key (some v) j old = if text_eq key j then some (string v) else old

module _ (decode : Text → Option Bytes) (parse_claims : Bytes → Option AccessTokenClaims) where
  field-merge_secret :
      (key : Text) (token : Option Text) (m merged : Map) (j : Text)
      → merge_secret decode parse_claims key token m ≡ ok merged
      → field j merged ≡ replaced key token j (field j m)
  field-merge_secret key none m merged j e = let same : m ≡ merged = cc in rw same refl
  field-merge_secret key (some v) m merged j e =
      let (u, e₁, r₁) = >>=-eq-ok (validate_secret v) _ e in
      let same : insert key (string v) m ≡ merged = cc r₁ in
      rw (← same) (field-insert key j (string v) m)

  field-merge_access :
      (token : Option Text) (m merged : Map) (j : Text)
      → merge_access decode parse_claims token m ≡ ok merged
      → field j merged ≡ replaced (text "access_token") token j (field j m)
  field-merge_access none m merged j e = let same : m ≡ merged = cc in rw same refl
  field-merge_access (some v) m merged j e =
      let (u, e₁, r₁) = >>=-eq-ok (validate_secret v) _ e in
      let (claims, e₂, r₂) = >>=-eq-ok (decode_access_token decode parse_claims v) _ r₁ in
      let same : insert (text "access_token") (string v) m ≡ merged = cc r₂ in
      rw (← same) (field-insert (text "access_token") j (string v) m)

  -- What is left of the document and its tokens.
  pub record IsMerged (m : Map) (response : RefreshResponse) (refreshed_at : Text) (result : Value)
      : Type 0 where
    pub tokens : Map
    pub merged : Map
    pub whole : Map
    pub found : field (text "tokens") m ≡ some (object tokens)
    pub is_whole : result ≡ object whole
    pub rest :
        (j : Text)
        → field j whole ≡ (
            if text_eq (text "last_refresh") j
            then some (string refreshed_at)
            else if text_eq (text "tokens") j
            then some (object merged)
            else field j m)
    pub each :
        (j : Text)
        → field j merged
          ≡ replaced (text "refresh_token") response.refresh_token j (
              replaced
                (text "id_token")
                response.id_token
                j
                (replaced (text "access_token") response.access_token j (field j tokens)))

  as_object-eq-some :
      (v : Option Value) (m : Map) → and_then v as_object ≡ some m → v ≡ some (object m)
  as_object-eq-some (some (object n)) m e = let same : n ≡ m = cc in rw same refl
  as_object-eq-some (some _) m e = cc
  as_object-eq-some none m e = cc

  -- A merge changes the time of the last refresh and the tokens, and nothing else of the document; of
  -- the tokens it changes those that the response brings, and nothing else.
  pub merge_refresh_response-IsMerged :
      (m : Map) (response : RefreshResponse) (refreshed_at : Text) (result : Value)
      → merge_refresh_response decode parse_claims (object m) response refreshed_at ≡ ok result
      → IsMerged m response refreshed_at result
  unfolding merge_refresh_response
  merge_refresh_response-IsMerged m response at result e =
      let (tokens, e₁, r₁) =
        >>=-eq-ok
          (context "Codex auth document has no token object"
            (and_then (field (text "tokens") m) as_object))
          _ e in
      let (a, e₂, r₂) =
        >>=-eq-ok (merge_access decode parse_claims response.access_token tokens) _ r₁ in
      let (b, e₃, r₃) =
        >>=-eq-ok (merge_secret decode parse_claims (text "id_token") response.id_token a) _ r₂ in
      let (n, e₄, r₄) =
        >>=-eq-ok (merge_secret decode parse_claims (text "refresh_token") response.refresh_token b)
          _ r₃ in
      let found =
        context-eq-ok "Codex auth document has no token object"
          (and_then (field (text "tokens") m) as_object) e₁ in
      record {
        tokens = tokens;
        merged = n;
        whole = insert (text "last_refresh") (string at) (insert (text "tokens") (object n) m);
        found = as_object-eq-some (field (text "tokens") m) tokens found;
        is_whole = sym (cc r₄);
        rest = λ j.
            field-insert (text "last_refresh") j (string at) (insert (text "tokens") (object n) m)
            ∙ rw (field-insert (text "tokens") j (object n) m) refl;
        each = λ j.
            field-merge_secret (text "refresh_token") response.refresh_token b n j e₄
            ∙ ap (replaced (text "refresh_token") response.refresh_token j) (
                field-merge_secret (text "id_token") response.id_token a b j e₃
                ∙ ap (replaced (text "id_token") response.id_token j)
                    (field-merge_access response.access_token tokens a j e₂));
      }
