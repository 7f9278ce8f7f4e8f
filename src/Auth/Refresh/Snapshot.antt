-- ===== src/Auth/Refresh/Snapshot.antt =====
-- What `refresh_codex_auth` of src/auth.rs writes, and over what.
use rcodex.Common.{
  ◌≡◌, refl, sym, ap, ◌∙◌, ◌⊎◌, inl, inr, true, some, if◌then◌else◌, Result, ok, Error, context,
  context-eq-ok, Bytes, text, text_eq,
}
use mathlib.Core.Path.{subst}
use rcodex.Json.{Value, string, field, get}
use rcodex.Files.{FilePath, Files, World, lift, bytes_of, ◌>>=◌, read}
use rcodex.Files.Rules.{look_rule, bind_rule, lift-Looks, read-Looks}
use rcodex.Auth.{CodexAuth, RefreshResponse}
use rcodex.Auth.Requests.{checked_response-eq-ok}
use rcodex.Protocol.{oauth_client_id}
use rcodex.Auth.Refresh.{
  Refresher, build_refresh_request, load_auth, post_refresh, auth_file_matches_snapshot,
  save_merged, finish_refresh, refresh_codex_auth,
}
use rcodex.Auth.Refresh.Rewriting.{IsLoaded, load_auth-Looks, IsRewritten, snapshot_step}

module _ (r : Refresher) (path : FilePath) where
  -- What the server gave, with a success status, to a request for a refresh with the refresh token
  -- of the credentials in these files.
  abbrev pub IsAnswered : Files → RefreshResponse → Type 0
  IsAnswered files response =
      (auth : CodexAuth) × (request : Value) × IsLoaded r path files auth
      × (get (text "client_id") request ≡ some (string oauth_client_id))
      × (get (text "grant_type") request ≡ some (string (text "refresh_token")))
      × (get (text "refresh_token") request ≡ some (string auth.refresh_token))
      × (r.post request ≡ ok (true, ok response))

  build_refresh_request_fields :
      (auth : CodexAuth)
      → (let request = build_refresh_request auth in
          (get (text "client_id") request ≡ some (string oauth_client_id))
          × (get (text "grant_type") request ≡ some (string (text "refresh_token")))
          × (get (text "refresh_token") request ≡ some (string auth.refresh_token)))
  unfolding build_refresh_request get field text text_eq
  build_refresh_request_fields auth = (refl, refl, refl)

  -- All files are as another process left them, or the answer to this request is in the file.
  abbrev pub Finishes : Bytes → CodexAuth → Files → World × Result Error CodexAuth → Type 0
  Finishes before auth seen o =
      (o.0.files ≡ seen)
      ⊎ ((response : RefreshResponse) × (r.post (build_refresh_request auth)
            ≡ ok (true, ok response))
          × IsRewritten r path before response seen o.0.files)

  finish_refresh-Finishes :
      (before : Bytes) (document : Value) (auth : CodexAuth) (w : World)
      → r.from_slice before ≡ some document
      → Finishes before auth (r.meanwhile w.files) (finish_refresh r path before document auth w)
  unfolding finish_refresh post_refresh
  finish_refresh-Finishes before document auth w parsed =
      let next = λ (response : RefreshResponse).
        auth_file_matches_snapshot r path before >>= λ same.
        if same then save_merged r path document response else load_auth r path in
      bind_rule (Finishes before auth (r.meanwhile w.files)) (post_refresh r path auth) next w
        (λ later e gone. inl (ap (λ o. o.0.files) (sym gone)))
        (λ later response gone.
          let answered =
            checked_response-eq-ok (r.post (build_refresh_request auth)) response
              (ap (λ o. o.1) gone) in
          elim (snapshot_step r path before document response (r.meanwhile w.files) later parsed
            (ap (λ o. o.0.files) (sym gone))) [
              | inl kept ↦ inl kept
              | inr written ↦ inr (response, answered, written)
            ])

  -- What a refresh can leave.
  abbrev pub Refreshes : Files → World × Result Error CodexAuth → Type 0
  Refreshes files o =
      (o.0.files ≡ files)
      ⊎ (o.0.files ≡ r.meanwhile files)
      ⊎ ((before : Bytes) × (response : RefreshResponse) × (bytes_of (files path) ≡ ok before)
          × IsAnswered files response
          × IsRewritten r path before response (r.meanwhile files) o.0.files)

  end_case :
      (files : Files) (bytes : Bytes) (auth : CodexAuth)
      → bytes_of (files path) ≡ ok bytes
      → IsLoaded r path files auth
      → (o : World × Result Error CodexAuth) → Finishes bytes auth (r.meanwhile files) o
      → Refreshes files o
  end_case files bytes auth found loaded o (inl kept) = inr (inl kept)
  end_case files bytes auth found loaded o (inr (response, answered, written)) =
      let (client, grant, refresh) = build_refresh_request_fields auth in
      let request = build_refresh_request auth in
      inr (
        inr (
          bytes,
          response,
          found,
          (auth, request, loaded, client, grant, refresh, answered),
          written,
        ))

  -- Whichever calls of the system fail, and whatever other processes do to the files while the
  -- request is under way, a refresh writes nothing but the file of the credentials, and that only if
  -- its bytes after the request are those from before it. What it writes is the document of these
  -- bytes, merged with the answer that the server gave, with a success status, to a request for a
  -- refresh with the refresh token of the credentials that were loaded from the file.
  pub refresh_codex_auth-Refreshes : (w : World) → Refreshes w.files (refresh_codex_auth r path w)
  unfolding refresh_codex_auth
  refresh_codex_auth-Refreshes w =
      let Q = Refreshes w.files in
      let parsed =
        λ (bytes : Bytes). context "parse Codex auth before refresh" (r.from_slice bytes) in
      look_rule Q (read path)
        (λ bytes. lift (parsed bytes) >>= λ document.
          load_auth r path >>= finish_refresh r path bytes document)
        w (λ bytes. bytes_of (w.files path) ≡ ok bytes) (read-Looks path w)
        (λ later e same. inl same)
        (λ one bytes same found.
          look_rule Q (lift (parsed bytes))
            (λ document. load_auth r path >>= finish_refresh r path bytes document) one
            (λ document. parsed bytes ≡ ok document) (lift-Looks (parsed bytes) one)
            (λ later e same'. inl (same' ∙ same))
            (λ two document same' read_in.
              look_rule Q (load_auth r path) (finish_refresh r path bytes document) two
                (IsLoaded r path two.files) (load_auth-Looks r path two)
                (λ later e same''. inl (same'' ∙ same' ∙ same))
                (λ three auth same'' loaded.
                  let known =
                    context-eq-ok "parse Codex auth before refresh" (r.from_slice bytes) read_in in
                  let end = finish_refresh r path bytes document auth three in
                  end_case w.files bytes auth found
                    (subst (λ f. IsLoaded r path f auth) (same' ∙ same) loaded) end
                    (subst (λ f. Finishes bytes auth (r.meanwhile f) end) (same'' ∙ same' ∙ same)
                      (finish_refresh-Finishes bytes document auth three known)))))
