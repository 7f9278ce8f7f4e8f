-- ===== src/Auth/Refresh/Rewriting.antt =====
-- What `refresh_codex_auth` of src/auth.rs does to the files once it has its answer.
use rcodex.Common.{
  ◌≡◌, refl, sym, ap, ◌∙◌, ◌⊎◌, inl, inr, Bool, some, [], ◌∷◌, ◌++◌, if◌then◌else◌, Bool-cases,
  Result, ok, err, Error, context, context-eq-ok, Bytes, text_eq, text_eq_sound, Result-cases,
}
use mathlib.Core.Path.{subst}
use rcodex.Json.{Value}
use rcodex.Files.{
  FilePath, file, Files, update, World, Action, pure, lift, bytes_of, ◌>>=◌, ◌>>◌, calls, read,
}
use rcodex.Files.Rules.{Looks, look_rule, bind_rule, lift-Looks, calls-Looks, read-Looks}
use rcodex.State.{install_state}
use rcodex.State.Saving.{install_state-Installs}
use rcodex.Auth.{CodexAuth, RefreshResponse, load_codex_auth, merge_refresh_response}
use rcodex.Auth.Refresh.{
  Refresher, auth_file_of, load_auth, auth_file_matches_snapshot, save_auth_document, save_merged,
}

module _ (r : Refresher) (path : FilePath) where
  -- The credentials in the file.
  abbrev pub IsLoaded : Files → CodexAuth → Type 0
  IsLoaded files auth =
      load_codex_auth r.decode r.parse_claims r.parse_document (auth_file_of (files path)) ≡ ok auth

  pub load_auth-Looks : (w : World) → Looks w.files (IsLoaded w.files) (load_auth r path w)
  unfolding load_auth
  load_auth-Looks w =
      let loaded = λ (f : Files).
        load_codex_auth r.decode r.parse_claims r.parse_document (auth_file_of (f path)) in
      look_rule (Looks w.files (IsLoaded w.files)) (calls 2)
        (λ _ later. (later, loaded later.files)) w (λ _. Unit {0}) (calls-Looks 2 w)
        (λ later e kept. (kept, inl (e, refl)))
        (λ later u kept _. elim (Result-cases (loaded later.files)) [
          | inl (e, failed) ↦ (kept, inl (e, failed))
          | inr (auth, went) ↦ (kept, inr (auth, went, ap loaded (sym kept) ∙ went))
        ])

  -- The file holds the document of these bytes with this answer merged into it.
  abbrev pub IsRewritten : Bytes → RefreshResponse → Files → Files → Type 0
  IsRewritten before response seen later =
      (document : Value) × (updated : Value) × (bytes : Bytes) × (bytes_of (seen path) ≡ ok before)
      × (r.from_slice before ≡ some document)
      × (merge_refresh_response r.decode r.parse_claims document response r.refreshed_at
          ≡ ok updated)
      × (r.to_vec_pretty updated ≡ some bytes)
      × (later ≡ update seen path (some (file 0x180 (bytes ++ b'\n' ∷ []))))

  -- All files are as another process left them, or the file was rewritten.
  abbrev pub Rewrites : Bytes → RefreshResponse → Files → World × Result Error CodexAuth → Type 0
  Rewrites before response seen o = (o.0.files ≡ seen) ⊎ IsRewritten before response seen o.0.files

  load_after :
      (before : Bytes) (response : RefreshResponse) (seen : Files) (w : World)
      → (w.files ≡ seen) ⊎ IsRewritten before response seen w.files
      → Rewrites before response seen (load_auth r path w)
  load_after before response seen w h =
      let (kept, _) = load_auth-Looks w in
      subst (λ f. (f ≡ seen) ⊎ IsRewritten before response seen f) (sym kept) h

  save_merged-Rewrites :
      (before : Bytes) (document : Value) (response : RefreshResponse) (seen : Files) (w : World)
      → bytes_of (seen path) ≡ ok before
      → r.from_slice before ≡ some document
      → w.files ≡ seen
      → Rewrites before response seen (save_merged r path document response w)
  unfolding save_merged save_auth_document
  save_merged-Rewrites before document response seen w here parsed kept =
      let Q = Rewrites before response seen in
      let merged =
        merge_refresh_response r.decode r.parse_claims document response r.refreshed_at in
      look_rule Q (lift merged) (λ updated. save_auth_document r path updated >> load_auth r path) w
        (λ updated. merged ≡ ok updated) (lift-Looks merged w) (λ later e same. inl (same ∙ kept))
        (λ one updated same made.
          bind_rule Q (save_auth_document r path updated) (λ _. load_auth r path) one
            (λ later e gone. saved_case updated one made (same ∙ kept) later (err e) gone)
            (λ later u gone.
              load_after before response seen later
                (saved_case updated one made (same ∙ kept) later (ok u) gone)))
    where
      written : Value → Result Error Bytes
      written updated = context "serialize refreshed Codex auth" (r.to_vec_pretty updated)

      save_case :
          (updated : Value) (one : World)
          → merge_refresh_response r.decode r.parse_claims document response r.refreshed_at
            ≡ ok updated
          → one.files ≡ seen
          → (let o = save_auth_document r path updated one in
              (o.0.files ≡ seen) ⊎ IsRewritten before response seen o.0.files)
      save_case updated one made same =
          look_rule
            (λ (o : World × Result Error (Unit {0})).
              (o.0.files ≡ seen) ⊎ IsRewritten before response seen o.0.files)
            (lift (written updated)) (install_state path) one (λ bytes. written updated ≡ ok bytes)
            (lift-Looks (written updated) one) (λ later e kept'. inl (kept' ∙ same))
            (λ two bytes kept' serialized. elim (install_state-Installs path bytes two) [
              | inl (unchanged, _) ↦ inl (unchanged ∙ kept' ∙ same)
              | inr (_, after) ↦ inr (
                document,
                updated,
                bytes,
                here,
                parsed,
                made,
                context-eq-ok "serialize refreshed Codex auth" (r.to_vec_pretty updated) serialized,
                after
                    ∙ ap (λ f. update f path (some (file 0x180 (bytes ++ b'\n' ∷ []))))
                        (kept' ∙ same),
              )
            ])

      saved_case :
          (updated : Value) (one : World)
          → merge_refresh_response r.decode r.parse_claims document response r.refreshed_at
            ≡ ok updated
          → one.files ≡ seen
          → (later : World) (result : Result Error (Unit {0}))
          → save_auth_document r path updated one ≡ (later, result)
          → (later.files ≡ seen) ⊎ IsRewritten before response seen later.files
      saved_case updated one made same later result gone =
          subst
            (λ (o : World × Result Error (Unit {0})).
              (o.0.files ≡ seen) ⊎ IsRewritten before response seen o.0.files)
            gone (save_case updated one made same)

  compare_case :
      (before : Bytes) (document : Value) (response : RefreshResponse) (seen : Files) (w : World)
      (here : Bytes)
      → bytes_of (seen path) ≡ ok here
      → r.from_slice before ≡ some document
      → w.files ≡ seen
      → Rewrites before response seen (
          let next : Action CodexAuth =
            if text_eq here before
            then save_merged r path document response
            else load_auth r path in
          next w)
  compare_case before document response seen w here found parsed kept =
      elim (Bool-cases (text_eq here before)) [
        | inl same ↦
            let unchanged : bytes_of (seen path) ≡ ok before =
              found ∙ ap ok (text_eq_sound here before same) in
            rw same (save_merged-Rewrites before document response seen w unchanged parsed kept)
        | inr apart ↦ rw apart (load_after before response seen w (inl kept))
      ]

  -- The answer of the comparison, for the bytes of the file.
  abbrev pub IsCompared : Bytes → Files → Bool → Type 0
  IsCompared before files same =
      (here : Bytes) × (bytes_of (files path) ≡ ok here) × (text_eq here before ≡ same)

  auth_file_matches_snapshot-Looks :
      (before : Bytes) (w : World)
      → Looks w.files (IsCompared before w.files) (auth_file_matches_snapshot r path before w)
  unfolding auth_file_matches_snapshot
  auth_file_matches_snapshot-Looks before w =
      look_rule (Looks w.files (IsCompared before w.files)) (read path)
        (λ bytes. pure (text_eq bytes before)) w (λ bytes. bytes_of (w.files path) ≡ ok bytes)
        (read-Looks path w) (λ later e kept. (kept, inl (e, refl)))
        (λ later bytes kept found. (kept, inr (text_eq bytes before, refl, (bytes, found, refl))))

  pub snapshot_step :
      (before : Bytes) (document : Value) (response : RefreshResponse) (seen : Files) (w : World)
      → r.from_slice before ≡ some document
      → w.files ≡ seen
      → Rewrites before response seen (
          (auth_file_matches_snapshot r path before >>= λ same.
          if same then save_merged r path document response else load_auth r path)
            w)
  snapshot_step before document response seen w parsed kept =
      let next : Bool → Action CodexAuth =
        λ same. if same then save_merged r path document response else load_auth r path in
      look_rule (Rewrites before response seen) (auth_file_matches_snapshot r path before) next w
        (IsCompared before w.files) (auth_file_matches_snapshot-Looks before w)
        (λ later e same. inl (same ∙ kept))
        (λ later same unchanged (here, found, answer).
          subst (λ b. Rewrites before response seen (next b later)) answer
            (compare_case before document response seen later here
              (ap (λ (f : Files). bytes_of (f path)) (sym kept) ∙ found) parsed (unchanged ∙ kept)))
