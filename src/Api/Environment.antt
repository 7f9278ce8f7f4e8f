-- ===== src/Api/Environment.antt =====
-- src/api.rs: a remote environment and its names; src/shim.rs: the choice of one to connect to.
use rcodex.Common.{
  ◌≡◌, ◌⊎◌, inl, inr, Bool, true, Option, none, some, List, [], ◌∷◌, if◌then◌else◌, Bool-cases,
  is_empty, find_first, Result, ok, err, Error, Text, text_eq, trim,
}

-- The fields `display_name` and `host_name` of the source are `display_label` and `host_label`, beside
-- the methods with these names.
pub record RemoteEnvironment : Type 0 where
  pub app_server_version : Option Text
  pub arch : Option Text
  pub busy : Bool
  pub client_type : Option Text
  pub display_label : Option Text
  pub env_id : Text
  pub host_label : Option Text
  pub installation_id : Option Text
  pub kind : Option Text
  pub last_seen_at : Option Text
  pub name : Option Text
  pub online : Bool
  pub os : Option Text

-- `value.trim().is_empty()`.
abbrev pub is_blank : Text → Bool
is_blank s = is_empty (trim s)

unfoldable pub first_nonempty : List (Option Text) → Text
first_nonempty [] = []
first_nonempty (none ∷ vs) = first_nonempty vs
first_nonempty (some s ∷ vs) = if is_blank s then first_nonempty vs else s

unfoldable pub display_name : RemoteEnvironment → Text
unfolding first_nonempty
display_name e = first_nonempty (e.display_label ∷ e.name ∷ e.host_label ∷ some e.env_id ∷ [])

unfoldable pub host_name : RemoteEnvironment → Text
unfolding first_nonempty
host_name e = first_nonempty (e.host_label ∷ e.name ∷ e.display_label ∷ some e.env_id ∷ [])

abbrev pub has_id : Text → RemoteEnvironment → Bool
has_id id e = text_eq e.env_id id

-- `iter().filter(|environment| environment.online)`.
unfoldable pub online_only : List RemoteEnvironment → List RemoteEnvironment
online_only [] = []
online_only (e ∷ es) = if e.online then e ∷ online_only es else online_only es

-- The identifier that the messages quote is left out of them.
unfoldable pub select_found : Option RemoteEnvironment → Result Error RemoteEnvironment
select_found none = err "remote-control environment was not found"
select_found (some e) = if e.online then ok e else err "remote-control environment is offline"

unfoldable pub select_only : List RemoteEnvironment → Result Error RemoteEnvironment
select_only [] = err "no paired Codex remote-control host is online"
select_only (e ∷ []) = ok e
select_only (e ∷ f ∷ es) = err "multiple Codex hosts are online; choose one with --device <ENV_ID>"

unfoldable pub select_environment :
    List RemoteEnvironment → Option Text → Result Error RemoteEnvironment
unfolding select_found select_only online_only
select_environment es (some id) = select_found (find_first (has_id id) es)
select_environment es none = select_only (online_only es)

-- The environment is in the list.
abbrev pub IsListed : RemoteEnvironment → List RemoteEnvironment → Type 0
IsListed e [] = ⊥
IsListed e (f ∷ fs) = (f ≡ e) ⊎ IsListed e fs

pub find_first-IsListed :
    (p : RemoteEnvironment → Bool) (es : List RemoteEnvironment) (e : RemoteEnvironment)
    → find_first p es ≡ some e
    → IsListed e es × (p e ≡ true)
find_first-IsListed p [] e h = cc
find_first-IsListed p (f ∷ es) e h = elim (Bool-cases (p f)) [
  | inl hit ↦ let same : f ≡ e = cc (rw (hit, find_first) at h) in (inl same, rw (← same) hit)
  | inr miss ↦
      let (listed, holds) = find_first-IsListed p es e (rw (miss, find_first) at h) in
      (inr listed, holds)
]
