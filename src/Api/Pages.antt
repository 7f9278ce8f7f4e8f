-- ===== src/Api/Pages.antt =====
-- src/api.rs: `accept_environment_page` and the loop of `list_environments`. The server is a
-- function from the cursor of a request to its page; a request that fails ends the loop.
use rcodex.Common.{
  ℕ, zero, suc, ◌+◌, ◌≤◌, ◌<◌, ◌≡◌, refl, ◌⊎◌, inl, inr, Bool, true, false, ◌&&◌, ◌||◌, Option,
  none, some, List, [], ◌∷◌, ◌++◌, arith, ltb, ◌==◌, if◌then◌else◌, Bool-cases, length, is_empty,
  any, length-append, Result, ok, err, Error, ◌>>=◌, Text, text_eq, str_len, is_control,
}
use rcodex.Api.Environment.{RemoteEnvironment}

abbrev pub max_remote_environments : ℕ
max_remote_environments = 100

abbrev pub max_environment_pages : ℕ
max_environment_pages = 32

abbrev pub max_cursor_bytes : ℕ
max_cursor_bytes = 1024

pub record EnvironmentList : Type 0 where
  pub cursor : Option Text
  pub items : List RemoteEnvironment

-- The two collections that the loop grows.
pub record Listing : Type 0 where
  pub environments : List RemoteEnvironment
  pub seen_cursors : List Text

unfoldable pub has_cursor : Text → List Text → Bool
has_cursor k [] = false
has_cursor k (c ∷ cs) = text_eq c k || has_cursor k cs

-- `BTreeSet::insert`: a member is not added again.
unfoldable pub insert_cursor : Text → List Text → List Text
insert_cursor cursor seen = if has_cursor cursor seen then seen else cursor ∷ seen

abbrev is_some : Option Text → Bool
is_some none = false
is_some (some s) = true

bad_cursor : List Text → Text → Bool
bad_cursor seen cursor =
    is_empty cursor
    || ltb max_cursor_bytes (str_len cursor)
    || any is_control cursor
    || length seen == max_environment_pages
    || has_cursor cursor seen

-- `checked_add` cannot overflow: the first list has at most 100 entries, and no list has more than
-- `isize::MAX`.
too_many : Listing → EnvironmentList → Bool
too_many l page =
    let next = length l.environments + length page.items in
    ltb max_remote_environments next || next == max_remote_environments && is_some page.cursor

-- The new state and the next cursor. An error ends the loop that owns the collections.
unfoldable pub take_page :
    Listing → EnvironmentList → Option Text → Result Error (Listing × Option Text)
unfolding bad_cursor
take_page l page none = ok (record l { environments = l.environments ++ page.items }, none)
take_page l page (some cursor) =
    if bad_cursor l.seen_cursors cursor
    then err "relay returned an invalid environment cursor"
    else ok (
      record {
        environments = l.environments ++ page.items;
        seen_cursors = insert_cursor cursor l.seen_cursors;
      },
      some cursor,
    )

unfoldable pub accept_environment_page :
    Listing → EnvironmentList → Result Error (Listing × Option Text)
unfolding too_many take_page
accept_environment_page l page =
    if too_many l page
    then err "relay returned more environments than the broker safety limit"
    else take_page l page page.cursor

-- The loop on fuel; `none` says that it has not returned yet.
module _ (server : Option Text → Result Error EnvironmentList) where
  unfoldable pub list_from :
      ℕ → Option Text → Listing → Option (Result Error (List RemoteEnvironment))
  list_from zero cursor l = none
  list_from (suc f) cursor l = elim (server cursor >>= accept_environment_page l) [
    | err e ↦ some (err e)
    | ok (l', none) ↦ some (ok l'.environments)
    | ok (l', some next) ↦ list_from f (some next) l'
  ]

  unfoldable pub list_environments : ℕ → Option (Result Error (List RemoteEnvironment))
  unfolding list_from
  list_environments fuel = list_from fuel none (record { environments = []; seen_cursors = [] })

-- What the loop keeps: few enough environments, and few enough cursors.
pub record IsBounded (l : Listing) : Type 0 where
  pub few : length l.environments ≤ max_remote_environments
  pub seen : length l.seen_cursors ≤ max_environment_pages

take_page-IsBounded :
    (l l' : Listing) (page : EnvironmentList) (cursor next : Option Text)
    → IsBounded l
    → length l.environments + length page.items ≤ max_remote_environments
    → take_page l page cursor ≡ ok (l', next)
    → IsBounded l' × ((next ≡ none) ⊎ (length l'.seen_cursors ≡ suc (length l.seen_cursors)))
unfolding take_page insert_cursor bad_cursor
take_page-IsBounded l l' page none next h few e =
    ground (arith, length-append l.environments page.items)
take_page-IsBounded l l' page (some k) next h few e =
    ground (arith, length-append l.environments page.items)

accept_environment_page-IsBounded :
    (l l' : Listing) (page : EnvironmentList) (next : Option Text)
    → IsBounded l
    → accept_environment_page l page ≡ ok (l', next)
    → IsBounded l' × ((next ≡ none) ⊎ (length l'.seen_cursors ≡ suc (length l.seen_cursors)))
unfolding accept_environment_page
accept_environment_page-IsBounded l l' page next h e = elim (Bool-cases (too_many l page)) [
  | inl over ↦ cc (rw over at e)
  | inr few ↦ take_page-IsBounded l l' page page.cursor next h (ground arith) (rw few at e)
]

-- An error, or few enough environments.
abbrev pub IsFew : Result Error (List RemoteEnvironment) → Type 0
IsFew (err e) = Unit
IsFew (ok es) = length es ≤ max_remote_environments

-- The loop has returned.
abbrev pub Ends : Option (Result Error (List RemoteEnvironment)) → Type 0
Ends o = (result : Result Error (List RemoteEnvironment)) × (o ≡ some result) × IsFew result

accepted-IsBounded :
    (l l' : Listing) (reply : Result Error EnvironmentList) (next : Option Text)
    → IsBounded l
    → (reply >>= accept_environment_page l) ≡ ok (l', next)
    → IsBounded l' × ((next ≡ none) ⊎ (length l'.seen_cursors ≡ suc (length l.seen_cursors)))
accepted-IsBounded l l' (ok page) next h e = accept_environment_page-IsBounded l l' page next h e
accepted-IsBounded l l' (err m) next h e = cc

module _ (server : Option Text → Result Error EnvironmentList) where
  round-Ends :
      (f seen : ℕ) (reply : Result Error (Listing × Option Text))
      → ((l : Listing) (next : Option Text)
          → reply ≡ ok (l, next)
          → IsBounded l × ((next ≡ none) ⊎ (length l.seen_cursors ≡ suc seen)))
      → ((cursor : Option Text) (l : Listing)
          → IsBounded l
          → max_environment_pages < f + length l.seen_cursors
          → Ends (list_from server f cursor l))
      → max_environment_pages < suc f + seen
      → Ends (elim reply [
        | err e ↦ some (err e)
        | ok (l', none) ↦ some (ok l'.environments)
        | ok (l', some next) ↦ list_from server f (some next) l'
      ])
  round-Ends f seen (err e) bounded again enough = (err e, refl, tt)
  round-Ends f seen (ok (l, none)) bounded again enough =
      (ok l.environments, refl, (bounded l none refl).0.few)
  round-Ends f seen (ok (l, some next)) bounded again enough =
      let (ok_l, grown) = bounded l (some next) refl in
      again (some next) l ok_l (ground (arith, grown))

  list_from-Ends :
      (f : ℕ) (cursor : Option Text) (l : Listing)
      → IsBounded l
      → max_environment_pages < f + length l.seen_cursors
      → Ends (list_from server f cursor l)
  unfolding list_from
  list_from-Ends zero cursor l h enough = absurd (omega (arith, h.seen))
  list_from-Ends (suc f) cursor l h enough =
      round-Ends f (length l.seen_cursors) (server cursor >>= accept_environment_page l)
        (λ l' next e. accepted-IsBounded l l' (server cursor) next h e)
        (λ k m b. list_from-Ends f k m b) enough

  -- Whatever the server answers, also if it hands out new cursors for ever, the loop returns after
  -- 33 requests at most, and a list that it returns has at most 100 environments.
  pub list_environments-Ends : Ends (list_environments server 33)
  unfolding list_environments
  list_environments-Ends =
      list_from-Ends 33 none (record { environments = []; seen_cursors = [] }) (omega arith)
        (omega arith)
