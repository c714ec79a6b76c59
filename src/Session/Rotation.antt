-- ===== src/Session/Rotation.antt =====
-- What becomes of a refresh token.
use online_prorab.Common.{
  ℕ, ◌+◌, ◌<◌, String, ◌≡◌, ◌≢◌, refl, ap, ◌∙◌, inl, inr, true, Option, none, some, [], ◌∷◌, arith,
  eq_iff, eq_refl, find_where, update_where, find_where_holds, if◌then◌else◌, Option-cases,
}
use online_prorab.Common.Monad.{ok, Call-cases}
use online_prorab.Common.Order.{count_mono, find_unique, find_none, count-update_lost}
use online_prorab.Text.{trim_space}
use online_prorab.Session.{
  Session, Table, Server, refused, refreshed, logged_out, has_id, has_hash, rotate, rotated,
  takes_hash, is_valid, is_active, refresh_session, logout_session, revoke_once, refresh_token_ttl,
}
use online_prorab.Session.Limit.{IsUnique}

-- What a refresh that succeeds does to the table.
rotate_lem :
    (hash : String → String) (o : Server) (sign : String → Option String)
    (fresh_token token access : String) (rows rows' : Table)
    → rotate hash o sign fresh_token token rows ≡ (ok access, rows')
    → (s : Session) × (find_where (is_valid o.now (hash token)) rows ≡ some s)
      × (find_where (takes_hash s.id (hash fresh_token)) rows ≡ none)
      × (rows' ≡ update_where (has_id s.id) (rotated o (hash fresh_token)) rows)
      × (sign s.user_id ≡ some access)
unfolding rotate
rotate_lem hash o sign fresh_token token access rows rows' h =
    elim (Option-cases (find_where (is_valid o.now (hash token)) rows)) [
      | inl e ↦ absurd (ground arith)
      | inr (s, e) ↦ elim (Option-cases (find_where (takes_hash s.id (hash fresh_token)) rows)) [
        | inr (t, f) ↦ absurd (ground arith)
        | inl f ↦ elim (Option-cases (sign s.user_id)) [
          | inl g ↦ absurd (ground arith)
          | inr (a, g) ↦ (s, e, f, ground arith, ground arith)
        ]
      ]
    ]

-- A row that is found as valid has the hash and is the one with its id.
valid_row :
    (now : ℕ) (token_hash : String) (s : Session) (rows : Table)
    → IsUnique rows
    → find_where (is_valid now token_hash) rows ≡ some s
    → (find_where (has_id s.id) rows ≡ some s)
      × (has_hash token_hash s ≡ true)
      × (is_active now s ≡ true)
valid_row now token_hash s rows u f =
    let valid = find_where_holds (is_valid now token_hash) rows s f in
    (
      find_unique (is_valid now token_hash) (has_id s.id) rows s f (eq_refl s.id) (u.one_id s.id),
      ground arith,
      ground arith,
    )

-- Nobody holds a hash that was replaced.
replaced :
    (o : Server) (old fresh : String) (s : Session) (rows : Table) (later : ℕ)
    → IsUnique rows
    → find_where (has_id s.id) rows ≡ some s
    → has_hash old s ≡ true
    → fresh ≢ old
    → find_where (is_valid later old) (update_where (has_id s.id) (rotated o fresh) rows) ≡ none
replaced o old fresh s rows later u f e n =
    let rows' = update_where (has_id s.id) (rotated o fresh) rows in
    find_none (is_valid later old) rows' (
      omega (
        arith,
        count_mono (is_valid later old) (has_hash old) rows' (λ x t. ground arith),
        count-update_lost (has_id s.id) (has_hash old) (rotated o fresh) rows s f (u.one_id s.id) e
            (ground (arith, eq_iff fresh old)),
        u.one_hash old,
      ))

-- The row that was refreshed is found under its new hash until it expires.
renewed :
    (o : Server) (fresh : String) (s : Session) (rows : Table) (later now : ℕ)
    → find_where (has_id s.id) rows ≡ some s
    → find_where (takes_hash s.id fresh) rows ≡ none
    → is_active now s ≡ true
    → later < o.clock + refresh_token_ttl
    → find_where (is_valid later fresh) (update_where (has_id s.id) (rotated o fresh) rows)
      ≡ some (rotated o fresh s)
unfolding find_where update_where
renewed o fresh s [] later now f g a lt = cc
renewed o fresh s (x ∷ xs) later now f g a lt =
    ground (arith, renewed o fresh s xs later now, eq_refl fresh, eq_iff x.id s.id)

-- A refresh token is good for one refresh. Where ids and hashes are unique and the fresh token has
-- another hash, a refresh that succeeds replaces the token: presented again, at any time, the old one
-- is refused and changes nothing, while the new one is found as the same user's session until it
-- expires after sixty days.
pub refresh_rotates :
    (hash : String → String) (o o' : Server) (sign : String → Option String)
    (fresh_token later_token token access : String) (rows rows' : Table) (later : ℕ)
    → refresh_session hash o sign fresh_token (some token) rows
      ≡ (refreshed access fresh_token, rows')
    → IsUnique rows
    → hash fresh_token ≢ hash (trim_space token)
    → later < o.clock + refresh_token_ttl
    → (refresh_session hash o' sign later_token (some token) rows'
        ≡ (refused (if o'.begins then 401 else 500), rows'))
      × (s : Session) × (find_where (is_valid o.now (hash (trim_space token))) rows ≡ some s)
      × (sign s.user_id ≡ some access)
      × (find_where (is_valid later (hash fresh_token)) rows'
          ≡ some (rotated o (hash fresh_token) s))
unfolding refresh_session
refresh_rotates hash o o' sign fresh_token later_token token access rows rows' later h u n lt =
    elim (Call-cases (rotate hash o sign fresh_token (trim_space token) rows)) [
      | inr (x, t, e) ↦ absurd (ground arith)
      | inl (a, t, e) ↦
          let done : rotate hash o sign fresh_token (trim_space token) rows ≡ (ok access, rows') =
            ground arith in
          let (s, found, free, after, signed) =
            rotate_lem hash o sign fresh_token (trim_space token) access rows rows' done in
          let (own, old, active) = valid_row o.now (hash (trim_space token)) s rows u found in
          let gone =
            replaced o (hash (trim_space token)) (hash fresh_token) s rows o'.now u own old n in
          let gone' : find_where (is_valid o'.now (hash (trim_space token))) rows' ≡ none =
            ap (find_where (is_valid o'.now (hash (trim_space token)))) after ∙ gone in
          (
            unfold rotate in ground arith,
            s,
            found,
            signed,
            ap (find_where (is_valid later (hash fresh_token))) after
                ∙ renewed o (hash fresh_token) s rows later o.now own free active lt,
          )
    ]

ended :
    (now later : ℕ) (key : String) (rows : Table)
    → find_where (is_valid later key) (update_where (has_hash key) (revoke_once now) rows) ≡ none
unfolding find_where update_where
ended now later key [] = refl
ended now later key (x ∷ xs) = ground (arith, ended now later key xs)

-- A session that is logged out does not come back: once the database has recorded a logout, its token
-- is refused at any time and changes nothing.
pub logout_ends :
    (hash : String → String) (o o' : Server) (sign : String → Option String)
    (later_token token : String) (rows rows' : Table)
    → o.logs_out ≡ true
    → logout_session hash o (some token) rows ≡ (logged_out, rows')
    → refresh_session hash o' sign later_token (some token) rows'
      ≡ (refused (if o'.begins then 401 else 500), rows')
unfolding logout_session refresh_session
logout_ends hash o o' sign later_token token rows rows' up h =
    let key = hash (trim_space token) in
    let after : rows' ≡ update_where (has_hash key) (revoke_once o.now) rows = ground arith in
    let gone : find_where (is_valid o'.now key) rows' ≡ none =
      ap (find_where (is_valid o'.now key)) after ∙ ended o.now o'.now key rows in
    unfold rotate in ground arith
