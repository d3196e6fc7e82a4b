-- ===== src/Accounts/Devices.antt =====
-- One login session, and which sessions belong to one device
-- (backend/app/services/auth_service.py).
use nebula_grid.Base.{
  ℕ, ◌+◌, ◌*◌, Bool, true, false, ◌&&◌, ◌||◌, not, Option, none, some, List, [], ◌∷◌, ◌++◌, ◌==◌,
  leb, ltb, length, is_empty, is_some, or_else, if◌then◌else◌,
}
use nebula_grid.Base.Text.{Text, codes, text_eq, strip, words_from}
use nebula_grid.Model.{Role, viewer}
use nebula_grid.Accounts.Store.{LoginSession}

unfoldable pub normalize_device_id : Text → Text
normalize_device_id value =
    let normalized = strip value in if ltb 128 (length normalized) then [] else normalized

abbrev join_words : List Text → Text
join_words [] = []
join_words (w ∷ []) = w
join_words (w ∷ ws) = w ++ (b' ' ∷ join_words ws)

unfoldable pub normalize_user_agent : Text → Text
normalize_user_agent value = join_words (words_from [] value)

-- 30 minutes without a sign of life.
abbrev pub stale_microseconds : ℕ
stale_microseconds = 30 * 60 * 1000000

abbrev is_recent : ℕ → Option ℕ → Bool
is_recent now none = false
is_recent now (some seen) = leb now (seen + stale_microseconds)

-- A missing time of the last sign of life is read as now.
unfoldable pub session_is_active : ℕ → Bool → LoginSession → Bool
session_is_active now never_expires session =
    if is_some session.logout_at || is_some session.revoked_at
    then false
    else never_expires || is_recent now (some (or_else session.last_seen_at now))

unfoldable pub sessions_same_device : LoginSession → LoginSession → Bool
unfolding normalize_device_id normalize_user_agent
sessions_same_device left right =
    let left_device = normalize_device_id left.device_id in
    let left_ip = strip left.ip in
    let left_agent = normalize_user_agent left.user_agent in
    (left.user_id == right.user_id)
    && (not (is_empty left_device) && text_eq left_device (normalize_device_id right.device_id)
        || (not (is_empty left_ip)
            && not (text_eq left_ip (codes "unknown"))
            && text_eq left_ip (strip right.ip)
            && (not (is_empty left_agent)
                && text_eq left_agent (normalize_user_agent right.user_agent))))

-- The client of a login, normalised.
pub record Client : Type 0 where
  pub ip : Text
  pub user_agent : Text
  pub device_id : Text

abbrev or_unknown : Text → Text
or_unknown s = if is_empty s then codes "unknown" else s

unfoldable pub normalize_client : Client → Client
unfolding normalize_device_id normalize_user_agent
normalize_client c = record {
  ip = or_unknown c.ip;
  user_agent = normalize_user_agent c.user_agent;
  device_id = normalize_device_id c.device_id;
}

-- A session of the user that a new login from the same device takes over.
unfoldable pub is_mergeable : ℕ → ℕ → Bool → Client → LoginSession → Bool
unfolding session_is_active
is_mergeable now user_id never_expires c s =
    (s.user_id == user_id)
    && (session_is_active now never_expires s
        && (not (is_empty c.device_id) && text_eq (normalize_device_id s.device_id) c.device_id
            || (is_empty c.device_id
                && is_empty (normalize_device_id s.device_id)
                && not (text_eq c.ip (codes "unknown"))
                && text_eq s.ip c.ip
                && (not (is_empty c.user_agent)
                    && text_eq (normalize_user_agent s.user_agent) c.user_agent))))

abbrev pub is_viewer : Role → Bool
is_viewer viewer = true
is_viewer _ = false

abbrev pub fresh_session : ℕ → ℕ → Text → Client → ℕ → LoginSession
fresh_session id user_id token_hash c now = record {
  id = id;
  user_id = user_id;
  token_hash = token_hash;
  ip = c.ip;
  user_agent = c.user_agent;
  device_id = c.device_id;
  created_at = now;
  last_seen_at = some now;
  logout_at = none;
  revoked_at = none;
}
