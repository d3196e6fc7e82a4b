-- ===== src/Accounts/Tokens.antt =====
-- Passwords and tokens (backend/app/core/security.py).
use nebula_grid.Base.{
  ◌&&◌, Bool, false, ◌||◌, not, List, [], ◌∷◌, ◌++◌, ◌==◌, take, is_empty, if◌then◌else◌,
}
use nebula_grid.Base.Text.{Text, codes, text_eq, split, lower}
use nebula_grid.Response.{Response, ok, error, unauthorized}
use nebula_grid.Accounts.Store.{Host}

unfoldable pub hash_password : Host → Text → Text
hash_password host password = host.sha256 password

unfoldable pub verify_password : Host → Text → Text → Bool
unfolding hash_password
verify_password host password password_hash = text_eq (hash_password host password) password_hash

abbrev pub token_digest : Host → Text → Text → Text
token_digest host username nonce =
    take 24 (host.sha256 (codes "demo:" ++ (username ++ (b':' ∷ nonce))))

-- The nonce is an argument.
unfoldable pub create_session_token : Host → Text → Text → Text
create_session_token host username nonce =
    codes "demo"
    ++ (b'.' ∷ (username ++ (b'.' ∷ (nonce ++ (b'.' ∷ token_digest host username nonce)))))

-- A token of the older form, without a nonce.
unfoldable pub plain_token : Host → Text → Text
plain_token host username =
    codes "demo." ++ (username ++ (b'.' ∷ take 24 (host.sha256 (codes "demo:" ++ username))))

-- In the place of an empty nonce a random one is taken, which is not that of the token.
unfoldable pub verify_parts : Host → Text → Text → List Text → Bool
unfolding create_session_token plain_token
verify_parts host token username (a ∷ b ∷ nonce ∷ d ∷ []) =
    not (is_empty nonce) && text_eq token (create_session_token host username nonce)
verify_parts host token username (a ∷ b ∷ c ∷ []) = text_eq token (plain_token host username)
verify_parts host token username _ = false

unfoldable pub verify_session_token : Host → Text → Text → Bool
unfolding verify_parts
verify_session_token host token username = verify_parts host token username (split b'.' token)

-- `value.partition(" ")`, without the separator.
unfoldable pub partition_space : Text → Text × Text
partition_space [] = ([], [])
partition_space (c ∷ s) =
    let (a, b) = partition_space s in if c == b' ' then ([], s) else (c ∷ a, b)

unfoldable pub parse_authorization_header : Text → Response Text
unfolding partition_space
parse_authorization_header header =
    let (scheme, token) = partition_space header in
    if is_empty header
    then error unauthorized
    else if not (text_eq (lower scheme) (codes "bearer")) || is_empty token
    then error unauthorized
    else ok token
