-- ===== src/Identity/Sessions.antt =====
-- packages/platform/src/vda_platform/identity/sessions.py: `SessionManager`.
-- The SHA-256 of a text in hexadecimal is the parameter `sha256`. The random session id, token and
-- CSRF value that `create` draws are its arguments. Instants are numbers in UTC, and `now` is given.
pub mod Revoking
use grok_bot_data.Prelude.{
  ℕ, String, Option, none, some, [], leb, is_some, Exec, pure, gets, or_raise, raise_if, modify,
  ◌+◌, ◌||◌, ◌∷◌, ◌==◌, ◌!=◌, ◌>>=◌, ◌>>◌, if◌then◌else◌, string_eq, pair_eq, nat_eq, option_eq,
}
use grok_bot_data.Prelude.Dict.{Dict, lookup, insert}

-- `SessionError` with one constructor for each message, and a `d[k]` that misses
pub data SessionError : Type 0 where
  fields_required ttl_not_positive session_revoked session_expired csrf_invalid : SessionError
  token_invalid credential_required key_error : SessionError

pub record Session : Type 0 where
  pub session_id : String
  pub principal_id : String
  pub issuer : String
  pub subject : String
  pub issued_at : ℕ
  pub expires_at : ℕ
  pub revoked_at : Option ℕ

-- `SessionCookie`, with the CSRF value that `create` returns beside it
pub record SessionCookie : Type 0 where
  pub token : String
  pub session : Session
  pub csrf : String

-- `_StoredSession`
pub record StoredSession : Type 0 where
  pub session : Session
  pub token_hash : String
  pub csrf_hash : String

pub record SessionManager : Type 0 where
  pub sessions : Dict String StoredSession

abbrev pub SessionCommand : Type 0 → Type 0
SessionCommand A = Exec SessionManager SessionError A

-- the loop of `_find`, with the key of the entry that it finds
unfoldable pub find_hash : String → Dict String StoredSession → Option (String × StoredSession)
find_hash hash [] = none
find_hash hash ((key, stored) ∷ rest) =
    if stored.token_hash == hash then some (key, stored) else find_hash hash rest

-- the first entry with the hash, with another session: `stored.session = ...`
unfoldable pub set_session :
    String → Session → Dict String StoredSession → Dict String StoredSession
set_session hash session [] = []
set_session hash session ((key, stored) ∷ rest) =
    let others = set_session hash session rest in
    if stored.token_hash == hash
    then (key, record stored { session = session }) ∷ rest
    else (key, stored) ∷ others

module _ (sha256 : String → String) where
  -- `_digest`
  unfoldable pub digest : String → SessionCommand String
  digest value = do raise_if (value == "") credential_required; pure (sha256 value)

  -- `SessionManager._find`
  unfoldable pub find : String → SessionCommand StoredSession
  unfolding digest find_hash
  find token = do
    hash ← digest token
    found ← gets (λ s. find_hash hash s.sessions)
    entry ← or_raise found token_invalid
    pure entry.1

  -- `SessionManager.create`
  unfoldable pub create :
      String → String → String → String → String → String → ℕ → ℕ → SessionCommand SessionCookie
  unfolding digest
  create session_id token csrf principal_id issuer subject now ttl = do
    raise_if (principal_id == "" || issuer == "" || subject == "") fields_required
    raise_if (leb ttl 0) ttl_not_positive
    let session : Session = record {
      session_id = session_id;
      principal_id = principal_id;
      issuer = issuer;
      subject = subject;
      issued_at = now;
      expires_at = now + ttl;
      revoked_at = none;
    }
    token_hash ← digest token
    csrf_hash ← digest csrf
    modify (λ s. record s {
      sessions =
          insert session_id
            (record { session = session; token_hash = token_hash; csrf_hash = csrf_hash })
            s.sessions;
    })
    pure (record { token = token; session = session; csrf = csrf })

  -- `SessionManager.authenticate`
  unfoldable pub authenticate : String → ℕ → SessionCommand Session
  unfolding find
  authenticate token now = do
    stored ← find token
    raise_if (is_some stored.session.revoked_at) session_revoked
    raise_if (leb stored.session.expires_at now) session_expired
    pure stored.session

  -- `SessionManager.verify_csrf`
  unfoldable pub verify_csrf : String → String → ℕ → SessionCommand Session
  unfolding authenticate digest
  verify_csrf token csrf now = do
    session ← authenticate token now
    found ← gets (λ s. lookup session.session_id s.sessions)
    stored ← or_raise found key_error
    hash ← digest csrf
    raise_if (stored.csrf_hash != hash) csrf_invalid
    pure session

  -- `SessionManager.revoke`, behind `_find`
  unfoldable pub end_session : String → StoredSession → Option ℕ → ℕ → SessionCommand Session
  unfolding set_session
  end_session token stored (some before) now = pure stored.session
  end_session token stored none now = do
    let ended : Session = record stored.session { revoked_at = some now }
    modify (λ s. record s { sessions = set_session (sha256 token) ended s.sessions })
    pure ended

  -- `SessionManager.revoke`
  unfoldable pub revoke : String → ℕ → SessionCommand Session
  unfolding find end_session
  revoke token now = do stored ← find token; end_session token stored stored.session.revoked_at now
