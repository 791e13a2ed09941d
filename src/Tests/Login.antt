-- ===== src/Tests/Login.antt =====
-- The theorem on sessions at one session. The hash of a text is the text behind a mark.
use grok_bot_data.Prelude.{ℕ, String, refl, Option, none, some, [], ok, err, ◌≡◌, ◌∷◌}
use Prim.Native.String.{◌++◌ as concat}
use grok_bot_data.Identity.Sessions.{
  Session, SessionManager, session_revoked, find_hash, set_session, digest, find, authenticate,
  end_session, revoke,
}
use grok_bot_data.Identity.Sessions.Revoking.{revoke_ends}

abbrev marked : String → String
marked text = concat "#" text

abbrev session_at : Option ℕ → Session
session_at revoked = record {
  session_id = "s1";
  principal_id = "ann";
  issuer = "idp";
  subject = "ann@idp";
  issued_at = 10;
  expires_at = 100;
  revoked_at = revoked;
}

abbrev manager_with : Session → SessionManager
manager_with session = record {
  sessions = ("s1", record { session = session; token_hash = "#t"; csrf_hash = "#c" }) ∷ [];
}

revoke_ends_example :
    (authenticate marked "t" 30 (manager_with (session_at (some 20)))
      ≡ (err session_revoked, manager_with (session_at (some 20))))
    × (revoke marked "t" 30 (manager_with (session_at (some 20)))
        ≡ (ok (session_at (some 20)), manager_with (session_at (some 20))))
unfolding revoke find digest find_hash set_session end_session
revoke_ends_example =
    revoke_ends marked "t" 30 (manager_with (session_at none)) (manager_with (session_at (some 20)))
      (session_at (some 20)) 20 refl
