-- ===== src/Identity/Sessions/Revoking.antt =====
-- What a revocation ends (identity/sessions.py).
use grok_bot_data.Prelude.{
  ℕ, String, refl, ap, subst, inl, inr, false, Option, none, some, [], Bool-cases, Option-cases, ok,
  err, some_injective, string_eq, pair_eq, option_eq, nat_eq, ◌≡◌, ◌∷◌, ◌==◌,
}
use grok_bot_data.Prelude.Dict.{Dict}
use grok_bot_data.Prelude.Effect.{err-ne-ok, ok_injective}
use grok_bot_data.Identity.Sessions.{
  Session, SessionManager, StoredSession, session_revoked, find_hash, set_session, digest, find,
  authenticate, end_session, revoke,
}

-- The entry that the loop finds after a write to it.
find_hash-set_session :
    (hash key : String) (d : Dict String StoredSession) (stored : StoredSession) (session : Session)
    → find_hash hash d ≡ some (key, stored)
    → find_hash hash (set_session hash session d) ≡ some (key, record stored { session = session })
unfolding find_hash set_session
find_hash-set_session hash key [] stored session h = cc
find_hash-set_session hash key ((k, t) ∷ d) stored session h =
    elim (Bool-cases (t.token_hash == hash)) [
      | inl here ↦
          rw (here, here)
            (ap (λ (p : String × StoredSession). some (p.0, record p.1 { session = session }))
              (some_injective (rw here at h)))
      | inr there ↦
          rw (there, there) (find_hash-set_session hash key d stored session (rw there at h))
    ]

module _ (sha256 : String → String) (token : String) (later : ℕ) where
  abbrev Ended : Session → SessionManager → Type 0
  Ended session s =
      (authenticate sha256 token later s ≡ (err session_revoked, s))
      × (revoke sha256 token later s ≡ (ok session, s))

  -- A token whose entry is revoked is refused, and revoking it again changes nothing.
  ended :
      (s : SessionManager) (key : String) (stored : StoredSession) (t : ℕ)
      → (token == "") ≡ false
      → find_hash (sha256 token) s.sessions ≡ some (key, stored)
      → stored.session.revoked_at ≡ some t
      → Ended stored.session s
  unfolding authenticate revoke find digest end_session
  ended s key stored t given hit gone = (rw (given, hit, gone) refl, rw (given, hit, gone) refl)

  closed :
      (s s' : SessionManager) (key : String) (stored : StoredSession) (session : Session) (now : ℕ)
      (o : Option ℕ)
      → (token == "") ≡ false
      → find_hash (sha256 token) s.sessions ≡ some (key, stored)
      → stored.session.revoked_at ≡ o
      → end_session sha256 token stored o now s ≡ (ok session, s')
      → Ended session s'
  unfolding end_session
  closed s s' key stored session now (some t) given hit gone ran =
      subst (λ x. Ended x s') (ok_injective (ap (λ y. y.0) ran))
        (subst (λ m. Ended stored.session m) (ap (λ y. y.1) ran)
          (ended s key stored t given hit gone))
  closed s s' key stored session now none given hit gone ran =
      let new : Session = record stored.session { revoked_at = some now } in
      subst (λ x. Ended x s') (ok_injective (ap (λ y. y.0) ran))
        (subst (λ m. Ended new m) (ap (λ y. y.1) ran)
          (ended (record s { sessions = set_session (sha256 token) new s.sessions }) key
            (record stored { session = new }) now given
            (find_hash-set_session (sha256 token) key s.sessions stored new hit) refl))

  -- After a session was revoked, its token is refused at every time, and revoking it again, at
  -- whatever time, returns the same session with the first time and changes nothing.
  pub revoke_ends :
      (s s' : SessionManager) (session : Session) (now : ℕ)
      → revoke sha256 token now s ≡ (ok session, s')
      → (authenticate sha256 token later s' ≡ (err session_revoked, s'))
        × (revoke sha256 token later s' ≡ (ok session, s'))
  unfolding revoke find digest
  revoke_ends s s' session now ran = elim (Bool-cases (token == "")) [
    | inl empty ↦ absurd (err-ne-ok _ _ (ap (λ y. y.0) (rw empty at ran)))
    | inr given ↦ elim (Option-cases (find_hash (sha256 token) s.sessions)) [
      | inl miss ↦ absurd (err-ne-ok _ _ (ap (λ y. y.0) (rw (given, miss) at ran)))
      | inr ((key, stored), hit) ↦
          closed s s' key stored session now _ given hit refl (rw (given, hit) at ran)
    ]
  ]
