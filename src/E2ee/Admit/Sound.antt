-- ===== src/E2ee/Admit/Sound.antt =====
-- What an admission that executes has checked and written, and that a refused one writes nothing.
use agent_wharf.Prelude.{
  ◌<◌, ◌≡◌, refl, Bool, true, Option, none, some, Option-cases, ◌++◌, Result, ok, err, arith,
  eq_iff, find, text_key, pair_key, inl, inr,
}
use agent_wharf.E2ee.Db.{
  E2eeError, Bytes, DeviceGrant, SessionRow, claimed, CommandRow, Db, Faults, session_key,
  command_key, find_grant,
}
use agent_wharf.E2ee.Admit.{
  Context, Envelope, CommandAdmission, Crypto, Reservation, context_bytes, reserved,
  reserve_command, reserve_or_report, open_and_reserve, check_grant, check_session, settle,
  admit_validated, max_commands_per_session,
}

-- The facts that an executed admission rests on.
pub record Executed (k : Crypto) (validate : Bytes → Bool) (c : Context) (key : Bytes)
    (envelope : Envelope) (db : Db) (a : CommandAdmission) (plaintext : Bytes) (db' : Db)
    : Type 0 where
  pub row : SessionRow
  pub grant : DeviceGrant
  pub fingerprint : Bytes
  pub session_found : find session_key c.session db.sessions ≡ some row
  pub keyed : row.key_id ≡ c.key_id
  pub grant_found : find_grant c.session c.sender db.grants ≡ some grant
  pub controls : grant.control ≡ true
  pub opened : k.open_envelope c key grant.verify_key envelope ≡ ok plaintext
  pub validated : validate plaintext ≡ true
  pub fresh : find command_key (c.session, c.message_id) db.commands ≡ none
  pub counted : row.command_count < max_commands_per_session
  pub admission : a ≡ record { execute = true; state = claimed }
  pub after : db' ≡ reserved c fingerprint row db

reserve_command_sound :
    (faults : Faults) (c : Context) (pl fp : Bytes) (db : Db) (o : Option SessionRow)
    (a : CommandAdmission) (pl' : Bytes) (db' : Db)
    → reserve_command faults c pl fp db o ≡ ok (a, some (pl', db'))
    → (row : SessionRow) × (o ≡ some row)
      × (row.command_count < max_commands_per_session)
      × (a ≡ record { execute = true; state = claimed })
      × (pl' ≡ pl)
      × (db' ≡ reserved c fp row db)
unfolding reserve_command
reserve_command_sound faults c pl fp db none a pl' db' h = absurd (ground arith)
reserve_command_sound faults c pl fp db (some row) a pl' db' h =
    (row, refl, ground arith, ground arith, ground arith, ground arith)

reserve_or_report_sound :
    (faults : Faults) (c : Context) (pl fp : Bytes) (db : Db) (o : Option CommandRow)
    (a : CommandAdmission) (pl' : Bytes) (db' : Db)
    → reserve_or_report faults c pl fp db o ≡ ok (a, some (pl', db'))
    → (o ≡ none)
      × (row : SessionRow) × (find session_key c.session db.sessions ≡ some row)
      × (row.command_count < max_commands_per_session)
      × (a ≡ record { execute = true; state = claimed })
      × (pl' ≡ pl)
      × (db' ≡ reserved c fp row db)
unfolding reserve_or_report
reserve_or_report_sound faults c pl fp db (some r) a pl' db' h = absurd (ground arith)
reserve_or_report_sound faults c pl fp db none a pl' db' h =
    let (row, e, n, x, y, z) =
      reserve_command_sound faults c pl fp db (find session_key c.session db.sessions) a pl' db'
        (ground arith) in
    (refl, row, e, n, x, y, z)

module _ (k : Crypto) (faults : Faults) (validate : Bytes → Bool) (c : Context) (key : Bytes)
    (envelope : Envelope) (db : Db) (a : CommandAdmission) (pl : Bytes) (db' : Db) where
  -- The command's own decision, for a plaintext and a fingerprint.
  abbrev Reserves : Bytes → Bytes → Type 0
  Reserves p fp =
      reserve_or_report faults c p fp db (find command_key (c.session, c.message_id) db.commands)
      ≡ ok (a, some (pl, db'))

  reserve_opened :
      (aad : Bytes) (g : DeviceGrant) (p : Bytes)
      → k.open_envelope c key g.verify_key envelope ≡ ok p
      → open_and_reserve k faults validate c aad key envelope db g ≡ ok (a, some (pl, db'))
      → (fp : Bytes) × (validate p ≡ true) × Reserves p fp
  unfolding open_and_reserve
  reserve_opened aad g p o h = elim (Option-cases (k.encode_envelope envelope)) [
    | inl n ↦ absurd (ground arith)
    | inr (wire, w) ↦ (k.sha256 (aad ++ wire), ground arith, ground arith)
  ]

  executed :
      (aad : Bytes) (row : SessionRow) (g : DeviceGrant) (p : Bytes)
      → find session_key c.session db.sessions ≡ some row
      → row.key_id ≡ c.key_id
      → find_grant c.session c.sender db.grants ≡ some g
      → g.control ≡ true
      → k.open_envelope c key g.verify_key envelope ≡ ok p
      → open_and_reserve k faults validate c aad key envelope db g ≡ ok (a, some (pl, db'))
      → Executed k validate c key envelope db a pl db'
  executed aad row g p e q f control o h =
      let (fp, v, r) = reserve_opened aad g p o h in
      let (new, row', e', n, x, same, z) = reserve_or_report_sound faults c p fp db _ a pl db' r in
      record {
        row = row';
        grant = g;
        fingerprint = fp;
        session_found = e';
        keyed = ground arith;
        grant_found = f;
        controls = control;
        opened = rw same o;
        validated = rw same v;
        fresh = new;
        counted = n;
        admission = x;
        after = z;
      }

  Executed-grant :
      (aad : Bytes) (row : SessionRow) (o : Option DeviceGrant)
      → find session_key c.session db.sessions ≡ some row
      → row.key_id ≡ c.key_id
      → find_grant c.session c.sender db.grants ≡ o
      → check_grant k faults validate c aad key envelope db o ≡ ok (a, some (pl, db'))
      → Executed k validate c key envelope db a pl db'
  unfolding check_grant
  Executed-grant aad row none e q f h = absurd (ground arith)
  Executed-grant aad row (some g) e q f h =
      opened (k.open_envelope c key g.verify_key envelope) refl
    where
      opened :
          (r : Result E2eeError Bytes)
          → k.open_envelope c key g.verify_key envelope ≡ r
          → Executed k validate c key envelope db a pl db'
      opened (err x) o = absurd (ground arith)
      opened (ok p) o = executed aad row g p e q f (ground arith) o (ground arith)

  Executed-session :
      (aad : Bytes) (o : Option SessionRow)
      → find session_key c.session db.sessions ≡ o
      → check_session k faults validate c aad key envelope db o ≡ ok (a, some (pl, db'))
      → Executed k validate c key envelope db a pl db'
  unfolding check_session
  Executed-session aad none e h = absurd (ground arith)
  Executed-session aad (some row) e h =
      Executed-grant aad row (find_grant c.session c.sender db.grants) e
        (ground (arith, eq_iff row.key_id c.key_id)) refl (ground arith)

settle-some :
    (faults : Faults) (db : Db) (r : Reservation) (a : CommandAdmission) (pl : Bytes) (db' : Db)
    → settle faults db r ≡ (ok (a, some pl), db')
    → r ≡ ok (a, some (pl, db'))
settle-some faults db (err e) a pl db' h = absurd (ground arith)
settle-some faults db (ok (b, none)) a pl db' h = absurd (ground arith)
settle-some faults db (ok (b, some (q, d))) a pl db' h = ground arith

-- An admission that executes found the session keyed by the command's key, a control grant of the
-- sender, and a plaintext opened under that grant's key and accepted by the caller's check; the
-- command had no row and the session was below its limit; and all that was written is the count and
-- the claim.
pub admit_sound :
    (k : Crypto) (faults : Faults) (validate : Bytes → Bool) (c : Context) (key : Bytes)
    (envelope : Envelope) (db : Db) (a : CommandAdmission) (pl : Bytes) (db' : Db)
    → admit_validated k faults validate c key envelope db ≡ (ok (a, some pl), db')
    → Executed k validate c key envelope db a pl db'
unfolding admit_validated
admit_sound k faults validate c key envelope db a pl db' h = encoded (context_bytes k c) refl
  where
    encoded :
        (r : Result E2eeError Bytes)
        → context_bytes k c ≡ r
        → Executed k validate c key envelope db a pl db'
    encoded (err e) q = absurd (ground arith)
    encoded (ok aad) q =
        Executed-session k faults validate c key envelope db a pl db' aad
          (find session_key c.session db.sessions) refl
          (settle-some faults db _ a pl db' (ground arith))
