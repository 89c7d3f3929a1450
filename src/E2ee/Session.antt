-- ===== src/E2ee/Session.antt =====
-- experimental/e2ee/device_lifecycle.go, session_transition.go, rotation.go and the transaction part
-- of membership.go: the life of a session's key and of its members.
-- A fresh random key id, and the wrapped new key, are arguments.
use agent_wharf.Prelude.{
  ℕ, ◌+◌, String, Bool, true, false, ◌||◌, ◌&&◌, Option, none, some, List, [], ◌∷◌, ◌++◌, Result,
  ok, err, Outcome, ◌>>=◌, ◌>>◌, str_eq, if◌then◌else◌, not, leb, ◌==◌, length, ℤ, pos, map, find,
  put, text_key, pair_key,
}
use agent_wharf.E2ee.Db.{
  E2eeError, invalid, unauthorized, conflict, capacity, Bytes, bytes_eq, DeviceGrant, SessionRow,
  MembershipReceipt, Db, Faults, statement, transact, session_key, wrapped_key, receipt_key,
  find_grant, select_grants, reserve, read_session, read_grant, read_receipt, write_receipt,
  write_key,
}
use agent_wharf.E2ee.Grants.{validate_grants, replace_grants_tx}

-- The vault's own machine: its device id and its public signing key.
pub record Machine : Type 0 where
  pub device : String
  pub signing_key : Bytes

-- `CommandJournal.SessionState`
unfoldable pub session_state :
    (String → Bool) → Faults → String → Db → Result E2eeError (ℕ × String)
session_state identifier faults session db =
    if not (identifier session) then err invalid else elim (find session_key session db.sessions) [
      | none ↦ statement faults read_session (err unauthorized)
      | some row ↦ statement faults read_session (ok (row.epoch, row.key_id))
    ]

-- `CommandJournal.ListSessions`
unfoldable pub list_sessions : Faults → Db → Result E2eeError (List String)
list_sessions faults db = statement faults read_session (ok (map session_key db.sessions))

-- `sessionGrants` skips a key of the wrong length.
unfoldable pub sized : List DeviceGrant → List DeviceGrant
sized [] = []
sized (g ∷ gs) = let rest = sized gs in if length g.verify_key == 32 then g ∷ rest else rest

-- `CommandJournal.sessionGrants`
unfoldable pub session_grants : Faults → String → Db → Result E2eeError (List DeviceGrant)
unfolding sized
session_grants faults session db =
    statement faults read_grant (ok (sized (select_grants session db.grants)))

-- The loop of `withMachineControlGrant`: `none` if the machine is no member.
unfoldable pub give_control : String → List DeviceGrant → Option (List DeviceGrant)
give_control device [] = none
give_control device (g ∷ gs) =
    let rest = give_control device gs in
    if str_eq g.device_id device
    then some (record g { control = true } ∷ gs)
    else elim rest [ none ↦ none | some hs ↦ some (g ∷ hs) ]

-- `withMachineControlGrant`
unfoldable pub with_machine_control_grant :
    Machine → List DeviceGrant → Result E2eeError (List DeviceGrant)
unfolding give_control
with_machine_control_grant m grants =
    if not (length m.signing_key == 32) then err invalid else elim (give_control m.device grants) [
      | some hs ↦ ok hs
      | none ↦
          (if leb 32 (length grants)
            then err capacity
            else ok (
                grants
                ++ record { device_id = m.device; verify_key = m.signing_key; control = true }
                  ∷ []))
    ]

-- `membershipAuthorization`
pub record MembershipAuthorization : Type 0 where
  pub device : String
  pub public_key : Bytes
  pub hash : Bytes

-- The last query of `authorize`: the requester holds a control grant at the expected epoch.
unfoldable pub controls :
    MembershipAuthorization → ℕ → Option SessionRow → Option DeviceGrant → Bool
controls a epoch (some row) (some g) =
    row.epoch == epoch && bytes_eq g.verify_key a.public_key && g.control
controls _ _ _ _ = false

-- The receipt of the transition to `epoch + 1` with `key_id`, if that is the session's current state.
unfoldable pub current_receipt :
    String → ℕ → Option SessionRow → Option MembershipReceipt → Option MembershipReceipt
current_receipt key_id epoch (some row) (some r) =
    if r.epoch == epoch + 1
      && str_eq r.key_id key_id
      && row.epoch == r.epoch
      && str_eq row.key_id r.key_id
    then some r
    else none
current_receipt _ _ _ _ = none

-- `membershipAuthorization.authorize`: `true` for an exact retry.
unfoldable pub authorize :
    Faults → MembershipAuthorization → String → String → ℕ → Db → Result E2eeError Bool
unfolding controls current_receipt
authorize faults a session key_id epoch db = statement faults reserve (
    statement faults read_receipt
      (elim (current_receipt key_id epoch (find session_key session db.sessions)
        (find receipt_key session db.receipts)) [
          | some r ↦ (if bytes_eq r.request_hash a.hash then ok true else err conflict)
          | none ↦ statement faults read_grant (
              if controls a epoch (find session_key session db.sessions)
                (find_grant session a.device db.grants)
              then ok false
              else err unauthorized)
        ]))

-- The part of `transitionSession` after the grants: the wrapped key and the receipt.
unfoldable pub write_session_key :
    Faults
    → String
    → String
    → ℕ
    → Bytes
    → Option MembershipAuthorization
    → Db
    → Result E2eeError (Unit {0} × Db)
write_session_key faults session key_id expected wrapped membership db =
    statement faults write_key (elim (find wrapped_key (session, key_id) db.session_keys) [
      | some _ ↦ err conflict
      | none ↦
          (let keyed = record db {
            session_keys =
                put wrapped_key (record { session = session; key_id = key_id; wrapped = wrapped })
                  db.session_keys;
          } in
            elim membership [
              | none ↦ ok (tt, keyed)
              | some a ↦ statement faults write_receipt (
                  ok (
                    tt,
                    record keyed {
                      receipts =
                          put receipt_key
                            (record {
                              session = session;
                              epoch = expected + 1;
                              key_id = key_id;
                              request_hash = a.hash;
                            })
                            db.receipts;
                    },
                  ))
            ])
    ])

-- The transaction of `transitionSession`. A duplicate membership request commits no change.
unfoldable pub transition_tx :
    Faults
    → String
    → String
    → ℕ
    → List DeviceGrant
    → Bytes
    → Option MembershipAuthorization
    → Db
    → Result E2eeError (Unit {0} × Db)
transition_tx faults session key_id expected grants wrapped none db =
    replace_grants_tx faults session key_id expected grants db >>= λ db'.
    write_session_key faults session key_id expected wrapped none db'
transition_tx faults session key_id expected grants wrapped (some a) db =
    authorize faults a session key_id expected db >>= λ duplicate.
    if duplicate
    then ok (tt, db)
    else replace_grants_tx faults session key_id expected grants db >>= λ db'.
        write_session_key faults session key_id expected wrapped (some a) db'

-- `transitionSession`; `TransitionSession` is the case without a membership request. `wrapped` is the
-- result of `WrapKey` for a new random key.
unfoldable pub transition_session :
    (String → Bool)
    → Faults
    → String
    → String
    → ℤ
    → List DeviceGrant
    → Result E2eeError Bytes
    → Option MembershipAuthorization
    → Db
    → Outcome E2eeError × Db
transition_session identifier faults session key_id epoch grants wrapped membership db =
    elim (validate_grants identifier session key_id epoch grants) [
      | err e ↦ (err e, db)
      | ok expected ↦ elim wrapped [
        | err e ↦ (err e, db)
        | ok w ↦
            transact faults db (transition_tx faults session key_id expected grants w membership db)
      ]
    ]

module _ (identifier : String → Bool) (faults : Faults) (m : Machine) where
  -- `RotateSessionAfterRevoke` and `RotateSessionKeysForBudget`, which make the same calls.
  unfoldable pub rotate_session :
      String → String → Result E2eeError Bytes → Db → Result E2eeError String × Db
  rotate_session session new_key_id wrapped db = elim (session_state identifier faults session db) [
    | err e ↦ (err e, db)
    | ok (epoch, key) ↦ elim (session_grants faults session db >>= with_machine_control_grant m) [
      | err e ↦ (err e, db)
      | ok grants ↦
          (let (o, db') =
              transition_session identifier faults session new_key_id (pos epoch) grants wrapped
                none db in
            (o >> ok new_key_id, db'))
    ]
  ]

  -- `InitializeLocalSession`
  unfoldable pub initialize_local_session :
      String → String → Result E2eeError Bytes → Db → Result E2eeError String × Db
  initialize_local_session session key_id wrapped db =
      if not (identifier session) || not (length m.signing_key == 32)
      then (err invalid, db)
      else let (o, db') =
          transition_session identifier faults session key_id (pos 0)
            (record { device_id = m.device; verify_key = m.signing_key; control = true } ∷ [])
            wrapped none db in
        (o >> ok key_id, db')
