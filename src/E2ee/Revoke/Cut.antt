-- ===== src/E2ee/Revoke/Cut.antt =====
-- What a revocation and the rotation after it leave.
use agent_wharf.Prelude.{
  suc, ◌+◌, ◌≤◌, ◌<◌, ◌≡◌, ◌≢◌, refl, sym, ap, subst, ◌∙◌, String, Bool, true, Option, none, some,
  Option-cases, Bool-cases, List, [], ◌∷◌, ◌++◌, Result, ok, err, done, arith, str_eq, eq_iff,
  eq_refl, ◌⊎◌, inl, inr, length, length-append, if◌then◌else◌,
}
use agent_wharf.E2ee.Db.{
  E2eeError, Bytes, DeviceGrant, DeviceRow, Db, Faults, find_grant, find_device,
  delete_device_grants,
}
use agent_wharf.E2ee.Admit.{Context, Envelope, Crypto, admit_validated, CommandAdmission}
use agent_wharf.E2ee.Admit.Sound.{admit_sound}
use agent_wharf.E2ee.History.Writes.{released}
use agent_wharf.E2ee.Session.{Machine, give_control, with_machine_control_grant}
use agent_wharf.E2ee.Revoke.{revoke_device}
use agent_wharf.E2ee.Revoke.Deletion.{find_grant-delete_device_self, find_grant-deleted}

revoked_grants :
    (identifier : String → Bool) (v : DeviceRow → Bool) (f : Faults) (m : Machine) (device : String)
    (db db' : Db)
    → revoke_device identifier v f m device db ≡ (done, db')
    → (db'.grants ≡ delete_device_grants device db.grants)
      × (db'.sessions ≡ db.sessions)
      × (db'.commands ≡ db.commands)
unfolding revoke_device
revoked_grants identifier v f m device db db' h = ground arith

no_grant_no_release :
    (k : Crypto) (f : Faults) (validate : Bytes → Bool) (c : Context) (key : Bytes)
    (envelope : Envelope) (db : Db)
    → find_grant c.session c.sender db.grants ≡ none
    → released (admit_validated k f validate c key envelope db).0 ≡ none
no_grant_no_release k f validate c key envelope db n =
    go (admit_validated k f validate c key envelope db).0 refl
  where
    go :
        (r : Result E2eeError (CommandAdmission × Option Bytes))
        → (admit_validated k f validate c key envelope db).0 ≡ r
        → released r ≡ none
    go (err e) q = refl
    go (ok (a, none)) q = refl
    go (ok (a, some p)) q =
        let x =
          admit_sound k f validate c key envelope db a p
            (admit_validated k f validate c key envelope db).1
            (λ i. (q i, (admit_validated k f validate c key envelope db).1)) in
        absurd (ground (arith, x.grant_found))

-- A device that was revoked holds no grant in any session; all other devices hold what they held;
-- and no admission in its name on these tables, whatever the session, key or envelope, releases a
-- command.
pub revoke_cuts :
    (k : Crypto) (v : DeviceRow → Bool) (f : Faults) (m : Machine) (device : String) (db db' : Db)
    (s other : String) (f₂ : Faults) (validate : Bytes → Bool) (c : Context) (key : Bytes)
    (envelope : Envelope)
    → revoke_device k.identifier v f m device db ≡ (done, db')
    → c.sender ≡ device
    → (find_grant s other db'.grants
        ≡ (if str_eq device other then none else find_grant s other db.grants))
      × (released (admit_validated k f₂ validate c key envelope db').0 ≡ none)
revoke_cuts k v f m device db db' s other f₂ validate c key envelope h q =
    let e = (revoked_grants k.identifier v f m device db db' h).0 in
    (
      rw e (find_grant-deleted s device other db.grants),
      no_grant_no_release k f₂ validate c key envelope db'
          (rw (q, e) (find_grant-delete_device_self c.session device db.grants)),
    )

-- What `withMachineControlGrant` makes of a list of members.
abbrev pub Controlled : String → List DeviceGrant → List DeviceGrant → Type 0
Controlled d gs hs =
    (length hs ≤ length gs + 1)
    × ((g : DeviceGrant) × (find_device d hs ≡ some g) × (g.control ≡ true))
    × ((other : String) → other ≢ d → find_device other hs ≡ find_device other gs)

give_control-some :
    (d : String) (gs hs : List DeviceGrant)
    → give_control d gs ≡ some hs
    → (length hs ≡ length gs) × Controlled d gs hs
unfolding give_control find_device
give_control-some d [] hs h = absurd (ground arith)
give_control-some d (g ∷ gs) hs h = elim (Bool-cases (str_eq g.device_id d)) [
  | inl q ↦
      (let e : record g { control = true } ∷ gs ≡ hs = ground arith in
        subst (λ ks. (length ks ≡ suc (length gs)) × Controlled d (g ∷ gs) ks) e
          (
            refl,
            (
              omega arith,
              (record g { control = true }, rw q, refl),
              λ other n. ground (arith, eq_iff g.device_id d, eq_iff g.device_id other),
            ),
          ))
  | inr q ↦ elim (Option-cases (give_control d gs)) [
    | inl n ↦ absurd (ground arith)
    | inr (ks, r) ↦
        (let e : g ∷ ks ≡ hs = ground arith in
          let (l, (b, (c, found, control), others)) = give_control-some d gs ks r in
          subst (λ ks. (length ks ≡ suc (length gs)) × Controlled d (g ∷ gs) ks) e
            (
              ap suc l,
              (
                omega (arith, l),
                (c, rw q found, control),
                λ other n. ground (arith, others other n),
              ),
            ))
  ]
]

give_control-none :
    (d : String) (gs : List DeviceGrant) → give_control d gs ≡ none → find_device d gs ≡ none
unfolding give_control find_device
give_control-none d [] h = refl
give_control-none d (g ∷ gs) h = ground (arith, give_control-none d gs)

find_device-append :
    (d : String) (gs hs : List DeviceGrant)
    → find_device d gs ≡ none
    → find_device d (gs ++ hs) ≡ find_device d hs
unfolding find_device
find_device-append d [] hs h = refl
find_device-append d (g ∷ gs) hs h = ground (arith, find_device-append d gs hs)

find_device-append_ne :
    (d : String) (gs : List DeviceGrant) (g : DeviceGrant)
    → d ≢ g.device_id
    → find_device d (gs ++ g ∷ []) ≡ find_device d gs
unfolding find_device
find_device-append_ne d [] g n = ground (arith, eq_iff g.device_id d)
find_device-append_ne d (x ∷ gs) g n = ground (arith, find_device-append_ne d gs g n)

single_device : (g : DeviceGrant) → find_device g.device_id (g ∷ []) ≡ some g
unfolding find_device
single_device g = ground (arith, eq_refl g.device_id)

machine-Controlled :
    (m : Machine) (gs hs : List DeviceGrant)
    → with_machine_control_grant m gs ≡ ok hs
    → Controlled m.device gs hs × ((length hs ≡ length gs) ⊎ (length hs ≤ 32))
unfolding with_machine_control_grant
machine-Controlled m gs hs h = elim (Option-cases (give_control m.device gs)) [
  | inr (ks, q) ↦
      (let (l, c) = give_control-some m.device gs ks q in
        let e : ks ≡ hs = ground arith in
        subst (λ ks. Controlled m.device gs ks × ((length ks ≡ length gs) ⊎ (length ks ≤ 32))) e
          (c, inl l))
  | inl q ↦
      (let own : DeviceGrant = record {
        device_id = m.device;
        verify_key = m.signing_key;
        control = true;
      } in
        let e : gs ++ own ∷ [] ≡ hs = ground arith in
        let room : length gs < 32 = ground arith in
        subst (λ ks. Controlled m.device gs ks × ((length ks ≡ length gs) ⊎ (length ks ≤ 32))) e
          (
            (
              omega (arith, length-append gs (own ∷ [])),
              (
                own,
                find_device-append m.device gs (own ∷ []) (give_control-none m.device gs q)
                    ∙ single_device own,
                refl,
              ),
              λ other n. find_device-append_ne other gs own n,
            ),
            inr (omega (arith, length-append gs (own ∷ []))),
          ))
]

-- The machine is a controlling member of the list that `withMachineControlGrant` gives back, every
-- other device is the member that it was, and a list that has grown has at most 32 members.
pub machine_keeps_control :
    (m : Machine) (gs hs : List DeviceGrant) (other : String)
    → with_machine_control_grant m gs ≡ ok hs
    → (g : DeviceGrant) × (g.control ≡ true)
      × (find_device other hs ≡ (if str_eq m.device other then some g else find_device other gs))
      × ((length hs ≡ length gs) ⊎ (length hs ≤ 32))
machine_keeps_control m gs hs other h =
    let ((_, (g, found, control), others), room) = machine-Controlled m gs hs h in
    (
      g,
      control,
      elim (Bool-cases (str_eq m.device other)) [
        | inl q ↦ rw q (subst (λ x. find_device x hs ≡ some g) ((eq_iff m.device other).0 q) found)
        | inr q ↦
            rw q (others other (λ e. absurd (ground (arith, q, eq_iff m.device other, sym e))))
      ],
      room,
    )
