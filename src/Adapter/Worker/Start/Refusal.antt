-- ===== src/Adapter/Worker/Start/Refusal.antt =====
-- The admissions of a worker together: what a prepared start has passed, and what a refused one undoes.
use agent_wharf.Prelude.{
  ℕ, String, ◌≡◌, refl, ap, sym, subst, ◌∙◌, Bool, true, false, Option, none, some, arith, Outcome,
  ok, err, done, is_ok, if◌then◌else◌,
}
use agent_wharf.Adapter.Worker.Start.{
  StartError, Admission, Surroundings, Starting, both, check_current, unless_failed, call_outside,
  after_call, abort_failed, verify_current, or_abort, recovery_bound, durable_receipt,
  owned_process, prepare_delegate, confirm_delegate, worker_admission, on_confirmed,
}

module _ {S : Type 0} (env : Surroundings S) where
  -- A sequence that succeeds has passed both of its parts.
  both-done :
      (f g : Starting S → Outcome StartError × Starting S) (a b : Starting S)
      → both env f g a ≡ (done, b)
      → (c : Starting S) × (f a ≡ (done, c)) × (g c ≡ (done, b))
  both-done f g a b h = go (f a) refl
    where
      go :
          (x : Outcome StartError × Starting S)
          → f a ≡ x
          → (c : Starting S) × (f a ≡ (done, c)) × (g c ≡ (done, b))
      go (err e, c) p = absurd (ground (arith, p, h))
      go (ok _, c) p = (c, p, sym (ap (unless_failed env g) p) ∙ h)

  call_outside-done :
      (f : S → Outcome String × S) (a b : Starting S)
      → call_outside env f a ≡ (done, b)
      → (s : S) × (f a.outside ≡ (done, s)) × (b ≡ record a { outside = s })
  call_outside-done f a b h = go (f a.outside) refl
    where
      go :
          (x : Outcome String × S)
          → f a.outside ≡ x
          → (s : S) × (f a.outside ≡ (done, s)) × (b ≡ record a { outside = s })
      go (err e, s) p = absurd (ground (arith, p, h))
      go (ok _, s) p = (s, p, ap (λ z. z.1) (sym h ∙ ap (after_call env a) p))

  or_abort-done :
      (n : ℕ) (f : Starting S → Outcome StartError × Starting S) (a b : Starting S)
      → or_abort env n f a ≡ (done, b)
      → f a ≡ (done, b)
  or_abort-done n f a b h = go (f a) refl
    where
      go : (x : Outcome StartError × Starting S) → f a ≡ x → f a ≡ (done, b)
      go (err e, c) p = absurd (ground (arith, p, h))
      go (ok _, c) p = p ∙ sym (ap (abort_failed env n) p) ∙ h

  -- What a prepared start of a worker with a source, receipts and an owner has passed.
  pub record Passed (base : Admission (Starting S)) (n : ℕ) (a b : Starting S) : Type 0 where
    pub owned : S
    pub owner : env.prepare_start n a.outside ≡ (done, owned)
    pub noted : S
    pub receipt : env.prepare_provider_start n owned ≡ (done, noted)
    pub current : verify_current env (record a { outside = noted }) ≡ done
    pub admitted : base.prepare n (record a { outside = noted }) ≡ (done, b)

  abbrev full : Admission (Starting S) → Admission (Starting S)
  full base = owned_process env (some (durable_receipt env (some (recovery_bound env base))))

  full-Passed :
      (base : Admission (Starting S)) (n : ℕ) (a b : Starting S)
      → (full base).prepare n a ≡ (done, b)
      → Passed base n a b
  full-Passed base n a b h =
      let inner =
        prepare_delegate env (some (durable_receipt env (some (recovery_bound env base)))) n in
      let bound = (recovery_bound env base).prepare n in
      let (c, p, q) =
        both-done (call_outside env (env.prepare_start n)) (or_abort env n inner) a b h in
      let (s, i, j) = call_outside-done (env.prepare_start n) a c p in
      let k = or_abort-done n inner c b q in
      let (e, l, m) = both-done (call_outside env (env.prepare_provider_start n)) bound c b k in
      let (t, u, v) = call_outside-done (env.prepare_provider_start n) c e l in
      let (x, y, z) = both-done (check_current env) (base.prepare n) e b m in
      let w : e ≡ record a { outside = t } =
        v ∙ ap (λ (z : Starting S). record z { outside = t }) j in
      record {
        owned = s;
        owner = i;
        noted = t;
        receipt = subst (λ z. env.prepare_provider_start n z.outside ≡ (done, t)) j u;
        current = subst (λ z. verify_current env z ≡ done) w (ap (λ z. z.0) y);
        admitted = subst (λ z. base.prepare n z ≡ (done, b)) (sym (ap (λ z. z.1) y) ∙ w) z;
      }

  -- With all admissions in place a start is prepared only in this order: the owner of the process tree
  -- reserves it, the store gives it a receipt, the recovery handle is then still the expected one, and
  -- last the provider's own admission lets it through.
  pub worker_admission-Passed :
      (base d : Admission (Starting S)) (n : ℕ) (a b : Starting S)
      → worker_admission env true true true (some base) ≡ ok (some d)
      → d.prepare n a ≡ (done, b)
      → Passed base n a b
  unfolding worker_admission
  worker_admission-Passed base d n a b w h =
      full-Passed base n a b
        (let e : full base ≡ d = cc in subst (λ z. z.prepare n a ≡ (done, b)) (sym e) h)

  worker_admission-owned :
      (source receipts : Bool) (base : Option (Admission (Starting S))) (d : Admission (Starting S))
      → worker_admission env source receipts true base ≡ ok (some d)
      → (delegate : Option (Admission (Starting S))) × (owned_process env delegate ≡ d)
  unfolding worker_admission
  worker_admission-owned true receipts none d w = cc
  worker_admission-owned false receipts none d w =
      (if receipts then some (durable_receipt env none) else none, cc)
  worker_admission-owned source receipts (some b) d w =
      let bound : Option (Admission (Starting S)) =
        some (if source then recovery_bound env b else b) in
      (if receipts then some (durable_receipt env bound) else bound, cc)

  -- `reserved` says whether the owner holds a start.
  module _ (reserved : S → Bool)
      (prepare_fails : (n : ℕ) (s : S)
        → reserved s ≡ false
        → is_ok (env.prepare_start n s).0 ≡ false
        → reserved (env.prepare_start n s).1 ≡ false)
      (abort_frees : (n : ℕ) (s : S) → reserved (env.abort_start n s).1 ≡ false) where
    -- If it is refused, the owner holds nothing.
    abbrev pub Freed : Outcome StartError × Starting S → Type 0
    Freed (o, b) = is_ok o ≡ false → reserved b.outside ≡ false

    abort_failed-Freed :
        (n : ℕ) (x : Outcome StartError × Starting S) → Freed (abort_failed env n x)
    abort_failed-Freed n (err e, b) = λ _. abort_frees n b.outside
    abort_failed-Freed n (ok _, b) = λ h. absurd (ground (arith, h))

    owned-prepare-Freed :
        (delegate : Option (Admission (Starting S))) (n : ℕ) (a : Starting S)
        → reserved a.outside ≡ false
        → Freed ((owned_process env delegate).prepare n a)
    owned-prepare-Freed delegate n a free = go (env.prepare_start n a.outside) refl
      where
        rest : Starting S → Outcome StartError × Starting S
        rest = or_abort env n (prepare_delegate env delegate n)

        go :
            (x : Outcome String × S)
            → env.prepare_start n a.outside ≡ x
            → Freed (unless_failed env rest (after_call env a x))
        go (err e, s) p = λ _.
            subst (λ z. reserved z.1 ≡ false) p
              (prepare_fails n a.outside free (ap (λ z. is_ok z.0) p))
        go (ok _, s) p =
            abort_failed-Freed n (prepare_delegate env delegate n (record a { outside = s }))

    owned-confirm-Freed :
        (delegate : Option (Admission (Starting S))) (n : ℕ) (a : Starting S)
        → Freed ((owned_process env delegate).confirm n a)
    owned-confirm-Freed delegate n a = go (confirm_delegate env delegate n a)
      where
        go :
            (x : Outcome StartError × Starting S)
            → Freed (unless_failed env (on_confirmed env) (abort_failed env n x))
        go (err e, b) = λ _. abort_frees n b.outside
        go (ok _, b) = λ h. absurd (ground (arith, h))

    -- With an owner, whatever other admissions there are: when the preparation or the confirmation of
    -- a start is refused, the owner no longer holds it. The owner is taken to hold nothing after
    -- `AbortStart`, and after a `PrepareStart` that fails when it held nothing before.
    pub refused_start-Freed :
        (source receipts : Bool) (base : Option (Admission (Starting S)))
        (d : Admission (Starting S)) (n : ℕ) (a : Starting S)
        → worker_admission env source receipts true base ≡ ok (some d)
        → reserved a.outside ≡ false
        → Freed (d.prepare n a) × Freed (d.confirm n a)
    unfolding worker_admission
    refused_start-Freed source receipts base d n a w free =
        let (delegate, e) = worker_admission-owned source receipts base d w in
        subst (λ z. Freed (z.prepare n a) × Freed (z.confirm n a)) e
          (owned-prepare-Freed delegate n a free, owned-confirm-Freed delegate n a)
