-- ===== src/Db/Endpoints.antt =====
-- crates/bridge/src/db.rs: an endpoint leads to the connector that it was given out for.

use mathlib.Core.Option.{some-injective}
use pushcompat.Prelude.{
  ℕ, ◌≡◌, refl, sym, ◌∙◌, ap, subst, List, [], ◌∷◌, ◌++◌, Option, some, Bool, true, false, Text,
  ◌=?◌, =?_iff, =?_refl, any, find, update, find-update, find-append, find-some, any→find-none,
  Distinct, Bool-cases, Option-cases, inl, inr, arith,
}
use pushcompat.Db.Tables.{Tables, UnifiedPushRegistration}
use pushcompat.Db.Connectors.{
  fresh, with_key, has_connector, has_endpoint, endpoint, register_unified_push,
  get_unified_push_endpoint,
}
use pushcompat.Db.Invariant.Keys.{same_endpoint}
use pushcompat.Db.Invariant.History.{WellFormed}

module _ {ℓ} {A : Type ℓ} where
  find-any :
      (p r : A → Bool) (xs : List A) (a : A) → find p xs ≡ some a → r a ≡ true → any r xs ≡ true
  find-any p r [] a e h = cc
  find-any p r (x ∷ xs) a e h = elim (Bool-cases (p x)) [
    | inl m ↦
        let same : x ≡ a = some-injective x a (ground (arith, e, m)) in
        let rx : r x ≡ true = subst (λ y. r y ≡ true) (sym same) h in ground (arith, rx)
    | inr m ↦ ground (arith, find-any p r xs a (ground (arith, e, m)) h)
  ]

  -- Two searches that find one row, where no two rows pass the second.
  find_unique :
      (p q : A → Bool) (s : A → A → Bool) (xs : List A) (a : A)
      → ((b c : A) → q b ≡ true → q c ≡ true → s b c ≡ true)
      → Distinct s xs
      → find p xs ≡ some a
      → q a ≡ true
      → find q xs ≡ some a
  find_unique p q s [] a k d e h = cc
  find_unique p q s (x ∷ xs) a k (n, d) e h = elim (Bool-cases (p x)) [
    | inl m ↦
        let same : x ≡ a = some-injective x a (ground (arith, e, m)) in
        let qx : q x ≡ true = subst (λ y. q y ≡ true) (sym same) h in rw qx (ap some same)
    | inr m ↦
        let later : find p xs ≡ some a = ground (arith, e, m) in
        elim (Bool-cases (q x)) [
          | inl o ↦ ground (arith, n, find-any p (s x) xs a later (k x a o h))
          | inr o ↦ rw o (find_unique p q s xs a k d later h)
        ]
  ]

abbrev pub Leads : Text → Text → Text → Text → Option Text → Tables → Type 0
Leads x i a c k u =
    (row : UnifiedPushRegistration) × (get_unified_push_endpoint x u ≡ some row)
    × (row.install_id ≡ i)
    × (row.app_id ≡ a)
    × (row.connector_token ≡ c)
    × (row.vapid_pubkey ≡ k)

endpoint_inj : (x y : Text) → endpoint x ≡ endpoint y → x ≡ y
endpoint_inj x y e = cc

new_endpoint :
    (i a c x : Text) (k : Option Text) (now : ℕ) (rows : List UnifiedPushRegistration)
    → any (has_endpoint x) rows ≡ false
    → find (has_endpoint x) (rows ++ fresh i a c x k now ∷ []) ≡ some (fresh i a c x k now)
unfolding has_endpoint
new_endpoint i a c x k now rows e =
    rw (find-append (has_endpoint x) rows, any→find-none (has_endpoint x) rows e)
      (rw (=?_refl x) refl)

both_endpoints :
    (x : Text) (b d : UnifiedPushRegistration)
    → has_endpoint x b ≡ true
    → has_endpoint x d ≡ true
    → same_endpoint b d ≡ true
unfolding has_endpoint
both_endpoints x b d e f = ground (
  arith,
  =?_iff b.endpoint_token x,
  =?_iff d.endpoint_token x,
  =?_iff b.endpoint_token d.endpoint_token,
)

old_endpoint :
    (i c : Text) (k : Option Text) (now : ℕ) (rows : List UnifiedPushRegistration)
    (row : UnifiedPushRegistration)
    → Distinct same_endpoint rows
    → find (has_connector i c) rows ≡ some row
    → find (has_endpoint row.endpoint_token) (update (has_connector i c) (with_key k now) rows)
      ≡ some (with_key k now row)
old_endpoint i c k now rows row d e =
    let p =
      find_unique (has_connector i c) (has_endpoint row.endpoint_token) same_endpoint rows row
        (both_endpoints row.endpoint_token) d e
        (unfold has_endpoint in (=?_refl row.endpoint_token)) in
    let q = find-some (has_connector i c) rows row e in
    find-update (has_endpoint row.endpoint_token) (has_connector i c) (with_key k now) rows
      (λ r. unfold has_endpoint in refl)
    ∙ ground (arith, p, q)

has_connector_iff :
    (i c : Text) (row : UnifiedPushRegistration)
    → has_connector i c row ≡ true
    → (row.install_id ≡ i) × (row.connector_token ≡ c)
unfolding has_connector
has_connector_iff i c row e = ground (arith, =?_iff row.install_id i, =?_iff row.connector_token c)

-- A registration leaves the endpoint that it returns with the connector, the app and the key.
pub get_unified_push_endpoint-register_unified_push :
    (i a c candidate x : Text) (k : Option Text) (t : Tables)
    → WellFormed t
    → let (r, u) = register_unified_push i a c candidate k t in r ≡ endpoint x → Leads x i a c k u
unfolding register_unified_push get_unified_push_endpoint
get_unified_push_endpoint-register_unified_push i a c candidate x k t v e =
    elim (Option-cases (find (has_connector i c) t.unified_push_registrations)) [
      | inl n ↦ elim (Bool-cases (any (has_endpoint candidate) t.unified_push_registrations)) [
        | inl m ↦ ground (arith, e, n, m)
        | inr m ↦
            let same = endpoint_inj candidate x (ground (arith, e, n, m)) in
            subst (λ y. Leads y i a c k (register_unified_push i a c candidate k t).1) same
              (rw (n, register_unified_push, m)
                (
                  fresh i a c candidate k t.now,
                  new_endpoint i a c candidate k t.now t.unified_push_registrations m,
                  refl,
                  refl,
                  refl,
                  refl,
                ))
      ]
      | inr (row, n) ↦ elim (Bool-cases (row.app_id =? a)) [
        | inl m ↦
            let same = endpoint_inj row.endpoint_token x (ground (arith, e, n, m)) in
            let (own, token) =
              has_connector_iff i c row
                (find-some (has_connector i c) t.unified_push_registrations row n) in
            subst (λ y. Leads y i a c k (register_unified_push i a c candidate k t).1) same
              (rw (n, register_unified_push, m)
                (
                  with_key k t.now row,
                  old_endpoint i c k t.now t.unified_push_registrations row v.keys.endpoints n,
                  own,
                  (=?_iff row.app_id a).0 m,
                  token,
                  refl,
                ))
        | inr m ↦ ground (arith, e, n, m)
      ]
    ]
