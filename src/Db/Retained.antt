-- ===== src/Db/Retained.antt =====
-- crates/bridge/src/db.rs: what `delete_stale_unified_push_registrations` deletes.
use pushcompat.Prelude.{
  ℕ, ◌≡◌, refl, sym, ap, subst, ◌∙◌, List, [], ◌∷◌, Bool, true, false, not, ◌&&◌, ◌||◌, Text, ◌=?◌,
  =?_iff, =?_refl, any, map, delete, select, All, All-mono, if◌then◌else◌, Bool-cases, inl, inr,
  arith,
}
use pushcompat.Db.Tables.{Tables, UnifiedPushRegistration}
use pushcompat.Db.Connectors.{
  has_connector, delete_connector, delete_connectors, of_install, stale_tokens,
  delete_stale_unified_push_registrations,
}

-- A row of the installation whose connector is not retained.
abbrev pub is_stale : Text → List Text → UnifiedPushRegistration → Bool
is_stale i retained_tokens row =
    of_install i row && not (any (λ retained. retained =? row.connector_token) retained_tokens)

delete-delete :
    {A : Type 0} (p q : A → Bool) (xs : List A)
    → delete q (delete p xs) ≡ delete (λ x. p x || q x) xs
delete-delete p q [] = refl
delete-delete p q (x ∷ xs) = ground (arith, delete-delete p q xs)

delete_agree :
    {A : Type 0} (p q : A → Bool) (xs : List A)
    → All (λ x. p x ≡ q x) xs
    → delete p xs ≡ delete q xs
delete_agree p q [] h = refl
delete_agree p q (x ∷ xs) (h, k) = ground (arith, h, delete_agree p q xs k)

-- A row of one of the connectors.
abbrev has_any : Text → List Text → UnifiedPushRegistration → Bool
has_any i tokens row = any (λ token. has_connector i token row) tokens

delete_nowhere : {A : Type 0} (xs : List A) → delete (λ _. false) xs ≡ xs
delete_nowhere [] = refl
delete_nowhere (x ∷ xs) = ap (◌∷◌ x) (delete_nowhere xs)

delete_connectors-all :
    (i : Text) (tokens : List Text) (n : ℕ) (t : Tables)
    → (delete_connectors i tokens n t).1.unified_push_registrations
      ≡ delete (has_any i tokens) t.unified_push_registrations
unfolding delete_connectors delete_connector
delete_connectors-all i [] n t = sym (delete_nowhere t.unified_push_registrations)
delete_connectors-all i (token ∷ tokens) n t =
    delete_connectors-all i tokens _ (delete_connector i token t)
    ∙ delete-delete (has_connector i token) (has_any i tokens) t.unified_push_registrations

abbrev tokens_of : Text → (Text → Bool) → List UnifiedPushRegistration → List Text
tokens_of i n rows = select n (map (λ row. row.connector_token) (select (of_install i) rows))

-- Every row that passes has its token in the list.
abbrev Listed : Text → (Text → Bool) → List Text → UnifiedPushRegistration → Type 0
Listed i n tokens row =
    (of_install i row && n row.connector_token) ≡ true → has_any i tokens row ≡ true

Listed-cons :
    (i token : Text) (n : Text → Bool) (tokens : List Text) (row : UnifiedPushRegistration)
    → Listed i n tokens row
    → Listed i n (token ∷ tokens) row
Listed-cons i token n tokens row h e = ground (arith, h e)

itself :
    (i : Text) (row : UnifiedPushRegistration) (tokens : List Text)
    → of_install i row ≡ true
    → has_any i (row.connector_token ∷ tokens) row ≡ true
unfolding has_connector of_install
itself i row tokens e = ground (arith, e, =?_refl row.connector_token)

tokens_of-cons :
    (i : Text) (n : Text → Bool) (row : UnifiedPushRegistration)
    (rows : List UnifiedPushRegistration)
    → tokens_of i n (row ∷ rows) ≡ (
        if of_install i row && n row.connector_token
        then row.connector_token ∷ tokens_of i n rows
        else tokens_of i n rows)
tokens_of-cons i n row rows = ground arith

Listed-head :
    (i : Text) (n : Text → Bool) (tokens : List Text) (row : UnifiedPushRegistration)
    (rows : List UnifiedPushRegistration) (b : Bool)
    → (of_install i row && n row.connector_token) ≡ b
    → All (Listed i n tokens) rows
    → let tokens' = if b then row.connector_token ∷ tokens else tokens in
      Listed i n tokens' row × All (Listed i n tokens') rows
Listed-head i n tokens row rows true e rest = (
  (λ _. itself i row tokens (ground (arith, e))),
  All-mono (Listed i n tokens) (Listed i n (row.connector_token ∷ tokens))
      (Listed-cons i row.connector_token n tokens) rows rest,
)
Listed-head i n tokens row rows false e rest = ((λ k. ground (arith, e, k)), rest)

tokens_of-Listed :
    (i : Text) (n : Text → Bool) (rows : List UnifiedPushRegistration)
    → All (Listed i n (tokens_of i n rows)) rows
tokens_of-Listed i n [] = tt
tokens_of-Listed i n (row ∷ rows) =
    subst (λ l. Listed i n l row × All (Listed i n l) rows) (sym (tokens_of-cons i n row rows))
      (Listed-head i n (tokens_of i n rows) row rows (of_install i row && n row.connector_token)
        refl (tokens_of-Listed i n rows))

passes :
    (i : Text) (n : Text → Bool) (token : Text) (row : UnifiedPushRegistration)
    → has_connector i token row ≡ true
    → n token ≡ true
    → (of_install i row && n row.connector_token) ≡ true
unfolding has_connector of_install
passes i n token row k m =
    let same : row.connector_token ≡ token = ground (arith, k, =?_iff row.connector_token token) in
    let listed : n row.connector_token ≡ true = ap n same ∙ m in ground (arith, k, listed)

-- A token of the list passes.
tokens_of-pass :
    (i : Text) (n : Text → Bool) (tokens : List Text) (row : UnifiedPushRegistration)
    → has_any i (select n tokens) row ≡ true
    → (of_install i row && n row.connector_token) ≡ true
unfolding has_connector of_install
tokens_of-pass i n [] row e = ground arith
tokens_of-pass i n (token ∷ tokens) row e = elim (Bool-cases (n token)) [
  | inl m ↦ elim (Bool-cases (has_connector i token row)) [
    | inl k ↦ passes i n token row k m
    | inr k ↦ tokens_of-pass i n tokens row (ground (arith, e, m, k))
  ]
  | inr m ↦ tokens_of-pass i n tokens row (ground (arith, e, m))
]

both :
    (i : Text) (n : Text → Bool) (tokens : List Text) (row : UnifiedPushRegistration)
    → Listed i n (select n tokens) row
    → has_any i (select n tokens) row ≡ (of_install i row && n row.connector_token)
both i n tokens row h = elim (Bool-cases (of_install i row && n row.connector_token)) [
  | inl e ↦ h e ∙ sym e
  | inr e ↦ elim (Bool-cases (has_any i (select n tokens) row)) [
    | inl k ↦ k ∙ sym (tokens_of-pass i n tokens row k)
    | inr k ↦ k ∙ sym e
  ]
]

-- Once the stale connectors of an installation are deleted, the registrations that are left are
-- exactly other installations' and those with a retained connector, as they were, in their order.
pub delete_stale-rows :
    (i : Text) (retained_tokens : List Text) (t : Tables)
    → (delete_stale_unified_push_registrations i retained_tokens t).1.unified_push_registrations
      ≡ delete (is_stale i retained_tokens) t.unified_push_registrations
unfolding delete_stale_unified_push_registrations stale_tokens
delete_stale-rows i retained_tokens t =
    delete_connectors-all i (stale_tokens i retained_tokens t) 0 t
    ∙ delete_agree (has_any i (stale_tokens i retained_tokens t)) (is_stale i retained_tokens)
        t.unified_push_registrations
        (All-mono (Listed i n (stale_tokens i retained_tokens t))
          (λ row. has_any i (stale_tokens i retained_tokens t) row ≡ is_stale i retained_tokens row)
          (λ row.
            both i n
              (map (λ r. r.connector_token) (select (of_install i) t.unified_push_registrations))
              row)
          t.unified_push_registrations (tokens_of-Listed i n t.unified_push_registrations))
  where
    n : Text → Bool
    n token = not (any (λ retained. retained =? token) retained_tokens)
