-- ===== src/Jni/Ready.antt =====
-- crates/jni/src/lib.rs: what a run that is set up was given, and what it acknowledges.
use pushcompat.Prelude.{
  ◌≤◌, ◌≡◌, refl, sym, ap, subst, ◌∙◌, inl, inr, List, [], ◌∷◌, Option, none, some, Bool, true,
  false, Text, ◌=?◌, =?_iff, =?_refl, any, ltb, length, lookup, remove, lookup-remove,
  if◌then◌else◌, Bool-cases, arith, All,
}
use pushcompat.Jni.Setup.{
  RunRegistration, Problem, unexpected_sessions, max_mcs_identities, max_persistent_ids, is_empty,
  Connecting, connected, failed, stop_first, Setup, ready, stopped, refused, joined, unless_known,
  with_session, set_up, set_up_all, prepare,
}

abbrev pub is_some {ℓ} : {A : Type ℓ} → Option A → Bool
is_some none = false
is_some (some a) = true

-- Whether a registration is for the app.
abbrev pub names : Text → RunRegistration → Bool
names app_id r = r.package_name =? app_id

-- A registration that may be run: its app and its sender have names, its history is short.
abbrev pub Runnable : RunRegistration → Type 0
Runnable r =
    (length r.persistent_ids ≤ max_persistent_ids)
    × (is_empty r.package_name ≡ false)
    × (is_empty r.sender_id ≡ false)

-- No app has two registrations.
abbrev pub Apart : List RunRegistration → Type 0
Apart [] = Unit
Apart (r ∷ rs) = (any (names r.package_name) rs ≡ false) × Apart rs

module _ {D S : Type 0} (connect : D → List Text → Connecting S) where
  -- Every app has a registration exactly if it has a session.
  abbrev pub Matched : List RunRegistration → List (Text × D) → Type 0
  Matched rs sessions = (app_id : Text) → is_some (lookup app_id sessions) ≡ any (names app_id) rs

  abbrev pub Fit : List RunRegistration → List (Text × D) → Type 0
  Fit rs sessions = All Runnable rs × (Apart rs × Matched rs sessions)

  -- What setting up shows where it is done.
  abbrev IfReady : Type 0 → Setup S → Type 0
  IfReady P (ready senders streams) = P
  IfReady P stopped = Unit
  IfReady P (refused problem) = Unit

  abbrev Rest : Type 0
  Rest = List (Text × D) → List (Text × Text) → List (Text × S) → Setup S

  one_more_session :
      (r : RunRegistration) (rs : List RunRegistration) (sessions : List (Text × D)) (session : D)
      → lookup r.package_name sessions ≡ some session
      → Matched rs (remove r.package_name sessions)
      → Matched (r ∷ rs) sessions
  one_more_session r rs sessions session e h app_id = elim (Bool-cases (r.package_name =? app_id)) [
    | inl t ↦ rw t (
        ap is_some
          (subst (λ a. lookup a sessions ≡ some session) ((=?_iff r.package_name app_id).0 t) e))
    | inr t ↦
        rw t
          (sym (ap is_some (lookup-remove r.package_name app_id sessions) ∙ rw t refl) ∙ h app_id)
  ]

  one_more_app :
      (r : RunRegistration) (rs : List RunRegistration) (sessions : List (Text × D))
      → Matched rs (remove r.package_name sessions)
      → any (names r.package_name) rs ≡ false
  one_more_app r rs sessions h =
      sym (h r.package_name)
      ∙ ap is_some (lookup-remove r.package_name r.package_name sessions)
      ∙ ground (arith, =?_refl r.package_name)

  -- The registration at hand, where the rest comes out right.
  joined-Fit :
      (P : Type 0) (c : Connecting S) (rest : S → Setup S)
      → ((stream : S) → IfReady P (rest stream))
      → IfReady P (joined c rest)
  joined-Fit P (connected stream) rest h = h stream
  joined-Fit P failed rest h = tt
  joined-Fit P stop_first rest h = tt

  IfReady-map : (P Q : Type 0) (x : Setup S) → (P → Q) → IfReady P x → IfReady Q x
  IfReady-map P Q (ready senders streams) f h = f h
  IfReady-map P Q stopped f h = tt
  IfReady-map P Q (refused problem) f h = tt

  session-Fit :
      (r : RunRegistration) (rs : List RunRegistration) (sessions : List (Text × D))
      (rest : D → Setup S)
      → Runnable r
      → ((session : D) → IfReady (Fit rs (remove r.package_name sessions)) (rest session))
      → (o : Option D) → lookup r.package_name sessions ≡ o
      → IfReady (Fit (r ∷ rs) sessions) (with_session o rest)
  session-Fit r rs sessions rest runnable h none e = tt
  session-Fit r rs sessions rest runnable h (some session) e =
      IfReady-map (Fit rs (remove r.package_name sessions)) (Fit (r ∷ rs) sessions) (rest session)
        (λ (run, (apart, matched)). (
          (runnable, run),
          (
            (one_more_app r rs sessions matched, apart),
            one_more_session r rs sessions session e matched,
          ),
        ))
        (h session)

  known-Fit :
      (P : Type 0) (o : Option Text) (x : Setup S) → IfReady P x → IfReady P (unless_known o x)
  known-Fit P none x h = h
  known-Fit P (some sender) x h = tt

  guarded :
      (P : Type 0) (b : Bool) (problem : Problem) (x : Setup S)
      → (b ≡ false → IfReady P x)
      → IfReady P (if b then refused problem else x)
  guarded P true problem x h = tt
  guarded P false problem x h = h refl

  set_up-Fit :
      (r : RunRegistration) (rs : List RunRegistration) (sessions : List (Text × D))
      (senders : List (Text × Text)) (streams : List (Text × S)) (rest : Rest)
      → ((ss : List (Text × D)) (se : List (Text × Text)) (st : List (Text × S))
          → IfReady (Fit rs ss) (rest ss se st))
      → IfReady (Fit (r ∷ rs) sessions) (set_up connect r sessions senders streams rest)
  set_up-Fit r rs sessions senders streams rest h =
      guarded (Fit (r ∷ rs) sessions) (ltb max_persistent_ids (length r.persistent_ids)) _ _ (λ a.
        guarded (Fit (r ∷ rs) sessions) (is_empty r.package_name) _ _ (λ b.
          guarded (Fit (r ∷ rs) sessions) (is_empty r.sender_id) _ _ (λ c.
            known-Fit (Fit (r ∷ rs) sessions) (lookup r.package_name senders) _ (
              session-Fit r rs sessions _ (ground (arith, a), b, c)
                (λ session.
                  joined-Fit (Fit rs (remove r.package_name sessions))
                    (connect session r.persistent_ids) _ (λ stream. h _ _ _))
                (lookup r.package_name sessions) refl))))

  nothing_left : (sessions : List (Text × D)) → is_empty sessions ≡ true → Matched [] sessions
  nothing_left [] e app_id = unfold lookup in refl
  nothing_left (x ∷ sessions) e app_id = cc

  finished-Fit :
      (sessions : List (Text × D)) (senders : List (Text × Text)) (streams : List (Text × S))
      → IfReady
          (Fit [] sessions)
          (if is_empty sessions then ready senders streams else refused unexpected_sessions)
  finished-Fit [] senders streams = (tt, (tt, nothing_left [] refl))
  finished-Fit (x ∷ sessions) senders streams = tt

  set_up_all-Fit :
      (rs : List RunRegistration) (sessions : List (Text × D)) (senders : List (Text × Text))
      (streams : List (Text × S))
      → IfReady (Fit rs sessions) (set_up_all connect rs sessions senders streams)
  unfolding set_up_all
  set_up_all-Fit [] sessions senders streams = finished-Fit sessions senders streams
  set_up_all-Fit (r ∷ rs) sessions senders streams =
      set_up-Fit r rs sessions senders streams (set_up_all connect rs)
        (λ ss se st. set_up_all-Fit rs ss se st)

  abbrev pub Accepted : List RunRegistration → List (Text × D) → Type 0
  Accepted registrations sessions =
      (is_empty registrations ≡ false)
      × (length registrations ≤ max_mcs_identities)
      × Fit registrations sessions

  prepare-IfReady :
      (registrations : List RunRegistration) (sessions : List (Text × D))
      → IfReady (Accepted registrations sessions) (prepare connect registrations sessions)
  unfolding prepare
  prepare-IfReady registrations sessions =
      guarded (Accepted registrations sessions) (is_empty registrations) _ _ (λ a.
        guarded (Accepted registrations sessions) _ _ _ (λ b.
          IfReady-map (Fit registrations sessions) (Accepted registrations sessions) _
            (λ fit. (a, ground (arith, b), fit)) (set_up_all-Fit registrations sessions [] [])))

  -- A run that is set up has at least one registration and at most 128, each of an app with a name,
  -- with a sender and at most 500 ids; no app has two, and an app has a registration exactly if it
  -- has a session.
  pub prepare-Accepted :
      (registrations : List RunRegistration) (sessions : List (Text × D))
      (senders : List (Text × Text)) (streams : List (Text × S))
      → prepare connect registrations sessions ≡ ready senders streams
      → Accepted registrations sessions
  prepare-Accepted registrations sessions senders streams e =
      subst (IfReady (Accepted registrations sessions)) e (prepare-IfReady registrations sessions)
