-- ===== src/Betting/Validity.antt =====
-- `isValidAction` of modules/core/src/game.c decides the rules of betting.
use mathlib.Core.Path.{subst}
use bulldog.Prelude.{
  ℕ, ◌≤◌, ◌<◌, ◌≡◌, ◌↔◌, refl, sym, ◌∙◌, ap, Bool, true, false, ltb, arith, Bool-cases,
  Option-cases, inl, inr, some,
}
use bulldog.Game.{
  ActionType, a_fold, a_call, a_raise, a_invalid, is_no_limit, is_invalid, Action, Game, State,
}
use bulldog.Betting.{
  current_player, RaiseRange, no_limit_range, fit_size, valid_action_of, is_valid_action,
}
use bulldog.Betting.Invariant.{IsGame, Turn}
use bulldog.Betting.Rules.{
  LegalOf, Legal, open_tests, raise-closed, raise-limit, raise-no_limit, RaiseOpen-tests,
  tests-RaiseOpen, range-LegalSize, LegalSize-range, range-nonempty, fit_size-in, fit_size-exact,
  RaiseOpen, LegalSize, clamp, distance, fit_size-clamp, clamp-lo, clamp-hi, clamp-nearest,
}

module _ {g : Game} (s : State) {p : ℕ} (ok : IsGame g) (turn : Turn g s)
    (here : current_player g s ≡ some p) (running : s.finished ≡ false) where
  raise_sound :
      (b : Bool) (a : Action) {c : ℕ} {a' : Action}
      → valid_action_of a_raise g s p b a ≡ some (c, a')
      → 0 < c
      → LegalOf a_raise g s p a'.size × (a'.type ≡ a.type)
  unfolding valid_action_of
  raise_sound b a {c} {a'} e h = elim (Bool-cases (open_tests g s)) [
    | inl t ↦ elim (Bool-cases (is_no_limit g.betting_type)) [
      | inl n ↦ elim (Option-cases (no_limit_range s p)) [
        | inl z ↦ absurd (ground (arith, raise-no_limit s ok here t n))
        | inr (r, z) ↦
            let got : (c, a') ≡ fit_size b r a = ground (arith, raise-no_limit s ok here t n) in
            let bounds : (r.min_size ≤ a'.size) × (a'.size ≤ r.max_size) × (a'.type ≡ a.type) =
              subst
                (λ (x : ℕ × Action).
                  (r.min_size ≤ x.1.size) × (x.1.size ≤ r.max_size) × (x.1.type ≡ a.type))
                (sym got)
                (fit_size-in b r a (range-nonempty s p turn n r z)
                  (subst (λ (x : ℕ × Action). 0 < x.0) got h)) in
            (
              (
                RaiseOpen-tests s ok here t,
                λ _. range-LegalSize s p turn n r z a'.size bounds.0 bounds.1,
              ),
              bounds.2,
            )
      ]
      | inr n ↦ ((RaiseOpen-tests s ok here t, λ k. cc), ground (arith, raise-limit s ok here t n))
    ]
    | inr t ↦ absurd (ground (arith, raise-closed s ok here t))
  ]

  fold-type :
      (b : Bool) (a : Action) {c : ℕ} {a' : Action}
      → valid_action_of a_fold g s p b a ≡ some (c, a')
      → a'.type ≡ a.type
  unfolding valid_action_of
  fold-type b a e = ground arith

  call-type :
      (b : Bool) (a : Action) {c : ℕ} {a' : Action}
      → valid_action_of a_call g s p b a ≡ some (c, a')
      → a'.type ≡ a.type
  unfolding valid_action_of
  call-type b a e = ground arith

  valid_sound :
      (b : Bool) (a : Action) (ty : ActionType) {c : ℕ} {a' : Action}
      → a.type ≡ ty
      → is_invalid ty ≡ false
      → valid_action_of ty g s p b a ≡ some (c, a')
      → 0 < c
      → Legal g s p a'
  valid_sound b a a_raise {c} {a'} q i e h =
      let (l, k) = raise_sound b a e h in subst (λ t. LegalOf t g s p a'.size) (sym (k ∙ q)) l
  valid_sound b a a_fold {c} {a'} q i e h =
      subst (λ t. LegalOf t g s p a'.size) (sym (fold-type b a e ∙ q)) tt
  valid_sound b a a_call {c} {a'} q i e h =
      subst (λ t. LegalOf t g s p a'.size) (sym (call-type b a e ∙ q)) tt
  valid_sound b a a_invalid q i e h = cc

  -- Whatever `isValidAction` lets pass, with a result other than 0, the rules allow to the player to
  -- act, also after it has fixed the size.
  pub is_valid_action_sound :
      (b : Bool) (a : Action) {c : ℕ} {a' : Action}
      → is_valid_action g s b a ≡ some (c, a')
      → 0 < c
      → Legal g s p a'
  unfolding is_valid_action
  is_valid_action_sound b a {c} {a'} e h = elim (Bool-cases (is_invalid a.type)) [
    | inl i ↦ absurd (ground arith)
    | inr i ↦ valid_sound b a a.type refl i (ground arith) h
  ]

  raise_complete :
      (b : Bool) (a : Action)
      → LegalOf a_raise g s p a.size
      → valid_action_of a_raise g s p b a ≡ some (1, a)
  unfolding valid_action_of
  raise_complete b a l = elim (Bool-cases (is_no_limit g.betting_type)) [
    | inl n ↦
        let (r, z, lo, hi) = LegalSize-range s p turn n a.size (l.1 n) in
        ground (
          arith,
          raise-no_limit s ok here (tests-RaiseOpen s ok here l.0) n,
          fit_size-exact b r a lo hi,
        )
    | inr n ↦ ground (arith, raise-limit s ok here (tests-RaiseOpen s ok here l.0) n)
  ]

  -- A raise that the rules allow passes `isValidAction` unchanged.
  pub is_valid_action_complete :
      (b : Bool) (a : Action)
      → a.type ≡ a_raise
      → Legal g s p a
      → is_valid_action g s b a ≡ some (1, a)
  unfolding is_valid_action
  is_valid_action_complete b a q l =
      ground (arith, raise_complete b a (subst (λ t. LegalOf t g s p a.size) q l))

  raise-same :
      (a : Action) {c : ℕ} {a' : Action}
      → valid_action_of a_raise g s p false a ≡ some (c, a')
      → a' ≡ a
  unfolding valid_action_of fit_size
  raise-same a {c} {a'} e = elim (Bool-cases (open_tests g s)) [
    | inl t ↦ elim (Bool-cases (is_no_limit g.betting_type)) [
      | inl n ↦ ground (arith, raise-no_limit s ok here t n)
      | inr n ↦ ground (arith, raise-limit s ok here t n)
    ]
    | inr t ↦ ground (arith, raise-closed s ok here t)
  ]

  fold-pos :
      (a : Action) {c : ℕ} {a' : Action}
      → valid_action_of a_fold g s p false a ≡ some (c, a')
      → 0 < c
  unfolding valid_action_of
  fold-pos a e = ground arith

  call-pos :
      (a : Action) {c : ℕ} {a' : Action}
      → valid_action_of a_call g s p false a ≡ some (c, a')
      → 0 < c
  unfolding valid_action_of
  call-pos a e = ground arith

  decides :
      (a : Action) (ty : ActionType) {c : ℕ} {a' : Action}
      → a.type ≡ ty
      → is_invalid ty ≡ false
      → valid_action_of ty g s p false a ≡ some (c, a')
      → (0 < c) ↔ LegalOf ty g s p a.size
  decides a a_raise {c} q i e = (
    (λ h.
        subst (λ (x : Action). LegalOf a_raise g s p x.size) (raise-same a e)
          (raise_sound false a e h).0),
    (λ l. ground (arith, raise_complete false a l)),
  )
  decides a a_fold {c} q i e = ((λ h. tt), (λ l. fold-pos a e))
  decides a a_call {c} q i e = ((λ h. tt), (λ l. call-pos a e))
  decides a a_invalid q i e = cc

  invalid-refused :
      (a : Action) {c : ℕ} {a' : Action}
      → is_invalid a.type ≡ true
      → is_valid_action g s false a ≡ some (c, a')
      → c ≡ 0
  unfolding is_valid_action
  invalid-refused a i e = ground arith

  invalid-illegal : (ty : ActionType) (size : ℕ) → is_invalid ty ≡ true → LegalOf ty g s p size → ⊥
  invalid-illegal a_fold size i l = cc
  invalid-illegal a_call size i l = cc
  invalid-illegal a_raise size i l = cc
  invalid-illegal a_invalid size i l = l

  -- Without fixing, `isValidAction` returns a result other than 0 exactly for the actions that the
  -- rules allow to the player to act.
  pub is_valid_action_decides :
      (a : Action) {c : ℕ} {a' : Action}
      → is_valid_action g s false a ≡ some (c, a')
      → (0 < c) ↔ Legal g s p a
  unfolding is_valid_action
  is_valid_action_decides a {c} {a'} e = elim (Bool-cases (is_invalid a.type)) [
    | inl i ↦ (
      (λ h. absurd (omega (arith, invalid-refused a i e))),
      (λ l. absurd (invalid-illegal a.type a.size i l)),
    )
    | inr i ↦ decides a a.type {a' = a'} refl i (ground arith)
  ]

  range-exists :
      is_no_limit g.betting_type ≡ true
      → s.max_spent < s.stack_player p
      → (r : RaiseRange) × (no_limit_range s p ≡ some r)
  unfolding no_limit_range
  range-exists n h = elim (Bool-cases (ltb (s.stack_player p) s.min_no_limit_raise_to)) [
    | inl c ↦ (record { min_size = s.stack_player p; max_size = s.stack_player p }, ground arith)
    | inr c ↦
        (record { min_size = s.min_no_limit_raise_to; max_size = s.stack_player p }, ground arith)
  ]

  raise-fixed :
      (a : Action) (r : RaiseRange)
      → a.type ≡ a_raise
      → is_no_limit g.betting_type ≡ true
      → RaiseOpen g s
      → no_limit_range s p ≡ some r
      → is_valid_action g s true a ≡ some (fit_size true r a)
  unfolding is_valid_action valid_action_of
  raise-fixed a r q n o z = ground (arith, raise-no_limit s ok here (tests-RaiseOpen s ok here o) n)

  -- In a hand that is not over, where a raise is open in a no-limit game (RaiseOpen: raises left, room
  -- in the log, another player who can act) to a player whose stack is above the bet, `isValidAction`
  -- with `tryFixing` accepts a raise of any size, and changes the size to the nearest one that the rules
  -- allow.
  pub is_valid_action_fixes :
      (a : Action)
      → a.type ≡ a_raise
      → is_no_limit g.betting_type ≡ true
      → RaiseOpen g s
      → s.max_spent < s.stack_player p
      → (size : ℕ) × (is_valid_action g s true a ≡ some (1, record a { size = size }))
        × LegalSize s p size
        × ((k : ℕ) → LegalSize s p k → distance size a.size ≤ distance k a.size)
  is_valid_action_fixes a q n o h =
      let (r, z) = range-exists n h in
      let ordered : r.min_size ≤ r.max_size = range-nonempty s p turn n r z in
      let clamped : fit_size true r a ≡ (1, record a { size = clamp r a.size }) =
        fit_size-clamp r a ordered in
      (
        clamp r a.size,
        raise-fixed a r q n o z ∙ ap some clamped,
        range-LegalSize s p turn n r z (clamp r a.size) (clamp-lo r a.size ordered)
            (clamp-hi r a.size ordered),
        λ k l.
            let (r', z', lo, hi) = LegalSize-range s p turn n k l in
            let same : r' ≡ r = cc in
            clamp-nearest r a.size k ordered (subst (λ (x : RaiseRange). x.min_size ≤ k) same lo)
              (subst (λ (x : RaiseRange). k ≤ x.max_size) same hi),
      )
