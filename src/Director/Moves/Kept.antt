-- ===== src/Director/Moves/Kept.antt =====
-- director/mod.rs: a move keeps the transitions sound.
use rack_director.Prelude.{
  ℕ, ◌<◌, ◌≡◌, ◌≢◌, ◌⊎◌, inl, inr, Bool, true, Option, none, some, arith, refl, sym, ap, subst,
  Bytes, ◌∙◌,
}
use rack_director.Lifecycle.{
  DeviceLifecycle, LifecycleTransition, new_transition, is_transition_allowed,
}
use rack_director.Plans.{Plan}
use rack_director.Database.{
  Table, Database, update_device_lifecycle, create_transition, get_active_transition_for_device,
  closed, set_transition, of_open_transition,
}
use rack_director.Database.Queries.{newest_below-missed}
use rack_director.Director.Moves.{
  lifecycle_at, Move, IsLinked, IsSound, some≢none, put-cases, update_device_lifecycle-cases, rests,
  opens, closes,
}

abbrev opened_row : Database → ℕ → ℕ → ℕ → DeviceLifecycle → LifecycleTransition
opened_row db d plan_id now to = record (new_transition d (lifecycle_at db d) to (some plan_id)) {
  id = some db.transitions.next_id;
  started_at = some now;
  completed_at = none;
  success = none;
  error_message = none;
}

is_open_test :
    (d : ℕ) (t : LifecycleTransition)
    → t.device_uuid ≡ d
    → t.success ≡ none
    → of_open_transition d t ≡ true
is_open_test d t e h = ground arith

-- A device with no open transition has no row that is open.
none_open-absurd :
    {db : Database} {d : ℕ}
    → IsSound db
    → get_active_transition_for_device db d ≡ none
    → (i : ℕ) (t : LifecycleTransition) → db.transitions.rows i ≡ some t
    → t.success ≡ none
    → t.device_uuid ≢ d
unfolding get_active_transition_for_device
none_open-absurd {db} {d} sound h i t row is_open same =
    let passes = is_open_test d t same is_open in
    let fails =
      newest_below-missed (of_open_transition d) db.transitions.rows db.transitions.next_id i t h
        (sound.is_bounded i t row) row in
    cc

module _ {db : Database} (sound : IsSound db) (plans : Table Plan) (d plan_id now : ℕ)
    (to : DeviceLifecycle) (none_open : get_active_transition_for_device db d ≡ none)
    (allowed : is_transition_allowed (lifecycle_at db d) to ≡ true) where
  abbrev opened : Database
  unfolding create_transition
  opened =
      record (create_transition db (new_transition d (lifecycle_at db d) to (some plan_id)) now).0 {
        plans = plans;
      }

  opened-cases :
      (k : ℕ) (u : LifecycleTransition)
      → opened.transitions.rows k ≡ some u
      → ((k ≡ db.transitions.next_id) × (opened_row db d plan_id now to ≡ u))
        ⊎ ((k ≢ db.transitions.next_id) × (db.transitions.rows k ≡ some u))
  unfolding new_transition opened
  opened-cases k u row =
      put-cases db.transitions.next_id (opened_row db d plan_id now to) db.transitions.rows k u row

  opened-IsSound : IsSound opened
  unfolding lifecycle_at new_transition opened
  opened-IsSound = record {
    is_bounded = λ i t row. elim (opened-cases i t row) [
      | inl (same, _) ↦ omega (arith, same)
      | inr (_, old) ↦ omega (arith, sound.is_bounded i t old)
    ];
    is_allowed = λ i t row is_open. elim (opened-cases i t row) [
      | inl (same, is_new) ↦
          subst
            (λ u.
              (is_transition_allowed u.from_state u.to_state ≡ true)
              × (lifecycle_at db u.device_uuid ≡ u.from_state))
            is_new (allowed, refl)
      | inr (_, old) ↦ sound.is_allowed i t old is_open
    ];
    is_single = λ i j t u row_t row_u open_t open_u same. elim (opened-cases i t row_t) [
      | inl (at_t, new_t) ↦ elim (opened-cases j u row_u) [
        | inl (at_u, new_u) ↦ at_t ∙ sym at_u
        | inr (_, old_u) ↦
            elim (none_open-absurd sound none_open j u old_u open_u
              (sym same ∙ sym (ap (λ r. r.device_uuid) new_t))) [ ]
      ]
      | inr (_, old_t) ↦ elim (opened-cases j u row_u) [
        | inl (at_u, new_u) ↦
            elim (none_open-absurd sound none_open i t old_t open_t
              (same ∙ sym (ap (λ r. r.device_uuid) new_u))) [ ]
        | inr (_, old_u) ↦ sound.is_single i j t u old_t old_u open_t open_u same
      ]
    ];
  }

module _ {db : Database} (sound : IsSound db) (plans : Table Plan) (i : ℕ) (t : LifecycleTransition)
    (s : DeviceLifecycle) (succeeded : Bool) (message : Option Bytes) (now : ℕ)
    (row : db.transitions.rows i ≡ some t) (is_open : t.success ≡ none) where
  abbrev shut : Database
  unfolding update_device_lifecycle
  shut =
      record (update_device_lifecycle (set_transition db i (closed succeeded message now t))
        t.device_uuid s) { plans = plans }

  shut-old :
      (k : ℕ) (u : LifecycleTransition)
      → shut.transitions.rows k ≡ some u
      → u.success ≡ none
      → (k ≢ i) × (db.transitions.rows k ≡ some u)
  unfolding shut
  shut-old k u row_u open_u =
      elim (put-cases i (closed succeeded message now t) db.transitions.rows k u row_u) [
        | inl (same, is_new) ↦ elim (some≢none (ap (λ r. r.success) is_new ∙ open_u)) [ ]
        | inr old ↦ old
      ]

  shut-IsSound : IsSound shut
  unfolding shut lifecycle_at
  shut-IsSound = record {
    is_bounded = λ k u row_u.
        elim (put-cases i (closed succeeded message now t) db.transitions.rows k u row_u) [
          | inl (same, _) ↦
              subst (λ n. n < db.transitions.next_id) (sym same) (sound.is_bounded i t row)
          | inr (_, old) ↦ sound.is_bounded k u old
        ];
    is_allowed = λ k u row_u open_u.
        let (other, old) = shut-old k u row_u open_u in
        let (allowed, from) = sound.is_allowed k u old open_u in
        elim (update_device_lifecycle-cases db t.device_uuid u.device_uuid s) [
          | inl kept ↦ (allowed, kept ∙ from)
          | inr (same, _) ↦ elim (other (sound.is_single k i u t old row open_u is_open same)) [ ]
        ];
    is_single = λ k j u v row_u row_v open_u open_v same.
        sound.is_single k j u v (shut-old k u row_u open_u).1 (shut-old j v row_v open_v).1 open_u
          open_v same;
  }

-- A move keeps the invariant.
pub Move-IsSound : {db next : Database} → IsSound db → Move db next → IsSound next
unfolding opened shut lifecycle_at
Move-IsSound sound (rests plans grows) = record {
  is_bounded = sound.is_bounded;
  is_allowed = sound.is_allowed;
  is_single = sound.is_single;
}
Move-IsSound sound (opens plans d plan_id now to none_open allowed made grows) =
    opened-IsSound sound plans d plan_id now to none_open allowed
Move-IsSound sound (closes plans i t s succeeded message now row is_open target grows) =
    shut-IsSound sound plans i t s succeeded message now row is_open

some-injective : {A : Type 0} {a b : A} → ◌≡◌ {A = Option A} (some a) (some b) → a ≡ b
some-injective h = cc

-- A move keeps the links.
pub Move-IsLinked : {db next : Database} → IsLinked db → Move db next → IsLinked next
unfolding create_transition new_transition update_device_lifecycle
Move-IsLinked linked (rests plans grows) = record {
  has_plans =
      λ i t row k e. let below = linked.has_plans i t row k e in omega (arith, below, grows);
}
Move-IsLinked {db} linked (opens plans d plan_id now to none_open allowed made grows) = record {
  has_plans = λ i t row k e.
      elim (put-cases db.transitions.next_id (opened_row db d plan_id now to) db.transitions.rows i
        t row) [
          | inl (_, is_new) ↦
              let same : plan_id ≡ k = some-injective (ap (λ u. u.plan_id) is_new ∙ e) in
              omega (arith, same, made)
          | inr (_, old) ↦ let below = linked.has_plans i t old k e in omega (arith, below, grows)
        ];
}
Move-IsLinked {db} linked (closes plans i t s succeeded message now row is_open target grows) =
    record {
      has_plans = λ j u row_u k e.
          elim (put-cases i (closed succeeded message now t) db.transitions.rows j u row_u) [
            | inl (_, is_new) ↦
                let below = linked.has_plans i t row k (ap (λ x. x.plan_id) is_new ∙ e) in
                omega (arith, below, grows)
            | inr (_, old) ↦ let below = linked.has_plans j u old k e in omega (arith, below, grows)
          ];
    }
