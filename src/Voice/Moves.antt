-- ===== src/Voice/Moves.antt =====
-- What one press of a key may make of a call: the step that it stands in, and its two counters.
pub mod Handlers
pub mod Menus
pub mod Selections
pub mod Choices
pub mod Followed
use mathlib.Core.Path.{subst}
use appointment_voice_saas.Common.{
  ℕ, ◌+◌, ◌≤◌, ◌<◌, ◌≡◌, refl, ◌⊎◌, inl, inr, Bool, true, false, List, [], ◌∷◌, ◌==◌, ◌∙◌, ◌&&◌,
  some, find_by, update_where, if◌then◌else◌, arith, Bool-cases, sym, ap,
}
use appointment_voice_saas.Tables.{VoiceSession, IvrStep}
use appointment_voice_saas.Env.{Env}
use appointment_voice_saas.Voice.Steps.{no_input_max, invalid_key_max, is_terminal}

-- The menus of a call: from where to where a key that is understood can lead.
pub data Edge : IvrStep → IvrStep → Type 0 where
  no_services : Edge IvrStep.incoming IvrStep.no_slots
  books : Edge IvrStep.incoming IvrStep.service_selection
  sends_link : Edge IvrStep.incoming IvrStep.external_link_sent
  transfers : Edge IvrStep.incoming IvrStep.abandoned
  cannot_transfer : Edge IvrStep.incoming IvrStep.transfer_unavailable
  manages : Edge IvrStep.incoming IvrStep.manage_booking
  returns : Edge IvrStep.transfer_unavailable IvrStep.incoming
  services_gone : Edge IvrStep.service_selection IvrStep.no_slots
  asks_for_staff : Edge IvrStep.service_selection IvrStep.staff_selection
  offers_slots : Edge IvrStep.service_selection IvrStep.slot_selection
  staff_has_none : Edge IvrStep.staff_selection IvrStep.no_slots
  staff_has_slots : Edge IvrStep.staff_selection IvrStep.slot_selection
  slots_gone : Edge IvrStep.slot_selection IvrStep.no_slots
  confirms : Edge IvrStep.slot_selection IvrStep.booking_confirmed
  cancels : Edge IvrStep.manage_booking IvrStep.booking_cancelled
  none_to_move_to : Edge IvrStep.manage_booking IvrStep.no_slots
  offers_new_slots : Edge IvrStep.manage_booking IvrStep.reschedule_slot_selection
  leaves : Edge IvrStep.manage_booking IvrStep.incoming
  new_slots_gone : Edge IvrStep.reschedule_slot_selection IvrStep.no_slots
  moves : Edge IvrStep.reschedule_slot_selection IvrStep.booking_confirmed

-- What no press changes.
abbrev pub SameCall : VoiceSession → VoiceSession → Type 0
SameCall v w =
    (w.id ≡ v.id)
    × (w.tenant_id ≡ v.tenant_id)
    × (w.business_id ≡ v.business_id)
    × (w.caller_phone ≡ v.caller_phone)
    × (w.locale ≡ v.locale)
    × (w.expires_at ≡ v.expires_at)

-- A key was heard: the silence is over.
abbrev pub Heard : VoiceSession → VoiceSession → Type 0
Heard v w =
    SameCall v w
    × (w.step ≡ v.step)
    × (w.no_input_count ≡ 0)
    × (w.invalid_key_count ≡ v.invalid_key_count)

pub data Press (now : ℕ) (v w : VoiceSession) : Type 0 where
  -- The time of the call is over.
  times_out :
      v.expires_at ≤ now
      → w.step ≡ IvrStep.expired
      → w.no_input_count ≡ v.no_input_count
      → w.invalid_key_count ≡ v.invalid_key_count
      → Press now v w
  silent :
      now < v.expires_at
      → w.step ≡ v.step
      → w.no_input_count ≡ v.no_input_count + 1
      → w.no_input_count < no_input_max
      → w.invalid_key_count ≡ v.invalid_key_count
      → Press now v w
  silent_too_long :
      now < v.expires_at
      → w.step ≡ IvrStep.expired
      → w.no_input_count ≡ v.no_input_count + 1
      → no_input_max ≤ w.no_input_count
      → w.invalid_key_count ≡ v.invalid_key_count
      → Press now v w
  heard :
      now < v.expires_at
      → w.step ≡ v.step
      → w.no_input_count ≡ 0
      → w.invalid_key_count ≡ v.invalid_key_count
      → Press now v w
  invalid :
      now < v.expires_at
      → w.step ≡ v.step
      → w.no_input_count ≡ 0
      → w.invalid_key_count ≡ v.invalid_key_count + 1
      → w.invalid_key_count < invalid_key_max
      → Press now v w
  invalid_too_often :
      now < v.expires_at
      → w.step ≡ IvrStep.expired
      → w.no_input_count ≡ 0
      → w.invalid_key_count ≡ v.invalid_key_count + 1
      → invalid_key_max ≤ w.invalid_key_count
      → Press now v w
  -- A slot is booked; a rollback on the way has undone that the key was counted as heard.
  books_late :
      now < v.expires_at
      → v.step ≡ IvrStep.slot_selection
      → w.step ≡ IvrStep.booking_confirmed
      → w.no_input_count ≡ v.no_input_count
      → w.invalid_key_count ≡ v.invalid_key_count
      → Press now v w
  walks :
      now < v.expires_at
      → Edge v.step w.step
      → w.no_input_count ≡ 0
      → w.invalid_key_count ≡ v.invalid_key_count
      → Press now v w

-- Another row in the place of the one with its id.
abbrev pub put_row : VoiceSession → List VoiceSession → List VoiceSession
put_row w rows = update_where (λ (c : VoiceSession). c.id == w.id) (λ _. w) rows

pub record Changed (now : ℕ) (v w : VoiceSession) : Type 0 where
  pub was_live : is_terminal v.step ≡ false
  pub same_call : SameCall v w
  pub by_press : Press now v w

-- The table after a press in the call `v`: as it was, or with the row of this call replaced.
abbrev pub Pressed : ℕ → VoiceSession → List VoiceSession → List VoiceSession → Type 0
Pressed now v rows after =
    (after ≡ rows) ⊎ ((w : VoiceSession) × (after ≡ put_row w rows) × Changed now v w)

-- A count of silences that a press can leave: none, or as many as before.
abbrev pub Count : VoiceSession → ℕ → Type 0
Count v n = (n ≡ 0) ⊎ (n ≡ v.no_input_count)

-- Wherever the call is found in the table, it has such a count.
abbrev pub Counted : VoiceSession → List VoiceSession → Type 0
Counted v calls =
    (c : VoiceSession)
    → find_by (λ (x : VoiceSession). x.id == v.id && x.tenant_id == v.tenant_id) calls ≡ some c
    → Count v c.no_input_count

find_by-replaced :
    (v w c : VoiceSession) (calls : List VoiceSession)
    → w.id ≡ v.id
    → w.tenant_id ≡ v.tenant_id
    → find_by (λ (x : VoiceSession). x.id == v.id && x.tenant_id == v.tenant_id) (put_row w calls)
      ≡ some c
    → w ≡ c
find_by-replaced v w c [] same_id same_tenant h = cc
find_by-replaced v w c (x ∷ calls) same_id same_tenant h = elim (Bool-cases (x.id == w.id)) [
  | inl hit ↦
      let found : (w.id == v.id && w.tenant_id == v.tenant_id) ≡ true = ground arith in
      some_row w c (rw (hit, found) at h)
  | inr miss ↦
      let passed : (x.id == v.id) ≡ false = ground arith in
      find_by-replaced v w c calls same_id same_tenant (rw (miss, passed) at h)
]
  where
    some_row : (a b : VoiceSession) → some a ≡ some b → a ≡ b
    some_row a b e = cc

pub Counted-put_row :
    (v w : VoiceSession) (calls : List VoiceSession)
    → SameCall v w
    → Count v w.no_input_count
    → Counted v (put_row w calls)
Counted-put_row v w calls same count c found =
    subst (λ (x : VoiceSession). Count v x.no_input_count)
      (find_by-replaced v w c calls same.0 same.1 found) count

put_row-put_row :
    (u w : VoiceSession) (rows : List VoiceSession)
    → w.id ≡ u.id
    → put_row w (put_row u rows) ≡ put_row w rows
put_row-put_row u w [] same = refl
put_row-put_row u w (c ∷ rows) same = elim (Bool-cases (c.id == u.id)) [
  | inl hit ↦
      let here : (u.id == w.id) ≡ true = ground arith in
      let there : (c.id == w.id) ≡ true = ground arith in
      rw (hit, here, there, put_row-put_row u w rows same)
  | inr miss ↦
      let there : (c.id == w.id) ≡ false = ground arith in
      rw (miss, there, put_row-put_row u w rows same)
]

-- A later change of the same call stands in the place of an earlier one.
pub Pressed-put_row :
    (now : ℕ) (v w : VoiceSession) (rows after : List VoiceSession)
    → Changed now v w
    → Pressed now v rows after
    → Pressed now v rows (put_row w after)
Pressed-put_row now v w rows after c (inl same) = inr (w, ap (put_row w) same, c)
Pressed-put_row now v w rows after c (inr (u, changed, d)) =
    let same : w.id ≡ u.id = c.same_call.0 ∙ sym d.same_call.0 in
    inr (w, ap (put_row w) changed ∙ put_row-put_row u w rows same, c)
