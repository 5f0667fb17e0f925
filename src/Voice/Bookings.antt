-- ===== src/Voice/Bookings.antt =====
-- A caller chooses a slot to book: `_handle_slot_selection` of app/services/ivr_service.py.
use mathlib.Core.Path.{subst}
use appointment_voice_saas.Common.{
  ℕ, ◌≡◌, refl, ap, sym, ◌∙◌, String, Option, none, some, List, false, find_by,
}
use appointment_voice_saas.Tables.{Db, Booking, BookingStatus, Customer, VoiceSession, IvrStep}
use appointment_voice_saas.Errors.{Result, ok}
use appointment_voice_saas.Session.{Session, Action, read, ◌>>=◌}
use appointment_voice_saas.Session.Returns.{returns_bind}
use appointment_voice_saas.Env.{Env}
use appointment_voice_saas.Customers.{get_or_create_customer}
use appointment_voice_saas.Customers.Keeps.{Keeps-get_or_create_customer}
use appointment_voice_saas.Booking.Invariance.{StableBeside, Keeps-create_booking}
use appointment_voice_saas.Booking.Create.{BookingRequest}
use appointment_voice_saas.Booking.Outcome.Landing.{Created, Lands-create_booking}
use appointment_voice_saas.Voice.Prompts.{PromptKey}
use appointment_voice_saas.Voice.Responses.{IvrResponse}
use appointment_voice_saas.Voice.Steps.{goes_to, chosen}
use appointment_voice_saas.Voice.Calls.{is_session}
use appointment_voice_saas.Voice.Choices.{
  with_count_of, reloaded, booked, ivr_request, book, book_slot, select_slot, choose_slot,
  says_when, handle_slot_selection,
}
use appointment_voice_saas.Voice.Silence.{find_by-put_row}

-- The call is in the table.
abbrev Known : ℕ → ℕ → List VoiceSession → Type 0
Known i t calls = (v : VoiceSession) × (find_by (is_session i t) calls ≡ some v)

Known-StableBeside : (env : Env) (i t : ℕ) → StableBeside env (λ calls _. Known i t calls)
Known-StableBeside env i t = record {
  beside = λ calls. record {
    inserted = λ b bs apart fresh h. h;
    cancelled = λ j reason bs h. h;
    confirmed = λ j u b bs e waits h. h;
  };
}

abbrev Before : ℕ → ℕ → List Booking → Db → Type 0
Before i t rows db = (db.bookings ≡ rows) × Known i t db.voice_sessions

-- How a call that has booked stands, with this count of silences: its row says so, and names the
-- booking and the slot.
abbrev pub confirmed_row : ℕ → VoiceSession → Booking → ℕ × ℕ → VoiceSession
confirmed_row silences u b (starts_at, ends_at) = record u {
  no_input_count = silences;
  step = IvrStep.booking_confirmed;
  booking_id = some b.id;
  selected_slot_start = some starts_at;
  selected_slot_end = some ends_at;
}

-- What a caller asks for: the customer with their phone, the service and the staff member that they
-- have chosen, and the start of a slot.
abbrev pub asked_for : VoiceSession → ℕ → ℕ → ℕ → BookingRequest
asked_for u customer_id service_id starts_at = record {
  tenant_id = u.tenant_id;
  business_id = u.business_id;
  customer_id = customer_id;
  service_id = service_id;
  staff_id = u.selected_staff_id;
  starts_at = starts_at;
  source = "ivr";
}

goes_to_row :
    (step : IvrStep) (u : VoiceSession) (s : Session)
    → Known u.id u.tenant_id s.db.voice_sessions
    → find_by (is_session u.id u.tenant_id) (goes_to step u s).1.committed.voice_sessions
      ≡ some (record u { step = step })
unfolding goes_to ◌>>=◌
goes_to_row step u s (v, known) =
    find_by-put_row u.id u.tenant_id v (record u { step = step }) s.db.voice_sessions refl refl
      known

goes_to_bookings :
    (step : IvrStep) (u : VoiceSession) (s : Session)
    → (goes_to step u s).1.committed.bookings ≡ s.db.bookings
unfolding goes_to ◌>>=◌
goes_to_bookings step u s = refl

-- What stands behind the last step of a call.
said :
    (m : Action (Unit {0})) (key : PromptKey) (env : Env) (u : VoiceSession) (a b : ℕ) (s : Session)
    → (m s).0 ≡ ok tt
    → ((m >>= λ _. says_when key env u a b) s).1 ≡ (m s).1
unfolding ◌>>=◌
said m key env u a b s returned = rw returned

goes_to_returns : (step : IvrStep) (u : VoiceSession) (s : Session) → (goes_to step u s).0 ≡ ok tt
unfolding goes_to ◌>>=◌
goes_to_returns step u s = refl

read_then :
    {A B : Type 0} (q : Db → Result A) (f : A → Action B) (s : Session) (a : A)
    → q s.db ≡ ok a
    → (read q >>= f) s ≡ f a s
unfolding ◌>>=◌
read_then q f s a h = rw h

reloaded_row :
    (u : VoiceSession) (db : Db)
    → reloaded u db ≡ record u { no_input_count = (reloaded u db).no_input_count }
reloaded_row u db = by_row _
  where
    by_row :
        (o : Option VoiceSession)
        → with_count_of u o ≡ record u { no_input_count = (with_count_of u o).no_input_count }
    by_row none = refl
    by_row (some row) = refl

-- What is committed of a call `u` that has chosen a slot, after the earlier bookings `rows`.
pub record Booked (env : Env) (u : VoiceSession) (rows : List Booking) (slot : ℕ × ℕ) (s : Session)
    (after : Db) : Type 0 where
  pub customer : Customer
  pub service_id : ℕ
  pub booking : Booking
  pub its_customer :
      (get_or_create_customer env u.tenant_id u.business_id u.caller_phone none s).0 ≡ ok customer
  pub its_service : u.selected_service_id ≡ some service_id
  pub created :
      Created
        (asked_for u customer.id service_id slot.0)
        BookingStatus.confirmed
        rows
        booking
        after.bookings
  pub silences : ℕ
  pub its_row :
      find_by (is_session u.id u.tenant_id) after.voice_sessions
      ≡ some (confirmed_row silences u booking slot)

module _ (env : Env) (u : VoiceSession) (rows : List Booking) where
  book_lands :
      (customer_id : ℕ) (o : Option ℕ) (starts_at : ℕ) (s : Session) (b : Booking)
      → Before u.id u.tenant_id rows s.db
      → Known u.id u.tenant_id s.committed.voice_sessions
      → (book env u customer_id o starts_at s).0 ≡ ok b
      → (service_id : ℕ) × (o ≡ some service_id)
        × Created
            (ivr_request u customer_id service_id starts_at)
            BookingStatus.confirmed
            rows
            b
            (book env u customer_id o starts_at s).1.db.bookings
        × Known u.id u.tenant_id (book env u customer_id o starts_at s).1.db.voice_sessions
  unfolding ◌>>=◌
  book_lands customer_id none starts_at s b before known h = absurd (raised h)
    where
      raised : (book env u customer_id none starts_at s).0 ≡ ok b → ⊥
      raised h = cc
  book_lands customer_id (some service_id) starts_at s b before known h =
      let r = ivr_request u customer_id service_id starts_at in
      let (created, clean) =
        (Lands-create_booking env r none false none rows).lands s b before.0 h in
      let kept =
        (Keeps-create_booking (Known-StableBeside env u.id u.tenant_id) r none false none).at s
          (before.1, known) in
      (
        service_id,
        refl,
        subst (λ (db : Db). Created r BookingStatus.confirmed rows b db.bookings) (sym clean)
            created,
        kept.0,
      )

  confirmed_after :
      (current : VoiceSession) (silences : ℕ) (b : Booking) (slot : ℕ × ℕ) (s : Session)
      → current ≡ record u { no_input_count = silences }
      → Known u.id u.tenant_id s.db.voice_sessions
      → let m = goes_to IvrStep.booking_confirmed (booked current b slot.0 slot.1) in
        let after =
          ((m >>= λ _. says_when PromptKey.booking_confirmed env u slot.0 slot.1) s).1.committed in
        (after.bookings ≡ s.db.bookings)
        × (find_by (is_session u.id u.tenant_id) after.voice_sessions
            ≡ some (confirmed_row silences u b slot))
  confirmed_after current silences b slot s same_row known =
      let v = booked (record u { no_input_count = silences }) b slot.0 slot.1 in
      let m = goes_to IvrStep.booking_confirmed v in
      let same =
        said m PromptKey.booking_confirmed env u slot.0 slot.1 s
          (goes_to_returns IvrStep.booking_confirmed v s) in
      rw (same_row, same) (goes_to_bookings _ v s, goes_to_row _ v s known)

  selects :
      (key : String) (candidates : List (ℕ × ℕ)) (slot : ℕ × ℕ)
      → u.slot_candidates ≡ some candidates
      → chosen env key candidates ≡ some slot
      → handle_slot_selection env u key ≡ book_slot env u slot
  unfolding handle_slot_selection
  selects key candidates slot offered picks =
      ap (select_slot env u key) offered ∙ ap (choose_slot env u candidates) picks

  book_slot-Booked :
      (slot : ℕ × ℕ) (s : Session) (response : IvrResponse)
      → Before u.id u.tenant_id rows s.db
      → Before u.id u.tenant_id rows s.committed
      → (book_slot env u slot s).0 ≡ ok response
      → Booked env u rows slot s (book_slot env u slot s).1.committed
  unfolding book_slot
  book_slot-Booked slot s response before stored returned =
      let found = get_or_create_customer env u.tenant_id u.business_id u.caller_phone none in
      let (customer, its_customer, rest) = returns_bind found _ s response returned in
      let kept =
        (Keeps-get_or_create_customer {P = Before u.id u.tenant_id rows}
            (record { free = λ customers db h. h }) env u.tenant_id u.business_id u.caller_phone
            none).at
          s (before, stored) in
      let current = reloaded u (found s).1.db in
      let rest1 = rest ∙ read_then (λ db. ok (reloaded u db)) _ (found s).1 current refl in
      let returned2 = sym (ap (λ (p : Result IvrResponse × Session). p.0) rest1) ∙ returned in
      let (b, made, rest2) = returns_bind _ _ (found s).1 response returned2 in
      let (service_id, its_service, created, known) =
        book_lands customer.id u.selected_service_id slot.0 (found s).1 b kept.0 kept.1.1 made in
      let request = ivr_request u customer.id service_id slot.0 in
      let (bookings, row) =
        confirmed_after current current.no_input_count b slot
          (book env u customer.id u.selected_service_id slot.0 (found s).1).1
          (reloaded_row u (found s).1.db) known in
      subst (Booked env u rows slot s)
        (sym (ap (λ (p : Result IvrResponse × Session). p.1.committed) (rest1 ∙ rest2)))
        (record {
          customer = customer;
          service_id = service_id;
          booking = b;
          its_customer = its_customer;
          its_service = its_service;
          created = subst (Created request BookingStatus.confirmed rows b) (sym bookings) created;
          silences = current.no_input_count;
          its_row = row;
        })

  -- A choice among the candidates of a call that is in the table, in a session that has changed no
  -- booking yet: if the press returns, then the customer with the caller's phone was found or
  -- created, a service had been chosen, and what is committed is the earlier bookings with a
  -- confirmed one in front, for that customer, service and start, and for the staff member that had
  -- been chosen, if any. The row of the call has this booking and this slot, and is confirmed; but for
  -- its count of silences it has not changed otherwise.
  pub handle_slot_selection-Booked :
      (key : String) (candidates : List (ℕ × ℕ)) (slot : ℕ × ℕ) (s : Session)
      (response : IvrResponse) (v w : VoiceSession)
      → s.db.bookings ≡ rows
      → s.committed.bookings ≡ rows
      → find_by (is_session u.id u.tenant_id) s.db.voice_sessions ≡ some v
      → find_by (is_session u.id u.tenant_id) s.committed.voice_sessions ≡ some w
      → u.slot_candidates ≡ some candidates
      → chosen env key candidates ≡ some slot
      → (handle_slot_selection env u key s).0 ≡ ok response
      → Booked env u rows slot s (handle_slot_selection env u key s).1.committed
  handle_slot_selection-Booked key candidates slot s response v w same before known stored offered
        picks returned =
      let press = selects key candidates slot offered picks in
      subst (λ (m : Action IvrResponse). Booked env u rows slot s (m s).1.committed) (sym press)
        (book_slot-Booked slot s response (same, (v, known)) (before, (w, stored))
          (sym (ap (λ (m : Action IvrResponse). (m s).0) press) ∙ returned))
