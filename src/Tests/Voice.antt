-- ===== src/Tests/Voice.antt =====
-- Phone calls to the small salon.
use appointment_voice_saas.Common.{
  ℕ, ◌≡◌, ◌≤◌, refl, inr, none, some, List, [], ◌∷◌, String, All, find_by, length, arith,
}
use appointment_voice_saas.Common.Decimal.{decimal}
use appointment_voice_saas.Tables.{IvrStep, VoiceSession}
use appointment_voice_saas.Errors.{ok}
use appointment_voice_saas.Session.{Session}
use appointment_voice_saas.Env.{Env}
use appointment_voice_saas.Voice.Prompts.{PromptKey, english, resolve_prompt}
use appointment_voice_saas.Voice.Prompts.Fields.{fields_of, resolve_prompt_returns}
use appointment_voice_saas.Voice.Responses.{IvrResponse, ending}
use appointment_voice_saas.Voice.Steps.{chosen}
use appointment_voice_saas.Voice.Queries.{find_slots}
use appointment_voice_saas.Voice.Calls.{handle_keypress, is_session}
use appointment_voice_saas.Voice.Moves.{Pressed}
use appointment_voice_saas.Voice.Moves.Followed.{handle_keypress-Pressed}
use appointment_voice_saas.Voice.Runs.{
  Event, rings, presses, sweeps, happen, history, WithinLimits, history-WithinLimits,
}
use appointment_voice_saas.Voice.Endings.{handle_keypress_over}
use appointment_voice_saas.Voice.Silence.{silence_ends}
use appointment_voice_saas.Voice.Offers.{chosen-numbered}
use appointment_voice_saas.Voice.Slots.{Found, find_slots-Found}
use appointment_voice_saas.Voice.Bookings.{Booked, handle_slot_selection-Booked}
use appointment_voice_saas.Voice.Manage.{handle_keypress_uncounted}
use appointment_voice_saas.Voice.Choices.{handle_slot_selection}
use appointment_voice_saas.PublicLinks.{int_of}
use appointment_voice_saas.Common.Decimal.{scan_digits}
use appointment_voice_saas.Lookups.{
  require_business, require_service, require_staff, require_service_in_business,
  require_customer_in_business, require_staff_in_business,
}
use appointment_voice_saas.Session.{catch_overlap, ◌>>=◌}
use appointment_voice_saas.Audit.{create_audit_log}
use appointment_voice_saas.Customers.{
  normalize_phone, customer_with, insert_customer, get_or_create_customer, get_customer_by_phone,
}
use appointment_voice_saas.Outbox.{
  insert_intent, enqueue_booking_confirmation, enqueue_all, enqueue_send_notification_job,
}
use appointment_voice_saas.Calendar.{
  enqueue_calendar_event, get_calendar_integration, integration_of, enqueue_sync_calendar_event_job,
}
use appointment_voice_saas.Booking.Overlap.{insert_booking, check_double_booking}
use appointment_voice_saas.Booking.Create.{create_booking, write_booking}
use appointment_voice_saas.Booking.Lists.{get_next_confirmed_booking}
use appointment_voice_saas.Availability.Windows.{subtract_time_windows}
use appointment_voice_saas.Availability.Slots.{slots_in_window}
use appointment_voice_saas.Availability.Search.{
  get_available_slots_for_duration, get_available_slots, candidate_starts, open_windows,
  exceptions_on, working_hours_of, blocks_on, special_windows, has_any_schedule, wh_windows,
  sorted_set, free_slots, bookings_between,
}
use appointment_voice_saas.Voice.Responses.{goodbye_with, format_slot}
use appointment_voice_saas.Tests.Samples.{env, session, tables, at}

-- Ann calls.
abbrev call : VoiceSession
call = record {
  id = 5;
  tenant_id = 1;
  business_id = 1;
  caller_phone = "+48200";
  step = IvrStep.incoming;
  locale = "en";
  selected_service_id = some 1;
  selected_staff_id = some 1;
  selected_slot_start = none;
  selected_slot_end = none;
  booking_id = none;
  managed_booking_id = none;
  slot_candidates = none;
  no_input_count = 0;
  invalid_key_count = 0;
  transfer_destination = none;
  expires_at = at 8 10;
}

abbrev calling : VoiceSession → Session
calling v =
    let db = record tables { voice_sessions = v ∷ [] } in record session { db = db; committed = db }

handle_keypress-Pressed_example :
    let after = (handle_keypress env 5 1 "1" (calling call)).1 in
    Pressed (at 8 0) call (call ∷ []) after.db.voice_sessions
    × Pressed (at 8 0) call (call ∷ []) after.committed.voice_sessions
handle_keypress-Pressed_example = handle_keypress-Pressed env 5 1 "1" (calling call) call refl refl

-- A second call comes in, Ann presses 9 and then nothing, and the sweep runs at nine.
abbrev events : List (Env × Event)
events =
    (env, rings 1 1 "+48300")
    ∷ (env, presses 5 1 "9")
    ∷ (env, presses 5 1 "")
    ∷ (record env { now = at 9 0 }, sweeps)
    ∷ []

history-WithinLimits_example :
    All WithinLimits (history events (calling call)).committed.voice_sessions
history-WithinLimits_example =
    history-WithinLimits events (calling call) (inr (omega arith, omega arith), tt)

silence_ends_example :
    let press = happen env (presses 5 1 "") in
    (w : VoiceSession) × (find_by
        (is_session 5 1)
        (press (press (press (calling call)))).committed.voice_sessions
      ≡ some w)
    × (w.step ≡ IvrStep.expired)
silence_ends_example = silence_ends env 5 1 (calling call) call refl refl (omega arith)

abbrev over : VoiceSession
over = record call { step = IvrStep.booking_cancelled }

handle_keypress_over_example :
    (prompt : String) × (resolve_prompt PromptKey.session_already_complete "en" [] ≡ ok prompt)
    × (handle_keypress env 5 1 "1" (calling over) ≡ (ok (ending prompt none), calling over))
handle_keypress_over_example = handle_keypress_over env 5 1 "1" (calling over) over refl refl

abbrev services : List String
services = "Cut" ∷ "Colour" ∷ []

chosen-numbered_example : chosen env (decimal 2) services ≡ some "Colour"
chosen-numbered_example =
    chosen-numbered env services services 1 (record { key = decimal 2; label = "Colour" }) refl
      (omega arith)

resolve_prompt_returns_example :
    (prompt : String) × (resolve_prompt PromptKey.greeting_prefix "pl" (("name", "Ewa") ∷ [])
      ≡ ok prompt)
unfolding fields_of english
resolve_prompt_returns_example =
    resolve_prompt_returns PromptKey.greeting_prefix "pl" (("name", "Ewa") ∷ []) ("name" ∷ []) refl
      refl

greets_in_polish :
    resolve_prompt PromptKey.greeting_prefix "pl" (("name", "Ewa") ∷ [])
    ≡ ok "Witamy ponownie, Ewa! "
unfolding resolve_prompt
greets_in_polish = refl

abbrev two_slots : List (ℕ × ℕ)
two_slots = (at 9 0, at 10 0) ∷ (at 11 0, at 12 0) ∷ []

abbrev at_slots : VoiceSession
at_slots = record call { step = IvrStep.slot_selection; slot_candidates = some two_slots }

second_key : chosen env "2" two_slots ≡ some (at 11 0, at 12 0)
unfolding chosen int_of scan_digits
second_key = refl

abbrev confirmation : IvrResponse
confirmation =
    ending
      "Your appointment has been booked for today to today UTC. You will receive an SMS confirmation. Thank you, goodbye!"
      (some 5)

eleven_chosen : (handle_slot_selection env at_slots "2" (calling at_slots)).0 ≡ ok confirmation
unfolding handle_slot_selection chosen int_of scan_digits get_or_create_customer normalize_phone
    customer_with insert_customer create_booking write_booking insert_booking create_audit_log
    enqueue_booking_confirmation insert_intent enqueue_calendar_event get_calendar_integration
    integration_of catch_overlap enqueue_all enqueue_send_notification_job
    enqueue_sync_calendar_event_job check_double_booking require_business
    require_service_in_business require_customer_in_business require_staff_in_business
    resolve_prompt goodbye_with format_slot ◌>>=◌
eleven_chosen = refl

-- Ann, who is on the phone, takes the slot at eleven.
handle_slot_selection-Booked_example :
    Booked env at_slots tables.bookings
      (at 11 0, at 12 0)
      (calling at_slots)
      (handle_slot_selection env at_slots "2" (calling at_slots)).1.committed
handle_slot_selection-Booked_example =
    handle_slot_selection-Booked env at_slots tables.bookings "2" two_slots (at 11 0, at 12 0)
      (calling at_slots) confirmation at_slots at_slots refl refl refl refl refl second_key
      eleven_chosen

-- Bob has a payment hold only.
abbrev bob_calls : VoiceSession
bob_calls = record call { caller_phone = "+48300"; no_input_count = 2 }

handle_keypress_uncounted_example :
    (handle_keypress env 5 1 "3" (calling bob_calls)).1.committed ≡ (calling bob_calls).committed
unfolding get_customer_by_phone get_next_confirmed_booking normalize_phone customer_with
handle_keypress_uncounted_example =
    handle_keypress_uncounted env 5 1 (calling bob_calls) bob_calls refl refl (omega arith) refl

abbrev one_day : Env
one_day = record env { ivr_slot_search_days = 1 }

today_searched : find_slots one_day tables call 1 (some 1) ≡ ok two_slots
unfolding find_slots get_available_slots get_available_slots_for_duration candidate_starts
    open_windows exceptions_on working_hours_of blocks_on special_windows has_any_schedule
    wh_windows subtract_time_windows sorted_set free_slots bookings_between slots_in_window
    require_business require_service require_staff
today_searched = refl

find_slots-Found_example :
    (length two_slots ≤ 5) × All (Found one_day tables call 1 (some 1) 0 1) two_slots
find_slots-Found_example = find_slots-Found one_day tables call 1 (some 1) _ today_searched
