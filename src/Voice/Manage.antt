-- ===== src/Voice/Manage.antt =====
-- A caller without an upcoming booking who asks to manage one.
use appointment_voice_saas.Common.{
  ℕ, ◌<◌, ◌==◌, ◌≡◌, refl, ap, ◌∙◌, String, none, some, Bool, true, false, leb, if◌then◌else◌,
  find_by, arith,
}
use appointment_voice_saas.Tables.{Db, VoiceSession, IvrStep}
use appointment_voice_saas.Errors.{Result}
use appointment_voice_saas.Session.{Session, Action, pure, ◌>>=◌}
use appointment_voice_saas.Env.{Env}
use appointment_voice_saas.Customers.{get_customer_by_phone}
use appointment_voice_saas.Booking.Lists.{get_next_confirmed_booking}
use appointment_voice_saas.Voice.Responses.{IvrResponse}
use appointment_voice_saas.Voice.Steps.{save, put_session, is_terminal}
use appointment_voice_saas.Voice.Menus.{
  next_booking_of, manage, handle_manage_booking_request, handle_incoming,
}
use appointment_voice_saas.Voice.Calls.{
  engaged, reset_no_input, is_repeat, handle_step, handle_key, handle_session, is_session,
  handle_keypress,
}
use appointment_voice_saas.Voice.Endings.{Quiet, Quiet-pure, Quiet-read, Quiet-bind}

-- The caller of a call has no confirmed booking ahead.
abbrev pub NothingAhead : Env → VoiceSession → Db → Type 0
NothingAhead env v db =
    next_booking_of env db v (get_customer_by_phone env db v.business_id v.tenant_id v.caller_phone)
    ≡ none

Quiet-manage : (env : Env) (u : VoiceSession) → Quiet (manage env u none)
Quiet-manage env u = search (Quiet-pure, Quiet-read, Quiet-bind) depth 8

request_changes_nothing :
    (env : Env) (u : VoiceSession) (s : Session)
    → NothingAhead env u s.db
    → (handle_incoming env u "3" s).1 ≡ s
unfolding handle_incoming handle_manage_booking_request ◌>>=◌
request_changes_nothing env u s nothing = rw nothing ((Quiet-manage env u).unmoved s)

NothingAhead-saved :
    (env : Env) (v : VoiceSession) (db : Db)
    → NothingAhead env v db
    → NothingAhead env (engaged v) (put_session (engaged v) db)
unfolding get_customer_by_phone get_next_confirmed_booking
NothingAhead-saved env v db nothing = nothing

after_reset :
    (zero : Bool) (env : Env) (v : VoiceSession) (s : Session)
    → NothingAhead env v s.db
    → (((if zero then pure tt else save (engaged v)) >>= λ _. handle_incoming env (engaged v) "3")
        s).1.committed
      ≡ s.committed
unfolding ◌>>=◌
after_reset true env v s nothing =
    ap (λ (t : Session). t.committed) (request_changes_nothing env (engaged v) s nothing)
after_reset false env v s nothing =
    ap (λ (t : Session). t.committed)
      (request_changes_nothing env (engaged v) (record s { db = put_session (engaged v) s.db })
        (NothingAhead-saved env v s.db nothing))

key_at_menu :
    (env : Env) (v : VoiceSession) (key : String)
    → v.step ≡ IvrStep.incoming
    → is_repeat key ≡ false
    → handle_key env v key ≡ (reset_no_input v >>= λ _. handle_incoming env (engaged v) key)
unfolding handle_key
key_at_menu env v key at_menu other = rw other (
    ap (λ (step : IvrStep). reset_no_input v >>= λ _. handle_step step env (engaged v) key) at_menu)

session_in_time :
    (env : Env) (i t : ℕ) (s : Session) (v : VoiceSession)
    → find_by (is_session i t) s.db.voice_sessions ≡ some v
    → is_terminal v.step ≡ false
    → env.now < v.expires_at
    → handle_keypress env i t "3" s ≡ handle_key env v "3" s
unfolding handle_keypress handle_session ◌>>=◌
session_in_time env i t s v known live in_time =
    let early : leb v.expires_at env.now ≡ false = ground arith in rw (known, early, live)

-- In the main menu, in time: key 3 from a caller without a confirmed booking ahead leaves what is
-- committed as it was. So the silences before it still count, although a key was pressed.
pub handle_keypress_uncounted :
    (env : Env) (i t : ℕ) (s : Session) (v : VoiceSession)
    → find_by (is_session i t) s.db.voice_sessions ≡ some v
    → v.step ≡ IvrStep.incoming
    → env.now < v.expires_at
    → NothingAhead env v s.db
    → (handle_keypress env i t "3" s).1.committed ≡ s.committed
handle_keypress_uncounted env i t s v known at_menu in_time nothing =
    let live : is_terminal v.step ≡ false = rw at_menu in
    let press = session_in_time env i t s v known live in_time in
    let step = key_at_menu env v "3" at_menu refl in
    ap (λ (p : Result IvrResponse × Session). p.1.committed) press
    ∙ ap (λ (m : Action IvrResponse). (m s).1.committed) step
    ∙ after_reset (v.no_input_count == 0) env v s nothing
