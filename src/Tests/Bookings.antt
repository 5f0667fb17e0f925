-- ===== src/Tests/Bookings.antt =====
-- The theorems on calls, in the salon.
use appointment_voice_saas.Common.{◌≡◌, refl, none, [], false, arith}
use appointment_voice_saas.Errors.{conflict, err}
use appointment_voice_saas.Session.{◌>>=◌}
use appointment_voice_saas.Lookups.{
  require_business, require_service_in_business, require_customer_in_business,
  require_staff_in_business,
}
use appointment_voice_saas.Booking.Overlap.{check_double_booking}
use appointment_voice_saas.Session.Atomic.{Left}
use appointment_voice_saas.Booking.Create.{create_booking}
use appointment_voice_saas.Booking.Calls.{create, sweep, perform}
use appointment_voice_saas.Booking.Overlap.Apart.{AllApart, after}
use appointment_voice_saas.Booking.Exclusivity.{Exclusive, perform-Exclusive}
use appointment_voice_saas.Booking.Atomicity.{perform-Atomic}
use appointment_voice_saas.Booking.History.{Continues, perform-Continues}
use appointment_voice_saas.Tests.Samples.{env, session, bob_asks, at, tables}

tables_apart : AllApart tables.bookings
tables_apart = ((after (omega arith), tt), (tt, tt))

-- Bob takes the hour after Ann's.
perform-Exclusive_example :
    Exclusive [] (perform env (create (bob_asks (at 11 0)) none false none) session).1.db.bookings
    × Exclusive []
        (perform env (create (bob_asks (at 11 0)) none false none) session).1.committed.bookings
perform-Exclusive_example =
    perform-Exclusive env (create (bob_asks (at 11 0)) none false none) session
      (tables_apart, (refl, (refl, tt))) (tables_apart, (refl, (refl, tt)))

-- The sweep comes for Bob's unpaid hold.
perform-Continues_example :
    Continues tables.bookings (perform env sweep session).1.committed.bookings
perform-Continues_example = perform-Continues env sweep session refl (refl, (refl, tt))

ten_thirty_taken :
    (perform env (create (bob_asks (at 10 30)) none false none) session).0
    ≡ err (conflict "This time slot is already booked for the selected staff")
unfolding perform create_booking ◌>>=◌ check_double_booking require_business
    require_service_in_business require_customer_in_business require_staff_in_business
ten_thirty_taken = refl

-- Bob asks for Ann's hour.
perform-Atomic_example :
    Left
      (conflict "This time slot is already booked for the selected staff")
      session
      (perform env (create (bob_asks (at 10 30)) none false none) session).1
perform-Atomic_example =
    perform-Atomic env (create (bob_asks (at 10 30)) none false none) session
      (conflict "This time slot is already booked for the selected staff") refl ten_thirty_taken
