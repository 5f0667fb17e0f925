-- ===== src/Booking/Exclusivity.antt =====
-- The exclusion of overlapping bookings as an invariant of the calls of
-- app/services/booking_service.py.
use appointment_voice_saas.Common.{
  String, Option, List, [], ◌∷◌, ◌++◌, Bool, true, ◌≡◌, refl, ◌==◌, All,
}
use appointment_voice_saas.Tables.{Booking, is_active}
use appointment_voice_saas.Session.{Session}
use appointment_voice_saas.Env.{Env}
use appointment_voice_saas.Booking.Overlap.Exclusion.{
  NoOverlap, UniqueIds, NoOverlap-insert, NoOverlap-update, UniqueIds-update, Frees, unique_row,
}
use appointment_voice_saas.Booking.Overlap.Apart.{AllApart, AllApart-NoOverlap, NoOverlap-AllApart}
use appointment_voice_saas.Booking.Payment.{confirm_row}
use appointment_voice_saas.Booking.Cancel.{cancel_row}
use appointment_voice_saas.Booking.Calls.{Call, perform}
use appointment_voice_saas.Booking.Invariance.{Stable, perform-Keeps}

-- No two active bookings of one staff member that take any time overlap, those that other
-- transactions have just committed included, and no two rows share an id.
abbrev pub Exclusive : List Booking → List Booking → Type 0
Exclusive raced bs = AllApart (raced ++ bs) × UniqueIds bs

-- The same, as the constraint tests it.
abbrev Tested : List Booking → List Booking → Type 0
Tested raced bs = NoOverlap (raced ++ bs) × UniqueIds bs

tested : (raced bs : List Booking) → Exclusive raced bs → Tested raced bs
tested raced bs h = (NoOverlap-AllApart (raced ++ bs) h.0, h.1)

exclusive : (raced bs : List Booking) → Tested raced bs → Exclusive raced bs
exclusive raced bs h = (AllApart-NoOverlap (raced ++ bs) h.0, h.1)

Frees-cancel :
    (p : Booking → Bool) (reason : Option String) (bs : List Booking)
    → Frees p (cancel_row reason) bs
Frees-cancel p reason [] = tt
Frees-cancel p reason (b ∷ bs) = (
  (λ _. record {
    same_id = refl;
    same_staff_id = refl;
    same_start = refl;
    same_end = refl;
    not_revived = λ h. cc;
  }),
  Frees-cancel p reason bs,
)

Frees-confirm :
    (b : Booking) (bs : List Booking)
    → is_active b.status ≡ true
    → All (λ (c : Booking). (c.id == b.id) ≡ true → c ≡ b) bs
    → Frees (λ (c : Booking). c.id == b.id) confirm_row bs
Frees-confirm b [] active only = tt
Frees-confirm b (c ∷ bs) active only = (
  (λ k. record {
    same_id = refl;
    same_staff_id = refl;
    same_start = refl;
    same_end = refl;
    not_revived = λ _. rw (only.0 k) active;
  }),
  Frees-confirm b bs active only.1,
)

Tested-Stable : (env : Env) → Stable env (Tested env.raced)
Tested-Stable env = record {
  inserted = λ b bs apart fresh h. (NoOverlap-insert env.raced b bs h.0 apart, (fresh, h.1));
  cancelled = λ i reason bs h.
      let frees = Frees-cancel (λ (b : Booking). b.id == i) reason bs in
      (
        NoOverlap-update _ (cancel_row reason) env.raced bs frees h.0,
        UniqueIds-update _ (cancel_row reason) (λ _. refl) bs h.1,
      );
  confirmed = λ i t b bs e waits h.
      let frees = Frees-confirm b bs (rw waits) (unique_row i t bs b h.1 e) in
      (
        NoOverlap-update _ confirm_row env.raced bs frees h.0,
        UniqueIds-update _ confirm_row (λ _. refl) bs h.1,
      );
}

-- From a session whose bookings are apart, in the open transaction and in what is committed, every
-- call leaves them so, whether it returns or raises: no two active bookings of one staff member that
-- take any time overlap, those that other transactions have just committed included, and ids are
-- unique.
pub perform-Exclusive :
    (env : Env) (call : Call) (s : Session)
    → Exclusive env.raced s.db.bookings
    → Exclusive env.raced s.committed.bookings
    → Exclusive env.raced (perform env call s).1.db.bookings
      × Exclusive env.raced (perform env call s).1.committed.bookings
perform-Exclusive env call s h k =
    let kept =
      (perform-Keeps (record { beside = λ calls. Tested-Stable env }) call).at s
        (tested env.raced s.db.bookings h, tested env.raced s.committed.bookings k) in
    (
      exclusive env.raced (perform env call s).1.db.bookings kept.0,
      exclusive env.raced (perform env call s).1.committed.bookings kept.1,
    )
