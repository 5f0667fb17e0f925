-- ===== src/Tests/Customers.antt =====
-- Customers, their links and their replies.
use appointment_voice_saas.Common.{◌≢◌, none, some, true, false, ◌≡◌, refl, arith}
use appointment_voice_saas.Common.Decimal.{decimal, digit_char, scan_digits}
use appointment_voice_saas.Tables.{Customer}
use appointment_voice_saas.Errors.{ok}
use appointment_voice_saas.Lookups.{
  require_business, get_business, require_customer_in_business, require_customer, get_customer,
}
use appointment_voice_saas.Session.{◌>>=◌}
use appointment_voice_saas.Audit.{create_audit_log}
use appointment_voice_saas.Customers.{
  normalize_phone, customer_with, insert_customer, get_or_create_customer, get_customer_by_phone,
  anonymized, gdpr_delete_customer,
}
use appointment_voice_saas.Customers.Phones.{get_or_create_customer_again}
use appointment_voice_saas.Customers.Erasure.{gdpr_delete_customer-get_customer_by_phone}
use appointment_voice_saas.PublicLinks.{
  pos, is_ascii, expiry, int_of, message_of, sign, verify_parts, generate_booking_token,
  verify_booking_token,
}
use appointment_voice_saas.PublicLinks.Tokens.{verify_booking_token-generate_booking_token}
use appointment_voice_saas.PublicLinks.Tokens.Genuine.{Genuine, verify_booking_token-Genuine}
use appointment_voice_saas.Booking.Lists.{get_next_confirmed_booking}
use appointment_voice_saas.Booking.Lists.Soonest.{First, get_next_confirmed_booking-First}
use appointment_voice_saas.Booking.Cancel.{cancel_booking}
use appointment_voice_saas.SmsReplies.{cancel, parse_reply_intent, sms_reply, handle_sms_reply}
use appointment_voice_saas.SmsReplies.Outcomes.{Cancels, handle_sms_reply-Cancels}
use appointment_voice_saas.Tests.Samples.{env, session, tables, at, ann, bob, ten_o_clock}

-- A phone that is new to the salon, twice, spelt in two ways.
abbrev carol : Customer
carol = record {
  id = 10;
  tenant_id = 1;
  business_id = 1;
  phone = "+48 500";
  phone_normalized = "+48500";
  name = some "Carol";
}

same_phone : normalize_phone env "+48-500" ≡ normalize_phone env "+48 500"
unfolding normalize_phone
same_phone = refl

carol_added : (get_or_create_customer env 1 1 "+48 500" (some "Carol") session).0 ≡ ok carol
unfolding get_or_create_customer normalize_phone customer_with insert_customer require_business
    get_business ◌>>=◌
carol_added = refl

get_or_create_customer_again_example :
    let after = (get_or_create_customer env 1 1 "+48 500" (some "Carol") session).1 in
    get_or_create_customer env 1 1 "+48-500" none after ≡ (ok carol, after)
get_or_create_customer_again_example =
    get_or_create_customer_again env 1 1 "+48 500" "+48-500" (some "Carol") none session carol refl
      same_phone carol_added

ann_erased : (gdpr_delete_customer env 1 1 1 none session).0 ≡ ok (anonymized ann)
unfolding gdpr_delete_customer create_audit_log require_customer_in_business require_customer
    get_customer ◌>>=◌
ann_erased = refl

bob_found :
    get_customer_by_phone env (gdpr_delete_customer env 1 1 1 none session).1.committed 1 1 "+48300"
    ≡ some bob
unfolding gdpr_delete_customer create_audit_log require_customer_in_business require_customer
    get_customer get_customer_by_phone customer_with normalize_phone decimal digit_char ◌>>=◌
bob_found = refl

-- Ann is erased, Bob is still found.
gdpr_delete_customer-get_customer_by_phone_example : bob.id ≢ 1
gdpr_delete_customer-get_customer_by_phone_example =
    gdpr_delete_customer-get_customer_by_phone env 1 1 1 none session (anonymized ann) bob 1 1
      "+48300" ann_erased bob_found

-- A link for booking 1, used an hour later.
digest_is_ascii : is_ascii (sign env (pos 1) (pos (expiry env))) ≡ true
unfolding sign message_of decimal digit_char
digest_is_ascii = refl

verify_booking_token-generate_booking_token_example :
    verify_booking_token (record env { now = at 9 0 }) (generate_booking_token env 1) ≡ ok (pos 1)
verify_booking_token-generate_booking_token_example =
    verify_booking_token-generate_booking_token env 1 (at 9 0) (omega arith) (omega arith)
      digest_is_ascii

-- The same link, read.
token_of_one : verify_booking_token env "1.7804800.1:7804800" ≡ ok (pos 1)
unfolding verify_booking_token verify_parts int_of scan_digits sign message_of decimal digit_char
token_of_one = refl

verify_booking_token-Genuine_example : Genuine env "1.7804800.1:7804800" (pos 1)
verify_booking_token-Genuine_example =
    verify_booking_token-Genuine env "1.7804800.1:7804800" (pos 1) token_of_one

get_next_confirmed_booking-First_example :
    First env 1 1 1 tables.bookings (get_next_confirmed_booking env tables 1 1 1)
get_next_confirmed_booking-First_example = get_next_confirmed_booking-First env tables 1 1 1

-- Ann answers her reminder.
no_is_cancel : parse_reply_intent " no\n" ≡ cancel
unfolding parse_reply_intent
no_is_cancel = refl

ann_is_known : get_customer_by_phone env tables 1 1 "+48 200" ≡ some ann
unfolding get_customer_by_phone customer_with normalize_phone
ann_is_known = refl

ten_is_next : get_next_confirmed_booking env tables 1 1 1 ≡ some ten_o_clock
unfolding get_next_confirmed_booking
ten_is_next = refl

handle_sms_reply-Cancels_example :
    Cancels 1 session
      (cancel_booking env 1 1 1 sms_reply none false session).0
      (handle_sms_reply env 1 1 "+48 200" " no\n" session)
handle_sms_reply-Cancels_example =
    handle_sms_reply-Cancels env 1 1 "+48 200" " no\n" session ann ten_o_clock no_is_cancel
      ann_is_known ten_is_next
