-- ===== src/SmsReplies.antt =====
-- app/services/sms_reply_service.py: a customer answers a reminder.
pub mod Outcomes
use Prim.Native.Char.{code}
use appointment_voice_saas.Common.{
  ℕ, ◌-◌, String, Option, none, some, List, [], ◌∷◌, ◌++◌, Bool, true, false, ◌&&◌, ◌||◌, ◌==◌, leb,
  any_of, is_space, strip_of, if◌then◌else◌,
}
use appointment_voice_saas.Tables.{Db, Booking, Customer, AuditAction}
use appointment_voice_saas.Errors.{Error, Result, ok, err, conflict}
use appointment_voice_saas.Session.{Action, pure, raise, query, ◌>>=◌, ◌>>◌}
use appointment_voice_saas.Env.{Env}
use appointment_voice_saas.Audit.{create_audit_log}
use appointment_voice_saas.Customers.{get_customer_by_phone}
use appointment_voice_saas.Booking.Lists.{get_next_confirmed_booking}
use appointment_voice_saas.Booking.Cancel.{cancel_booking}

-- str.upper() of a character, as far as a keyword can tell: the capitals of all other characters
-- hold one that is not ASCII, which no keyword does, and those characters stand for themselves here.
abbrev pub upper_char : ℕ → List ℕ
upper_char c =
    if leb 97 c && leb c 122
    then (c - 32) ∷ []
    else if c == 305
    then 73 ∷ []
    else if c == 383
    then 83 ∷ []
    else if c == 223
    then 83 ∷ 83 ∷ []
    else if c == 64256
    then 70 ∷ 70 ∷ []
    else if c == 64257
    then 70 ∷ 73 ∷ []
    else if c == 64258
    then 70 ∷ 76 ∷ []
    else if c == 64259
    then 70 ∷ 70 ∷ 73 ∷ []
    else if c == 64260
    then 70 ∷ 70 ∷ 76 ∷ []
    else if c == 64261 || c == 64262
    then 83 ∷ 84 ∷ []
    else c ∷ []

abbrev pub upper : String → List ℕ
upper String.[] = []
upper (String.◌∷◌ c text) = upper_char (code c) ++ upper text

abbrev pub codes_of : String → List ℕ
codes_of String.[] = []
codes_of (String.◌∷◌ c text) = code c ∷ codes_of text

abbrev pub same_codes : List ℕ → List ℕ → Bool
same_codes [] [] = true
same_codes [] (d ∷ ds) = false
same_codes (c ∷ cs) [] = false
same_codes (c ∷ cs) (d ∷ ds) = c == d && same_codes cs ds

abbrev pub is_in : List String → List ℕ → Bool
is_in keywords normalized = any_of (λ word. same_codes (codes_of word) normalized) keywords

abbrev pub confirm_keywords : List String
confirm_keywords = "C" ∷ "CONFIRM" ∷ "Y" ∷ "YES" ∷ []

abbrev pub cancel_keywords : List String
cancel_keywords = "X" ∷ "CANCEL" ∷ "N" ∷ "NO" ∷ []

pub data SmsReplyIntent : Type 0 where
  confirm cancel unrecognized : SmsReplyIntent

abbrev pub intent_of : List ℕ → SmsReplyIntent
intent_of normalized =
    if is_in confirm_keywords normalized
    then confirm
    else if is_in cancel_keywords normalized
    then cancel
    else unrecognized

-- body.strip().upper()
unfoldable pub parse_reply_intent : String → SmsReplyIntent
parse_reply_intent body = intent_of (upper (strip_of is_space body))

abbrev pub is_conflict : Error → Bool
is_conflict (conflict message) = true
is_conflict e = false

abbrev pub unless_conflict : Result Booking → Action (Unit {0})
unless_conflict (ok booking) = pure tt
unless_conflict (err e) = if is_conflict e then pure tt else raise e

abbrev pub sms_reply : Option String
sms_reply = some "customer_sms_reply"

-- try: cancel_booking(...); except ConflictError: pass
unfoldable pub cancel_unless_conflict : Env → Booking → ℕ → ℕ → Action (Unit {0})
cancel_unless_conflict env booking business_id tenant_id s =
    let (r, after) = cancel_booking env booking.id business_id tenant_id sms_reply none false s in
    unless_conflict r after

abbrev pub confirm_reply : Env → Booking → ℕ → Action (Unit {0})
confirm_reply env booking tenant_id =
    create_audit_log env tenant_id none AuditAction.booking_confirmed (some booking.id)
      (some "sms_reply") true
    >> pure tt

abbrev pub reply_for : Env → ℕ → ℕ → SmsReplyIntent → Option Booking → Action (Unit {0})
reply_for env business_id tenant_id intent none = pure tt
reply_for env business_id tenant_id confirm (some booking) = confirm_reply env booking tenant_id
reply_for env business_id tenant_id cancel (some booking) =
    cancel_unless_conflict env booking business_id tenant_id
reply_for env business_id tenant_id unrecognized (some booking) = pure tt

abbrev pub reply_of : Env → ℕ → ℕ → SmsReplyIntent → Option Customer → Action (Unit {0})
reply_of env business_id tenant_id intent none = pure tt
reply_of env business_id tenant_id intent (some customer) = do
  booking ← query (λ db. get_next_confirmed_booking env db business_id tenant_id customer.id)
  reply_for env business_id tenant_id intent booking

abbrev pub handle_intent : Env → ℕ → ℕ → String → SmsReplyIntent → Action SmsReplyIntent
handle_intent env business_id tenant_id from_phone unrecognized = pure unrecognized
handle_intent env business_id tenant_id from_phone intent = do
  customer ← query (λ db. get_customer_by_phone env db business_id tenant_id from_phone)
  reply_of env business_id tenant_id intent customer
  pure intent

unfoldable pub handle_sms_reply : Env → ℕ → ℕ → String → String → Action SmsReplyIntent
unfolding parse_reply_intent
handle_sms_reply env business_id tenant_id from_phone body =
    handle_intent env business_id tenant_id from_phone (parse_reply_intent body)
