-- ===== src/Customers.antt =====
-- app/services/customer_service.py: who a business's customers are, by their phone.
pub mod Phones
pub mod Erasure
pub mod Keeps
use Prim.Native.Char.{code}
use Prim.Native.String as Text
use appointment_voice_saas.Common.{
  ℕ, String, Option, none, some, List, [], ◌∷◌, ◌++◌, Bool, true, false, ◌&&◌, ◌||◌, ◌==◌, leb,
  is_id, is_some, any_of, find_by, filter_by, update_where, order_by, page, same_text,
  if◌then◌else◌,
}
use appointment_voice_saas.Common.Decimal.{decimal}
use appointment_voice_saas.Tables.{Db, Customer, Client, AuditAction}
use appointment_voice_saas.Errors.{conflict}
use appointment_voice_saas.Lookups.{require_business, require_customer_in_business}
use appointment_voice_saas.Session.{
  Action, pure, raise, read, query, modify, fresh_id, commit, ◌>>=◌, ◌>>◌,
}
use appointment_voice_saas.Env.{Env, digit_value}
use appointment_voice_saas.Audit.{create_audit_log}

-- The characters that re.sub(r"[^\d+]", "", phone) leaves.
abbrev pub is_phone_char : Env → ℕ → Bool
is_phone_char env c = c == 43 || is_some (digit_value env c)

unfoldable pub normalize_phone : Env → String → String
normalize_phone env String.[] = String.[]
normalize_phone env (String.◌∷◌ c phone) =
    let rest = normalize_phone env phone in
    if is_phone_char env (code c) then String.◌∷◌ c rest else rest

-- The filter on business, tenant and normalized phone.
abbrev pub is_customer_with : ℕ → ℕ → String → Customer → Bool
is_customer_with business_id tenant_id phone_normalized c =
    c.business_id == business_id
    && c.tenant_id == tenant_id
    && same_text c.phone_normalized phone_normalized

unfoldable pub customer_with : Db → ℕ → ℕ → String → Option Customer
customer_with db business_id tenant_id phone_normalized =
    find_by (is_customer_with business_id tenant_id phone_normalized) db.customers

-- UniqueConstraint("business_id", "phone_normalized")
abbrev pub same_customer : ℕ → String → Customer → Bool
same_customer business_id phone_normalized c =
    c.business_id == business_id && same_text c.phone_normalized phone_normalized

abbrev pub add_customer : Customer → Db → Db
add_customer row db = record db { customers = row ∷ db.customers }

-- The rows of other transactions, which the queries of the next transaction see.
abbrev pub with_raced : Env → Db → Db
with_raced env db = record db { customers = db.customers ++ env.raced_customers }

abbrev pub or_conflict : Option Customer → Action Customer
or_conflict none = raise (conflict "Customer with this phone already exists")
or_conflict (some existing) = pure existing

-- db.rollback(), and the lookup once more
unfoldable pub lost_race : Env → Customer → Action Customer
unfolding customer_with
lost_race env customer s =
    let after = with_raced env s.committed in
    or_conflict
      (customer_with after customer.business_id customer.tenant_id customer.phone_normalized)
      (record s { db = after; committed = after })

-- db.add(customer); try: db.commit(); except IntegrityError: ...
unfoldable pub insert_customer : Env → Customer → Action Customer
unfolding lost_race
insert_customer env customer s =
    let taken = same_customer customer.business_id customer.phone_normalized in
    if any_of taken env.raced_customers || any_of taken s.db.customers
    then lost_race env customer s
    else (let after = add_customer customer s.db in
        pure customer (record s { db = after; committed = after }))

abbrev pub get_or_insert : Env → ℕ → ℕ → String → Option String → Option Customer → Action Customer
get_or_insert env tenant_id business_id phone name (some existing) = pure existing
get_or_insert env tenant_id business_id phone name none = do
  id ← fresh_id
  insert_customer env (record {
    id = id;
    tenant_id = tenant_id;
    business_id = business_id;
    phone = phone;
    phone_normalized = normalize_phone env phone;
    name = name;
  })

unfoldable pub get_or_create_customer : Env → ℕ → ℕ → String → Option String → Action Customer
unfolding customer_with normalize_phone insert_customer
get_or_create_customer env tenant_id business_id phone name = do
  business ← read (λ db. require_business db business_id tenant_id)
  existing ← query (λ db. customer_with db business_id tenant_id (normalize_phone env phone))
  get_or_insert env tenant_id business_id phone name existing

unfoldable pub get_customer_by_phone : Env → Db → ℕ → ℕ → String → Option Customer
unfolding customer_with normalize_phone
get_customer_by_phone env db business_id tenant_id phone =
    customer_with db business_id tenant_id (normalize_phone env phone)

unfoldable pub list_customers : Db → ℕ → ℕ → ℕ → ℕ → List Customer
list_customers db business_id tenant_id skip limit = page skip limit (
    order_by (λ (c d : Customer). leb c.id d.id)
      (filter_by (λ (c : Customer). c.business_id == business_id && c.tenant_id == tenant_id)
        db.customers))

-- UPDATE customers SET ... WHERE id = ...
abbrev pub update_customer_row : ℕ → (Customer → Customer) → Db → Db
update_customer_row customer_id change db = record db {
  customers = update_where (λ (c : Customer). c.id == customer_id) change db.customers;
}

abbrev pub named : Option String → Customer → Customer
named none c = c
named (some name) c = record c { name = some name }

unfoldable pub update_customer : ℕ → ℕ → ℕ → Option String → Action Customer
update_customer customer_id business_id tenant_id name = do
  customer ← read (λ db. require_customer_in_business db customer_id business_id tenant_id)
  modify (update_customer_row customer.id (named name))
  commit
  pure (named name customer)

abbrev pub anonymized : Customer → Customer
anonymized c = record c {
  name = none;
  phone = "deleted";
  phone_normalized = Text.◌++◌ "deleted-" (decimal c.id);
}

abbrev pub erased_client : Client → Client
erased_client c = record c { name = "Deleted client"; email = none; phone = none; notes = none }

abbrev pub is_client_of : ℕ → ℕ → ℕ → Client → Bool
is_client_of tenant_id business_id customer_id c =
    c.tenant_id == tenant_id && c.business_id == business_id && is_id c.customer_id customer_id

abbrev pub erase_client : Option Client → Db → Db
erase_client none db = db
erase_client (some client) db = record db {
  clients = update_where (λ (c : Client). c.id == client.id) erased_client db.clients;
}

unfoldable pub gdpr_delete_customer : Env → ℕ → ℕ → ℕ → Option ℕ → Action Customer
gdpr_delete_customer env customer_id business_id tenant_id actor_id = do
  customer ← read (λ db. require_customer_in_business db customer_id business_id tenant_id)
  modify (update_customer_row customer.id anonymized)
  client ← query (λ db. find_by (is_client_of tenant_id business_id customer.id) db.clients)
  modify (erase_client client)
  create_audit_log env tenant_id actor_id AuditAction.customer_anonymized none
      (some (Text.◌++◌ "customer_id=" (decimal customer.id))) false
  commit
  pure (anonymized customer)

unfoldable pub get_client_by_customer_id : Db → ℕ → ℕ → ℕ → Option Client
get_client_by_customer_id db business_id tenant_id customer_id =
    find_by (is_client_of tenant_id business_id customer_id) db.clients
