-- ===== src/Customers/Keeps.antt =====
-- What a lookup or creation of a customer keeps, in app/services/customer_service.py: all that does
-- not depend on the table of customers.
use appointment_voice_saas.Common.{
  ℕ, String, Option, none, some, List, ◌||◌, any_of, Bool-cases, inl, inr,
}
use appointment_voice_saas.Tables.{Db, Customer}
use appointment_voice_saas.Session.{◌>>=◌}
use appointment_voice_saas.Session.Keeps.{Keeps, keeps_rules, Keeps-pure, Keeps-raise}
use appointment_voice_saas.Env.{Env}
use appointment_voice_saas.Customers.{
  same_customer, or_conflict, lost_race, insert_customer, get_or_insert, get_or_create_customer,
}

pub record FreeOfCustomers (P : Db → Type 0) : Type 0 where
  pub free : (customers : List Customer) (db : Db) → P db → P (record db { customers = customers })

module _ {P : Db → Type 0} (apart : FreeOfCustomers P) (env : Env) where
  Keeps-or_conflict : (o : Option Customer) → Keeps P (or_conflict o)
  Keeps-or_conflict none = Keeps-raise _
  Keeps-or_conflict (some c) = Keeps-pure c

  Keeps-lost_race : (c : Customer) → Keeps P (lost_race env c)
  unfolding lost_race
  Keeps-lost_race c = record {
    at = λ s h. (Keeps-or_conflict _).at _ (let k = apart.free _ s.committed h.1 in (k, k));
  }

  Keeps-insert_customer : (c : Customer) → Keeps P (insert_customer env c)
  unfolding insert_customer ◌>>=◌
  Keeps-insert_customer c = record {
    at = λ s h.
        let taken = same_customer c.business_id c.phone_normalized in
        elim (Bool-cases (any_of taken env.raced_customers || any_of taken s.db.customers)) [
          | inl lost ↦ rw lost ((Keeps-lost_race c).at s h)
          | inr won ↦ rw won (let k = apart.free _ s.db h.0 in (k, k))
        ];
  }

  Keeps-get_or_insert :
      (t b : ℕ) (phone : String) (name : Option String) (o : Option Customer)
      → Keeps P (get_or_insert env t b phone name o)
  Keeps-get_or_insert t b phone name none = search (keeps_rules, Keeps-insert_customer)
  Keeps-get_or_insert t b phone name (some c) = Keeps-pure c

  pub Keeps-get_or_create_customer :
      (t b : ℕ) (phone : String) (name : Option String)
      → Keeps P (get_or_create_customer env t b phone name)
  unfolding get_or_create_customer
  Keeps-get_or_create_customer t b phone name = search (keeps_rules, Keeps-get_or_insert)
