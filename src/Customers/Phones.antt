-- ===== src/Customers/Phones.antt =====
-- A phone number, and the customer of a business that it leads to.
use appointment_voice_saas.Common.{
  ℕ, ◌+◌, String, Option, none, some, true, ◌||◌, ◌≡◌, refl, sym, ◌∙◌, ap, any_of, same_text,
  same_text_refl, Bool-cases, inl, inr, arith,
}
use appointment_voice_saas.Tables.{Db, Business, Customer}
use appointment_voice_saas.Errors.{Error, Result, ok, err}
use appointment_voice_saas.Lookups.{get_business, require_business}
use appointment_voice_saas.Session.{Session, ◌>>=◌}
use appointment_voice_saas.Env.{Env}
use appointment_voice_saas.Customers.{
  normalize_phone, is_customer_with, customer_with, same_customer, with_raced, or_conflict,
  lost_race, insert_customer, get_or_insert, get_or_create_customer,
}

-- The lookup by the normal form finds the customer, in the tables of the same businesses.
pub record Known (t b : ℕ) (p : String) (before : Db) (r : Result Customer × Session) : Type 0 where
  pub known : (c : Customer) → r.0 ≡ ok c → customer_with r.1.db b t p ≡ some c
  pub same_businesses : r.1.db.businesses ≡ before.businesses

module _ {A : Type 0} where
  ok_inj : {a b : A} → ok a ≡ ok b → some a ≡ some b
  ok_inj h = cc

itself :
    (b t : ℕ) (p : String) (c : Customer)
    → c.business_id ≡ b
    → c.tenant_id ≡ t
    → c.phone_normalized ≡ p
    → is_customer_with b t p c ≡ true
itself b t p c hb ht hp =
    let same : same_text c.phone_normalized p ≡ true = rw hp (same_text_refl p) in ground arith

Known-or_conflict :
    (t b : ℕ) (p : String) (before : Db) (o : Option Customer) (s : Session)
    → customer_with s.db b t p ≡ o
    → s.db.businesses ≡ before.businesses
    → Known t b p before (or_conflict o s)
unfolding ◌>>=◌
Known-or_conflict t b p before none s found same = record {
  known = λ c h. cc;
  same_businesses = same;
}
Known-or_conflict t b p before (some e) s found same = record {
  known = λ c h. found ∙ ok_inj h;
  same_businesses = same;
}

Known-insert_customer :
    (env : Env) (row : Customer) (s : Session)
    → s.db ≡ s.committed
    → Known row.tenant_id row.business_id row.phone_normalized s.db (insert_customer env row s)
unfolding insert_customer ◌>>=◌ lost_race customer_with
Known-insert_customer env row s clean =
    let taken = same_customer row.business_id row.phone_normalized in
    elim (Bool-cases (any_of taken env.raced_customers || any_of taken s.db.customers)) [
      | inl lost ↦ rw lost (
          Known-or_conflict row.tenant_id row.business_id row.phone_normalized s.db _
            (record s { db = with_raced env s.committed; committed = with_raced env s.committed })
            refl (ap (λ (db : Db). db.businesses) (sym clean)))
      | inr free ↦
          let found : is_customer_with row.business_id row.tenant_id row.phone_normalized row
              ≡ true =
            itself row.business_id row.tenant_id row.phone_normalized row refl refl refl in
          rw free
            (record { known = λ c h. rw (customer_with, found) (ok_inj h); same_businesses = refl })
    ]

Known-get_or_insert :
    (env : Env) (t b : ℕ) (phone : String) (name : Option String) (o : Option Customer)
    (s : Session)
    → customer_with s.db b t (normalize_phone env phone) ≡ o
    → s.db ≡ s.committed
    → Known t b (normalize_phone env phone) s.db (get_or_insert env t b phone name o s)
unfolding ◌>>=◌
Known-get_or_insert env t b phone name none s found clean =
    Known-insert_customer env
      (record {
        id = s.next_id;
        tenant_id = t;
        business_id = b;
        phone = phone;
        phone_normalized = normalize_phone env phone;
        name = name;
      })
      (record s { next_id = s.next_id + 1 }) clean
Known-get_or_insert env t b phone name (some e) s found clean = record {
  known = λ c h. found ∙ ok_inj h;
  same_businesses = refl;
}

same_business :
    (db after : Db) (b t : ℕ) (r : Result Business)
    → after.businesses ≡ db.businesses
    → require_business db b t ≡ r
    → require_business after b t ≡ r
unfolding require_business get_business
same_business db after b t r same h = rw same h

-- A call that has returned a customer is repeated: with any phone of the same normal form, the next
-- call returns that customer and changes nothing, whether the first one found the customer, added
-- it or lost the race to add it.
pub get_or_create_customer_again :
    (env : Env) (tenant_id business_id : ℕ) (phone again : String) (name other_name : Option String)
    (s : Session) (c : Customer)
    → s.db ≡ s.committed
    → normalize_phone env again ≡ normalize_phone env phone
    → (get_or_create_customer env tenant_id business_id phone name s).0 ≡ ok c
    → let after = (get_or_create_customer env tenant_id business_id phone name s).1 in
      get_or_create_customer env tenant_id business_id again other_name after ≡ (ok c, after)
unfolding get_or_create_customer ◌>>=◌
get_or_create_customer_again env tenant_id business_id phone again name other_name s c clean same
      h =
    by_business (require_business s.db business_id tenant_id) refl
  where
    clash : {e : Error} → err e ≡ ok c → ⊥
    clash q = cc

    by_business :
        (r : Result Business)
        → require_business s.db business_id tenant_id ≡ r
        → let after = (get_or_create_customer env tenant_id business_id phone name s).1 in
          get_or_create_customer env tenant_id business_id again other_name after ≡ (ok c, after)
    by_business (err e) missing =
        let raised : err e ≡ ok c = rw missing at h in absurd (clash raised)
    by_business (ok business) there =
        let call =
          get_or_insert env tenant_id business_id phone name
            (customer_with s.db business_id tenant_id (normalize_phone env phone)) s in
        let first = Known-get_or_insert env tenant_id business_id phone name _ s refl clean in
        let again_there : require_business call.1.db business_id tenant_id ≡ ok business =
          same_business s.db call.1.db business_id tenant_id (ok business) first.same_businesses
            there in
        let returned : call.0 ≡ ok c = rw there at h in
        rw (there, again_there, same, first.known c returned)
