-- ===== src/Customers/Erasure.antt =====
-- What is left of a customer after app/services/customer_service.py's erasure.
use Prim.Native.Char.{code}
use Prim.Native.String.append
use Prim.Native.String as Text
use appointment_voice_saas.Common.{
  ℕ, String, Option, none, some, List, [], ◌∷◌, Bool, true, false, not, ◌&&◌, ◌==◌, ==_iff, ◌≡◌,
  ◌≢◌, refl, sym, ◌∙◌, ap, find_by, find_by_holds, update_where, same_text, same_text_refl,
  same_text_sound, all_chars, All, All-find_by, Bool-cases, inl, inr, arith,
}
use appointment_voice_saas.Common.Decimal.{decimal}
use appointment_voice_saas.Tables.{Db, Customer, Client}
use appointment_voice_saas.Errors.{
  Error, Result, ok, err, not_found, or_raise, require_that, ◌>>◌, bind_ok, or_raise_ok,
}
use appointment_voice_saas.Lookups.{get_customer, require_customer, require_customer_in_business}
use appointment_voice_saas.Session.{Session, ◌>>=◌}
use appointment_voice_saas.Env.{Env}
use appointment_voice_saas.Audit.{create_audit_log}
use appointment_voice_saas.Customers.{
  normalize_phone, is_phone_char, is_customer_with, customer_with, get_customer_by_phone,
  anonymized, erase_client, gdpr_delete_customer,
}

phone_chars :
    (env : Env) (phone : String) → all_chars (is_phone_char env) (normalize_phone env phone) ≡ true
unfolding normalize_phone
phone_chars env String.[] = refl
phone_chars env (String.◌∷◌ c phone) = elim (Bool-cases (is_phone_char env (code c))) [
  | inl kept ↦ rw (normalize_phone, kept, kept) (phone_chars env phone)
  | inr dropped ↦ rw (normalize_phone, dropped) (phone_chars env phone)
]

-- No phone number has the normal form that an erased customer is given.
no_phone :
    (env : Env) (phone : String) (id : ℕ)
    → same_text (Text.◌++◌ "deleted-" (decimal id)) (normalize_phone env phone) ≡ false
no_phone env phone id =
    elim (Bool-cases (same_text (Text.◌++◌ "deleted-" (decimal id)) (normalize_phone env phone))) [
      | inl same ↦
          let e : Text.◌++◌ "deleted-" (decimal id) ≡ normalize_phone env phone =
            same_text_sound _ _ same in
          let chars : all_chars (is_phone_char env) (Text.◌++◌ "deleted-" (decimal id)) ≡ true =
            rw e (phone_chars env phone) in
          let first : all_chars (is_phone_char env)
                (String.◌∷◌ "d" (Text.◌++◌ "eleted-" (decimal id)))
              ≡ true =
            ap (all_chars (is_phone_char env)) (sym (append.cons "d" "eleted-" (decimal id)))
            ∙ chars in
          cc
      | inr other ↦ other
    ]

-- Rows with this id are anonymized.
abbrev Erased : ℕ → Customer → Type 0
Erased i c =
    ((c.id == i) && not (same_text c.phone_normalized (Text.◌++◌ "deleted-" (decimal c.id))))
    ≡ false

Erased-update :
    (i : ℕ) (rows : List Customer)
    → All (Erased i) (update_where (λ (c : Customer). c.id == i) anonymized rows)
Erased-update i [] = tt
Erased-update i (c ∷ rest) = elim (Bool-cases (c.id == i)) [
  | inl it ↦
      rw it (rw (it, same_text_refl (Text.◌++◌ "deleted-" (decimal c.id))), Erased-update i rest)
  | inr other ↦ rw other (rw other refl, Erased-update i rest)
]

customers-erase_client :
    (o : Option Client) (db : Db) → (erase_client o db).customers ≡ db.customers
customers-erase_client none db = refl
customers-erase_client (some client) db = refl

required_id :
    (db : Db) (i b t : ℕ) (c : Customer) → require_customer_in_business db i b t ≡ ok c → c.id ≡ i
unfolding require_customer_in_business require_customer get_customer
required_id db i b t c h =
    let row : Customer → Bool = λ x. x.id == i && x.tenant_id == t in
    let missing : Error = not_found "Customer not found" in
    let (found, required, rest) =
      bind_ok (or_raise (find_by row db.customers) missing)
        (λ x. require_that (x.business_id == b) missing >> ok x) c h in
    let (done, checked, returned) =
      bind_ok (require_that (found.business_id == b) missing) (λ _. ok found) c rest in
    let hit : row found ≡ true =
      find_by_holds row db.customers found
        (or_raise_ok (find_by row db.customers) missing found required) in
    let same : found.id ≡ i = ground (arith, hit) in
    ap (λ (x : Customer). x.id) (sym (value returned)) ∙ same
  where
    value : {x y : Customer} → ok x ≡ ok y → x ≡ y
    value e = cc

-- What the erasure of a customer commits of the customers.
pub gdpr_delete_customer-anonymized :
    (env : Env) (customer_id business_id tenant_id : ℕ) (actor_id : Option ℕ) (s : Session)
    (c : Customer)
    → (gdpr_delete_customer env customer_id business_id tenant_id actor_id s).0 ≡ ok c
    → (gdpr_delete_customer env customer_id business_id tenant_id actor_id s).1.committed.customers
      ≡ update_where (λ (x : Customer). x.id == customer_id) anonymized s.db.customers
unfolding gdpr_delete_customer ◌>>=◌ create_audit_log
gdpr_delete_customer-anonymized env customer_id business_id tenant_id actor_id s c h =
    by_customer (require_customer_in_business s.db customer_id business_id tenant_id) refl
  where
    clash : {e : Error} → err e ≡ ok c → ⊥
    clash q = cc

    by_customer :
        (r : Result Customer)
        → require_customer_in_business s.db customer_id business_id tenant_id ≡ r
        → (gdpr_delete_customer env customer_id business_id tenant_id actor_id
            s).1.committed.customers
          ≡ update_where (λ (x : Customer). x.id == customer_id) anonymized s.db.customers
    by_customer (err e) missing =
        let raised : err e ≡ ok c = rw missing at h in absurd (clash raised)
    by_customer (ok customer) there =
        let same = required_id s.db customer_id business_id tenant_id customer there in
        rw (there, customers-erase_client, same)

-- Once a customer is erased, no phone number leads to the row, in whatever business or tenant one
-- asks: the next call or message from it is that of a new customer.
pub gdpr_delete_customer-get_customer_by_phone :
    (env : Env) (customer_id business_id tenant_id : ℕ) (actor_id : Option ℕ) (s : Session)
    (c found : Customer) (business tenant : ℕ) (phone : String)
    → (gdpr_delete_customer env customer_id business_id tenant_id actor_id s).0 ≡ ok c
    → get_customer_by_phone env
        (gdpr_delete_customer env customer_id business_id tenant_id actor_id s).1.committed
        business
        tenant
        phone
      ≡ some found
    → found.id ≢ customer_id
unfolding get_customer_by_phone customer_with
gdpr_delete_customer-get_customer_by_phone env customer_id business_id tenant_id actor_id s c found
      business tenant phone erased looked_up same_id =
    let p : String = normalize_phone env phone in
    let rows : List Customer =
      update_where (λ (x : Customer). x.id == customer_id) anonymized s.db.customers in
    let in_rows : find_by (is_customer_with business tenant p) rows ≡ some found =
      ap (find_by (is_customer_with business tenant p)) (
        sym (
          gdpr_delete_customer-anonymized env customer_id business_id tenant_id actor_id s c
            erased))
      ∙ looked_up in
    let erased_row : Erased customer_id found =
      All-find_by (Erased customer_id) (is_customer_with business tenant p) rows found
        (Erased-update customer_id s.db.customers) in_rows in
    let hit : is_customer_with business tenant p found ≡ true =
      find_by_holds (is_customer_with business tenant p) rows found in_rows in
    let its_phone : same_text found.phone_normalized p ≡ true = ground (arith, hit) in
    let it : (found.id == customer_id) ≡ true = (==_iff found.id customer_id).1 same_id in
    let deleted : same_text found.phone_normalized (Text.◌++◌ "deleted-" (decimal found.id))
        ≡ true =
      ground (arith, erased_row, it) in
    let both : same_text (Text.◌++◌ "deleted-" (decimal found.id)) p ≡ true =
      ap (λ (text : String). same_text text p)
        (sym (same_text_sound found.phone_normalized _ deleted))
      ∙ its_phone in
    clash (sym both ∙ no_phone env phone found.id)
  where
    clash : true ≡ false → ⊥
    clash e = cc
