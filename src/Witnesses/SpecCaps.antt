-- ===== src/Witnesses/SpecCaps.antt =====
-- The caps by dimension, the cooldown, and the pages of a listing.
use financial_notification_p.Prelude.{
  ℕ, ◌-◌, ◌≤◌, ◌≡◌, refl, arith, true, false, List, [], ◌∷◌, keep, length,
}
use financial_notification_p.Core.Exceptions.{err, frequency_cap_exceeded}
use financial_notification_p.Models.Rows.{User}
use financial_notification_p.Redis.Server.Memory.{memory, memory-laws, empty, utc, utc-laws}
use financial_notification_p.Redis.SpecCap.Counting.{of_category, cap_of}
use financial_notification_p.Redis.SpecCap.Calls.{Request, let_through, perform, perform_all}
use financial_notification_p.Redis.SpecCap.{check_and_increment, check_all, channel_limit}
use financial_notification_p.Redis.SpecCap.Bounds.{accepted, accepted-within_cap}
use financial_notification_p.Redis.SpecCap.Cooldown.{cooldown-refuses}
use financial_notification_p.Schemas.Pagination.{list_page, paginate}
use financial_notification_p.Schemas.Pagination.Pages.{at_page, collect, list_page-collect}
use financial_notification_p.Witnesses.Fixtures.{asha}

abbrev ask : ℕ → Request
ask t = record {
  at = t;
  user = "u7";
  channel = "sms";
  event = "RISK-004";
  is_critical = false;
  is_mandatory = false;
}

accepted-within_cap_example :
    accepted memory utc (of_category "RISK") "u7" 0 (ask 10 ∷ ask 20 ∷ []) empty
    ≤ cap_of (of_category "RISK") - 0
accepted-within_cap_example =
    accepted-within_cap memory utc memory-laws utc-laws (of_category "RISK") "u7" 0 10 20 0
      (ask 10 ∷ ask 20 ∷ []) empty (omega arith) (λ u le same. refl)

first_passes : let_through (perform memory utc (ask 10) empty).0 ≡ true
unfolding check_and_increment check_all channel_limit
first_passes = refl

cooldown-refuses_example :
    let s' = perform_all memory utc (ask 10 ∷ ask 300 ∷ []) empty in
    perform memory utc (ask 800) s' ≡ (err frequency_cap_exceeded, s')
cooldown-refuses_example =
    cooldown-refuses memory memory-laws utc (ask 10) (ask 800) (ask 300 ∷ []) empty first_passes
      (omega arith) refl refl refl (omega arith)

list_page-collect_example :
    let listing = λ (page : ℕ).
      list_page (λ (us : List User). us) (λ u. u.is_active) (at_page 1 page) (asha ∷ asha ∷ []) in
    (collect (λ page. (listing page).items) 1 (listing 1).pages
      ≡ keep (λ (u : User). u.is_active) (asha ∷ asha ∷ []))
    × ((page : ℕ) → length (listing page).items ≤ 1)
    × ((page : ℕ) → paginate (listing page).items (listing page).total page 1 ≡ listing page)
list_page-collect_example =
    list_page-collect (λ us. us) (λ u. u.is_active) 1 (asha ∷ asha ∷ []) (omega arith) (λ us. refl)
