-- ===== src/Api/Dlq/Resolution.antt =====
-- An entry of the dead-letter table is resolved once.
use financial_notification_p.Prelude.{
  ℕ, ◌≡◌, ◌+◌, refl, sym, ap, subst, ◌∙◌, ◌++◌, String, true, false, none, some, List, [], ◌∷◌,
  arith, ◌⊎◌, inl, inr, Bool-cases, Option-cases,
}
use mathlib.Core.Option
use financial_notification_p.Core.Exceptions.{Result, ok, err, http_exception}
use financial_notification_p.Models.Rows.{DeadLetterQueue}
use financial_notification_p.Models.World.{World, send_notification_task}
use financial_notification_p.Redis.Server.{Redis}
use financial_notification_p.Services.Auth.{CurrentUser, require_roles, admins}
use financial_notification_p.Services.Auth.Roles.{require_roles-cases}
use financial_notification_p.Api.Dlq.{
  get_entry, update_entry, mark_retried, reset_notification, requeue_entry, get_dlq_stats,
  retry_dlq_entry, discard_dlq_entry,
}

-- Every entry is counted once, as resolved or as not resolved.
get_dlq_stats-total :
    (most_first : List (String × ℕ) → List (String × ℕ)) (es : List DeadLetterQueue)
    → (let stats = get_dlq_stats most_first es in stats.total ≡ stats.unresolved + stats.resolved)
unfolding get_dlq_stats
get_dlq_stats-total most_first [] = omega arith
get_dlq_stats-total most_first (e ∷ es) = ground (arith, get_dlq_stats-total most_first es)

get_entry-update :
    (id : ℕ) (f : DeadLetterQueue → DeadLetterQueue) (es : List DeadLetterQueue)
    → ((d : DeadLetterQueue) → (f d).id ≡ d.id)
    → get_entry id (update_entry id f es) ≡ Option.map f (get_entry id es)
get_entry-update id f [] k = refl
get_entry-update id f (d ∷ es) k = ground (arith, k d, get_entry-update id f es k)

get_entry-id :
    (id : ℕ) (es : List DeadLetterQueue) {e : DeadLetterQueue}
    → get_entry id es ≡ some e
    → e.id ≡ id
get_entry-id id [] found = cc
get_entry-id id (d ∷ es) {e = e} found = ground (arith, get_entry-id id es {e = e})

get_entry-resolved :
    (id : ℕ) (f : DeadLetterQueue → DeadLetterQueue) (es : List DeadLetterQueue)
    (e : DeadLetterQueue)
    → ((d : DeadLetterQueue) → (f d).id ≡ d.id)
    → get_entry id es ≡ some e
    → get_entry id (update_entry e.id f es) ≡ some (f e)
get_entry-resolved id f es e k found =
    ap (λ i. get_entry id (update_entry i f es)) (get_entry-id id es found)
    ∙ get_entry-update id f es k
    ∙ ap (Option.map f) found

-- A reply that retries an entry: a success that queues its notification once, after which a further
-- request to retry or to discard the entry is refused.
abbrev pub Retried :
    {r : Redis}
    → CurrentUser
    → String
    → ℕ
    → World r
    → DeadLetterQueue
    → Result (Unit {0}) × World r
    → Type 0
Retried u by id w e (result, w') =
    (result ≡ ok tt)
    × (w'.tasks ≡ w.tasks ++ send_notification_task e.notification_id ∷ [])
    × (retry_dlq_entry u id w' ≡ (err (http_exception 400), w'))
    × (discard_dlq_entry u by id w' ≡ (err (http_exception 400), w'))

abbrev pub IsRetried : {r : Redis} → CurrentUser → String → ℕ → World r → DeadLetterQueue → Type 0
IsRetried u by id w e = Retried u by id w e (retry_dlq_entry u id w)

retry_dlq_entry-refused :
    {r : Redis} (u : CurrentUser) (id : ℕ) (w : World r)
    → require_roles admins u ≡ err (http_exception 403)
    → retry_dlq_entry u id w ≡ (err (http_exception 403), w)
unfolding retry_dlq_entry
retry_dlq_entry-refused u id w not_allowed = rw (not_allowed, retry_dlq_entry) refl

module _ {r : Redis} (u : CurrentUser) (allowed : require_roles admins u ≡ ok u) where
  retry_dlq_entry-missing :
      (id : ℕ) (w : World r)
      → get_entry id w.db.dead_letters ≡ none
      → retry_dlq_entry u id w ≡ (err (http_exception 404), w)
  unfolding retry_dlq_entry
  retry_dlq_entry-missing id w missing =
      rw (allowed, retry_dlq_entry) (rw (missing, retry_dlq_entry) refl)

  retry_dlq_entry-open :
      (id : ℕ) (w : World r) (e : DeadLetterQueue)
      → get_entry id w.db.dead_letters ≡ some e
      → e.resolved ≡ false
      → retry_dlq_entry u id w ≡ (ok tt, requeue_entry reset_notification e w)
  unfolding retry_dlq_entry
  retry_dlq_entry-open id w e found open_ =
      rw (allowed, retry_dlq_entry) (rw (found, retry_dlq_entry) (ground arith))

  resolved_refuses :
      (by : String) (id : ℕ) (w : World r) (e : DeadLetterQueue)
      → get_entry id w.db.dead_letters ≡ some e
      → e.resolved ≡ true
      → (retry_dlq_entry u id w ≡ (err (http_exception 400), w))
        × (discard_dlq_entry u by id w ≡ (err (http_exception 400), w))
  unfolding retry_dlq_entry discard_dlq_entry
  resolved_refuses by id w e found closed = (
    rw (allowed, retry_dlq_entry) (rw (found, retry_dlq_entry) (ground arith)),
    rw (allowed, discard_dlq_entry) (rw (found, discard_dlq_entry) (ground arith)),
  )

  retry_dlq_entry-once_open :
      (by : String) (id : ℕ) (w : World r) (e : DeadLetterQueue)
      → get_entry id w.db.dead_letters ≡ some e
      → e.resolved ≡ false
      → IsRetried u by id w e
  retry_dlq_entry-once_open by id w e found open_ =
      let done = retry_dlq_entry-open id w e found open_ in
      let (retried, discarded) =
        resolved_refuses by id (requeue_entry reset_notification e w) (mark_retried w.clock e)
          (get_entry-resolved id (mark_retried w.clock) w.db.dead_letters e (λ d. refl) found)
          refl in
      subst (λ reply. Retried u by id w e reply) (sym done) (refl, refl, retried, discarded)

-- POST /dlq/{dlq_id}/retry refuses a caller who is no administrator with 403, an identifier that no entry
-- of the table has with 404, and a resolved entry with 400, and then changes nothing. Otherwise it
-- succeeds and queues the entry's notification once, and a further request by the same caller to retry or
-- to discard the entry is refused with 400 and changes nothing.
pub retry_dlq_entry-once :
    {r : Redis} (u : CurrentUser) (by : String) (id : ℕ) (w : World r)
    → ((require_roles admins u ≡ err (http_exception 403))
        × (retry_dlq_entry u id w ≡ (err (http_exception 403), w)))
      ⊎ ((require_roles admins u ≡ ok u)
          × (get_entry id w.db.dead_letters ≡ none)
          × (retry_dlq_entry u id w ≡ (err (http_exception 404), w)))
      ⊎ ((require_roles admins u ≡ ok u)
          × ((e : DeadLetterQueue) × (get_entry id w.db.dead_letters ≡ some e)
              × (((e.resolved ≡ true) × (retry_dlq_entry u id w ≡ (err (http_exception 400), w)))
                  ⊎ ((e.resolved ≡ false) × IsRetried u by id w e))))
retry_dlq_entry-once u by id w = elim (require_roles-cases admins u) [
  | inr not_allowed ↦ inl (not_allowed, retry_dlq_entry-refused u id w not_allowed)
  | inl allowed ↦ elim (Option-cases (get_entry id w.db.dead_letters)) [
    | inl missing ↦ inr (inl (allowed, missing, retry_dlq_entry-missing u allowed id w missing))
    | inr (e, found) ↦ inr (
        inr (
          allowed,
          (
            e,
            found,
            elim (Bool-cases e.resolved) [
              | inl closed ↦ inl (closed, (resolved_refuses u allowed by id w e found closed).0)
              | inr open_ ↦ inr (open_, retry_dlq_entry-once_open u allowed by id w e found open_)
            ],
          ),
        ))
  ]
]
