-- ===== src/Webhook/Delivery/Allowance.antt =====
-- The allowance of a delivery under new_delivery, ProcessDelivery and markFailure of
-- internal/usecase/webhook.go: its counter, its status and its next attempt.
use go_hermes.Base.{
  ℕ, suc, String, true, false, Option, none, some, ◌≡◌, refl, if-has, true_ne_false, subst, arith,
  ltb, leb, ◌||◌, ◌∙◌, sym,
}
use go_hermes.Base.Int
use go_hermes.Base.Int.{
  ℤ, pos, pos_part, neg_part, ◌≤ℤ◌, leb_ℤ, ltb_ℤ, ◌+ℤ◌, int_laws, +ℤ_parts, eq_of_parts,
}
use go_hermes.Base.Int64.{add64, IsInt64, wrap64_id}
use go_hermes.Entity.{Time, Transaction, WebhookDelivery, WebhookDeliveryStatus}
use go_hermes.Json.{Json}
use go_hermes.Webhook.Create.{WebhookConfig, DeliveryDraws, new_delivery, normalized_max_retry}
use go_hermes.Webhook.Delivery.{
  HttpLib, Reply, refused, answered, attempt, attempted, after_reply, marked_failed, failed_with,
  marked_delivered, is_final, request_of,
}

-- A delivery within its allowance: one that is open has attempts left, one that failed has none, and
-- one that has ended has no time set for a next attempt.
pub record IsTracked (d : WebhookDelivery) : Type 0 where
  pub range : IsInt64 d.max_retry
  pub counted : pos 0 ≤ℤ d.retry_count
  pub within : d.retry_count ≤ℤ d.max_retry
  pub open_left : is_final d.status ≡ false → pos (suc (pos_part d.retry_count)) ≤ℤ d.max_retry
  pub failed_spent : d.status ≡ WebhookDeliveryStatus.failed → d.retry_count ≡ d.max_retry
  pub final_idle : is_final d.status ≡ true → d.next_retry_at ≡ none

pub counted_up :
    (n m : ℤ)
    → pos 0 ≤ℤ n
    → pos (suc (pos_part n)) ≤ℤ m
    → IsInt64 m
    → add64 n (pos 1) ≡ pos (suc (pos_part n))
unfolding add64 ◌+ℤ◌
counted_up (pos n) m p q r =
    wrap64_id (pos n +ℤ pos 1) (record { low = ground arith; high = ground arith }) ∙ ground arith
counted_up (Int.negsuc n) m p q r = absurd (omega arith)

-- A failed attempt counts one up; it is the last exactly when it uses up the allowance.
failed_with-IsTracked :
    (c : WebhookConfig) (now : Time) (n : ℕ) (code : ℕ) (message : String) (d : WebhookDelivery)
    → IsInt64 d.max_retry
    → pos n ≤ℤ d.max_retry
    → IsTracked (failed_with c now (pos n) code message d)
failed_with-IsTracked c now n code message d r q =
    if-has IsTracked (leb_ℤ d.max_retry (pos n))
      (λ spent. record {
        range = r;
        counted = omega arith;
        within = q;
        open_left = λ e. absurd (true_ne_false e);
        failed_spent = λ e. ground arith;
        final_idle = λ e. refl;
      })
      (λ left. record {
        range = r;
        counted = omega arith;
        within = q;
        open_left = λ e. ground arith;
        failed_spent = λ e. absurd (ground arith);
        final_idle = λ e. absurd (true_ne_false (sym e));
      })

marked_failed-IsTracked :
    (c : WebhookConfig) (now : Time) (code : ℕ) (message : String) (d : WebhookDelivery)
    → IsTracked d
    → is_final d.status ≡ false
    → IsTracked (marked_failed c now code message d)
unfolding marked_failed
marked_failed-IsTracked c now code message d t still =
    subst (λ n. IsTracked (failed_with c now n code message d))
      (sym (counted_up d.retry_count d.max_retry t.counted (t.open_left still) t.range))
      (failed_with-IsTracked c now (suc (pos_part d.retry_count)) code message d t.range
        (t.open_left still))

marked_delivered-IsTracked :
    (now : Time) (code : ℕ) (d : WebhookDelivery)
    → IsTracked d
    → IsTracked (marked_delivered now code d)
unfolding marked_delivered
marked_delivered-IsTracked now code d t = record {
  range = t.range;
  counted = t.counted;
  within = t.within;
  open_left = λ e. absurd (true_ne_false e);
  failed_spent = λ e. absurd (ground arith);
  final_idle = λ e. refl;
}

module _ (h : HttpLib) (c : WebhookConfig) (now : Time) where
  after_reply-IsTracked :
      (reply : Reply) (d : WebhookDelivery)
      → IsTracked d
      → is_final d.status ≡ false
      → IsTracked (after_reply h c now reply d)
  after_reply-IsTracked (refused message) d t still =
      marked_failed-IsTracked c now 0 message d t still
  after_reply-IsTracked (answered code) d t still =
      if-has IsTracked (ltb code 200 || leb 300 code)
        (λ e. marked_failed-IsTracked c now code (h.unexpected code) d t still)
        (λ e. marked_delivered-IsTracked now code d t)

  attempted-IsTracked :
      (bad : Option String) (d : WebhookDelivery)
      → IsTracked d
      → is_final d.status ≡ false
      → IsTracked (attempted h c now bad d)
  attempted-IsTracked none d t still = after_reply-IsTracked (h.post (request_of h d)) d t still
  attempted-IsTracked (some message) d t still = marked_failed-IsTracked c now 0 message d t still

  -- For an open delivery within its allowance, whatever the address and the receiver do: the
  -- delivery after an attempt is again within its allowance.
  pub attempt-IsTracked :
      (d : WebhookDelivery)
      → IsTracked d
      → is_final d.status ≡ false
      → IsTracked (attempt h c now d)
  unfolding attempt
  attempt-IsTracked d t still = attempted-IsTracked (h.bad_url d.target_url) d t still

pub IsTracked-stamp :
    (stamp : ℕ) (d : WebhookDelivery) → IsTracked d → IsTracked (record d { updated_at = stamp })
IsTracked-stamp stamp d t = record {
  range = t.range;
  counted = t.counted;
  within = t.within;
  open_left = t.open_left;
  failed_spent = t.failed_spent;
  final_idle = t.final_idle;
}

max_retry-range :
    (c : WebhookConfig)
    → IsInt64 c.max_retry
    → IsInt64 (normalized_max_retry c) × (pos 1 ≤ℤ normalized_max_retry c)
unfolding normalized_max_retry
max_retry-range c r =
    if-has (λ m. IsInt64 m × (pos 1 ≤ℤ m)) (ltb_ℤ c.max_retry (pos 1))
      (λ e. (record { low = omega arith; high = omega arith }, omega arith))
      (λ e. (r, ground arith))

-- For a configuration whose retry maximum is an int64: a delivery as it is created is within its
-- allowance.
pub new_delivery-IsTracked :
    (c : WebhookConfig) (draws : DeliveryDraws) (event : String) (x : Transaction) (payload : Json)
    → IsInt64 c.max_retry
    → IsTracked (new_delivery c draws event x payload)
unfolding new_delivery
new_delivery-IsTracked c draws event x payload r =
    let (range, least) = max_retry-range c r in
    record {
      range = range;
      counted = omega arith;
      within = omega (arith, least);
      open_left = λ e. least;
      failed_spent = λ e. absurd (ground arith);
      final_idle = λ e. refl;
    }
