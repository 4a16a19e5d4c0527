-- ===== src/Audit/Writer/Retries.antt =====
-- How often a row is tried and how long that takes.
use shield_agent.Prelude.{
  ℕ, zero, suc, ◌+◌, ◌*◌, ◌^◌, ◌≤◌, ◌<◌, ◌≡◌, refl, sym, ap, ◌∙◌, ◌⊎◌, inl, inr, Bool, true, false,
  List, [], ◌∷◌, arith, Bool-cases,
}
use mathlib.Core.Path.{subst}
use native.Mathlib.Decide.{dec_lt}
use native.Mathlib.Nat.{mul_assoc, pow-succ'}
use shield_agent.Prelude.Result.{ok, err}
use shield_agent.Audit.Row.{Formats, EgressLog}
use shield_agent.Audit.Store.{Db, insert_egress_log}
use shield_agent.Audit.Writer.{insert_failed, Limits, Attempts, retry, insert_with_retry}

abbrev pub sum : List ℕ → ℕ
sum [] = 0
sum (n ∷ ns) = n + sum ns

double : (b n : ℕ) → b * 2 ^ suc n ≡ b * 2 * 2 ^ n
double b n = ap (λ k. b * k) (pow-succ' 2 n) ∙ sym (mul_assoc b 2 (2 ^ n))

grows : (b n : ℕ) → b ≤ b * 2 ^ n
grows b zero = omega arith
grows b (suc n) = omega (arith, double b n, grows (b * 2) n)

sum_paused :
    {fm : Formats} (a : Attempts fm) (backoff left : ℕ)
    → sum a.sleeps + backoff * 2 ≤ backoff * 2 * 2 ^ suc left
    → sum (backoff ∷ a.sleeps) + backoff ≤ backoff * 2 ^ suc (suc left)
sum_paused a backoff left h = omega (arith, double backoff (suc left))

module _ (fm : Formats) (fails : ℕ → Bool) (db : Db fm) (log : EgressLog fm) where
  -- The row is written once, by one of the attempts from `first` to `first + left - 1`.
  abbrev pub Wrote : ℕ → ℕ → Attempts fm → Type 0
  Wrote first left a =
      (a.db ≡ (insert_egress_log fm db log).0)
      × (a.answer ≡ ok (insert_egress_log fm db log).1)
      × ((n : ℕ) × (first ≤ n) × (n < first + left) × (fails n ≡ false))

  -- The database is as it was, and all attempts failed.
  abbrev pub Failed : ℕ → ℕ → Attempts fm → Type 0
  Failed first left a =
      (a.db ≡ db)
      × (a.answer ≡ err insert_failed)
      × ((n : ℕ) → first ≤ n → n < first + left → fails n ≡ true)

  all_from :
      (first left : ℕ)
      → fails first ≡ true
      → ((n : ℕ) → first + 1 ≤ n → n < first + 1 + left → fails n ≡ true)
      → (n : ℕ) → first ≤ n
      → n < first + suc left
      → fails n ≡ true
  all_from first left failed all n low high = elim (dec_lt first n) [
    | yes later ↦ all n (omega arith) (omega arith)
    | no same ↦ subst (λ k. fails k ≡ true) (same_first (omega arith)) failed
  ]
    where
      same_first : first ≡ n → first ≡ n
      same_first e = e

  retry_cases :
      (first backoff left : ℕ)
      → Wrote first left (retry fm fails db log first backoff left)
        ⊎ Failed first left (retry fm fails db log first backoff left)
  unfolding retry
  retry_cases first backoff zero = inr (refl, refl, λ n a b. absurd (omega arith))
  retry_cases first backoff (suc left) = elim (Bool-cases (fails first)) [
    | inr works ↦ inl (ground arith, ground arith, (first, omega arith, omega arith, works))
    | inl failed ↦ elim (retry_cases (first + 1) (backoff * 2) left) [
      | inl (d, a, (n, low, high, works)) ↦
          inl (ground arith, ground arith, (n, omega arith, omega arith, works))
      | inr (d, a, all) ↦ inr (ground arith, ground arith, all_from first left failed all)
    ]
  ]

  sum-retry :
      (first backoff left : ℕ)
      → sum (retry fm fails db log first backoff left).sleeps + backoff ≤ backoff * 2 ^ left
  unfolding retry
  sum-retry first backoff zero = omega arith
  sum-retry first backoff (suc zero) = ground arith
  sum-retry first backoff (suc (suc left)) = elim (Bool-cases (fails first)) [
    | inl failed ↦ ground (
      arith,
      sum_paused (retry fm fails db log (first + 1) (backoff * 2) (suc left)) backoff left
          (sum-retry (first + 1) (backoff * 2) (suc left)),
    )
    | inr works ↦ ground (arith, grows backoff (suc (suc left)))
  ]

  -- A row is tried at most as often as the limit says. Either one of these attempts succeeds and the
  -- row is inserted once, or all fail and the database is as it was.
  pub insert_with_retry_cases :
      (l : Limits)
      → Wrote 0 l.retries (insert_with_retry fm fails l db log)
        ⊎ Failed 0 l.retries (insert_with_retry fm fails l db log)
  unfolding insert_with_retry
  insert_with_retry_cases l = retry_cases 0 l.backoff l.retries

  -- The pauses between the attempts add up to less than the first one, doubled as often as there are
  -- attempts.
  pub sum-insert_with_retry :
      (l : Limits)
      → 0 < l.backoff
      → sum (insert_with_retry fm fails l db log).sleeps < l.backoff * 2 ^ l.retries
  unfolding insert_with_retry
  sum-insert_with_retry l pos = omega (arith, sum-retry 0 l.backoff l.retries)
