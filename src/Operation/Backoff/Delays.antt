-- ===== src/Operation/Backoff/Delays.antt =====
-- operation.go: how long a pause between two attempts is.
use repost_go.Errors.{Error, DeliveryState, ClientOptionKey, CauseCategory}
use repost_go.Operation.Backoff.{
  Point, RetryConfig, Pause, Paused, waited, stopped, resumed, nil_dereference, backoff, from_clock,
  with_remaining, sampled, with_delay, slept, check, hook_error, or_resume, or_crash, or_then,
  RetryAfter, EntropyReport, SleepReport, cap_millis, delay_millis, entropy_ok, grow,
}
use repost_go.Operation.{Call}
use repost_go.Prelude.Int.{ℤ, pos, negsuc, pos_part, wrap64, ◌-ℤ◌, ◌≤ℤ◌, leb_ℤ}
use repost_go.Prelude.{
  ℕ, zero, suc, ◌+◌, ◌-◌, ◌*◌, ◌/◌, ◌^◌, ◌≡◌, refl, ◌∙◌, ap, Bool, true, false, not, ◌||◌, ◌==◌,
  Option, none, some, arith, ◌≤◌, inl, inr, Bool-cases, min, max, if◌then◌else◌, sym,
}
use repost_go.Response.RetryAfter.{retry_after_cap_millis}
use repost_go.Response.{AttemptResponse}

pow-pos : (n : ℕ) → 1 ≤ 2 ^ n
pow-pos zero = ground arith
pow-pos (suc n) = ground (arith, pow-pos n)

le-times : (a b : ℕ) → 1 ≤ b → a ≤ a * b
le-times a b h = grind arith

twice : (a b : ℕ) → a * (2 * b) ≡ a * 2 * b
twice a b = omega arith

-- The doubling with its early stop at the maximum computes the power of two, under the maximum.
pub grow-power : (n cap maximum : ℕ) → min (grow n cap maximum) maximum ≡ min (cap * 2 ^ n) maximum
unfolding grow
grow-power zero cap maximum = ground arith
grow-power (suc n) cap maximum = ground (
  arith,
  grow-power n (cap * 2) maximum,
  le-times (cap * 2) (2 ^ n) (pow-pos n),
  twice cap (2 ^ n),
)

waited-inj : {m n : ℕ} → waited m ≡ waited n → m ≡ n
waited-inj e = cc

module _ (config : RetryConfig) (call : Call) (pause : Pause) (last : Error) (attempt : ℕ)
    (committed : Bool) where
  -- A pause that is waited is at most `top` milliseconds.
  WaitsAtMost : ℕ → Paused → Type 0
  WaitsAtMost top (waited m) = m ≤ top
  WaitsAtMost top _ = Unit

  or_then-WaitsAtMost :
      (top : ℕ) (o : Option Error) (k : Paused)
      → WaitsAtMost top k
      → WaitsAtMost top (or_then o last k)
  or_then-WaitsAtMost top none k h = h
  or_then-WaitsAtMost top (some e) k h = unfold WaitsAtMost in tt

  or_resume-WaitsAtMost : (top : ℕ) (o : Option Error) → WaitsAtMost top (or_resume o)
  unfolding WaitsAtMost
  or_resume-WaitsAtMost top none = tt
  or_resume-WaitsAtMost top (some e) = tt

  or_crash-WaitsAtMost : (top : ℕ) (o : Option Error) → WaitsAtMost top (or_crash o last)
  unfolding WaitsAtMost
  or_crash-WaitsAtMost top none = tt
  or_crash-WaitsAtMost top (some e) = tt

  waited-WaitsAtMost : (top m : ℕ) → m ≤ top → WaitsAtMost top (waited m)
  unfolding WaitsAtMost
  waited-WaitsAtMost top m h = h

  stopped-WaitsAtMost : (top : ℕ) (e : Error) → WaitsAtMost top (stopped e)
  unfolding WaitsAtMost
  stopped-WaitsAtMost top e = tt

  if-WaitsAtMost :
      (top : ℕ) (b : Bool) (k l : Paused)
      → WaitsAtMost top k
      → WaitsAtMost top l
      → WaitsAtMost top (if b then k else l)
  if-WaitsAtMost top true k l h i = h
  if-WaitsAtMost top false k l h i = i

  hook_error-WaitsAtMost :
      (top : ℕ) (d : DeliveryState) (o : ClientOptionKey) (c : CauseCategory)
      → WaitsAtMost top (hook_error config call pause last attempt d o c)
  unfolding WaitsAtMost hook_error
  hook_error-WaitsAtMost top d o c = tt

  slept-WaitsAtMost :
      (top m : ℕ) (r : SleepReport)
      → m ≤ top
      → WaitsAtMost top (slept config call pause last attempt committed m r)
  unfolding slept
  slept-WaitsAtMost top m r h =
      if-WaitsAtMost top (not r.completed) _ _ (or_crash-WaitsAtMost top _) (
        or_then-WaitsAtMost top (check config call pause last attempt Point.after_sleep committed) _
          (if-WaitsAtMost top (r.failed || not r.returned) _ _
            (or_then-WaitsAtMost top
              (check config call pause last attempt Point.after_scheduler committed) _
              (hook_error-WaitsAtMost top _ _ _))
            (waited-WaitsAtMost top m h)))

  -- The longest pause of this attempt: the doubled base delay under its maximum, or a Retry-After
  -- under its cap.
  abbrev pub longest : ℕ
  longest =
      max (min (config.retry_base_delay * 2 ^ (attempt - 1)) config.retry_max_delay)
        retry_after_cap_millis

  delay_millis-le :
      (jitter remaining : ℕ) (r : RetryAfter)
      → jitter
        ≤ min (min (config.retry_base_delay * 2 ^ (attempt - 1)) config.retry_max_delay) remaining
      → delay_millis jitter remaining r ≤ min longest remaining
  unfolding delay_millis
  delay_millis-le jitter remaining (RetryAfter.after ns) h = ground arith
  delay_millis-le jitter remaining RetryAfter.no_delay h = ground arith
  delay_millis-le jitter remaining RetryAfter.wall_clock_failed h = ground arith

  with_delay-WaitsAtMost :
      (remaining jitter : ℕ) (r : RetryAfter)
      → jitter
        ≤ min (min (config.retry_base_delay * 2 ^ (attempt - 1)) config.retry_max_delay) remaining
      → WaitsAtMost
          (min longest remaining)
          (with_delay config call pause last attempt committed remaining jitter r)
  unfolding with_delay
  with_delay-WaitsAtMost remaining jitter RetryAfter.wall_clock_failed h =
      hook_error-WaitsAtMost _ _ _ _
  with_delay-WaitsAtMost remaining jitter RetryAfter.no_delay h =
      slept-WaitsAtMost _ _ _ (delay_millis-le jitter remaining RetryAfter.no_delay h)
  with_delay-WaitsAtMost remaining jitter (RetryAfter.after ns) h =
      slept-WaitsAtMost _ _ _ (delay_millis-le jitter remaining (RetryAfter.after ns) h)

  entropy-le :
      (remaining : ℕ) (e : EntropyReport)
      → entropy_ok e (cap_millis config attempt remaining + 1) ≡ true
      → pos_part e.value
        ≤ min (min (config.retry_base_delay * 2 ^ (attempt - 1)) config.retry_max_delay) remaining
  unfolding cap_millis
  entropy-le remaining e h =
      ground (arith, grow-power (attempt - 1) config.retry_base_delay config.retry_max_delay)

  sampled-WaitsAtMost :
      (response : Option AttemptResponse) (remaining : ℕ) (e : EntropyReport)
      → WaitsAtMost (min longest remaining) (
          sampled config call pause last attempt committed response remaining
            (cap_millis config attempt remaining + 1)
            e)
  unfolding sampled
  sampled-WaitsAtMost response remaining e =
      elim (Bool-cases (entropy_ok e (cap_millis config attempt remaining + 1))) [
        | inl q ↦ if-WaitsAtMost _ (not e.completed) _ _ (or_resume-WaitsAtMost _ _) (
            if-WaitsAtMost _ (not (entropy_ok e (cap_millis config attempt remaining + 1))) _ _
              (hook_error-WaitsAtMost _ _ _ _)
              (with_delay-WaitsAtMost remaining (pos_part e.value) _ (entropy-le remaining e q)))
        | inr q ↦
            if-WaitsAtMost _ (not e.completed) _ _ (or_resume-WaitsAtMost _ _)
              (rw q (hook_error-WaitsAtMost _ _ _ _))
      ]

  with_remaining-WaitsAtMost :
      (response : Option AttemptResponse) (remaining : ℤ)
      → WaitsAtMost
          (min longest (pos_part remaining / 1_000_000))
          (with_remaining config call pause last attempt committed response remaining)
  unfolding with_remaining
  with_remaining-WaitsAtMost response remaining =
      if-WaitsAtMost _ (leb_ℤ remaining (pos 0) || pos_part remaining / 1_000_000 == 0) _ _
        (stopped-WaitsAtMost _ _) (sampled-WaitsAtMost response (pos_part remaining / 1_000_000) _)

  waited-le : (top m : ℕ) (k : Paused) → WaitsAtMost top k → k ≡ waited m → m ≤ top
  unfolding WaitsAtMost
  waited-le top m (waited n) h e = omega (arith, waited-inj e)
  waited-le top m (stopped f) h e = absurd (cc)
  waited-le top m resumed h e = absurd (cc)
  waited-le top m nil_dereference h e = absurd (cc)

  late :
      (response : Option AttemptResponse) (n m : ℕ)
      → ¬ with_remaining config call pause last attempt committed response (negsuc n) ≡ waited m
  unfolding with_remaining
  late response n m e = ground (arith, e)

  in-time :
      (response : Option AttemptResponse) (remaining : ℤ) (m : ℕ)
      → with_remaining config call pause last attempt committed response remaining ≡ waited m
      → (m ≤ longest) × (pos (m * 1_000_000) ≤ℤ remaining)
  in-time response (pos n) m e =
      ground (arith, waited-le _ m _ (with_remaining-WaitsAtMost response (pos n)) e)
  in-time response (negsuc n) m e = absurd (late response n m e)

  from_some :
      (response : Option AttemptResponse) (now : ℤ)
      → with_remaining config call pause last attempt committed response
          (wrap64 (call.exclusive_deadline -ℤ now))
        ≡ from_clock config call pause last attempt committed response (some now)
  unfolding from_clock
  from_some response now = refl

  -- A pause between two attempts that is waited is at most the longer of the doubled base delay,
  -- under the configured maximum, and the cap of a Retry-After; and it ends by the deadline of the
  -- operation, by the clock that was read before it.
  pub backoff_is_in_time :
      (response : Option AttemptResponse) (now : ℤ) (m : ℕ)
      → (pause.look Point.backoff_clock).clock ≡ some now
      → backoff config call pause last attempt committed response ≡ waited m
      → (m ≤ longest) × (pos (m * 1_000_000) ≤ℤ wrap64 (call.exclusive_deadline -ℤ now))
  unfolding backoff
  backoff_is_in_time response now m c e = in-time response _ m (
      from_some response now
      ∙ sym (ap (from_clock config call pause last attempt committed response) c)
      ∙ e)
