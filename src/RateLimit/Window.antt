-- ===== src/RateLimit/Window.antt =====
-- The window of rate_limiter.rs is the calls made within the window's duration.
use adk_gateway.Common.{
  ℕ, ◌-◌, ◌≤◌, String, List, [], ◌∷◌, ◌++◌, Bool, ltb, filter, All, ◌≡◌, refl, arith, Bool-cases,
  inl, inr,
}
use adk_gateway.RateLimit.{
  RateLimitConfig, RateLimiter, window_duration, pop_expired, record_invocation, in_window,
}

pub record Invocation : Type 0 where
  pub tool_name : String
  pub at : ℕ

unfoldable pub run : RateLimiter → List Invocation → RateLimiter
run limiter [] = limiter
run limiter (i ∷ is) = run (record_invocation limiter i.tool_name i.at).0 is

abbrev pub times : List Invocation → List ℕ
times [] = []
times (i ∷ is) = i.at ∷ times is

-- The clock does not run backwards: each time is at least the ones before it, and `last` bounds them.
abbrev pub Ascending : ℕ → List Invocation → ℕ → Type 0
Ascending first [] last = first ≤ last
Ascending first (i ∷ is) last = (first ≤ i.at) × Ascending i.at is last

abbrev pub Sorted : List ℕ → Type 0
Sorted [] = Unit
Sorted (x ∷ xs) = All (λ y. x ≤ y) xs × Sorted xs

filter_within :
    (duration now x : ℕ) (xs : List ℕ)
    → All (λ y. x ≤ y) xs
    → now - x ≤ duration
    → filter (in_window duration now) xs ≡ xs
filter_within duration now x [] a h = refl
filter_within duration now x (y ∷ ys) (le, a) h =
    ground (arith, filter_within duration now x ys a h)

-- On sorted times the loop keeps just the times that are in the window.
pub pop_expired-filter :
    (duration now : ℕ) (xs : List ℕ)
    → Sorted xs
    → pop_expired duration now xs ≡ filter (in_window duration now) xs
unfolding pop_expired
pop_expired-filter duration now [] s = refl
pop_expired-filter duration now (x ∷ xs) (a, s) = elim (Bool-cases (ltb duration (now - x))) [
  | inl e ↦ ground (arith, pop_expired-filter duration now xs s)
  | inr e ↦ ground (arith, filter_within duration now x xs a)
]

pub filter_later :
    (duration now later : ℕ) (xs : List ℕ)
    → now ≤ later
    → filter (in_window duration later) (filter (in_window duration now) xs)
      ≡ filter (in_window duration later) xs
filter_later duration now later [] le = refl
filter_later duration now later (x ∷ xs) le = ground (arith, filter_later duration now later xs le)

pub filter-All :
    (P : ℕ → Type 0) (keep : ℕ → Bool) (xs : List ℕ) → All P xs → All P (filter keep xs)
filter-All P keep [] a = tt
filter-All P keep (x ∷ xs) (p, a) = elim (Bool-cases (keep x)) [
  | inl e ↦ rw e (p, filter-All P keep xs a)
  | inr e ↦ rw e (filter-All P keep xs a)
]

pub filter-Sorted : (keep : ℕ → Bool) (xs : List ℕ) → Sorted xs → Sorted (filter keep xs)
filter-Sorted keep [] s = tt
filter-Sorted keep (x ∷ xs) (a, s) = elim (Bool-cases (keep x)) [
  | inl e ↦ rw e (filter-All (λ y. x ≤ y) keep xs a, filter-Sorted keep xs s)
  | inr e ↦ rw e (filter-Sorted keep xs s)
]

pub All-push : (P : ℕ → Type 0) (xs : List ℕ) (y : ℕ) → All P xs → P y → All P (xs ++ y ∷ [])
All-push P [] y a p = (p, tt)
All-push P (x ∷ xs) y (q, a) p = (q, All-push P xs y a p)

pub Sorted-push : (xs : List ℕ) (y : ℕ) → Sorted xs → All (λ x. x ≤ y) xs → Sorted (xs ++ y ∷ [])
Sorted-push [] y s a = (tt, tt)
Sorted-push (x ∷ xs) y (b, s) (le, a) = (All-push (λ z. x ≤ z) xs y b le, Sorted-push xs y s a)

pub All-later : (xs : List ℕ) (a b : ℕ) → All (λ x. x ≤ a) xs → a ≤ b → All (λ x. x ≤ b) xs
All-later [] a b h le = tt
All-later (x ∷ xs) a b (p, h) le = (omega (arith, p, le), All-later xs a b h le)

-- The limiter holds, of the calls `past`, those that can still matter at `last` or later.
pub record Tracks (config : RateLimitConfig) (limiter : RateLimiter) (past : List ℕ) (last : ℕ)
    : Type 0 where
  pub configured : limiter.config ≡ config
  pub sorted : Sorted limiter.window
  pub bounded : All (λ t. t ≤ last) limiter.window
  pub same :
      (now : ℕ)
      → last ≤ now
      → filter (in_window (window_duration config) now) limiter.window
        ≡ filter (in_window (window_duration config) now) past

-- The window after a call.
pub record_invocation_window :
    (config : RateLimitConfig) (limiter : RateLimiter) (past : List ℕ) (last now : ℕ)
    (tool : String)
    → Tracks config limiter past last
    → last ≤ now
    → (record_invocation limiter tool now).0.window
      ≡ filter (in_window (window_duration config) now) limiter.window ++ now ∷ []
unfolding record_invocation
record_invocation_window config limiter past last now tool t le =
    rw (t.configured, pop_expired-filter (window_duration config) now limiter.window t.sorted) refl
