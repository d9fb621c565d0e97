-- ===== src/RateLimit/Decisions.antt =====
-- The decisions of rate_limiter.rs, told by the times of the calls.
use adk_gateway.Common.{
  ℕ, suc, ◌+◌, ◌≤◌, String, List, [], ◌∷◌, ◌++◌, if◌then◌else◌, ltb, leb, length, filter,
  length-append, filter-append, ◌≡◌, refl, sym, ap, ◌∙◌, ◌*◌, arith, subst, append-nil,
  append_assoc,
}
use adk_gateway.RateLimit.{
  RateLimitConfig, RateLimitDecision, allow, pause, terminate, RateLimiter, new, window_duration,
  decide, record_invocation, in_window, window_count, as_u32, pop_expired,
}
use adk_gateway.RateLimit.Window.{
  Invocation, run, times, Ascending, Tracks, record_invocation_window, filter_later, filter-All,
  filter-Sorted, Sorted-push, All-push, All-later, pop_expired-filter,
}

record_invocation_config :
    (limiter : RateLimiter) (tool : String) (now : ℕ)
    → (record_invocation limiter tool now).0.config ≡ limiter.config
unfolding record_invocation
record_invocation_config limiter tool now = refl

record_invocation-Tracks :
    (config : RateLimitConfig) (limiter : RateLimiter) (past : List ℕ) (last now : ℕ)
    (tool : String)
    → Tracks config limiter past last
    → last ≤ now
    → Tracks config (record_invocation limiter tool now).0 (past ++ now ∷ []) now
record_invocation-Tracks config limiter past last now tool t le =
    let keep = in_window (window_duration config) now in
    let window = record_invocation_window config limiter past last now tool t le in
    let old =
      filter-All (λ x. x ≤ now) keep limiter.window
        (All-later limiter.window last now t.bounded le) in
    record {
      configured = record_invocation_config limiter tool now ∙ t.configured;
      sorted = rw window (
          Sorted-push (filter keep limiter.window) now (filter-Sorted keep limiter.window t.sorted)
            old);
      bounded =
          rw window (All-push (λ x. x ≤ now) (filter keep limiter.window) now old (omega arith));
      same = λ later h.
          let at_later = in_window (window_duration config) later in
          rw
            (
              window,
              filter-append at_later (filter keep limiter.window) (now ∷ []),
              filter-append at_later past (now ∷ []),
              filter_later (window_duration config) now later limiter.window h,
              t.same later (omega (arith, le, h)),
            )
            refl;
    }

-- The calls of the past that count at `now`, and the call at `now` itself.
abbrev pub calls_within : RateLimitConfig → List ℕ → ℕ → ℕ
calls_within config past now = suc (length (filter (in_window (window_duration config) now) past))

-- How many calls exceeded the limit when they were made.
abbrev pub over_limits : RateLimitConfig → List ℕ → List Invocation → ℕ
over_limits config past [] = 0
over_limits config past (i ∷ is) =
    let rest = over_limits config (past ++ i.at ∷ []) is in
    if ltb config.max_calls (as_u32 (calls_within config past i.at)) then suc rest else rest

-- The decision by the calls within the window and the earlier calls over the limit.
abbrev pub decision_for : RateLimitConfig → ℕ → String → ℕ → RateLimitDecision
decision_for config over tool count =
    if ltb config.max_calls count
    then if leb config.max_triggers (suc over)
      then terminate (suc over) tool count config.window_secs
      else pause (config.cooldown_secs * 1000)
    else allow

calls_within-window :
    (config : RateLimitConfig) (limiter : RateLimiter) (past : List ℕ) (last now : ℕ)
    → Tracks config limiter past last
    → last ≤ now
    → length (pop_expired (window_duration limiter.config) now limiter.window ++ now ∷ [])
      ≡ calls_within config past now
calls_within-window config limiter past last now t le =
    let keep = in_window (window_duration config) now in
    rw
      (
        t.configured,
        pop_expired-filter (window_duration config) now limiter.window t.sorted,
        length-append (filter keep limiter.window) (now ∷ []),
        t.same now le,
      )
      (omega arith)

record_invocation-decision :
    (config : RateLimitConfig) (limiter : RateLimiter) (past : List ℕ) (last now : ℕ)
    (tool : String)
    → Tracks config limiter past last
    → last ≤ now
    → ((record_invocation limiter tool now).1
        ≡ decision_for config limiter.trigger_count tool (as_u32 (calls_within config past now)))
      × ((record_invocation limiter tool now).0.trigger_count ≡ (
          if ltb config.max_calls (as_u32 (calls_within config past now))
          then suc limiter.trigger_count
          else limiter.trigger_count))
unfolding record_invocation decide
record_invocation-decision config limiter past last now tool t le =
    rw (calls_within-window config limiter past last now t le, t.configured)
      (ground arith, ground arith)

Tracks-later :
    (config : RateLimitConfig) (limiter : RateLimiter) (past : List ℕ) (last later : ℕ)
    → Tracks config limiter past last
    → last ≤ later
    → Tracks config limiter past later
Tracks-later config limiter past last later t le = record {
  configured = t.configured;
  sorted = t.sorted;
  bounded = All-later limiter.window last later t.bounded le;
  same = λ now h. t.same now (omega (arith, le, h));
}

run-Tracks :
    (config : RateLimitConfig) (limiter : RateLimiter) (past : List ℕ) (first last : ℕ)
    (is : List Invocation)
    → Tracks config limiter past first
    → Ascending first is last
    → Tracks config (run limiter is) (past ++ times is) last
      × ((run limiter is).trigger_count ≡ limiter.trigger_count + over_limits config past is)
unfolding run
run-Tracks config limiter past first last [] t a = (
  subst (λ l. Tracks config limiter l last) (sym (append-nil past))
      (Tracks-later config limiter past first last t a),
  omega arith,
)
run-Tracks config limiter past first last (i ∷ is) t (le, a) =
    let next = record_invocation-Tracks config limiter past first i.at i.tool_name t le in
    let counted = record_invocation-decision config limiter past first i.at i.tool_name t le in
    let rest =
      run-Tracks config (record_invocation limiter i.tool_name i.at).0 (past ++ i.at ∷ []) i.at last
        is next a in
    (
      subst (λ l. Tracks config (run (record_invocation limiter i.tool_name i.at).0 is) l last)
          (append_assoc past (i.at ∷ []) (times is)) rest.0,
      ground (arith, rest.1, counted.1),
    )

new-Tracks : (config : RateLimitConfig) → Tracks config (new config) [] 0
unfolding new
new-Tracks config = record { configured = refl; sorted = tt; bounded = tt; same = λ now h. refl }

-- While the clock does not run backwards, a call is decided by the calls of the request that were made
-- within the window, itself included: it is allowed exactly when they are at most the maximum, and
-- otherwise it is the next call over the limit, which pauses the request, or terminates it, without a
-- pause, once the calls over the limit reach their own maximum, in a row or not. The count is taken
-- modulo 2^32.
pub record_invocation-run :
    (config : RateLimitConfig) (is : List Invocation) (tool : String) (now : ℕ)
    → Ascending 0 is now
    → (record_invocation (run (new config) is) tool now).1
      ≡ decision_for config
          (over_limits config [] is)
          tool
          (as_u32 (calls_within config (times is) now))
unfolding new
record_invocation-run config is tool now a =
    let (tracks, over) = run-Tracks config (new config) [] 0 now is (new-Tracks config) a in
    let decided =
      record_invocation-decision config (run (new config) is) (times is) now now tool tracks
        (omega arith) in
    let earlier : (run (new config) is).trigger_count ≡ over_limits config [] is =
      omega (arith, over) in
    decided.0
    ∙ ap (λ k. decision_for config k tool (as_u32 (calls_within config (times is) now))) earlier

-- The count that the limiter reports is that of the calls made within the window, modulo 2^32.
pub window_count-run :
    (config : RateLimitConfig) (is : List Invocation) (now : ℕ)
    → Ascending 0 is now
    → window_count (run (new config) is) now
      ≡ as_u32 (length (filter (in_window (window_duration config) now) (times is)))
unfolding window_count
window_count-run config is now a =
    let tracks = (run-Tracks config (new config) [] 0 now is (new-Tracks config) a).0 in
    rw (tracks.configured, tracks.same now (omega arith)) refl
