-- ===== src/Client/Statistics.antt =====
-- src/ucp_client.c: the times and the size that report_statistics computes before it prints. Times are
-- not before the epoch, and the array of thread contexts is its first element and the list of others.
use ucp.Common.{ℕ, ◌+◌, ◌*◌, ◌≤◌, ◌<◌, arith, List, [], ◌∷◌, All, ltb, ◌==◌, if◌then◌else◌}

-- struct timeval
pub record TimeVal : Type 0 where
  pub tv_sec : ℕ
  pub tv_usec : ℕ

-- The fields of ucp_client_thread_context_t that the statistics use.
pub record ThreadContext : Type 0 where
  pub start_time : TimeVal
  pub end_time : TimeVal
  pub part_size : ℕ

-- The body of the loop for the smallest start time: what the start time becomes.
unfoldable pub smaller : TimeVal → TimeVal → TimeVal
smaller t start_time =
    if ltb t.tv_sec start_time.tv_sec
    then t
    else (if t.tv_sec == start_time.tv_sec
        then (if ltb t.tv_usec start_time.tv_usec then t else start_time)
        else start_time)

-- The loop for the smallest start time.
unfoldable pub smallest_start : TimeVal → List ThreadContext → TimeVal
smallest_start start_time [] = start_time
smallest_start start_time (ctx ∷ ctxs) = smallest_start (smaller ctx.start_time start_time) ctxs

-- The body of the loop for the largest end time: what the end time becomes.
unfoldable pub larger : TimeVal → TimeVal → TimeVal
larger t end_time =
    if ltb end_time.tv_sec t.tv_sec
    then t
    else (if t.tv_sec == end_time.tv_sec
        then (if ltb end_time.tv_usec t.tv_usec then t else end_time)
        else end_time)

-- The loop for the largest end time.
unfoldable pub largest_end : TimeVal → List ThreadContext → TimeVal
largest_end end_time [] = end_time
largest_end end_time (ctx ∷ ctxs) = largest_end (larger ctx.end_time end_time) ctxs

-- A time in microseconds, as get_total_time_taken computes it.
abbrev pub micro : TimeVal → ℕ
micro t = t.tv_sec * 1000000 + t.tv_usec

abbrev pub IsTime : TimeVal → Type 0
IsTime t = t.tv_usec < 1000000

abbrev pub HasTimes : ThreadContext → Type 0
HasTimes ctx = IsTime ctx.start_time × IsTime ctx.end_time

abbrev pub Within : (first last : TimeVal) → ThreadContext → Type 0
Within first last ctx = (micro first ≤ micro ctx.start_time) × (micro ctx.end_time ≤ micro last)

smaller_lem :
    (t u : TimeVal)
    → IsTime t
    → IsTime u
    → IsTime (smaller t u) × (micro (smaller t u) ≤ micro t) × (micro (smaller t u) ≤ micro u)
unfolding smaller
smaller_lem t u ht hu = (ground arith, ground arith, ground arith)

larger_lem :
    (t u : TimeVal)
    → IsTime t
    → IsTime u
    → IsTime (larger t u) × (micro t ≤ micro (larger t u)) × (micro u ≤ micro (larger t u))
unfolding larger
larger_lem t u ht hu = (ground arith, ground arith, ground arith)

span :
    (first last : TimeVal) (ctxs : List ThreadContext)
    → IsTime first
    → IsTime last
    → All HasTimes ctxs
    → (micro (smallest_start first ctxs) ≤ micro first)
      × (micro last ≤ micro (largest_end last ctxs))
      × All (Within (smallest_start first ctxs) (largest_end last ctxs)) ctxs
unfolding smallest_start largest_end
span first last [] hf hl times = (omega arith, omega arith, tt)
span first last (ctx ∷ ctxs) hf hl ((hs, he), times) =
    let (first_time, f, f') = smaller_lem ctx.start_time first hs hf in
    let (last_time, l, l') = larger_lem ctx.end_time last he hl in
    let (g, k, all) =
      span (smaller ctx.start_time first) (larger ctx.end_time last) ctxs first_time last_time
        times in
    (omega arith, omega arith, ((omega arith, omega arith), all))

-- On the contexts of all threads, with microseconds below a million, no thread's start is before the
-- smallest start time that report_statistics finds, and no thread's end after the largest end time.
pub statistics_span :
    (ctx : ThreadContext) (ctxs : List ThreadContext)
    → All HasTimes (ctx ∷ ctxs)
    → All (Within (smallest_start ctx.start_time ctxs) (largest_end ctx.end_time ctxs)) (ctx ∷ ctxs)
statistics_span ctx ctxs ((hs, he), times) =
    let (a, b, all) = span ctx.start_time ctx.end_time ctxs hs he times in ((a, b), all)
