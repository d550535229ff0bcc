-- ===== src/Bulkhead/Interleaving.antt =====
-- Bulkhead.kt, lines 224-321: the interleavings of calls, transaction by transaction.
use arrow_resilience_kit.Base.{ℕ, suc, ◌≡◌, true, false}
use arrow_resilience_kit.Bulkhead.{
  BulkheadConfig, Bulkhead, create, reset_statistics, can_accept, queue, reject, give_up, enter,
  succeed, fail, leave, exit,
}

-- The states of a bulkhead, with the number of permits of its semaphore, and of the calls that are
-- queued, hold a permit and have not entered, run their block, have ended it, have left and still
-- hold a permit, and were cancelled while queued. A permit is taken when there is one.
pub data Reach {E : Type 0} (c : BulkheadConfig)
    : ℕ → ℕ → ℕ → ℕ → ℕ → ℕ → ℕ → Bulkhead E → Type 0 where
  created : Reach c c.max_concurrent_calls 0 0 0 0 0 0 create
  resets :
      {p q h r e l x : ℕ} {s : Bulkhead E}
      → Reach c p q h r e l x s
      → Reach c p q h r e l x (reset_statistics s)
  queues :
      {p q h r e l x : ℕ} {s : Bulkhead E}
      → can_accept c s ≡ true
      → Reach c p q h r e l x s
      → Reach c p (suc q) h r e l x (queue c s).0
  rejects :
      {p q h r e l x : ℕ} {s : Bulkhead E}
      → can_accept c s ≡ false
      → Reach c p q h r e l x s
      → Reach c p q h r e l x (reject s)
  acquires :
      {p q h r e l x : ℕ} {s : Bulkhead E}
      → Reach c (suc p) (suc q) h r e l x s
      → Reach c p q (suc h) r e l x s
  gives_up :
      {p q h r e l x : ℕ} {s : Bulkhead E}
      → Reach c p (suc q) h r e l x s
      → Reach c p q h r e l x (give_up s)
  is_cancelled :
      {p q h r e l x : ℕ} {s : Bulkhead E}
      → Reach c p (suc q) h r e l x s
      → Reach c p q h r e l (suc x) s
  enters :
      {p q h r e l x : ℕ} {s : Bulkhead E}
      → Reach c p q (suc h) r e l x s
      → Reach c p q h (suc r) e l x (enter s)
  succeeds :
      {p q h r e l x : ℕ} {s : Bulkhead E}
      → Reach c p q h (suc r) e l x s
      → Reach c p q h r (suc e) l x (succeed s)
  fails :
      {p q h r e l x : ℕ} {s : Bulkhead E} (error : E)
      → Reach c p q h (suc r) e l x s
      → Reach c p q h r (suc e) l x (fail error s)
  leaves :
      {p q h r e l x : ℕ} {s : Bulkhead E}
      → Reach c p q h r (suc e) l x s
      → Reach c p q h r e (suc l) x (leave s)
  exits :
      {p q h r e l x : ℕ} {s : Bulkhead E}
      → Reach c p q h r e (suc l) x s
      → Reach c (suc p) q h r e l x (exit s)
