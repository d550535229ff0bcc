-- ===== src/Stm/Permits.antt =====
-- stm/StmHelpers.kt, lines 238-285: who holds a permit of a semaphore.
use arrow_resilience_kit.Base.{
  ℕ, suc, ◌+◌, ◌-◌, ◌<◌, ◌≤◌, ◌≡◌, refl, ◌∙◌, Bool, true, false, arith, ltb, if◌then◌else◌, int_inc,
  int_dec, int_half, int_lt-ltb,
}
use arrow_resilience_kit.Stm.{StmSemaphore, create_semaphore, acquire, release}

-- The semaphore with `n` permits after transactions of any clients, of which `held` have a permit:
-- a client releases once for each permit that it got.
pub data Reach (n : ℕ) : ℕ → StmSemaphore → Type 0 where
  created : Reach n 0 (create_semaphore n)
  acquires :
      {held : ℕ} {s : StmSemaphore}
      → (acquire s).1 ≡ true
      → Reach n held s
      → Reach n (suc held) (acquire s).0
  is_refused :
      {held : ℕ} {s : StmSemaphore}
      → (acquire s).1 ≡ false
      → Reach n held s
      → Reach n held (acquire s).0
  releases : {held : ℕ} {s : StmSemaphore} → Reach n (suc held) s → Reach n held (release s)

record Counted (n held : ℕ) (s : StmSemaphore) : Type 0 where
  same_max : s.max_permits ≡ n
  counted : s.permits + held ≡ n

acquire-ltb : (s : StmSemaphore) → s.permits < int_half → (acquire s).1 ≡ ltb 0 s.permits
unfolding acquire
acquire-ltb s h = ground (arith, int_lt-ltb 0 s.permits)

-- What is left after a transaction, in numbers that do not wrap.
acquire-permits :
    (s : StmSemaphore)
    → s.permits < int_half
    → (acquire s).0.permits ≡ (if ltb 0 s.permits then s.permits - 1 else s.permits)
unfolding acquire int_dec
acquire-permits s h = ground (arith, int_lt-ltb 0 s.permits)

release-permits :
    (s : StmSemaphore)
    → s.permits < int_half
    → s.max_permits < int_half
    → (release s).permits ≡ (if ltb s.permits s.max_permits then s.permits + 1 else s.permits)
unfolding release int_inc
release-permits s h k = ground (arith, int_lt-ltb s.permits s.max_permits)

acquire-max : (s : StmSemaphore) → (acquire s).0.max_permits ≡ s.max_permits
unfolding acquire
acquire-max s = ground arith

release-max : (s : StmSemaphore) → (release s).max_permits ≡ s.max_permits
unfolding release
release-max s = ground arith

acquire-Counted :
    {n held : ℕ} (s : StmSemaphore) (got : Bool)
    → n < int_half
    → (acquire s).1 ≡ got
    → Counted n held s
    → Counted n (if got then suc held else held) (acquire s).0
acquire-Counted s got small e h = record {
  same_max = acquire-max s ∙ h.same_max;
  counted = ground (
    arith,
    small,
    h.counted,
    e,
    acquire-ltb s (omega (arith, small, h.counted)),
    acquire-permits s (omega (arith, small, h.counted)),
  );
}

release-Counted :
    {n held : ℕ} (s : StmSemaphore)
    → n < int_half
    → Counted n (suc held) s
    → Counted n held (release s)
release-Counted s small h = record {
  same_max = release-max s ∙ h.same_max;
  counted = ground (
    arith,
    small,
    h.counted,
    h.same_max,
    release-permits s (omega (arith, small, h.counted)) (omega (arith, small, h.same_max)),
  );
}

Reach-Counted : {n held : ℕ} {s : StmSemaphore} → n < int_half → Reach n held s → Counted n held s
unfolding create_semaphore
Reach-Counted small created = record { same_max = refl; counted = omega arith }
Reach-Counted small (acquires {s = s} got r) =
    acquire-Counted s true small got (Reach-Counted small r)
Reach-Counted small (is_refused {s = s} got r) =
    acquire-Counted s false small got (Reach-Counted small r)
Reach-Counted small (releases {s = s} r) = release-Counted s small (Reach-Counted small r)

-- However the transactions of the clients of a semaphore interleave, if each releases once for
-- every permit that it got, then at most `n` permits are held, the others are available, and a
-- client gets a permit exactly when fewer than `n` are held.
pub Reach-Held :
    (n held : ℕ) (s : StmSemaphore)
    → n < int_half
    → Reach n held s
    → (held ≤ n) × (s.permits ≡ n - held) × ((acquire s).1 ≡ ltb held n)
Reach-Held n held s small r =
    let h = Reach-Counted small r in
    (
      omega (arith, h.counted),
      omega (arith, h.counted),
      ground (arith, h.counted, acquire-ltb s (omega (arith, small, h.counted))),
    )
