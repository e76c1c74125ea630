-- ===== src/Connector/Retry.antt =====
-- What the connectors' retry loop does, whatever Kafka answers.
use aidata_pipeline.Prelude.{
  ℕ, zero, suc, ◌+◌, ◌*◌, ◌≤◌, min, ◌≡◌, ◌⊎◌, Bool, true, false, List, [], ◌∷◌, arith,
}
use aidata_pipeline.Prelude.Action.{ok}
use aidata_pipeline.External.Calls.{Outside, Trace, Entry, call, note}
use aidata_pipeline.Connector.{
  Call, produce, sleep_ms, RawDocumentEvent, publish_attempts, publish_with_retry,
}

abbrev is_produced : Call → Bool → ℕ
is_produced (produce _) true = 1
is_produced _ _ = 0

abbrev is_try : Call → ℕ
is_try (produce _) = 1
is_try _ = 0

abbrev pause : Call → ℕ
pause (sleep_ms n) = n
pause _ = 0

-- Of a log: the produce calls that returned, all of them, and the milliseconds slept.
abbrev pub produced : List (Entry Call) → ℕ
produced [] = 0
produced (x ∷ es) = produced es + is_produced x.made x.returned

abbrev pub tries : List (Entry Call) → ℕ
tries [] = 0
tries (x ∷ es) = tries es + is_try x.made

abbrev pub slept_ms : List (Entry Call) → ℕ
slept_ms [] = 0
slept_ms (x ∷ es) = slept_ms es + pause x.made

-- The pauses between `n` attempts, of which the first is `d`.
abbrev pub all_pauses : ℕ → ℕ → ℕ
all_pauses zero d = 0
all_pauses (suc zero) d = 0
all_pauses (suc (suc n)) d = d + all_pauses (suc n) (min (d * 2) 30000)

module _ (o : Outside Call) where
  publish_attempts_lem :
      (n d : ℕ) (event : RawDocumentEvent) (s : Trace o)
      → let (r, s') = publish_attempts o n d event s in
        ((r ≡ ok true)
          × (produced s'.log ≡ produced s.log + 1)
          × (tries s'.log ≤ tries s.log + n)
          × (slept_ms s'.log ≤ slept_ms s.log + all_pauses n d))
        ⊎ ((r ≡ ok false)
            × (produced s'.log ≡ produced s.log)
            × (tries s'.log ≡ tries s.log + n)
            × (slept_ms s'.log ≡ slept_ms s.log + all_pauses n d))
  unfolding publish_attempts
  publish_attempts_lem zero d event s = ground arith
  publish_attempts_lem (suc zero) d event s = ground arith
  publish_attempts_lem (suc (suc n)) d event s = ground (
    arith,
    publish_attempts_lem (suc n) (min (d * 2) 30000) event
        (note o (sleep_ms d) (call o (produce event) s).1).1,
  )

  -- Sending an event never raises, and ends in one of two ways: one call of the producer returned, in
  -- at most five attempts and 1.5 seconds of pauses; or five calls raised, after all of these.
  pub publish_with_retry_lem :
      (event : RawDocumentEvent) (s : Trace o)
      → let (r, s') = publish_with_retry o event s in
        ((r ≡ ok true)
          × (produced s'.log ≡ produced s.log + 1)
          × (tries s'.log ≤ tries s.log + 5)
          × (slept_ms s'.log ≤ slept_ms s.log + 1500))
        ⊎ ((r ≡ ok false)
            × (produced s'.log ≡ produced s.log)
            × (tries s'.log ≡ tries s.log + 5)
            × (slept_ms s'.log ≡ slept_ms s.log + 1500))
  unfolding publish_with_retry
  publish_with_retry_lem event s = publish_attempts_lem 5 100 event s

  -- An event is sent once if the first call returns.
  pub publish_with_retry-accepted :
      (event : RawDocumentEvent) (s : Trace o)
      → (o.answer (produce event) s.world).0 ≡ ok tt
      → publish_with_retry o event s ≡ (ok true, (call o (produce event) s).1)
  unfolding publish_with_retry publish_attempts
  publish_with_retry-accepted event s h = ground arith
