-- ===== src/Quota/Usage.antt =====
-- `record_usage` counts an event once.
use Prim.Native.String.{◌++◌}
use Prim.Native.Char.{code}
use text.Mathlib.TextLemmas.{head-eq_of_cons-eq, cons-append}
use aidata_pipeline.Prelude.{String, ◌≡◌, ◌≢◌, true, false, arith, ap, sym, ◌∙◌}
use aidata_pipeline.Prelude.Int.{ℤ, ◌+ℤ◌}
use aidata_pipeline.Prelude.Action.{Returned, ok, err}
use aidata_pipeline.External.Redis.{Redis, RedisLaws}
use aidata_pipeline.Quota.{quota_key, dedup_key, record_usage}

-- No event id makes a marker that is some tenant's counter.
pub dedup_key-ne-quota_key :
    (event_id tenant_id metric : String) → dedup_key event_id ≢ quota_key tenant_id metric
unfolding dedup_key quota_key
dedup_key-ne-quota_key event_id tenant_id metric e =
    let initials =
      sym (cons-append "d" "edup:" event_id)
      ∙ e
      ∙ cons-append "q" "uota:" (tenant_id ++ (":" ++ metric)) in
    absurd (omega (arith, ap code (head-eq_of_cons-eq initials)))

module _ (r : Redis) (laws : RedisLaws r) where
  -- A recorded event adds its amount to the counter and reports the new total; an event that was
  -- seen before changes nothing. Afterwards the event counts as seen.
  pub record_usage_counts :
      (tenant_id metric : String) (amount : ℤ) (event_id : String) (s : r.Store)
      → let k = quota_key tenant_id metric in
        let d = dedup_key event_id in
        Returned
          (λ result s'.
            (result.deduped ≡ r.has_key s d)
            × (r.has_key s d ≡ true → s' ≡ s)
            × (r.has_key s d ≡ false
                → (r.counter s' k ≡ r.counter s k +ℤ amount) × (result.new_total ≡ r.counter s' k))
            × (r.has_key s' d ≡ true))
          (record_usage r tenant_id metric amount event_id s)
  unfolding record_usage
  record_usage_counts tenant_id metric amount event_id s =
      let d = dedup_key event_id in
      let k = quota_key tenant_id metric in
      let looked = r.exists d s in
      let marked = r.setex d 86400 1 looked.1 in
      ground (
        arith,
        laws.exists_ok d s,
        laws.setex_ok d 86400 1 looked.1,
        laws.setex_other d k 86400 1 looked.1 (dedup_key-ne-quota_key event_id tenant_id metric),
        laws.incrby_ok k amount marked.1,
        laws.incrby_keeps_keys k d amount marked.1,
      )

  -- Recording an event again, once it has been recorded, is a no-op that says so.
  pub record_usage_twice :
      (tenant_id metric : String) (amount again : ℤ) (event_id : String) (s : r.Store)
      → Returned
          (λ _ s'.
            Returned
              (λ second s''. (second.deduped ≡ true) × (s'' ≡ s'))
              (record_usage r tenant_id metric again event_id s'))
          (record_usage r tenant_id metric amount event_id s)
  record_usage_twice tenant_id metric amount again event_id s =
      let s' = (record_usage r tenant_id metric amount event_id s).1 in
      ground (
        arith,
        record_usage_counts tenant_id metric amount event_id s,
        record_usage_counts tenant_id metric again event_id s',
      )

  -- If the increment raises after the marker was written, the usage is lost: the call raises, and
  -- every later attempt to record the event is taken for a duplicate and leaves the store alone.
  pub record_usage_lost :
      (tenant_id metric : String) (amount : ℤ) (event_id : String) (s : r.Store) {e : r.Exn}
      → let d = dedup_key event_id in
        let k = quota_key tenant_id metric in
        let looked = r.exists d s in
        let marked = r.setex d 86400 1 looked.1 in
        let added = r.incrby k amount marked.1 in
        looked.0 ≡ ok false
        → marked.0 ≡ ok tt
        → added ≡ (err e, marked.1)
        → (record_usage r tenant_id metric amount event_id s ≡ (err e, marked.1))
          × Returned
              (λ retried s'. (retried.deduped ≡ true) × (r.counter s' k ≡ r.counter s k))
              (record_usage r tenant_id metric amount event_id marked.1)
  unfolding record_usage
  record_usage_lost tenant_id metric amount event_id s first wrote raised =
      let d = dedup_key event_id in
      let k = quota_key tenant_id metric in
      let looked = r.exists d s in
      let marked = r.setex d 86400 1 looked.1 in
      ground (
        arith,
        laws.exists_ok d s,
        laws.setex_ok d 86400 1 looked.1,
        laws.setex_other d k 86400 1 looked.1 (dedup_key-ne-quota_key event_id tenant_id metric),
        laws.exists_ok d marked.1,
      )
