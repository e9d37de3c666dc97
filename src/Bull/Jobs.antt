-- ===== src/Bull/Jobs.antt =====
-- What a BullMqUtil does to the jobs of its queue.
use nestjs_stay_api.Common.{
  ◌≡◌, refl, sym, ap, ◌∙◌, ◌⊎◌, inl, inr, true, false, none, String, ◌==◌, arith, is_some,
  Option-cases,
}
use nestjs_stay_api.Bull.{
  Job, Answer, answered, failed, Queue, World, returned, thrown, call_failed, await_call, get_job,
  remove_job,
}

module _ {D O : Type 0} (queue : Queue D O) (w : World queue.Store) where
  open queue use {
    Store, jobs, add, find, remove, find_lem, id-jobs, is_below, jobs-remove, jobs-remove_other,
  }

  store-await_call : {A : Type 0} (a : Store × Answer A) → (await_call w a).0.store ≡ a.0
  unfolding await_call
  store-await_call (s, answered a) = refl
  store-await_call (s, failed) = refl

  answered-await_call :
      {A : Type 0} (a : Store × Answer A) (x : A)
      → (await_call w a).1 ≡ returned x
      → a.1 ≡ answered x
  unfolding await_call
  answered-await_call (s, answered a) x h = ground arith
  answered-await_call (s, failed) x h = absurd (ground arith)

  remove_job_finds :
      (i : String)
      → is_some w.util.queue ≡ true
      → (remove_job queue i w ≡ (w, thrown call_failed))
        ⊎ ((jobs w.store i ≡ none) × (remove_job queue i w ≡ (w, returned tt)))
        ⊎ ((job : Job D) × (job.id ≡ i)
            × (remove_job queue i w ≡ await_call w (remove job w.store)))
  unfolding remove_job get_job
  remove_job_finds i q = elim (Option-cases w.util.queue) [
    | inl e ↦ absurd (ground (arith, q, e))
    | inr (u, e) ↦ elim (find_lem i w.store) [
      | inr f ↦ inl (simp (remove_job, get_job, e, f))
      | inl f ↦ elim (Option-cases (jobs w.store i)) [
        | inl g ↦ inr (inl (g, simp (remove_job, get_job, e, f, g)))
        | inr (job, g) ↦
            inr (inr (job, id-jobs i w.store job g, simp (remove_job, get_job, e, f, g)))
      ]
    ]
  ]

  -- With a queue: once `removeJob` has returned, no job with the id is there; whatever it does, every
  -- job with another id that is not below that one in a flow has the name and data that it had.
  pub jobs-remove_job :
      (i : String)
      → is_some w.util.queue ≡ true
      → ((remove_job queue i w).1 ≡ returned tt → jobs (remove_job queue i w).0.store i ≡ none)
        × ((k : String)
            → (i == k) ≡ false
            → is_below w.store i k ≡ false
            → jobs (remove_job queue i w).0.store k ≡ jobs w.store k)
  jobs-remove_job i q = elim (remove_job_finds i q) [
    | inl e ↦ (λ h. absurd (ground (arith, e, h)), λ k o apart. ap (λ p. jobs p.0.store k) e)
    | inr (inl (g, e)) ↦
        (λ h. ap (λ p. jobs p.0.store i) e ∙ g, λ k o apart. ap (λ p. jobs p.0.store k) e)
    | inr (inr (job, same, e)) ↦
        let left = ap (λ p. p.0.store) e ∙ store-await_call (remove job w.store) in
        (
          λ h.
              let done = answered-await_call (remove job w.store) tt (ap (λ p. p.1) (sym e) ∙ h) in
              ap (λ s. jobs s i) left
              ∙ ap (jobs (remove job w.store).0) (sym same)
              ∙ jobs-remove job w.store done,
          λ k o apart.
              ap (λ s. jobs s k) left
              ∙ jobs-remove_other job w.store k (ap (λ x. x == k) same ∙ o)
                  (ap (λ x. is_below w.store x k) same ∙ apart),
        )
  ]
