-- ===== src/FlowStats/Analysis.antt =====
-- The loop of analyzeExecution over the jobs.
use mathlib.Core.List.{append_assoc, append-nil}
use azkaban_private.Prelude.{
  ℕ, suc, ◌+◌, ◌==◌, ◌≡◌, ◌≤◌, ◌↔◌, refl, sym, ◌∙◌, ap, subst, if◌then◌else◌, Bool, false, true,
  Option, none, some, List, [], ◌∷◌, ◌++◌, String, arith, All, Bool-cases, inl, inr, ◌>>=◌, map,
}
use azkaban_private.Prelude.Int.{ℤ, ◌-ℤ◌}
use azkaban_private.FlowStats.{
  Field, Engine, JobStat, Job, Data, warn, count, analyze_jobs, empty_data, empty_stats,
  analyze_execution,
}
use azkaban_private.FlowStats.Greatest.{
  Observation, observe_all, observe_all-append, IsGreatest, observe_all-IsGreatest,
}
use azkaban_private.FlowStats.Update.{seen_all, update_all-maxima, HasOptions}

module _ (engine : Engine) where
  -- The server answers, and each configuration of its answer has options for Java.
  abbrev pub AllHave : Option (List JobStat) → Type 0
  AllHave none = Unit
  AllHave (some stats) = All (λ stat. HasOptions engine stat.conf) stats

  abbrev pub Answers : (String → Option (Option (List JobStat))) → Job → Type 0
  Answers fetch job =
      (answer : Option (List JobStat)) × (fetch job.id ≡ some answer) × AllHave answer

  abbrev seen_answer : Option (Option (List JobStat)) → String → List Observation
  seen_answer (some (some stats)) job = seen_all engine stats job
  seen_answer (some none) job = []
  seen_answer none job = []

  abbrev pub seen_jobs : (String → Option (Option (List JobStat))) → List Job → List Observation
  seen_jobs fetch [] = []
  seen_jobs fetch (job ∷ jobs) = seen_answer (fetch job.id) job.id ++ seen_jobs fetch jobs

  abbrev analyzed : Option (Option (List JobStat)) → ℕ
  analyzed (some (some stats)) = 1
  analyzed (some none) = 0
  analyzed none = 0

  -- The jobs with statistics.
  abbrev pub analyzed_jobs : (String → Option (Option (List JobStat))) → List Job → ℕ
  analyzed_jobs fetch [] = 0
  analyzed_jobs fetch (job ∷ jobs) = analyzed (fetch job.id) + analyzed_jobs fetch jobs

  abbrev pub duration_of : Job → String × ℤ
  duration_of job = (job.id, job.end_time -ℤ job.start_time)

  abbrev timed : Job → Data → Data
  timed job d = record d { durations = d.durations ++ duration_of job ∷ [] }

  Analyzes : (String → Option (Option (List JobStat))) → List Job → Data → Type 0
  Analyzes fetch jobs d =
      (d' : Data) × (analyze_jobs engine fetch jobs d ≡ some d')
      × (d'.stats.maxima ≡ observe_all (seen_jobs fetch jobs) d.stats.maxima)
      × (d'.durations ≡ d.durations ++ map duration_of jobs)
      × (d'.jobs_analyzed ≡ d.jobs_analyzed + analyzed_jobs fetch jobs)
      × (d'.success ≡ d.success)

  add_none : (n m : ℕ) → n + m ≡ n + (0 + m)
  add_none n m = ground arith

  add_one : (n k m : ℕ) → k ≡ n → suc k + m ≡ n + (1 + m)
  add_one n k m e = ground arith

  analyze_jobs_lem :
      (fetch : String → Option (Option (List JobStat))) (jobs : List Job) (d : Data)
      → All (Answers fetch) jobs
      → Analyzes fetch jobs d
  unfolding Analyzes analyze_jobs
  analyze_jobs_lem fetch [] d has =
      (d, refl, refl, sym (append-nil d.durations), ground arith, refl)
  analyze_jobs_lem fetch (job ∷ jobs) d ((none, e, has), rest) =
      let d' = timed job d in
      let (last, e', greatest, durations, count, same) =
        analyze_jobs_lem fetch jobs (warn engine "No job stats available for job " job.id d')
          rest in
      rw (e, analyze_jobs)
        (
          last,
          e',
          greatest,
          durations ∙ append_assoc d.durations (duration_of job ∷ []) (map duration_of jobs),
          count ∙ add_none d.jobs_analyzed (analyzed_jobs fetch jobs),
          same,
        )
  analyze_jobs_lem fetch (job ∷ jobs) d ((some stats, e, has), rest) =
      let d' = timed job d in
      let (t, updated, seen', (counts, times, unchanged)) =
        update_all-maxima engine stats job.id d' has in
      let (last, e', greatest, durations, count, same) =
        analyze_jobs_lem fetch jobs (record t { jobs_analyzed = suc t.jobs_analyzed }) rest in
      rw (e, analyze_jobs)
        (
          last,
          ap
                (λ o. o >>= λ x.
                  analyze_jobs engine fetch jobs (record x { jobs_analyzed = suc x.jobs_analyzed }))
                updated
              ∙ e',
          greatest
              ∙ ap (observe_all (seen_jobs fetch jobs)) seen'
              ∙ sym (
                  observe_all-append (seen_all engine stats job.id) (seen_jobs fetch jobs)
                    d.stats.maxima),
          durations
              ∙ ap (λ l. l ++ map duration_of jobs) times
              ∙ append_assoc d.durations (duration_of job ∷ []) (map duration_of jobs),
          count ∙ add_one d.jobs_analyzed t.jobs_analyzed (analyzed_jobs fetch jobs) counts,
          same ∙ unchanged,
        )

  -- What is asked of the analysis: the greatest value of each field, how long each job took, and
  -- success if there was a job with statistics.
  pub record IsAnalysis (fetch : String → Option (Option (List JobStat))) (jobs : List Job)
      (d : Data) : Type 0 where
    pub greatest :
        (f : Field)
        → IsGreatest f (seen_jobs fetch jobs) ((empty_stats engine).maxima f) (d.stats.maxima f)
    pub durations : d.durations ≡ map duration_of jobs
    pub analyzed : d.jobs_analyzed ≡ analyzed_jobs fetch jobs
    pub success : (d.success ≡ true) ↔ (1 ≤ analyzed_jobs fetch jobs)

  -- If the server answers for each job, and each configuration has options for Java, then
  -- analyzeExecution returns; each field holds the greatest of the values of the jobs' statistics
  -- for it that are numbers and not negative, with the job and the text it came from; the durations
  -- are those of the jobs, and it is a success exactly if some job has statistics.
  pub analyze_execution_lem :
      (fetch : String → Option (Option (List JobStat))) (jobs : List Job)
      → All (Answers fetch) jobs
      → (d : Data) × (analyze_execution engine fetch jobs ≡ some d) × IsAnalysis fetch jobs d
  unfolding analyze_execution Analyzes
  analyze_execution_lem fetch jobs has =
      let (d, e, greatest, durations, count, same) =
        analyze_jobs_lem fetch jobs (empty_data engine) has in
      let n = analyzed_jobs fetch jobs in
      let each : (f : Field)
          → IsGreatest f (seen_jobs fetch jobs) ((empty_stats engine).maxima f) (d.stats.maxima f) =
        λ f.
          subst (λ m. IsGreatest f (seen_jobs fetch jobs) ((empty_stats engine).maxima f) (m f))
            (sym greatest)
            (observe_all-IsGreatest f (seen_jobs fetch jobs) (empty_stats engine).maxima refl) in
      elim (Bool-cases (d.jobs_analyzed == 0)) [
        | inl none_seen ↦ (
          record d { message = some "There were no job stats provided by any job." },
          ap (λ o. o >>= close) e ∙ rw none_seen refl,
          record {
            greatest = each;
            durations = durations;
            analyzed = count ∙ nothing_before (analyzed_jobs fetch jobs);
            success = (λ t. absurd (false_or_true d.success (same) t), λ m. absurd (ground arith));
          },
        )
        | inr some_seen ↦ (
          record d { success = true },
          ap (λ o. o >>= close) e ∙ rw some_seen refl,
          record {
            greatest = each;
            durations = durations;
            analyzed = count ∙ nothing_before (analyzed_jobs fetch jobs);
            success = (λ t. ground arith, λ m. refl);
          },
        )
      ]
    where
      false_or_true : (b : Bool) → b ≡ false → b ≡ true → ⊥
      false_or_true b e e' = cc

      nothing_before : (n : ℕ) → 0 + n ≡ n
      nothing_before n = ground arith

      close : Data → Option Data
      close d = some (
          if d.jobs_analyzed == 0
          then record d { message = some "There were no job stats provided by any job." }
          else record d { success = true })
