-- ===== src/Core/JobQueue/Inbox.antt =====
-- Lists of jobs of which no two are for one file, and maps that lose an entry
-- (crates/wbf-core/src/download_queue.rs).
use wbf_matrix_client.Common.{
  ◌≡◌, ◌⊎◌, inl, inr, refl, sym, subst, ◌∙◌, arith, true, false, ◌||◌, none, List, [], ◌∷◌, ◌++◌,
  Bool-cases,
}
use wbf_matrix_client.Media.Block.{Text, text_eq}
use wbf_matrix_client.Media.Block.Checks.{text_eq_self, text_eq→eq}
use wbf_matrix_client.Core.JobQueue.{DownloadJob, get, without, is_queued, keep_others}
use wbf_matrix_client.Core.JobQueue.Entries.{
  get-without_same, get-without_other, is_queued-append, is_queued-keep_others,
}

-- No two jobs of the list are for one file.
abbrev pub Distinct : List DownloadJob → Type 0
Distinct [] = Unit
Distinct (job ∷ jobs) = (is_queued jobs job.mxc ≡ false) × Distinct jobs

pub Distinct-append :
    (jobs : List DownloadJob) (job : DownloadJob)
    → is_queued jobs job.mxc ≡ false
    → Distinct jobs
    → Distinct (jobs ++ (job ∷ []))
unfolding is_queued
Distinct-append [] job fresh h = (refl, tt)
Distinct-append (first ∷ jobs) job fresh (apart, h) = (
  is_queued-append jobs job first.mxc ∙ split (Bool-cases (text_eq job.mxc first.mxc)),
  Distinct-append jobs job (ground arith) h,
)
  where
    split :
        (text_eq job.mxc first.mxc ≡ true) ⊎ (text_eq job.mxc first.mxc ≡ false)
        → (text_eq job.mxc first.mxc || is_queued jobs first.mxc) ≡ false
    split (inr other) = ground (arith, apart)
    split (inl same) =
        let back : text_eq first.mxc job.mxc ≡ true =
          subst (λ k. text_eq k job.mxc ≡ true) (text_eq→eq job.mxc first.mxc same)
            (text_eq_self job.mxc) in
        absurd (ground arith)

pub Distinct-keep_others :
    (jobs : List DownloadJob) (k : Text) → Distinct jobs → Distinct (keep_others jobs k)
unfolding keep_others
Distinct-keep_others [] k h = tt
Distinct-keep_others (job ∷ jobs) k (apart, h) = elim (Bool-cases (text_eq job.mxc k)) [
  | inl gone ↦ rw gone (Distinct-keep_others jobs k h)
  | inr kept ↦
      rw kept
        (is_queued-keep_others jobs k job.mxc (turned kept) ∙ apart, Distinct-keep_others jobs k h)
]
  where
    turned : text_eq job.mxc k ≡ false → text_eq k job.mxc ≡ false
    turned kept = elim (Bool-cases (text_eq k job.mxc)) [
      | inr e ↦ e
      | inl e ↦
          let same : text_eq job.mxc k ≡ true =
            subst (λ t. text_eq job.mxc t ≡ true) (sym (text_eq→eq k job.mxc e))
              (text_eq_self job.mxc) in
          absurd cc
    ]

pub still_none :
    {A : Type 0} (entries : List (Text × A)) (k m : Text)
    → get entries m ≡ none
    → get (without entries k) m ≡ none
still_none entries k m e = elim (Bool-cases (text_eq k m)) [
  | inl at ↦
      subst (λ t. get (without entries k) t ≡ none) (text_eq→eq k m at) (get-without_same entries k)
  | inr apart ↦ get-without_other entries k m apart ∙ e
]
