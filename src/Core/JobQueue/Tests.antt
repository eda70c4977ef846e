-- ===== src/Core/JobQueue/Tests.antt =====
-- A handler with one file whose job ended while it was prepared, and the theorems of these modules
-- at it.
use wbf_matrix_client.Common.{◌≡◌, ◌⊎◌, refl, true, List, false, none, some, [], ◌∷◌, ◌++◌}
use wbf_matrix_client.Media.Block.{Text, text_eq}
use wbf_matrix_client.Core.Errors.{CoreErrorKind}
use wbf_matrix_client.Core.JobQueue.{
  DownloadJob, went_wrong, Preparing, QueueState, no_jobs, get, or_default, is_queued, status_in,
  status_of, is_preparing, without, put, extend, asked, tell, forget, enqueue_with, enqueue_into,
  mark_preparing, take_first, carry_over, take_job, start_job, end_job, end_preparing,
}
use wbf_matrix_client.Core.JobQueue.Steps.{
  is_among, note_left, Reach, begins, enqueues, takes, starts, ends, settles,
}
use wbf_matrix_client.Core.JobQueue.Attended.{Reach-attended}
use wbf_matrix_client.Core.JobQueue.Single.{IsSingle, Reach-IsSingle}
use wbf_matrix_client.Core.JobQueue.Races.{end_preparing-enqueue_into}

abbrev alice : Text
alice = 65 ∷ []

abbrev file_job : DownloadJob
file_job = record { mxc = 1 ∷ 2 ∷ []; name = none }

abbrev in_preparation : Preparing
in_preparation = record { name = none; is_cancelled = false }

-- Waiter 7 asks for the file, and its job is taken out of the inbox.
abbrev taken : QueueState
taken = (take_job (enqueue_into alice no_jobs file_job (7 ∷ []) (alice ∷ [])).1).1

taken-Reach : Reach alice [] taken
taken-Reach = takes (enqueues file_job (7 ∷ []) (alice ∷ []) begins)

-- The job fails.
abbrev failed_job : QueueState
failed_job = end_job alice taken file_job.mxc (went_wrong CoreErrorKind.network)

failed_job-Reach : Reach alice [] failed_job
failed_job-Reach = ends file_job.mxc (went_wrong CoreErrorKind.network) taken-Reach

failed_job_waiters : get failed_job.waiters file_job.mxc ≡ none
unfolding no_jobs enqueue_into enqueue_with asked extend put take_job take_first mark_preparing
    end_job tell forget get without or_default is_queued is_preparing status_in status_of text_eq
failed_job_waiters = refl

failed_job_prepared : get failed_job.preparing file_job.mxc ≡ some in_preparation
unfolding no_jobs enqueue_into enqueue_with asked extend put take_job take_first mark_preparing
    end_job tell forget get without or_default is_queued is_preparing status_in status_of text_eq
failed_job_prepared = refl

failed_job_downloads : get failed_job.downloads file_job.mxc ≡ none
unfolding no_jobs enqueue_into enqueue_with asked extend put take_job take_first mark_preparing
    end_job tell forget get without or_default is_queued is_preparing status_in status_of text_eq
failed_job_downloads = refl

-- What is noted when the preparation ends.
abbrev left_then : List Text
left_then =
    note_left (get failed_job.downloads file_job.mxc) (get failed_job.waiters file_job.mxc)
      file_job.mxc []

all_ended-Reach : Reach alice left_then (end_preparing failed_job file_job.mxc)
all_ended-Reach = settles file_job.mxc failed_job-Reach

nothing_left : left_then ≡ []
unfolding note_left
nothing_left = rw (failed_job_downloads, failed_job_waiters) refl

no_job_left : status_in (end_preparing failed_job file_job.mxc) file_job.mxc ≡ none
unfolding no_jobs enqueue_into enqueue_with asked extend put take_job take_first mark_preparing
    end_job tell forget get without or_default is_queued is_preparing status_in status_of text_eq
    end_preparing carry_over
no_job_left = refl

Reach-attended_example :
    (get (end_preparing failed_job file_job.mxc).waiters file_job.mxc ≡ none)
    ⊎ (is_among left_then file_job.mxc ≡ true)
Reach-attended_example =
    Reach-attended alice left_then (end_preparing failed_job file_job.mxc) file_job.mxc
      all_ended-Reach no_job_left

failed_job-IsSingle : IsSingle failed_job
failed_job-IsSingle = Reach-IsSingle alice [] failed_job failed_job-Reach

-- Waiter 8 asks again before the preparation ends.
end_preparing-enqueue_into_example :
    (status_in
        (end_preparing
          (enqueue_into alice failed_job file_job (8 ∷ []) (alice ∷ [])).1
          file_job.mxc)
        file_job.mxc
      ≡ none)
    × (get
          (end_preparing
            (enqueue_into alice failed_job file_job (8 ∷ []) (alice ∷ [])).1
            file_job.mxc).waiters
          file_job.mxc
        ≡ some (or_default (get failed_job.waiters file_job.mxc) ++ (8 ∷ [])))
end_preparing-enqueue_into_example =
    end_preparing-enqueue_into alice failed_job file_job 8 (alice ∷ []) in_preparation
      failed_job-IsSingle failed_job_prepared failed_job_downloads

-- The job starts.
abbrev started_job : QueueState
started_job = start_job alice taken file_job.mxc none 0 3

taken_prepared : get taken.preparing file_job.mxc ≡ some in_preparation
unfolding no_jobs enqueue_into enqueue_with asked extend put take_job take_first mark_preparing get
    without or_default is_queued is_preparing status_in status_of text_eq
taken_prepared = refl

Reach-IsSingle_example : IsSingle started_job
Reach-IsSingle_example =
    Reach-IsSingle alice [] started_job
      (starts file_job.mxc none 0 3 in_preparation taken_prepared taken-Reach)
