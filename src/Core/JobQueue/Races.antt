-- ===== src/Core/JobQueue/Races.antt =====
-- A call that comes while the handler ends the preparation of a job
-- (crates/wbf-core/src/download_queue.rs).
use wbf_matrix_client.Common.{
  ◌≡◌, inl, inr, refl, ap, ◌∙◌, false, Option, none, some, ℕ, List, [], ◌∷◌, ◌++◌, Bool-cases,
}
use wbf_matrix_client.Media.Block.{Text}
use wbf_matrix_client.Core.JobQueue.{
  DownloadJob, Preparing, QueueState, get, without, extend, or_default, is_queued, is_preparing,
  not_started, status_of, status_in, asked, enqueue_with, enqueue_into, carry_over, end_preparing,
}
use wbf_matrix_client.Core.JobQueue.Entries.{get-without_same, get-put_same}
use wbf_matrix_client.Core.JobQueue.Idle.{some-none}
use wbf_matrix_client.Core.JobQueue.Single.{IsSingle}

status_in-prepared :
    (s : QueueState) (m : Text) (p : Preparing)
    → get s.preparing m ≡ some p
    → get s.downloads m ≡ none
    → status_in s m ≡ some not_started
unfolding status_in status_of is_preparing
status_in-prepared s m p prepared idle = rw (prepared, idle) refl

status_in-idle :
    (s : QueueState) (m : Text)
    → get s.preparing m ≡ none
    → get s.downloads m ≡ none
    → is_queued s.inbox m ≡ false
    → status_in s m ≡ none
unfolding status_in status_of is_preparing
status_in-idle s m p d q = rw (p, d, q) refl

joined :
    (own : Text) (s : QueueState) (job : DownloadJob) (waiters : List ℕ) (users : List Text)
    (p : Preparing)
    → get s.preparing job.mxc ≡ some p
    → get s.downloads job.mxc ≡ none
    → (enqueue_into own s job waiters users).1 ≡ asked s job.mxc waiters users
unfolding enqueue_into enqueue_with asked
joined own s job waiters users p prepared idle =
    rw (status_in-prepared (asked s job.mxc waiters users) job.mxc p prepared idle) refl

settled :
    (s : QueueState) (m : Text)
    → get s.downloads m ≡ none
    → end_preparing s m ≡ record s { preparing = without s.preparing m }
unfolding end_preparing carry_over
settled s m idle = rw idle (by_flag (get s.preparing m))
  where
    by_flag :
        (p : Option Preparing)
        → carry_over (record s { preparing = without s.preparing m }) m p none
          ≡ record s { preparing = without s.preparing m }
    by_flag none = refl
    by_flag (some p) = refl

-- Where the job of a file has ended and its preparation has not, a call that asks for the file, with
-- a waiter, joins the preparation; when that ends, the waiter still waits and no job is left that
-- would answer it.
pub end_preparing-enqueue_into :
    (own : Text) (s : QueueState) (job : DownloadJob) (waiter : ℕ) (users : List Text)
    (p : Preparing)
    → IsSingle s
    → get s.preparing job.mxc ≡ some p
    → get s.downloads job.mxc ≡ none
    → (status_in (end_preparing (enqueue_into own s job (waiter ∷ []) users).1 job.mxc) job.mxc
        ≡ none)
      × (get (end_preparing (enqueue_into own s job (waiter ∷ []) users).1 job.mxc).waiters job.mxc
          ≡ some (or_default (get s.waiters job.mxc) ++ (waiter ∷ [])))
unfolding asked extend
end_preparing-enqueue_into own s job waiter users p (distinct, apart) prepared idle =
    let after = asked s job.mxc (waiter ∷ []) users in
    let done : end_preparing (enqueue_into own s job (waiter ∷ []) users).1 job.mxc
        ≡ record after { preparing = without after.preparing job.mxc } =
      ap (λ t. end_preparing t job.mxc) (joined own s job (waiter ∷ []) users p prepared idle)
      ∙ settled after job.mxc idle in
    let absent : is_queued s.inbox job.mxc ≡ false = elim (Bool-cases (is_queued s.inbox job.mxc)) [
      | inl waits ↦ absurd (some-none prepared (apart job.mxc waits).1)
      | inr e ↦ e
    ] in
    (
      ap (λ t. status_in t job.mxc) done
          ∙ status_in-idle (record after { preparing = without after.preparing job.mxc }) job.mxc
              (get-without_same s.preparing job.mxc) idle absent,
      ap (λ t. get t.waiters job.mxc) done
          ∙ get-put_same s.waiters job.mxc (or_default (get s.waiters job.mxc) ++ (waiter ∷ [])),
    )
