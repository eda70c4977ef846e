-- ===== src/Core/JobQueue/Attended.antt =====
-- Who waits for a file without a job (crates/wbf-core/src/download_queue.rs).
use wbf_matrix_client.Common.{
  ◌≡◌, refl, sym, ap, ◌∙◌, arith, Bool, true, false, ◌||◌, Option, none, some, ℕ, List, [], ◌∷◌,
  ◌++◌, if-holds, length, ◌==◌, ◌⊎◌, inl, inr, Bool-cases,
}
use wbf_matrix_client.Media.Block.{Text}
use wbf_matrix_client.Media.Block.Checks.{text_eq_self}
use wbf_matrix_client.Core.JobQueue.{
  DownloadJob, Downloading, Preparing, JobEnd, JobStatus, QueueState, no_jobs, get, without, put,
  is_queued, is_preparing, status_of, status_in, keep_others, asked, known_with, forget,
  enqueue_with, enqueue_into, cancel, cancel_running, cancel_waiting, cancel_queued, tell,
  mark_preparing, take_first, take_job, start_job, end_job, hand_over, carry_over, end_preparing,
}
use wbf_matrix_client.Core.JobQueue.Entries.{
  get-without_other, get-put_other, get-extend_other, is_queued-append, is_queued-keep_others,
}
use wbf_matrix_client.Core.JobQueue.Idle.{
  IsAttended, status_in-IsIdle, only_there, forgotten, put_some, some-none,
}
use wbf_matrix_client.Core.JobQueue.Steps.{
  is_among, note_left, Reach, begins, enqueues, cancels, takes, starts, ends, hands_over, settles,
}

enqueue_with-IsAttended :
    (left : List Text) (own : Text) (s : QueueState) (job : DownloadJob) (waiters : List ℕ)
    (users names : List Text) (status : Option JobStatus)
    → IsAttended left s
    → status_in (asked s job.mxc waiters users) job.mxc ≡ status
    → IsAttended left (enqueue_with own job names (asked s job.mxc waiters users) status).1
unfolding enqueue_with asked status_in status_of is_preparing
enqueue_with-IsAttended left own s job waiters users names (some status) h e =
    only_there left s (asked s job.mxc waiters users) job.mxc h (λ m apart idle. idle)
      (λ m apart. get-extend_other s.waiters job.mxc m waiters apart)
      λ kept (d, p, q). absurd (busy d p q)
  where
    busy :
        get s.downloads job.mxc ≡ none
        → get s.preparing job.mxc ≡ none
        → is_queued s.inbox job.mxc ≡ false
        → ⊥
    busy d p q = some-none e (rw (d, p, q) refl)
enqueue_with-IsAttended left own s job waiters users names none h e =
    only_there left s (enqueue_with own job names (asked s job.mxc waiters users) none).1 job.mxc h
      (λ m apart (d, p, q). (d, p, before m q))
      (λ m apart. get-extend_other s.waiters job.mxc m waiters apart)
      λ kept (d, p, q). absurd (there q)
  where
    before : (m : Text) → is_queued (s.inbox ++ (job ∷ [])) m ≡ false → is_queued s.inbox m ≡ false
    before m q = ground (arith, is_queued-append s.inbox job m)

    there : is_queued (s.inbox ++ (job ∷ [])) job.mxc ≡ false → ⊥
    there q = ground (arith, is_queued-append s.inbox job job.mxc, text_eq_self job.mxc)

enqueue-IsAttended :
    (left : List Text) (own : Text) (s : QueueState) (job : DownloadJob) (waiters : List ℕ)
    (users : List Text)
    → IsAttended left s
    → IsAttended left (enqueue_into own s job waiters users).1
unfolding enqueue_into
enqueue-IsAttended left own s job waiters users h =
    enqueue_with-IsAttended left own s job waiters users (known_with s job.mxc users) _ h refl

cancel_queued-IsAttended :
    (left : List Text) (own : Text) (s : QueueState) (mxc : Text)
    → IsAttended left s
    → IsAttended left (cancel_queued own s mxc).1
unfolding cancel_queued tell forget
cancel_queued-IsAttended left own s mxc h =
    if-holds {A = Bool × QueueState} (λ r. IsAttended left r.1)
      (length (keep_others s.inbox mxc) == length s.inbox) _ _ (λ unchanged. h)
      λ changed.
        forgotten left s
          (record s { inbox = keep_others s.inbox mxc; waiters = without s.waiters mxc }) mxc h refl
          λ m apart (d, p, q). (d, p, sym (is_queued-keep_others s.inbox mxc m apart) ∙ q)

cancel_waiting-IsAttended :
    (left : List Text) (own : Text) (s : QueueState) (mxc : Text) (p : Option Preparing)
    → IsAttended left s
    → IsAttended left (cancel_waiting own s mxc p).1
unfolding cancel_waiting
cancel_waiting-IsAttended left own s mxc none h = cancel_queued-IsAttended left own s mxc h
cancel_waiting-IsAttended left own s mxc (some p) h =
    only_there left s (cancel_waiting own s mxc (some p)).1 mxc h
      (λ m apart (d, p', q). (d, sym (get-put_other s.preparing mxc m _ apart) ∙ p', q))
      (λ m apart. refl) λ kept (d, p', q). absurd (put_some s.preparing mxc _ p')

cancel_running-IsAttended :
    (left : List Text) (own : Text) (s : QueueState) (mxc : Text) (d : Option Downloading)
    → IsAttended left s
    → IsAttended left (cancel_running own s mxc d).1
unfolding cancel_running
cancel_running-IsAttended left own s mxc none h =
    cancel_waiting-IsAttended left own s mxc (get s.preparing mxc) h
cancel_running-IsAttended left own s mxc (some d) h =
    only_there left s (cancel_running own s mxc (some d)).1 mxc h
      (λ m apart (d', p, q). (sym (get-put_other s.downloads mxc m _ apart) ∙ d', p, q))
      (λ m apart. refl) λ kept (d', p, q). absurd (put_some s.downloads mxc _ d')

take_first-IsAttended :
    (left : List Text) (s : QueueState) (jobs : List DownloadJob)
    → s.inbox ≡ jobs
    → IsAttended left s
    → IsAttended left (take_first s jobs).1
unfolding take_first mark_preparing is_queued
take_first-IsAttended left s [] e h = h
take_first-IsAttended left s (job ∷ jobs) e h =
    only_there left s (take_first s (job ∷ jobs)).1 job.mxc h
      (λ m apart (d, p, q). (
        d,
        sym (get-put_other s.preparing job.mxc m _ apart) ∙ p,
        ap (λ i. is_queued i m) e ∙ ap (λ t. t || is_queued jobs m) apart ∙ q,
      ))
      (λ m apart. refl) λ kept (d, p, q). absurd (put_some s.preparing job.mxc _ p)

start_job-IsAttended :
    (left : List Text) (own : Text) (s : QueueState) (mxc : Text) (name : Option Text)
    (done total : ℕ)
    → IsAttended left s
    → IsAttended left (start_job own s mxc name done total)
unfolding start_job
start_job-IsAttended left own s mxc name done total h =
    only_there left s (start_job own s mxc name done total) mxc h
      (λ m apart (d, p, q). (sym (get-put_other s.downloads mxc m _ apart) ∙ d, p, q))
      (λ m apart. refl) λ kept (d, p, q). absurd (put_some s.downloads mxc _ d)

end_job-IsAttended :
    (left : List Text) (own : Text) (s : QueueState) (mxc : Text) (end : JobEnd)
    → IsAttended left s
    → IsAttended left (end_job own s mxc end)
unfolding end_job tell forget
end_job-IsAttended left own s mxc end h =
    forgotten left s (end_job own s mxc end) mxc h refl
      λ m apart (d, p, q). (sym (get-without_other s.downloads mxc m apart) ∙ d, p, q)

hand_over-IsAttended :
    (left : List Text) (own : Text) (s : QueueState) (job : DownloadJob)
    (other : Option (Text × QueueState))
    → IsAttended left s
    → IsAttended left (hand_over own s job other).0
unfolding hand_over forget
hand_over-IsAttended left own s job none h = end_job-IsAttended left own s job.mxc _ h
hand_over-IsAttended left own s job (some (user, other)) h =
    forgotten left s (hand_over own s job (some (user, other))).0 job.mxc h refl
      λ m apart idle. idle

carry_over-IsAttended :
    (left : List Text) (s : QueueState) (mxc : Text) (p : Option Preparing) (d : Option Downloading)
    → get s.downloads mxc ≡ d
    → IsAttended left s
    → IsAttended left (carry_over s mxc p d)
unfolding carry_over
carry_over-IsAttended left s mxc none d e h = h
carry_over-IsAttended left s mxc (some p) none e h = h
carry_over-IsAttended left s mxc (some p) (some d) e h =
    if-holds (IsAttended left) p.is_cancelled _ _
      (λ was_cancelled.
        only_there left s
          (record s { downloads = put s.downloads mxc (record d { is_cancelled = true }) }) mxc h
          (λ m apart (d', p', q). (sym (get-put_other s.downloads mxc m _ apart) ∙ d', p', q))
          (λ m apart. refl) λ kept (d', p', q). absurd (put_some s.downloads mxc _ d'))
      λ goes_on. h

-- What was noted stays noted.
note_left-unnoted :
    (left : List Text) (mxc m : Text) (d : Option Downloading) (w : Option (List ℕ))
    → is_among (note_left d w mxc left) m ≡ false
    → is_among left m ≡ false
unfolding note_left is_among
note_left-unnoted left mxc m none none e = e
note_left-unnoted left mxc m none (some waiters) e = ground arith
note_left-unnoted left mxc m (some d) w e = e

-- A file that is not noted has nobody who waits, where it has no download.
note_left-unasked :
    (left : List Text) (mxc : Text) (d : Option Downloading) (w : Option (List ℕ))
    → is_among (note_left d w mxc left) mxc ≡ false
    → d ≡ none
    → w ≡ none
unfolding note_left is_among
note_left-unasked left mxc none none kept e = refl
note_left-unasked left mxc none (some waiters) kept e = absurd (ground (arith, text_eq_self mxc))
note_left-unasked left mxc (some d) w kept e = absurd cc

end_preparing-IsAttended :
    (left : List Text) (s : QueueState) (mxc : Text)
    → IsAttended left s
    → IsAttended
        (note_left (get s.downloads mxc) (get s.waiters mxc) mxc left)
        (end_preparing s mxc)
unfolding end_preparing
end_preparing-IsAttended left s mxc h =
    let noted = note_left (get s.downloads mxc) (get s.waiters mxc) mxc left in
    let settled = record s { preparing = without s.preparing mxc } in
    carry_over-IsAttended noted settled mxc (get s.preparing mxc) (get s.downloads mxc) refl (
      only_there noted s settled mxc
        (λ m kept.
          h m (note_left-unnoted left mxc m (get s.downloads mxc) (get s.waiters mxc) kept))
        (λ m apart (d, p, q). (d, sym (get-without_other s.preparing mxc m apart) ∙ p, q))
        (λ m apart. refl)
        λ kept (d, p, q).
          note_left-unasked left mxc (get s.downloads mxc) (get s.waiters mxc) kept d)

Reach-IsAttended :
    (own : Text) (left : List Text) (s : QueueState) → Reach own left s → IsAttended left s
unfolding no_jobs get cancel take_job
Reach-IsAttended own _ _ begins = λ m kept idle. refl
Reach-IsAttended own _ _ (enqueues {left} {s} job waiters users r) =
    enqueue-IsAttended left own s job waiters users (Reach-IsAttended own left s r)
Reach-IsAttended own _ _ (cancels {left} {s} mxc r) =
    cancel_running-IsAttended left own s mxc (get s.downloads mxc) (Reach-IsAttended own left s r)
Reach-IsAttended own _ _ (takes {left} {s} r) =
    take_first-IsAttended left s s.inbox refl (Reach-IsAttended own left s r)
Reach-IsAttended own _ _ (starts {left} {s} mxc name done total p e r) =
    start_job-IsAttended left own s mxc name done total (Reach-IsAttended own left s r)
Reach-IsAttended own _ _ (ends {left} {s} mxc end r) =
    end_job-IsAttended left own s mxc end (Reach-IsAttended own left s r)
Reach-IsAttended own _ _ (hands_over {left} {s} job other r) =
    hand_over-IsAttended left own s job other (Reach-IsAttended own left s r)
Reach-IsAttended own _ _ (settles {left} {s} mxc r) =
    end_preparing-IsAttended left s mxc (Reach-IsAttended own left s r)

-- However the calls and the steps come, where a job starts only while it is prepared: a file of
-- which no job is known has nobody who waits for it, unless a preparation of that file has ended
-- while it had no download and someone waited for it. Nothing else leaves a waiter without a job.
pub Reach-attended :
    (own : Text) (left : List Text) (s : QueueState) (mxc : Text)
    → Reach own left s
    → status_in s mxc ≡ none
    → (get s.waiters mxc ≡ none) ⊎ (is_among left mxc ≡ true)
Reach-attended own left s mxc r e = elim (Bool-cases (is_among left mxc)) [
  | inl noted ↦ inr noted
  | inr kept ↦ inl (Reach-IsAttended own left s r mxc kept (status_in-IsIdle s mxc e))
]
