-- ===== src/Core/JobQueue/Single.antt =====
-- A file has one job at most (crates/wbf-core/src/download_queue.rs).
use wbf_matrix_client.Common.{
  ◌≡◌, inl, inr, refl, sym, ap, subst, ◌∙◌, arith, Bool, true, false, ◌||◌, Option, none, some, ℕ,
  List, [], ◌∷◌, if-holds, Bool-cases, length, ◌==◌,
}
use wbf_matrix_client.Media.Block.{Text, text_eq}
use wbf_matrix_client.Media.Block.Checks.{text_eq→eq}
use wbf_matrix_client.Core.JobQueue.{
  DownloadJob, Downloading, Preparing, JobEnd, JobStatus, QueueState, no_jobs, get, without, put,
  is_queued, status_in, keep_others, asked, known_with, forget, enqueue_with, enqueue_into, cancel,
  cancel_running, cancel_waiting, cancel_queued, tell, mark_preparing, take_first, take_job,
  start_job, end_job, hand_over, carry_over, end_preparing,
}
use wbf_matrix_client.Core.JobQueue.Entries.{
  get-put_other, is_queued-append, is_queued-keep_others, is_queued-keep_others_same,
}
use wbf_matrix_client.Core.JobQueue.Inbox.{
  Distinct, Distinct-append, Distinct-keep_others, still_none,
}
use wbf_matrix_client.Core.JobQueue.Idle.{status_in-IsIdle, some-none}
use wbf_matrix_client.Core.JobQueue.Steps.{
  Reach, begins, enqueues, cancels, takes, starts, ends, hands_over, settles,
}

-- A file whose job is in the inbox is neither prepared nor downloaded, and its job is there once.
abbrev pub IsSingle : QueueState → Type 0
IsSingle s =
    Distinct s.inbox
    × ((m : Text)
        → is_queued s.inbox m ≡ true
        → (get s.downloads m ≡ none) × (get s.preparing m ≡ none))

-- A file that is not in the inbox changes its place.
only_there :
    (s s' : QueueState) (mxc : Text)
    → IsSingle s
    → (is_queued s.inbox mxc ≡ true → ⊥)
    → s'.inbox ≡ s.inbox
    → ((m : Text) → text_eq mxc m ≡ false → get s'.downloads m ≡ get s.downloads m)
    → ((m : Text) → text_eq mxc m ≡ false → get s'.preparing m ≡ get s.preparing m)
    → IsSingle s'
only_there s s' mxc (distinct, h) absent same downloads preparing = (
  subst Distinct (sym same) distinct,
  λ m waits.
      let waits' = sym (ap (λ i. is_queued i m) same) ∙ waits in
      elim (Bool-cases (text_eq mxc m)) [
        | inl at ↦
            absurd
              (absent (subst (λ k. is_queued s.inbox k ≡ true) (sym (text_eq→eq mxc m at)) waits'))
        | inr apart ↦ let (d, p) = h m waits' in (downloads m apart ∙ d, preparing m apart ∙ p)
      ],
)

enqueue_with-IsSingle :
    (own : Text) (s : QueueState) (job : DownloadJob) (waiters : List ℕ) (users names : List Text)
    (status : Option JobStatus)
    → IsSingle s
    → status_in (asked s job.mxc waiters users) job.mxc ≡ status
    → IsSingle (enqueue_with own job names (asked s job.mxc waiters users) status).1
unfolding enqueue_with asked
enqueue_with-IsSingle own s job waiters users names (some status) h e = h
enqueue_with-IsSingle own s job waiters users names none (distinct, h) e =
    let (d, p, q) = status_in-IsIdle (asked s job.mxc waiters users) job.mxc e in
    (
      Distinct-append s.inbox job q distinct,
      λ m waits. elim (Bool-cases (text_eq job.mxc m)) [
        | inl at ↦
            subst (λ k. (get s.downloads k ≡ none) × (get s.preparing k ≡ none))
              (text_eq→eq job.mxc m at) (d, p)
        | inr apart ↦ h m (ground (arith, is_queued-append s.inbox job m))
      ],
    )

enqueue-IsSingle :
    (own : Text) (s : QueueState) (job : DownloadJob) (waiters : List ℕ) (users : List Text)
    → IsSingle s
    → IsSingle (enqueue_into own s job waiters users).1
unfolding enqueue_into
enqueue-IsSingle own s job waiters users h =
    enqueue_with-IsSingle own s job waiters users (known_with s job.mxc users) _ h refl

running :
    (s : QueueState) (mxc : Text) (d : Downloading)
    → IsSingle s
    → get s.downloads mxc ≡ some d
    → is_queued s.inbox mxc ≡ true
    → ⊥
running s mxc d (distinct, h) e waits = some-none e (h mxc waits).0

prepared :
    (s : QueueState) (mxc : Text) (p : Preparing)
    → IsSingle s
    → get s.preparing mxc ≡ some p
    → is_queued s.inbox mxc ≡ true
    → ⊥
prepared s mxc p (distinct, h) e waits = some-none e (h mxc waits).1

cancel_queued-IsSingle :
    (own : Text) (s : QueueState) (mxc : Text) → IsSingle s → IsSingle (cancel_queued own s mxc).1
unfolding cancel_queued tell forget
cancel_queued-IsSingle own s mxc h =
    if-holds {A = Bool × QueueState} (λ r. IsSingle r.1)
      (length (keep_others s.inbox mxc) == length s.inbox) _ _ (λ unchanged. h)
      λ changed. (
        Distinct-keep_others s.inbox mxc h.0,
        λ m waits. elim (Bool-cases (text_eq mxc m)) [
          | inl at ↦
              let gone = is_queued-keep_others_same s.inbox mxc in
              let there =
                subst (λ k. is_queued (keep_others s.inbox mxc) k ≡ true)
                  (sym (text_eq→eq mxc m at)) waits in
              absurd cc
          | inr apart ↦ h.1 m (sym (is_queued-keep_others s.inbox mxc m apart) ∙ waits)
        ],
      )

cancel_waiting-IsSingle :
    (own : Text) (s : QueueState) (mxc : Text) (p : Option Preparing)
    → get s.preparing mxc ≡ p
    → IsSingle s
    → IsSingle (cancel_waiting own s mxc p).1
unfolding cancel_waiting
cancel_waiting-IsSingle own s mxc none e h = cancel_queued-IsSingle own s mxc h
cancel_waiting-IsSingle own s mxc (some p) e h =
    only_there s (cancel_waiting own s mxc (some p)).1 mxc h (prepared s mxc p h e) refl
      (λ m apart. refl) λ m apart. get-put_other s.preparing mxc m _ apart

marked-IsSingle :
    (s : QueueState) (mxc : Text) (d d' : Downloading)
    → get s.downloads mxc ≡ some d
    → IsSingle s
    → IsSingle (record s { downloads = put s.downloads mxc d' })
marked-IsSingle s mxc d d' e h =
    only_there s (record s { downloads = put s.downloads mxc d' }) mxc h (running s mxc d h e) refl
      (λ m apart. get-put_other s.downloads mxc m d' apart) λ m apart. refl

cancel_running-IsSingle :
    (own : Text) (s : QueueState) (mxc : Text) (d : Option Downloading)
    → get s.downloads mxc ≡ d
    → IsSingle s
    → IsSingle (cancel_running own s mxc d).1
unfolding cancel_running
cancel_running-IsSingle own s mxc none e h =
    cancel_waiting-IsSingle own s mxc (get s.preparing mxc) refl h
cancel_running-IsSingle own s mxc (some d) e h = marked-IsSingle s mxc d _ e h

take_first-IsSingle :
    (s : QueueState) (jobs : List DownloadJob)
    → s.inbox ≡ jobs
    → IsSingle s
    → IsSingle (take_first s jobs).1
unfolding take_first mark_preparing is_queued
take_first-IsSingle s [] e h = h
take_first-IsSingle s (job ∷ jobs) e (distinct, h) =
    let (once, rest) = subst Distinct e distinct in
    (
      rest,
      λ m waits. elim (Bool-cases (text_eq job.mxc m)) [
        | inl at ↦
            let again =
              subst (λ k. is_queued jobs k ≡ true) (sym (text_eq→eq job.mxc m at)) waits in
            absurd cc
        | inr apart ↦
            let (d, p) =
              h m (ap (λ i. is_queued i m) e ∙ ap (λ t. t || is_queued jobs m) apart ∙ waits) in
            (d, get-put_other s.preparing job.mxc m _ apart ∙ p)
      ],
    )

start_job-IsSingle :
    (own : Text) (s : QueueState) (mxc : Text) (name : Option Text) (done total : ℕ) (p : Preparing)
    → get s.preparing mxc ≡ some p
    → IsSingle s
    → IsSingle (start_job own s mxc name done total)
unfolding start_job
start_job-IsSingle own s mxc name done total p e h =
    only_there s (start_job own s mxc name done total) mxc h (prepared s mxc p h e) refl
      (λ m apart. get-put_other s.downloads mxc m _ apart) λ m apart. refl

end_job-IsSingle :
    (own : Text) (s : QueueState) (mxc : Text) (end : JobEnd)
    → IsSingle s
    → IsSingle (end_job own s mxc end)
unfolding end_job tell forget
end_job-IsSingle own s mxc end (distinct, h) =
    (distinct, λ m waits. (still_none s.downloads mxc m (h m waits).0, (h m waits).1))

hand_over-IsSingle :
    (own : Text) (s : QueueState) (job : DownloadJob) (other : Option (Text × QueueState))
    → IsSingle s
    → IsSingle (hand_over own s job other).0
unfolding hand_over forget
hand_over-IsSingle own s job none h = end_job-IsSingle own s job.mxc _ h
hand_over-IsSingle own s job (some (user, other)) h = h

carry_over-IsSingle :
    (s : QueueState) (mxc : Text) (p : Option Preparing) (d : Option Downloading)
    → get s.downloads mxc ≡ d
    → IsSingle s
    → IsSingle (carry_over s mxc p d)
unfolding carry_over
carry_over-IsSingle s mxc none d e h = h
carry_over-IsSingle s mxc (some p) none e h = h
carry_over-IsSingle s mxc (some p) (some d) e h =
    if-holds IsSingle p.is_cancelled _ _ (λ was. marked-IsSingle s mxc d _ e h) λ goes_on. h

end_preparing-IsSingle : (s : QueueState) (mxc : Text) → IsSingle s → IsSingle (end_preparing s mxc)
unfolding end_preparing
end_preparing-IsSingle s mxc (distinct, h) =
    carry_over-IsSingle (record s { preparing = without s.preparing mxc }) mxc (get s.preparing mxc)
      (get s.downloads mxc) refl
      (distinct, λ m waits. ((h m waits).0, still_none s.preparing mxc m (h m waits).1))

-- However the calls and the steps come, where a job starts only while it is prepared: the inbox has
-- no two jobs for one file, and no job for a file that is being prepared or downloaded. A
-- preparation may end at any time, also while someone waits.
pub Reach-IsSingle :
    (own : Text) (left : List Text) (s : QueueState) → Reach own left s → IsSingle s
unfolding no_jobs is_queued cancel take_job
Reach-IsSingle own _ _ begins = (tt, λ m waits. absurd cc)
Reach-IsSingle own _ _ (enqueues {left} {s} job waiters users r) =
    enqueue-IsSingle own s job waiters users (Reach-IsSingle own left s r)
Reach-IsSingle own _ _ (cancels {left} {s} mxc r) =
    cancel_running-IsSingle own s mxc (get s.downloads mxc) refl (Reach-IsSingle own left s r)
Reach-IsSingle own _ _ (takes {left} {s} r) =
    take_first-IsSingle s s.inbox refl (Reach-IsSingle own left s r)
Reach-IsSingle own _ _ (starts {left} {s} mxc name done total p e r) =
    start_job-IsSingle own s mxc name done total p e (Reach-IsSingle own left s r)
Reach-IsSingle own _ _ (ends {left} {s} mxc end r) =
    end_job-IsSingle own s mxc end (Reach-IsSingle own left s r)
Reach-IsSingle own _ _ (hands_over {left} {s} job other r) =
    hand_over-IsSingle own s job other (Reach-IsSingle own left s r)
Reach-IsSingle own _ _ (settles {left} {s} mxc r) =
    end_preparing-IsSingle s mxc (Reach-IsSingle own left s r)
