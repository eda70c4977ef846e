-- ===== src/Core/JobQueue.antt =====
-- The jobs of a download handler, `QueueState` of crates/wbf-core/src/download_queue.rs: what is
-- asked of the handler, from its entry in the inbox to its end, and who is told. The hash maps are
-- lists of entries. A waiter is the number of its channel; the answers and the pushes are in the
-- order in which they are sent.
pub mod Entries
pub mod Idle
pub mod Inbox
pub mod Steps
pub mod Attended
pub mod Single
pub mod Races
mod Tests
use wbf_matrix_client.Common.{
  ℕ, suc, ◌+◌, ◌%◌, ◌^◌, Bool, true, false, not, ◌||◌, Option, none, some, List, [], ◌∷◌, ◌++◌, map,
  ltb, ◌==◌, if◌then◌else◌, length, Result, ok, err, and_then,
}
use wbf_matrix_client.Core.Errors.{CoreErrorKind}
use wbf_matrix_client.Media.Block.{Text, text_eq}
use wbf_matrix_client.Media.Landing.{Verification}

pub data DownloadState : Type 0 where
  queued downloading verifying complete cancelled failed : DownloadState

pub record JobStatus : Type 0 where
  pub state : DownloadState
  pub done : ℕ
  pub total : ℕ

-- A job in the inbox, with the name that its block gives the file.
pub record DownloadJob : Type 0 where
  pub mxc : Text
  pub name : Option Text

pub record Preparing : Type 0 where
  pub name : Option Text
  pub is_cancelled : Bool

pub record Downloading : Type 0 where
  pub is_cancelled : Bool
  pub done : ℕ
  pub total : ℕ
  pub name : Option Text
  pub started : ℕ

pub data JobEnd : Type 0 where
  completed : Verification → JobEnd
  was_cancelled : JobEnd
  went_wrong : CoreErrorKind → JobEnd

-- `CoreEvent::MediaDownload`.
pub record Push : Type 0 where
  pub user : Text
  pub mxc : Text
  pub status : JobStatus
  pub verified : Option Verification

abbrev pub Answer : Type 0
Answer = ℕ × Result CoreErrorKind (Unit {0})

-- `open_names` is the handler's own and no part of a job.
pub record QueueState : Type 0 where
  pub inbox : List DownloadJob
  pub preparing : List (Text × Preparing)
  pub downloads : List (Text × Downloading)
  pub waiters : List (Text × List ℕ)
  pub listeners : List (Text × List Text)
  pub next_started : ℕ
  pub answers : List Answer
  pub pushes : List Push

unfoldable pub no_jobs : QueueState
no_jobs = record {
  inbox = [];
  preparing = [];
  downloads = [];
  waiters = [];
  listeners = [];
  next_started = 0;
  answers = [];
  pushes = [];
}

-- `HashMap::get`, `remove`, `insert`, and `entry().or_default().extend`.
module _ {A : Type 0} where
  unfoldable pub get : List (Text × A) → Text → Option A
  get [] mxc = none
  get ((key, a) ∷ rest) mxc = let later = get rest mxc in if text_eq key mxc then some a else later

  unfoldable pub without : List (Text × A) → Text → List (Text × A)
  without [] mxc = []
  without ((key, a) ∷ rest) mxc =
      let rest' = without rest mxc in if text_eq key mxc then rest' else (key, a) ∷ rest'

  unfoldable pub put : List (Text × A) → Text → A → List (Text × A)
  put entries mxc a = (mxc, a) ∷ without entries mxc

  unfoldable pub or_default : Option (List A) → List A
  or_default none = []
  or_default (some items) = items

unfoldable pub extend : List (Text × List ℕ) → Text → List ℕ → List (Text × List ℕ)
extend entries mxc [] = entries
extend entries mxc (item ∷ items) = put entries mxc (or_default (get entries mxc) ++ (item ∷ items))

-- A `BTreeSet` of users: its members in their order, and `extend`.
unfoldable pub text_lt : Text → Text → Bool
text_lt [] [] = false
text_lt [] (y ∷ ys) = true
text_lt (x ∷ xs) [] = false
text_lt (x ∷ xs) (y ∷ ys) = let rest = text_lt xs ys in if x == y then rest else ltb x y

unfoldable pub insert_user : Text → List Text → List Text
insert_user user [] = user ∷ []
insert_user user (other ∷ others) =
    let rest = insert_user user others in
    if text_eq user other
    then other ∷ others
    else if text_lt user other
    then user ∷ other ∷ others
    else other ∷ rest

unfoldable pub insert_users : List Text → List Text → List Text
insert_users [] known = known
insert_users (user ∷ users) known = insert_users users (insert_user user known)

unfoldable pub known_with : QueueState → Text → List Text → List Text
known_with s mxc users = insert_users users (or_default (get s.listeners mxc))

unfoldable pub is_queued : List DownloadJob → Text → Bool
is_queued [] mxc = false
is_queued (job ∷ jobs) mxc = text_eq job.mxc mxc || is_queued jobs mxc

unfoldable pub is_preparing : Option Preparing → Bool
is_preparing none = false
is_preparing (some preparing) = true

-- The status of a job that has not started.
unfoldable pub not_started : JobStatus
not_started = record { state = queued; done = 0; total = 0 }

unfoldable pub status_of : Option Downloading → Bool → Option JobStatus
status_of (some d) waits = some (record { state = downloading; done = d.done; total = d.total })
status_of none true = some not_started
status_of none false = none

unfoldable pub status_in : QueueState → Text → Option JobStatus
status_in s mxc =
    status_of (get s.downloads mxc) (is_preparing (get s.preparing mxc) || is_queued s.inbox mxc)

-- `emit_to_each`: to each who asked for the file, or to the handler's own user.
unfoldable pub emit_to_each : List Text → Text → (Text → Push) → List Push
emit_to_each [] fallback_user event_for = event_for fallback_user ∷ []
emit_to_each (user ∷ users) fallback_user event_for = map event_for (user ∷ users)

unfoldable pub push_of : Text → JobStatus → Option Verification → Text → Push
push_of mxc status verified user = record {
  user = user;
  mxc = mxc;
  status = status;
  verified = verified;
}

-- The job is there already, or it goes into the inbox and is announced.
unfoldable pub enqueue_with :
    Text → DownloadJob → List Text → QueueState → Option JobStatus → JobStatus × QueueState
enqueue_with own job recipients s (some status) = (status, s)
enqueue_with own job recipients s none = (
  not_started,
  record s {
    inbox = s.inbox ++ (job ∷ []);
    pushes = s.pushes ++ emit_to_each recipients own (push_of job.mxc not_started none);
  },
)

unfoldable pub asked : QueueState → Text → List ℕ → List Text → QueueState
asked s mxc waiters users = record s {
  waiters = extend s.waiters mxc waiters;
  listeners = put s.listeners mxc (known_with s mxc users);
}

unfoldable pub enqueue_into :
    Text → QueueState → DownloadJob → List ℕ → List Text → JobStatus × QueueState
enqueue_into own s job waiters users =
    enqueue_with own job (known_with s job.mxc users) (asked s job.mxc waiters users)
      (status_in (asked s job.mxc waiters users) job.mxc)

-- Everyone who waits for the file gets the outcome.
unfoldable pub answer_all : List ℕ → Result CoreErrorKind (Unit {0}) → List Answer
answer_all waiters outcome = map (λ waiter. (waiter, outcome)) waiters

unfoldable pub forget : QueueState → Text → QueueState
forget s mxc = record s { waiters = without s.waiters mxc; listeners = without s.listeners mxc }

unfoldable pub tell :
    Text
    → Text
    → QueueState
    → Result CoreErrorKind (Unit {0})
    → JobStatus
    → Option Verification
    → QueueState
    → QueueState
tell own mxc before outcome status verified s = record s {
  answers = s.answers ++ answer_all (or_default (get before.waiters mxc)) outcome;
  pushes =
      s.pushes
      ++ emit_to_each (or_default (get before.listeners mxc)) own (push_of mxc status verified);
}

unfoldable pub keep_others : List DownloadJob → Text → List DownloadJob
keep_others [] mxc = []
keep_others (job ∷ jobs) mxc =
    let rest = keep_others jobs mxc in if text_eq job.mxc mxc then rest else job ∷ rest

-- A job that waits in the inbox is taken out of it.
unfoldable pub cancel_queued : Text → QueueState → Text → Bool × QueueState
cancel_queued own s mxc =
    if length (keep_others s.inbox mxc) == length s.inbox then (false, s) else (
      true,
      tell own mxc s (err CoreErrorKind.usage) (record { state = cancelled; done = 0; total = 0 })
          none (forget (record s { inbox = keep_others s.inbox mxc }) mxc),
    )

unfoldable pub cancel_waiting : Text → QueueState → Text → Option Preparing → Bool × QueueState
cancel_waiting own s mxc (some p) =
    (true, record s { preparing = put s.preparing mxc (record p { is_cancelled = true }) })
cancel_waiting own s mxc none = cancel_queued own s mxc

unfoldable pub cancel_running : Text → QueueState → Text → Option Downloading → Bool × QueueState
cancel_running own s mxc (some d) =
    (true, record s { downloads = put s.downloads mxc (record d { is_cancelled = true }) })
cancel_running own s mxc none = cancel_waiting own s mxc (get s.preparing mxc)

unfoldable pub cancel : Text → QueueState → Text → Bool × QueueState
cancel own s mxc = cancel_running own s mxc (get s.downloads mxc)

unfoldable pub mark_preparing : QueueState → DownloadJob → QueueState
mark_preparing s job = record s {
  preparing = put s.preparing job.mxc (record { name = job.name; is_cancelled = false });
}

-- A round of `process_inbox`: the first job is taken out and prepared.
unfoldable pub take_first : QueueState → List DownloadJob → Option DownloadJob × QueueState
take_first s [] = (none, s)
take_first s (job ∷ jobs) = (some job, mark_preparing (record s { inbox = jobs }) job)

unfoldable pub take_job : QueueState → Option DownloadJob × QueueState
take_job s = take_first s s.inbox

-- `start_job`.
unfoldable pub start_job : Text → QueueState → Text → Option Text → ℕ → ℕ → QueueState
start_job own s mxc name done total = record s {
  next_started = (s.next_started + 1) % 2 ^ 64;
  downloads = put s.downloads mxc (record {
    is_cancelled = false;
    done = done;
    total = total;
    name = name;
    started = s.next_started;
  });
  pushes =
      s.pushes
      ++ emit_to_each (or_default (get s.listeners mxc)) own
          (push_of mxc (record { state = downloading; done = done; total = total }) none);
}

unfoldable pub progress : Option Downloading → ℕ × ℕ
progress none = (0, 0)
progress (some d) = (d.done, d.total)

-- What an end is for those who wait, and in what state it leaves the job.
unfoldable pub outcome_of :
    JobEnd → Result CoreErrorKind (Unit {0}) × DownloadState × Option Verification
outcome_of (completed verified) = (ok tt, complete, some verified)
outcome_of was_cancelled = (err CoreErrorKind.usage, cancelled, none)
outcome_of (went_wrong error) = (err error, failed, none)

unfoldable pub end_job : Text → QueueState → Text → JobEnd → QueueState
end_job own s mxc end =
    let (outcome, state, verified) = outcome_of end in
    let (done, total) = progress (get s.downloads mxc) in
    tell own mxc s outcome (record { state = state; done = done; total = total }) verified
      (forget (record s { downloads = without s.downloads mxc }) mxc)

-- `hand_over`, to the handler that downloads the file (its user and its jobs) where there is one.
unfoldable pub hand_over :
    Text → QueueState → DownloadJob → Option (Text × QueueState) → QueueState × Option QueueState
hand_over own s job none = (end_job own s job.mxc (went_wrong CoreErrorKind.account_busy), none)
hand_over own s job (some (user, other)) =
    let waiters = or_default (get s.waiters job.mxc) in
    let users = or_default (get s.listeners job.mxc) in
    let (status, other') = enqueue_into user other job waiters users in
    (
      record (forget s job.mxc) {
        pushes = s.pushes ++ emit_to_each users own (push_of job.mxc status none);
      },
      some other',
    )

-- The end of `process_download_job`: the job is prepared no more, and a cancellation that came
-- meanwhile goes to the download.
unfoldable pub carry_over : QueueState → Text → Option Preparing → Option Downloading → QueueState
carry_over s mxc (some p) (some d) =
    if p.is_cancelled
    then record s { downloads = put s.downloads mxc (record d { is_cancelled = true }) }
    else s
carry_over s mxc none d = s
carry_over s mxc (some p) none = s

unfoldable pub end_preparing : QueueState → Text → QueueState
end_preparing s mxc =
    carry_over (record s { preparing = without s.preparing mxc }) mxc (get s.preparing mxc)
      (get s.downloads mxc)
