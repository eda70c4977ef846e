-- ===== src/Core/JobQueue/Steps.antt =====
-- What happens to the jobs of one handler, in any order: the calls of its users and of other
-- handlers, and its own steps (crates/wbf-core/src/download_queue.rs).
use wbf_matrix_client.Common.{◌≡◌, ℕ, Bool, false, ◌||◌, Option, none, some, List, [], ◌∷◌}
use wbf_matrix_client.Media.Block.{Text, text_eq}
use wbf_matrix_client.Core.JobQueue.{
  DownloadJob, Downloading, JobEnd, Preparing, QueueState, no_jobs, get, enqueue_into, cancel,
  take_job, start_job, end_job, hand_over, end_preparing,
}

unfoldable pub is_among : List Text → Text → Bool
is_among [] mxc = false
is_among (key ∷ keys) mxc = text_eq key mxc || is_among keys mxc

-- A file whose preparation ends while it has no download and someone waits for it is noted.
unfoldable pub note_left : Option Downloading → Option (List ℕ) → Text → List Text → List Text
note_left none (some waiters) mxc left = mxc ∷ left
note_left none none mxc left = left
note_left (some d) waiters mxc left = left

-- The states that come about, each with the files that were noted on the way. The handler starts a
-- job only while it prepares it; it ends a preparation whatever has come meanwhile.
pub data Reach (own : Text) : List Text → QueueState → Type 0 where
  begins : Reach own [] no_jobs
  enqueues :
      {left : List Text} {s : QueueState} (job : DownloadJob) (waiters : List ℕ) (users : List Text)
      → Reach own left s
      → Reach own left (enqueue_into own s job waiters users).1
  cancels :
      {left : List Text} {s : QueueState} (mxc : Text)
      → Reach own left s
      → Reach own left (cancel own s mxc).1
  takes : {left : List Text} {s : QueueState} → Reach own left s → Reach own left (take_job s).1
  starts :
      {left : List Text} {s : QueueState} (mxc : Text) (name : Option Text) (done total : ℕ)
      (p : Preparing)
      → get s.preparing mxc ≡ some p
      → Reach own left s
      → Reach own left (start_job own s mxc name done total)
  ends :
      {left : List Text} {s : QueueState} (mxc : Text) (end : JobEnd)
      → Reach own left s
      → Reach own left (end_job own s mxc end)
  hands_over :
      {left : List Text} {s : QueueState} (job : DownloadJob) (other : Option (Text × QueueState))
      → Reach own left s
      → Reach own left (hand_over own s job other).0
  settles :
      {left : List Text} {s : QueueState} (mxc : Text)
      → Reach own left s
      → Reach own
          (note_left (get s.downloads mxc) (get s.waiters mxc) mxc left)
          (end_preparing s mxc)
