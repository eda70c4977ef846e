-- ===== src/Core/JobQueue/Idle.antt =====
-- Files without a job, and what keeps everyone who waits with a job
-- (crates/wbf-core/src/download_queue.rs).
use wbf_matrix_client.Common.{
  ◌≡◌, inl, inr, refl, sym, ap, subst, ◌∙◌, Bool, true, false, ◌||◌, Option, none, some, List,
  Bool-cases,
}
use wbf_matrix_client.Media.Block.{Text, text_eq}
use wbf_matrix_client.Media.Block.Checks.{text_eq→eq}
use wbf_matrix_client.Core.JobQueue.{
  Downloading, Preparing, QueueState, get, without, put, is_queued, is_preparing, status_of,
  status_in,
}
use wbf_matrix_client.Core.JobQueue.Steps.{is_among}
use wbf_matrix_client.Core.JobQueue.Entries.{get-without_same, get-without_other, get-put_same}

-- There is no job for the file.
abbrev pub IsIdle : QueueState → Text → Type 0
IsIdle s m = (get s.downloads m ≡ none) × (get s.preparing m ≡ none) × (is_queued s.inbox m ≡ false)

-- Nobody waits for a file without a job, except for files that were noted.
abbrev pub IsAttended : List Text → QueueState → Type 0
IsAttended left s = (m : Text) → is_among left m ≡ false → IsIdle s m → get s.waiters m ≡ none

is_preparing-none : (p : Option Preparing) → is_preparing p ≡ false → p ≡ none
unfolding is_preparing
is_preparing-none none e = refl
is_preparing-none (some p) e = absurd cc

idle_of :
    (d : Option Downloading) (p : Option Preparing) (queued : Bool)
    → status_of d (is_preparing p || queued) ≡ none
    → (d ≡ none) × (p ≡ none) × (queued ≡ false)
unfolding status_of is_preparing
idle_of (some d) p queued e = absurd cc
idle_of none (some p) queued e = absurd cc
idle_of none none true e = absurd cc
idle_of none none false e = (refl, refl, refl)

pub status_in-IsIdle : (s : QueueState) (m : Text) → status_in s m ≡ none → IsIdle s m
unfolding status_in
status_in-IsIdle s m e = idle_of (get s.downloads m) (get s.preparing m) (is_queued s.inbox m) e

-- A change to the jobs and the waiters of one file.
pub only_there :
    (left : List Text) (s s' : QueueState) (mxc : Text)
    → IsAttended left s
    → ((m : Text) → text_eq mxc m ≡ false → IsIdle s' m → IsIdle s m)
    → ((m : Text) → text_eq mxc m ≡ false → get s'.waiters m ≡ get s.waiters m)
    → (is_among left mxc ≡ false → IsIdle s' mxc → get s'.waiters mxc ≡ none)
    → IsAttended left s'
only_there left s s' mxc h elsewhere same there m kept idle = elim (Bool-cases (text_eq mxc m)) [
  | inl at ↦
      let e = text_eq→eq mxc m at in
      subst (λ k. get s'.waiters k ≡ none) e
        (there (subst (λ k. is_among left k ≡ false) (sym e) kept) (subst (IsIdle s') (sym e) idle))
  | inr apart ↦ same m apart ∙ h m kept (elsewhere m apart idle)
]

pub some-none : {A : Type 0} {a : A} {o : Option A} → o ≡ some a → o ≡ none → ⊥
some-none e f = cc

-- What is known of the file is forgotten, and its jobs stay or go.
pub forgotten :
    (left : List Text) (s s' : QueueState) (mxc : Text)
    → IsAttended left s
    → s'.waiters ≡ without s.waiters mxc
    → ((m : Text) → text_eq mxc m ≡ false → IsIdle s' m → IsIdle s m)
    → IsAttended left s'
forgotten left s s' mxc h e elsewhere =
    only_there left s s' mxc h elsewhere
      (λ m apart. ap (λ w. get w m) e ∙ get-without_other s.waiters mxc m apart)
      λ kept idle. ap (λ w. get w mxc) e ∙ get-without_same s.waiters mxc

pub put_some :
    {A : Type 0} (entries : List (Text × A)) (k : Text) (a : A) → get (put entries k a) k ≡ none → ⊥
put_some entries k a e = some-none (get-put_same entries k a) e
