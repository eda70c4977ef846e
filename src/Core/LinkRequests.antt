-- ===== src/Core/LinkRequests.antt =====
-- crates/wbf-core/src/link_requests.rs: the queue of one link and its sender. A request is its action;
-- what the link does with a request, and when a reply comes, are arguments of the operations.
pub mod Conserved
pub mod Waiting
pub mod Drained
mod Tests
use wbf_matrix_client.Common.{
  ℕ, suc, ◌+◌, ◌-◌, ◌≡◌, Bool, true, false, not, ◌||◌, Option, none, some, List, [], ◌∷◌, ◌++◌, map,
  ltb, ◌==◌, if◌then◌else◌, length,
}

-- The queue, the requests on the wire by their numbers, the time that the line was last heard, the
-- tasks that wait for a reply, and what has come back to the owner.
pub record Line (A R : Type 0) : Type 0 where
  pub queued : List A
  pub requests : List (ℕ × A)
  pub heard_at : ℕ
  pub waiting : List ℕ
  pub replies : List (A × R)

-- What happens to the request that the sender took: no link is open, its number is in use on the
-- link, it goes out under a number, or the link refuses it with an error.
pub data Sending (R : Type 0) : Type 0 where
  no_link in_use : Sending R
  sent : ℕ → Sending R
  refused : R → Sending R

module _ {A R : Type 0} where
  unfoldable pub start : ℕ → Line A R
  start now = record { queued = []; requests = []; heard_at = now; waiting = []; replies = [] }

  unfoldable pub push_back : A → Line A R → Line A R
  push_back action line = record line { queued = line.queued ++ (action ∷ []) }

  unfoldable pub push_front : A → Line A R → Line A R
  push_front action line = record line { queued = action ∷ line.queued }

-- `retain` of what is not the action, for the equality of the actions.
unfoldable pub retain : {A : Type 0} → (A → A → Bool) → A → List A → List A
retain eq action [] = []
retain eq action (item ∷ items) =
    let rest = retain eq action items in if eq item action then rest else item ∷ rest

unfoldable pub withdraw : {A R : Type 0} → (A → A → Bool) → A → Line A R → Bool × Line A R
withdraw eq action line = (
  not (length (retain eq action line.queued) == length line.queued),
  record line { queued = retain eq action line.queued },
)

-- `HashMap::get` and `HashMap::remove` on the entries.
unfoldable pub find : {A : Type 0} → ℕ → List (ℕ × A) → Option A
find seq [] = none
find seq ((key, action) ∷ entries) = if key == seq then some action else find seq entries

unfoldable pub remove : {A : Type 0} → ℕ → List (ℕ × A) → List (ℕ × A)
remove seq [] = []
remove seq ((key, action) ∷ entries) =
    let rest = remove seq entries in if key == seq then entries else (key, action) ∷ rest

unfoldable pub is_waiting : ℕ → List ℕ → Bool
is_waiting seq [] = false
is_waiting seq (task ∷ tasks) = (task == seq) || is_waiting seq tasks

-- The task of a reply ends.
unfoldable pub end_task : ℕ → List ℕ → List ℕ
end_task seq [] = []
end_task seq (task ∷ tasks) =
    let rest = end_task seq tasks in if task == seq then tasks else task ∷ rest

module _ {A R : Type 0} where
  -- The time that a silence is counted from, when a request goes out.
  unfoldable pub heard_when : ℕ → Line A R → ℕ
  heard_when now line = if length line.requests == 0 then now else line.heard_at

  unfoldable pub send_first : ℕ → Sending R → Line A R → List A → Line A R
  send_first now sending line [] = line
  send_first now no_link line (action ∷ rest) = push_front action (record line { queued = rest })
  send_first now in_use line (action ∷ rest) = push_front action (record line { queued = rest })
  send_first now (sent seq) line (action ∷ rest) = record line {
    queued = rest;
    requests = (seq, action) ∷ remove seq line.requests;
    heard_at = heard_when now line;
    waiting = seq ∷ line.waiting;
  }
  send_first now (refused error) line (action ∷ rest) = record line {
    queued = rest;
    replies = line.replies ++ ((action, error) ∷ []);
  }

  -- One round of `send_queued` behind its check for silence.
  unfoldable pub send_next : ℕ → Sending R → Line A R → Line A R
  send_next now sending line = send_first now sending line line.queued

  -- The reply goes to the owner with the action, if it is still on the wire.
  unfoldable pub deliver : R → Line A R → Option A → Line A R
  deliver result line none = line
  deliver result line (some action) = record line {
    replies = line.replies ++ ((action, result) ∷ []);
  }

  -- The task that waits for a reply: what it does when the wait is over.
  unfoldable pub answered : ℕ → ℕ → R → Line A R → Line A R
  answered now seq result line =
      if is_waiting seq line.waiting
      then deliver result
          (record line {
            heard_at = now;
            requests = remove seq line.requests;
            waiting = end_task seq line.waiting;
          })
          (find seq line.requests)
      else line

  -- The answers to a line that is silent; `error` is `SdkError::Timeout`.
  unfoldable pub timed_out : R → List (ℕ × A) → List (A × R)
  timed_out error [] = []
  timed_out error ((seq, action) ∷ entries) = (action, error) ∷ timed_out error entries

  unfoldable pub time_out_if_silent : ℕ → R → ℕ → Line A R → Line A R
  time_out_if_silent silence_timeout error now line =
      if (length line.requests == 0) || ltb (now - line.heard_at) silence_timeout
      then line
      else record line {
        requests = [];
        waiting = [];
        replies = line.replies ++ timed_out error line.requests;
      }
