-- ===== src/Core/LinkRequests/Waiting.antt =====
-- Every request on the wire has a task that waits for its reply, so a reply that comes reaches the
-- owner (crates/wbf-core/src/link_requests.rs).
use wbf_matrix_client.Common.{
  ℕ, ◌+◌, ◌-◌, ◌≤◌, ◌<◌, ◌≡◌, refl, subst, arith, Bool, true, false, ◌||◌, Option, none, some, List,
  [], ◌∷◌, ◌++◌, ltb, ◌==◌, if◌then◌else◌, if-holds, length,
}
use native.Mathlib.Decide.{ℕ_discrete}
use wbf_matrix_client.Core.LinkRequests.{
  Line, Sending, no_link, in_use, sent, refused, start, push_back, push_front, withdraw, find,
  remove, send_first, send_next, is_waiting, end_task, deliver, answered, time_out_if_silent,
}
use wbf_matrix_client.Core.LinkRequests.Conserved.{
  Reach, starts, pushes_back, pushes_front, withdraws, sends, replies, checks,
}

-- How many tasks wait for a number, and how many requests have it.
abbrev tasks_of : ℕ → List ℕ → ℕ
tasks_of seq [] = 0
tasks_of seq (task ∷ tasks) = (if task == seq then 1 else 0) + tasks_of seq tasks

abbrev entries_of : {A : Type 0} → ℕ → List (ℕ × A) → ℕ
entries_of seq [] = 0
entries_of seq ((key, action) ∷ entries) = (if key == seq then 1 else 0) + entries_of seq entries

is_waiting-tasks_of :
    (seq : ℕ) (tasks : List ℕ) → 0 < tasks_of seq tasks → is_waiting seq tasks ≡ true
unfolding is_waiting
is_waiting-tasks_of seq [] h = absurd (omega arith)
is_waiting-tasks_of seq (task ∷ tasks) h = ground (arith, is_waiting-tasks_of seq tasks)

tasks_of-end_task :
    (seq other : ℕ) (tasks : List ℕ)
    → tasks_of other tasks ≤ tasks_of other (end_task seq tasks) + (if seq == other then 1 else 0)
unfolding end_task
tasks_of-end_task seq other [] = omega arith
tasks_of-end_task seq other (task ∷ tasks) = ground (arith, tasks_of-end_task seq other tasks)

module _ {A : Type 0} where
  find-entries_of :
      (seq : ℕ) (entries : List (ℕ × A)) (action : A)
      → find seq entries ≡ some action
      → 0 < entries_of seq entries
  unfolding find
  find-entries_of seq [] action e = absurd cc
  find-entries_of seq ((key, a) ∷ entries) action e =
      ground (arith, find-entries_of seq entries action)

  remove-entries_of :
      (seq other : ℕ) (entries : List (ℕ × A))
      → entries_of other (remove seq entries) ≤ entries_of other entries
  unfolding remove
  remove-entries_of seq other [] = omega arith
  remove-entries_of seq other ((key, a) ∷ entries) =
      ground (arith, remove-entries_of seq other entries)

  -- A request leaves the map, if there is one of that number.
  remove-entries_of_same :
      (seq : ℕ) (entries : List (ℕ × A))
      → entries_of seq (remove seq entries) ≡ entries_of seq entries - 1
  unfolding remove
  remove-entries_of_same seq [] = omega arith
  remove-entries_of_same seq ((key, a) ∷ entries) =
      ground (arith, remove-entries_of_same seq entries)

module _ {A R : Type 0} where
  abbrev HasTasks : Line A R → Type 0
  HasTasks line = (seq : ℕ) → entries_of seq line.requests ≤ tasks_of seq line.waiting

  send_first-HasTasks :
      (now : ℕ) (sending : Sending R) (line : Line A R) (queue : List A)
      → HasTasks line
      → HasTasks (send_first now sending line queue)
  unfolding send_first push_front
  send_first-HasTasks now sending line [] h = h
  send_first-HasTasks now no_link line (action ∷ rest) h = h
  send_first-HasTasks now in_use line (action ∷ rest) h = h
  send_first-HasTasks now (sent seq) line (action ∷ rest) h =
      λ other. omega (arith, h other, remove-entries_of seq other line.requests)
  send_first-HasTasks now (refused error) line (action ∷ rest) h = h

  deliver-HasTasks :
      (result : R) (line : Line A R) (o : Option A)
      → HasTasks line
      → HasTasks (deliver result line o)
  unfolding deliver
  deliver-HasTasks result line none h = h
  deliver-HasTasks result line (some action) h = h

  answered-HasTasks :
      (now seq : ℕ) (result : R) (line : Line A R)
      → HasTasks line
      → HasTasks (answered now seq result line)
  unfolding answered
  answered-HasTasks now seq result line h =
      if-holds {A = Line A R} HasTasks (is_waiting seq line.waiting) _ _
        (λ waits. deliver-HasTasks result _ (find seq line.requests) still) λ late. h
    where
      still :
          (other : ℕ)
          → entries_of other (remove seq line.requests) ≤ tasks_of other (end_task seq line.waiting)
      still other = elim (ℕ_discrete seq other) [
        | yes same ↦
            subst
              (λ k.
                entries_of k (remove seq line.requests) ≤ tasks_of k (end_task seq line.waiting))
              same
              (ground (
                arith,
                h seq,
                tasks_of-end_task seq seq line.waiting,
                remove-entries_of_same seq line.requests,
              ))
        | no differ ↦
            let apart : (seq == other) ≡ false = ground arith in
            ground (
              arith,
              h other,
              tasks_of-end_task seq other line.waiting,
              remove-entries_of seq other line.requests,
            )
      ]

  time_out-HasTasks :
      (timeout : ℕ) (error : R) (now : ℕ) (line : Line A R)
      → HasTasks line
      → HasTasks (time_out_if_silent timeout error now line)
  unfolding time_out_if_silent
  time_out-HasTasks timeout error now line h =
      if-holds {A = Line A R} HasTasks
        ((length line.requests == 0) || ltb (now - line.heard_at) timeout) _ _ (λ live. h)
        λ silent other. omega arith

  Reach-HasTasks :
      {eq : A → A → Bool} {timeout : ℕ} {late : R} {pushed withdrawn : List A} {line : Line A R}
      → Reach eq timeout late pushed withdrawn line
      → HasTasks line
  unfolding start push_back push_front withdraw send_next
  Reach-HasTasks (starts now) = λ seq. omega arith
  Reach-HasTasks (pushes_back action r) = Reach-HasTasks r
  Reach-HasTasks (pushes_front action r) = Reach-HasTasks r
  Reach-HasTasks (withdraws action r) = Reach-HasTasks r
  Reach-HasTasks (sends {line} now sending fresh r) =
      send_first-HasTasks now sending line line.queued (Reach-HasTasks r)
  Reach-HasTasks (replies {line} now seq result r) =
      answered-HasTasks now seq result line (Reach-HasTasks r)
  Reach-HasTasks {timeout} {late} (checks {line} now r) =
      time_out-HasTasks timeout late now line (Reach-HasTasks r)

  -- In every line that is reached, a reply to a request that is on the wire, a failed wait too, hands
  -- the owner the action of that request with the result, behind what it had before, and takes the
  -- request off the wire.
  pub Reach-answered :
      {eq : A → A → Bool} {timeout : ℕ} {late : R} {pushed withdrawn : List A} {line : Line A R}
      (now seq : ℕ) (result : R) (action : A)
      → Reach eq timeout late pushed withdrawn line
      → find seq line.requests ≡ some action
      → ((answered now seq result line).replies ≡ line.replies ++ ((action, result) ∷ []))
        × ((answered now seq result line).requests ≡ remove seq line.requests)
        × ((answered now seq result line).heard_at ≡ now)
  unfolding answered deliver
  Reach-answered {line} now seq result action r there =
      let waits =
        is_waiting-tasks_of seq line.waiting
          (omega (arith, Reach-HasTasks r seq, find-entries_of seq line.requests action there)) in
      rw (waits, there) (refl, refl, refl)
