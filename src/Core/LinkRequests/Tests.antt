-- ===== src/Core/LinkRequests/Tests.antt =====
-- A line with one request on the wire and one queued, and the theorems of these modules at it.
use wbf_matrix_client.Common.{
  ℕ, ◌+◌, ◌≡◌, refl, arith, none, some, List, [], ◌∷◌, ◌++◌, ◌==◌, length,
}
use wbf_matrix_client.Core.LinkRequests.{
  Line, Sending, sent, start, push_back, push_front, find, remove, send_first, send_next,
  heard_when, answered, time_out_if_silent,
}
use wbf_matrix_client.Core.LinkRequests.Conserved.{
  Reach, starts, pushes_back, pushes_front, sends, weigh, on_wire, returned, Reach-conserved,
}
use wbf_matrix_client.Core.LinkRequests.Waiting.{Reach-answered}
use wbf_matrix_client.Core.LinkRequests.Drained.{send_all, AllSettle, Reach-drained}

-- Actions 4 and 5, of which 5 was pushed in front and sent under the first number of a link.
abbrev busy : Line ℕ ℕ
busy = send_next 7 (sent 0x80000000) (push_front 5 (push_back 4 (start 0)))

busy_run : busy.queued ≡ 4 ∷ []
unfolding start push_back push_front send_next send_first
busy_run = refl

fresh_run : find 0x80000000 (push_front 5 (push_back 4 (start {A = ℕ} {R = ℕ} 0))).requests ≡ none
unfolding start push_back push_front find
fresh_run = refl

busy_reached : Reach ◌==◌ 60 99 (5 ∷ 4 ∷ []) [] busy
busy_reached = sends 7 (sent 0x80000000) fresh_run (pushes_front 5 (pushes_back 4 (starts 0)))

Reach-conserved_example :
    weigh (λ a. a) (5 ∷ 4 ∷ [])
    ≡ weigh (λ a. a) []
      + (weigh (λ a. a) busy.queued
          + on_wire (λ a. a) busy.requests
          + returned (λ a. a) busy.replies)
Reach-conserved_example = Reach-conserved (λ a. a) busy_reached

on_wire_run : find 0x80000000 busy.requests ≡ some 5
unfolding start push_back push_front send_next send_first find remove
on_wire_run = refl

Reach-answered_example :
    ((answered 9 0x80000000 1 busy).replies ≡ busy.replies ++ ((5, 1) ∷ []))
    × ((answered 9 0x80000000 1 busy).requests ≡ remove 0x80000000 busy.requests)
    × ((answered 9 0x80000000 1 busy).heard_at ≡ 9)
Reach-answered_example = Reach-answered 9 0x80000000 1 5 busy_reached on_wire_run

abbrev rounds : List (ℕ × Sending ℕ)
rounds = (8, sent 0x80000001) ∷ []

settles_run : AllSettle busy rounds
unfolding start push_back push_front send_next send_first find remove
settles_run = (tt, refl, tt)

size_run : length busy.queued ≡ length rounds
unfolding start push_back push_front send_next send_first
size_run = refl

silent_run : (send_all rounds busy).heard_at + 60 ≡ 67
unfolding start push_back push_front send_next send_first heard_when remove
silent_run = refl

Reach-drained_example :
    ((time_out_if_silent 60 99 80 (send_all rounds busy)).queued ≡ [])
    × ((time_out_if_silent 60 99 80 (send_all rounds busy)).requests ≡ [])
    × (weigh (λ a. a) (5 ∷ 4 ∷ [])
        ≡ weigh (λ a. a) []
          + returned (λ a. a) (time_out_if_silent 60 99 80 (send_all rounds busy)).replies)
Reach-drained_example =
    Reach-drained rounds busy 80 (λ a. a) busy_reached settles_run size_run
      (omega (arith, silent_run))
