-- ===== src/Core/LinkRequests/Drained.antt =====
-- A line whose link takes its requests is emptied (crates/wbf-core/src/link_requests.rs).
use wbf_matrix_client.Common.{
  ℕ, suc, ◌+◌, ◌-◌, ◌≤◌, ◌≡◌, refl, ap, ◌∙◌, arith, Bool, ◌||◌, List, [], ◌∷◌, ltb, ◌==◌, if-holds,
  length, length-eq-zero,
}
use wbf_matrix_client.Core.LinkRequests.{
  Line, Sending, no_link, in_use, sent, refused, send_first, send_next, time_out_if_silent,
}
use wbf_matrix_client.Core.LinkRequests.Conserved.{
  Reach, IsFresh, sends, checks, weigh, on_wire, returned, Reach-conserved,
}

-- The link takes the request or refuses it; it does not put it back.
abbrev pub Settles : {R : Type 0} → Sending R → Type 0
Settles no_link = ⊥
Settles in_use = ⊥
Settles (sent seq) = Unit {0}
Settles (refused error) = Unit {0}

module _ {A R : Type 0} where
  -- The rounds of the sender, each with its time and what the link does.
  abbrev pub send_all : List (ℕ × Sending R) → Line A R → Line A R
  send_all [] line = line
  send_all ((now, sending) ∷ rounds) line = send_all rounds (send_next now sending line)

  abbrev pub AllSettle : Line A R → List (ℕ × Sending R) → Type 0
  AllSettle line [] = Unit {0}
  AllSettle line ((now, sending) ∷ rounds) =
      Settles sending × IsFresh line sending × AllSettle (send_next now sending line) rounds

  send_first-queued :
      (now : ℕ) (sending : Sending R) (line : Line A R) (action : A) (rest : List A)
      → Settles sending
      → (send_first now sending line (action ∷ rest)).queued ≡ rest
  unfolding send_first
  send_first-queued now no_link line action rest h = absurd h
  send_first-queued now in_use line action rest h = absurd h
  send_first-queued now (sent seq) line action rest h = refl
  send_first-queued now (refused error) line action rest h = refl

  send_next-length :
      (now : ℕ) (sending : Sending R) (line : Line A R) (n : ℕ) (queue : List A)
      → line.queued ≡ queue
      → Settles sending
      → length queue ≡ suc n
      → length (send_next now sending line).queued ≡ n
  unfolding send_next
  send_next-length now sending line n [] e h size = absurd (omega arith)
  send_next-length now sending line n (action ∷ rest) e h size =
      ap length (
        ap (λ q. (send_first now sending line q).queued) e
        ∙ send_first-queued now sending line action rest h)
      ∙ omega arith

  send_all-queued :
      (rounds : List (ℕ × Sending R)) (line : Line A R)
      → AllSettle line rounds
      → length line.queued ≡ length rounds
      → (send_all rounds line).queued ≡ []
  send_all-queued [] line h size = length-eq-zero line.queued size
  send_all-queued ((now, sending) ∷ rounds) line h size =
      send_all-queued rounds (send_next now sending line) h.2
        (send_next-length now sending line (length rounds) line.queued refl h.0 size)

  send_all-Reach :
      {eq : A → A → Bool} {timeout : ℕ} {late : R} {pushed withdrawn : List A}
      (rounds : List (ℕ × Sending R)) (line : Line A R)
      → AllSettle line rounds
      → Reach eq timeout late pushed withdrawn line
      → Reach eq timeout late pushed withdrawn (send_all rounds line)
  send_all-Reach [] line h r = r
  send_all-Reach ((now, sending) ∷ rounds) line h r =
      send_all-Reach rounds (send_next now sending line) h.2 (sends now sending h.1 r)

  time_out-empties :
      (timeout : ℕ) (error : R) (now : ℕ) (line : Line A R)
      → line.heard_at + timeout ≤ now
      → ((time_out_if_silent timeout error now line).requests ≡ [])
        × ((time_out_if_silent timeout error now line).queued ≡ line.queued)
  unfolding time_out_if_silent
  time_out-empties timeout error now line late =
      if-holds {A = Line A R} (λ l. (l.requests ≡ []) × (l.queued ≡ line.queued))
        ((length line.requests == 0) || ltb (now - line.heard_at) timeout) _ _
        (λ quiet. (length-eq-zero line.requests (ground arith), refl)) λ silent. (refl, refl)

  -- From every line that is reached: after as many rounds of the sender as requests are queued, in
  -- each of which the link takes the request under a number that is not in use or refuses it, and a
  -- check when the line has been silent for the timeout, nothing is queued or on the wire, and by
  -- every weight what was pushed is what was withdrawn and what was returned to the owner.
  pub Reach-drained :
      {eq : A → A → Bool} {timeout : ℕ} {late : R} {pushed withdrawn : List A}
      (rounds : List (ℕ × Sending R)) (line : Line A R) (now : ℕ) (f : A → ℕ)
      → Reach eq timeout late pushed withdrawn line
      → AllSettle line rounds
      → length line.queued ≡ length rounds
      → (send_all rounds line).heard_at + timeout ≤ now
      → ((time_out_if_silent timeout late now (send_all rounds line)).queued ≡ [])
        × ((time_out_if_silent timeout late now (send_all rounds line)).requests ≡ [])
        × (weigh f pushed
            ≡ weigh f withdrawn
              + returned f (time_out_if_silent timeout late now (send_all rounds line)).replies)
  Reach-drained {timeout} {late} rounds line now f r settle size silent =
      let end = send_all rounds line in
      let (empty_wire, same_queue) = time_out-empties timeout late now end silent in
      let empty_queue = same_queue ∙ send_all-queued rounds line settle size in
      let all = Reach-conserved f (checks now (send_all-Reach rounds line settle r)) in
      (
        empty_queue,
        empty_wire,
        omega (arith, all, ap (weigh f) empty_queue, ap (on_wire f) empty_wire),
      )
