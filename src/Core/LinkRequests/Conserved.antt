-- ===== src/Core/LinkRequests/Conserved.antt =====
-- No request is lost and none is answered twice (crates/wbf-core/src/link_requests.rs).
use wbf_matrix_client.Common.{
  ℕ, ◌+◌, ◌-◌, ◌≡◌, refl, ap, arith, Bool, true, false, ◌||◌, Option, none, some, List, [], ◌∷◌,
  ◌++◌, ltb, ◌==◌, if◌then◌else◌, if-holds, length,
}
use wbf_matrix_client.Core.LinkRequests.{
  Line, Sending, no_link, in_use, sent, refused, start, push_back, push_front, retain, withdraw,
  find, remove, send_first, send_next, is_waiting, end_task, deliver, answered, timed_out,
  time_out_if_silent,
}

-- The sum of a weight over a list; a weight that is 1 at one action and 0 elsewhere counts it.
abbrev pub weigh : {A : Type 0} → (A → ℕ) → List A → ℕ
weigh f [] = 0
weigh f (a ∷ xs) = f a + weigh f xs

-- What a withdrawal takes out of the queue.
abbrev pub taken : {A : Type 0} → (A → A → Bool) → A → List A → List A
taken eq action [] = []
taken eq action (item ∷ items) =
    let rest = taken eq action items in if eq item action then item ∷ rest else rest

-- The number is not that of a request on the wire: `send_request` refuses a number in use.
abbrev pub IsFresh : {A R : Type 0} → Line A R → Sending R → Type 0
IsFresh line no_link = Unit {0}
IsFresh line in_use = Unit {0}
IsFresh line (sent seq) = find seq line.requests ≡ none
IsFresh line (refused error) = Unit {0}

-- The lines that the operations reach, in any order of pushes, withdrawals, sends, replies and
-- checks, with all that was pushed and all that was withdrawn.
pub data Reach {A R : Type 0} (eq : A → A → Bool) (timeout : ℕ) (late : R)
    : List A → List A → Line A R → Type 0 where
  starts : (now : ℕ) → Reach eq timeout late [] [] (start now)
  pushes_back :
      {pushed withdrawn : List A} {line : Line A R} (action : A)
      → Reach eq timeout late pushed withdrawn line
      → Reach eq timeout late (action ∷ pushed) withdrawn (push_back action line)
  pushes_front :
      {pushed withdrawn : List A} {line : Line A R} (action : A)
      → Reach eq timeout late pushed withdrawn line
      → Reach eq timeout late (action ∷ pushed) withdrawn (push_front action line)
  withdraws :
      {pushed withdrawn : List A} {line : Line A R} (action : A)
      → Reach eq timeout late pushed withdrawn line
      → Reach eq timeout late pushed
          (taken eq action line.queued ++ withdrawn)
          (withdraw eq action line).1
  sends :
      {pushed withdrawn : List A} {line : Line A R} (now : ℕ) (sending : Sending R)
      → IsFresh line sending
      → Reach eq timeout late pushed withdrawn line
      → Reach eq timeout late pushed withdrawn (send_next now sending line)
  replies :
      {pushed withdrawn : List A} {line : Line A R} (now seq : ℕ) (result : R)
      → Reach eq timeout late pushed withdrawn line
      → Reach eq timeout late pushed withdrawn (answered now seq result line)
  checks :
      {pushed withdrawn : List A} {line : Line A R} (now : ℕ)
      → Reach eq timeout late pushed withdrawn line
      → Reach eq timeout late pushed withdrawn (time_out_if_silent timeout late now line)

module _ {A : Type 0} (f : A → ℕ) where
  abbrev pub on_wire : List (ℕ × A) → ℕ
  on_wire [] = 0
  on_wire ((seq, action) ∷ entries) = f action + on_wire entries

  weigh-append : (xs ys : List A) → weigh f (xs ++ ys) ≡ weigh f xs + weigh f ys
  weigh-append [] ys = omega arith
  weigh-append (a ∷ xs) ys = omega (arith, weigh-append xs ys)

  retain-taken :
      (eq : A → A → Bool) (action : A) (items : List A)
      → weigh f (retain eq action items) + weigh f (taken eq action items) ≡ weigh f items
  unfolding retain
  retain-taken eq action [] = refl
  retain-taken eq action (item ∷ items) = split (eq item action) (retain-taken eq action items)
    where
      split :
          (b : Bool)
          → weigh f (retain eq action items) + weigh f (taken eq action items) ≡ weigh f items
          → weigh f (if b then retain eq action items else item ∷ retain eq action items)
              + weigh f (if b then item ∷ taken eq action items else taken eq action items)
            ≡ f item + weigh f items
      split true rest = omega arith
      split false rest = omega arith

  -- Taking an entry out of the map.
  abbrev one : Option A → ℕ
  one none = 0
  one (some action) = f action

  find-remove :
      (seq : ℕ) (entries : List (ℕ × A))
      → one (find seq entries) + on_wire (remove seq entries) ≡ on_wire entries
  unfolding find remove
  find-remove seq [] = refl
  find-remove seq ((key, action) ∷ entries) = split (key == seq) (find-remove seq entries)
    where
      split :
          (b : Bool)
          → one (find seq entries) + on_wire (remove seq entries) ≡ on_wire entries
          → one (if b then some action else find seq entries)
              + on_wire (if b then entries else (key, action) ∷ remove seq entries)
            ≡ f action + on_wire entries
      split true rest = refl
      split false rest = omega arith

  remove_fresh :
      (seq : ℕ) (entries : List (ℕ × A))
      → find seq entries ≡ none
      → on_wire (remove seq entries) ≡ on_wire entries
  remove_fresh seq entries fresh = omega (arith, find-remove seq entries, ap one fresh)

module _ {A R : Type 0} (f : A → ℕ) where
  abbrev pub returned : List (A × R) → ℕ
  returned [] = 0
  returned ((action, result) ∷ rest) = f action + returned rest

  -- All requests of a line, wherever they are.
  abbrev pub held : Line A R → ℕ
  held line = weigh f line.queued + on_wire f line.requests + returned line.replies

  returned-append : (xs ys : List (A × R)) → returned (xs ++ ys) ≡ returned xs + returned ys
  returned-append [] ys = omega arith
  returned-append ((a, r) ∷ xs) ys = omega (arith, returned-append xs ys)

  returned-timed_out :
      (error : R) (entries : List (ℕ × A)) → returned (timed_out error entries) ≡ on_wire f entries
  unfolding timed_out
  returned-timed_out error [] = refl
  returned-timed_out error ((seq, a) ∷ entries) = omega (arith, returned-timed_out error entries)

  push_back-held :
      (action : A) (line : Line A R) → held (push_back action line) ≡ f action + held line
  unfolding push_back
  push_back-held action line = omega (arith, weigh-append f line.queued (action ∷ []))

  send_first-held :
      (now : ℕ) (sending : Sending R) (line : Line A R) (queue : List A)
      → line.queued ≡ queue
      → IsFresh line sending
      → held (send_first now sending line queue) ≡ held line
  unfolding send_first push_front
  send_first-held now sending line [] e fresh = refl
  send_first-held now no_link line (action ∷ rest) e fresh = omega (arith, ap (weigh f) e)
  send_first-held now in_use line (action ∷ rest) e fresh = omega (arith, ap (weigh f) e)
  send_first-held now (sent seq) line (action ∷ rest) e fresh =
      omega (arith, ap (weigh f) e, remove_fresh f seq line.requests fresh)
  send_first-held now (refused error) line (action ∷ rest) e fresh =
      omega (arith, ap (weigh f) e, returned-append line.replies ((action, error) ∷ []))

  deliver-held :
      (result : R) (line : Line A R) (o : Option A)
      → held (deliver result line o) ≡ one f o + held line
  unfolding deliver
  deliver-held result line none = omega arith
  deliver-held result line (some action) =
      omega (arith, returned-append line.replies ((action, result) ∷ []))

  answered-held :
      (now seq : ℕ) (result : R) (line : Line A R) → held (answered now seq result line) ≡ held line
  unfolding answered
  answered-held now seq result line =
      if-holds {A = Line A R} (λ l. held l ≡ held line) (is_waiting seq line.waiting) _ _
        (λ waits. omega (
          arith,
          deliver-held result
              (record line {
                heard_at = now;
                requests = remove seq line.requests;
                waiting = end_task seq line.waiting;
              })
              (find seq line.requests),
          find-remove f seq line.requests,
        ))
        λ late. refl

  time_out-held :
      (timeout : ℕ) (error : R) (now : ℕ) (line : Line A R)
      → held (time_out_if_silent timeout error now line) ≡ held line
  unfolding time_out_if_silent
  time_out-held timeout error now line =
      if-holds {A = Line A R} (λ l. held l ≡ held line)
        ((length line.requests == 0) || ltb (now - line.heard_at) timeout) _ _ (λ live. refl)
        λ silent. omega (
          arith,
          returned-append line.replies (timed_out error line.requests),
          returned-timed_out error line.requests,
        )

  -- In every line that is reached, where a number that the link gives is not that of a request on
  -- the wire: by every weight, what was pushed is what was withdrawn, what is queued, what is on the
  -- wire and what was returned. So each request is in one of these places, and only once.
  pub Reach-conserved :
      {eq : A → A → Bool} {timeout : ℕ} {late : R} {pushed withdrawn : List A} {line : Line A R}
      → Reach eq timeout late pushed withdrawn line
      → weigh f pushed
        ≡ weigh f withdrawn
          + (weigh f line.queued + on_wire f line.requests + returned line.replies)
  unfolding start push_front withdraw send_next
  Reach-conserved (starts now) = refl
  Reach-conserved (pushes_back {line} action r) =
      omega (arith, Reach-conserved r, push_back-held action line)
  Reach-conserved (pushes_front action r) = omega (arith, Reach-conserved r)
  Reach-conserved {eq} (withdraws {withdrawn} {line} action r) = omega (
    arith,
    Reach-conserved r,
    retain-taken f eq action line.queued,
    weigh-append f (taken eq action line.queued) withdrawn,
  )
  Reach-conserved (sends {line} now sending fresh r) =
      omega (arith, Reach-conserved r, send_first-held now sending line line.queued refl fresh)
  Reach-conserved (replies {line} now seq result r) =
      omega (arith, Reach-conserved r, answered-held now seq result line)
  Reach-conserved {timeout} {late} (checks {line} now r) =
      omega (arith, Reach-conserved r, time_out-held timeout late now line)
