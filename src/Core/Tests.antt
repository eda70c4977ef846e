-- ===== src/Core/Tests.antt =====
-- Two handlers and one file, and the theorems on claims at them.
use wbf_matrix_client.Common.{◌≡◌, ◌≢◌, inr, refl, arith, List, [], ◌∷◌, true, false, All}
use wbf_matrix_client.Core.Claims.{ClaimHolder, Key, MediaClaims, claim, claim_entry, lookup}
use wbf_matrix_client.Core.Claims.Exclusive.{
  ClaimOp, claims_it, releases_it, Leaves, run, claim_exclusive,
}

abbrev nobody : MediaClaims
nobody = record { held = []; next_handler = 2 }

abbrev alice : ClaimHolder
alice = record { user = b'a' ∷ []; handler = 0; queue = 0 }

abbrev bob : ClaimHolder
bob = record { user = b'b' ∷ []; handler = 1; queue = 1 }

abbrev film : Key
film = (b's' ∷ [], b'f' ∷ [])

granted_run : (claim nobody film alice).0 ≡ true
unfolding claim claim_entry lookup
granted_run = refl

abbrev meanwhile : List ClaimOp
meanwhile = claims_it film bob ∷ releases_it film bob ∷ []

bob_is_other : bob.handler ≢ alice.handler
bob_is_other e = absurd (omega arith)

alice_is_other : alice.handler ≢ bob.handler
alice_is_other e = absurd (omega arith)

meanwhile-Leaves : All (Leaves film 0) meanwhile
meanwhile-Leaves = (tt, (inr bob_is_other, tt))

claim_exclusive_example : (claim (run (claim nobody film alice).1 meanwhile) film bob).0 ≡ false
claim_exclusive_example =
    claim_exclusive nobody film alice bob meanwhile granted_run meanwhile-Leaves alice_is_other
