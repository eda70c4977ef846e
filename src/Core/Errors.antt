-- ===== src/Core/Errors.antt =====
-- `CoreErrorKind` of crates/wbf-core/src/error.rs, its RPC codes, and the HTTP status that the data
-- plane answers with (crates/wbf-daemon/src/data_plane.rs).
use wbf_matrix_client.Common.{
  ℕ, ◌≡◌, ◌≤◌, ◌<◌, refl, sym, ap, ◌∙◌, arith, Option, none, some, ◌==◌, if◌then◌else◌,
}

pub data CoreErrorKind : Type 0 where
  locked no_key_file need_passphrase unexpected_passphrase wrong_passphrase no_such_account :
      CoreErrorKind
  ambiguous_account not_logged_in account_busy server_pending_removal no_recovery_key_here
        history_would_be_lost :
      CoreErrorKind
  usage io network server room_devices_changed room_key_not_ready : CoreErrorKind
  integrity unverified timeout : CoreErrorKind

unfoldable pub rpc_code : CoreErrorKind → ℕ
rpc_code locked = 1001
rpc_code no_key_file = 1002
rpc_code need_passphrase = 1003
rpc_code unexpected_passphrase = 1004
rpc_code wrong_passphrase = 1005
rpc_code no_such_account = 1010
rpc_code ambiguous_account = 1011
rpc_code not_logged_in = 1012
rpc_code account_busy = 1013
rpc_code server_pending_removal = 1014
rpc_code no_recovery_key_here = 1020
rpc_code history_would_be_lost = 1021
rpc_code usage = 1100
rpc_code io = 1200
rpc_code network = 1300
rpc_code server = 1400
rpc_code room_devices_changed = 1401
rpc_code room_key_not_ready = 1402
rpc_code integrity = 1500
rpc_code unverified = 1501
rpc_code timeout = 1600

-- The status of `core_error_reply`.
unfoldable pub status_of : CoreErrorKind → ℕ
status_of usage = 400
status_of no_such_account = 404
status_of not_logged_in = 404
status_of locked = 503
status_of no_key_file = 503
status_of network = 502
status_of server = 502
status_of timeout = 502
status_of _ = 500

-- The kind of a code.
unfoldable kind_of : ℕ → Option CoreErrorKind
kind_of code =
    if code == 1001
    then some locked
    else if code == 1002
    then some no_key_file
    else if code == 1003
    then some need_passphrase
    else if code == 1004
    then some unexpected_passphrase
    else if code == 1005
    then some wrong_passphrase
    else if code == 1010
    then some no_such_account
    else if code == 1011
    then some ambiguous_account
    else if code == 1012
    then some not_logged_in
    else if code == 1013
    then some account_busy
    else if code == 1014
    then some server_pending_removal
    else if code == 1020
    then some no_recovery_key_here
    else if code == 1021
    then some history_would_be_lost
    else if code == 1100
    then some usage
    else if code == 1200
    then some io
    else if code == 1300
    then some network
    else if code == 1400
    then some server
    else if code == 1401
    then some room_devices_changed
    else if code == 1402
    then some room_key_not_ready
    else if code == 1500
    then some integrity
    else if code == 1501
    then some unverified
    else if code == 1600
    then some timeout
    else none

kind_of-rpc_code : (k : CoreErrorKind) → kind_of (rpc_code k) ≡ some k
unfolding kind_of rpc_code
kind_of-rpc_code locked = refl
kind_of-rpc_code no_key_file = refl
kind_of-rpc_code need_passphrase = refl
kind_of-rpc_code unexpected_passphrase = refl
kind_of-rpc_code wrong_passphrase = refl
kind_of-rpc_code no_such_account = refl
kind_of-rpc_code ambiguous_account = refl
kind_of-rpc_code not_logged_in = refl
kind_of-rpc_code account_busy = refl
kind_of-rpc_code server_pending_removal = refl
kind_of-rpc_code no_recovery_key_here = refl
kind_of-rpc_code history_would_be_lost = refl
kind_of-rpc_code usage = refl
kind_of-rpc_code io = refl
kind_of-rpc_code network = refl
kind_of-rpc_code server = refl
kind_of-rpc_code room_devices_changed = refl
kind_of-rpc_code room_key_not_ready = refl
kind_of-rpc_code integrity = refl
kind_of-rpc_code unverified = refl
kind_of-rpc_code timeout = refl

some_injective : {a b : CoreErrorKind} → some a ≡ some b → a ≡ b
some_injective h = cc

rpc_code-range : (k : CoreErrorKind) → (1000 ≤ rpc_code k) × (rpc_code k < 2000)
unfolding rpc_code
rpc_code-range locked = (omega arith, omega arith)
rpc_code-range no_key_file = (omega arith, omega arith)
rpc_code-range need_passphrase = (omega arith, omega arith)
rpc_code-range unexpected_passphrase = (omega arith, omega arith)
rpc_code-range wrong_passphrase = (omega arith, omega arith)
rpc_code-range no_such_account = (omega arith, omega arith)
rpc_code-range ambiguous_account = (omega arith, omega arith)
rpc_code-range not_logged_in = (omega arith, omega arith)
rpc_code-range account_busy = (omega arith, omega arith)
rpc_code-range server_pending_removal = (omega arith, omega arith)
rpc_code-range no_recovery_key_here = (omega arith, omega arith)
rpc_code-range history_would_be_lost = (omega arith, omega arith)
rpc_code-range usage = (omega arith, omega arith)
rpc_code-range io = (omega arith, omega arith)
rpc_code-range network = (omega arith, omega arith)
rpc_code-range server = (omega arith, omega arith)
rpc_code-range room_devices_changed = (omega arith, omega arith)
rpc_code-range room_key_not_ready = (omega arith, omega arith)
rpc_code-range integrity = (omega arith, omega arith)
rpc_code-range unverified = (omega arith, omega arith)
rpc_code-range timeout = (omega arith, omega arith)

-- A code tells the kind: no two kinds have the same, and all are in the range of the core.
pub rpc_code-injective :
    (k : CoreErrorKind)
    → (1000 ≤ rpc_code k)
      × (rpc_code k < 2000)
      × ((l : CoreErrorKind) → rpc_code k ≡ rpc_code l → k ≡ l)
rpc_code-injective k =
    let (low, high) = rpc_code-range k in
    (
      low,
      high,
      λ l same. some_injective (sym (kind_of-rpc_code k) ∙ ap kind_of same ∙ kind_of-rpc_code l),
    )
