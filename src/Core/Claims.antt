-- ===== src/Core/Claims.antt =====
-- `MediaClaims` of crates/wbf-core/src/download_queue.rs: which handler downloads a file of a server.
-- The map is a list of its entries; a holder's queue is its number, and `alive` tells whether the
-- weak reference still upgrades and the queue has not stopped.
pub mod Exclusive
use wbf_matrix_client.Common.{
  ℕ, suc, ◌+◌, ◌%◌, ◌^◌, Bool, true, false, not, ◌&&◌, Option, none, some, List, [], ◌∷◌, ◌==◌,
  if◌then◌else◌, and_then,
}
use wbf_matrix_client.Media.Block.{Text, text_eq}

pub record ClaimHolder : Type 0 where
  pub user : Text
  pub handler : ℕ
  pub queue : ℕ

-- The directory of the server and the address of the file.
abbrev pub Key : Type 0
Key = Text × Text

abbrev pub Held : Type 0
Held = List (Key × ClaimHolder)

pub record MediaClaims : Type 0 where
  pub held : Held
  pub next_handler : ℕ

unfoldable pub key_eq : Key → Key → Bool
key_eq (dir, mxc) (dir', mxc') = text_eq dir dir' && text_eq mxc mxc'

unfoldable pub lookup : Held → Key → Option ClaimHolder
lookup [] key = none
lookup ((k, holder) ∷ rest) key =
    let later = lookup rest key in if key_eq k key then some holder else later

unfoldable pub remove : Held → Key → Held
remove [] key = []
remove ((k, holder) ∷ rest) key =
    let rest' = remove rest key in if key_eq k key then rest' else (k, holder) ∷ rest'

-- The counter is an `AtomicU64`, which wraps around.
unfoldable pub new_holder : MediaClaims → Text → ℕ → ClaimHolder × MediaClaims
new_holder claims user queue = (
  record { user = user; handler = claims.next_handler; queue = queue },
  record claims { next_handler = (claims.next_handler + 1) % 2 ^ 64 },
)

unfoldable pub other_queue : (ℕ → Bool) → Option ClaimHolder → ClaimHolder → Option ℕ
other_queue alive none holder = none
other_queue alive (some current) holder =
    if current.handler == holder.handler
    then none
    else if alive current.queue
    then some current.queue
    else none

unfoldable pub find_other_downloader : (ℕ → Bool) → MediaClaims → Key → ClaimHolder → Option ℕ
find_other_downloader alive claims key holder = other_queue alive (lookup claims.held key) holder

-- The entry of the key, which is made for the holder where there is none.
unfoldable pub claim_entry :
    MediaClaims → Key → ClaimHolder → Option ClaimHolder → Bool × MediaClaims
claim_entry claims key holder none =
    (holder.handler == holder.handler, record claims { held = (key, holder) ∷ claims.held })
claim_entry claims key holder (some current) = (current.handler == holder.handler, claims)

unfoldable pub claim : MediaClaims → Key → ClaimHolder → Bool × MediaClaims
claim claims key holder = claim_entry claims key holder (lookup claims.held key)

unfoldable pub release_entry : MediaClaims → Key → ClaimHolder → Option ClaimHolder → MediaClaims
release_entry claims key holder none = claims
release_entry claims key holder (some current) =
    if current.handler == holder.handler
    then record claims { held = remove claims.held key }
    else claims

unfoldable pub release : MediaClaims → Key → ClaimHolder → MediaClaims
release claims key holder = release_entry claims key holder (lookup claims.held key)

unfoldable pub find_holder : MediaClaims → Key → Option Text
find_holder claims key = and_then (lookup claims.held key) λ holder. some holder.user
