-- ===== src/Core/Claims/Exclusive.antt =====
-- One downloader for a file at a time (crates/wbf-core/src/download_queue.rs).
use wbf_matrix_client.Common.{
  ℕ, ◌≡◌, ◌≢◌, ◌⊎◌, inl, inr, refl, sym, ap, ap₂, ◌∙◌, arith, true, false, Option, none, some, List,
  [], ◌∷◌, ◌==◌, ==_self, ==→eq, if◌then◌else◌, if-holds, All, Bool-cases,
}
use wbf_matrix_client.Media.Block.{text_eq}
use wbf_matrix_client.Media.Block.Checks.{text_eq_self, text_eq→eq}
use wbf_matrix_client.Core.Claims.{
  ClaimHolder, Held, Key, MediaClaims, claim, claim_entry, key_eq, lookup, release, release_entry,
  remove,
}

pub data ClaimOp : Type 0 where
  claims_it releases_it : Key → ClaimHolder → ClaimOp

unfoldable pub apply : MediaClaims → ClaimOp → MediaClaims
apply claims (claims_it key holder) = (claim claims key holder).1
apply claims (releases_it key holder) = release claims key holder

unfoldable pub run : MediaClaims → List ClaimOp → MediaClaims
run claims [] = claims
run claims (op ∷ ops) = run (apply claims op) ops

-- The operation does not give up the claim of this handler on the key.
abbrev pub Leaves : Key → ℕ → ClaimOp → Type 0
Leaves key handler (claims_it k h) = Unit
Leaves key handler (releases_it k h) = (k ≢ key) ⊎ (h.handler ≢ handler)

-- A handler holds a key.
abbrev pub HeldBy : MediaClaims → Key → ℕ → Type 0
HeldBy claims key handler =
    (holder : ClaimHolder) × (lookup claims.held key ≡ some holder) × (holder.handler ≡ handler)

pub key_eq_self : (k : Key) → key_eq k k ≡ true
unfolding key_eq
key_eq_self (dir, mxc) = ground (arith, text_eq_self dir, text_eq_self mxc)

pub key_eq→eq : (k l : Key) → key_eq k l ≡ true → k ≡ l
unfolding key_eq
key_eq→eq (dir, mxc) (dir', mxc') h =
    let d : text_eq dir dir' ≡ true = ground arith in
    let m : text_eq mxc mxc' ≡ true = ground arith in
    ap₂ (λ x y. (x, y)) (text_eq→eq dir dir' d) (text_eq→eq mxc mxc' m)

keys_apart : (k l : Key) → k ≢ l → key_eq k l ≡ false
keys_apart k l ne = elim (Bool-cases (key_eq k l)) [
  | inl same ↦ absurd (ne (key_eq→eq k l same))
  | inr e ↦ e
]

lookup-remove_other :
    (held : Held) (k key : Key) → k ≢ key → lookup (remove held k) key ≡ lookup held key
unfolding lookup remove
lookup-remove_other [] k key ne = refl
lookup-remove_other ((l, holder) ∷ rest) k key ne = elim (Bool-cases (key_eq l k)) [
  | inl gone ↦
      let apart : key_eq l key ≡ false =
        keys_apart l key (λ e. ne (sym (key_eq→eq l k gone) ∙ e)) in
      rw (gone, apart) (lookup-remove_other rest k key ne)
  | inr kept ↦
      rw kept
        (ap (λ t. if key_eq l key then some holder else t) (lookup-remove_other rest k key ne))
]

lookup-remove : (held : Held) (key : Key) → lookup (remove held key) key ≡ none
unfolding lookup remove
lookup-remove [] key = refl
lookup-remove ((l, holder) ∷ rest) key = elim (Bool-cases (key_eq l key)) [
  | inl gone ↦ rw gone (lookup-remove rest key)
  | inr kept ↦ rw (kept, kept) (lookup-remove rest key)
]

-- A claim is granted exactly to the handler that holds the key afterwards.
claim-HeldBy :
    (claims : MediaClaims) (key : Key) (holder : ClaimHolder)
    → (claim claims key holder).0 ≡ true
    → HeldBy (claim claims key holder).1 key holder.handler
unfolding claim claim_entry lookup
claim-HeldBy claims key holder = entry (lookup claims.held key) refl
  where
    entry :
        (o : Option ClaimHolder)
        → lookup claims.held key ≡ o
        → (claim_entry claims key holder o).0 ≡ true
        → HeldBy (claim_entry claims key holder o).1 key holder.handler
    entry none e h = (holder, rw (key_eq_self key) refl, refl)
    entry (some current) e h = (current, e, ==→eq current.handler holder.handler h)

claim_kept :
    (claims : MediaClaims) (key k : Key) (h : ClaimHolder) (handler : ℕ) (o : Option ClaimHolder)
    → lookup claims.held k ≡ o
    → HeldBy claims key handler
    → HeldBy (claim_entry claims k h o).1 key handler
unfolding claim_entry lookup
claim_kept claims key k h handler none e (holder, found, same) =
    let apart : key_eq k key ≡ false =
      keys_apart k key (λ eq. absurd (none_some (sym e ∙ ap (lookup claims.held) eq ∙ found))) in
    (holder, (rw apart found), same)
  where
    none_some : {a : ClaimHolder} → ◌≡◌ {A = Option ClaimHolder} none (some a) → ⊥
    none_some p = cc
claim_kept claims key k h handler (some current) e held = held

release_kept :
    (claims : MediaClaims) (key k : Key) (h : ClaimHolder) (handler : ℕ) (o : Option ClaimHolder)
    → lookup claims.held k ≡ o
    → (k ≢ key) ⊎ (h.handler ≢ handler)
    → HeldBy claims key handler
    → HeldBy (release_entry claims k h o) key handler
unfolding release_entry
release_kept claims key k h handler none e leaves held = held
release_kept claims key k h handler (some current) e leaves (holder, found, same) =
    if-holds {A = MediaClaims} (λ c. HeldBy c key handler) (current.handler == h.handler) _ _
      (λ own. (holder, lookup-remove_other claims.held k key (other_key own) ∙ found, same))
      (λ foreign. (holder, found, same))
  where
    other_key : (current.handler == h.handler) ≡ true → k ≢ key
    other_key own eq =
        let current_is : some current ≡ some holder = sym e ∙ ap (lookup claims.held) eq ∙ found in
        let mine : h.handler ≡ handler =
          sym (==→eq current.handler h.handler own) ∙ handlers current_is ∙ same in
        elim leaves [ inl ne ↦ ne eq | inr ne ↦ ne mine ]
      where
        handlers : some current ≡ some holder → current.handler ≡ holder.handler
        handlers p = ap handler_of p
          where
            handler_of : Option ClaimHolder → ℕ
            handler_of none = 0
            handler_of (some c) = c.handler

apply-HeldBy :
    (claims : MediaClaims) (key : Key) (handler : ℕ) (op : ClaimOp)
    → HeldBy claims key handler
    → Leaves key handler op
    → HeldBy (apply claims op) key handler
unfolding apply claim release
apply-HeldBy claims key handler (claims_it k h) held leaves =
    claim_kept claims key k h handler (lookup claims.held k) refl held
apply-HeldBy claims key handler (releases_it k h) held leaves =
    release_kept claims key k h handler (lookup claims.held k) refl leaves held

run-HeldBy :
    (claims : MediaClaims) (key : Key) (handler : ℕ) (ops : List ClaimOp)
    → HeldBy claims key handler
    → All (Leaves key handler) ops
    → HeldBy (run claims ops) key handler
unfolding run
run-HeldBy claims key handler [] held leaves = held
run-HeldBy claims key handler (op ∷ ops) held (l, ls) =
    run-HeldBy (apply claims op) key handler ops (apply-HeldBy claims key handler op held l) ls

held_against :
    (claims : MediaClaims) (key : Key) (handler : ℕ) (other : ClaimHolder)
    → HeldBy claims key handler
    → handler ≢ other.handler
    → (claim claims key other).0 ≡ false
unfolding claim claim_entry
held_against claims key handler other (holder, found, same) ne = rw found (ground arith)

-- Once a claim is granted, and as long as its handler does not release it, whatever the handlers
-- claim and release meanwhile, no claim of another handler on that file is granted.
pub claim_exclusive :
    (claims : MediaClaims) (key : Key) (holder other : ClaimHolder) (ops : List ClaimOp)
    → (claim claims key holder).0 ≡ true
    → All (Leaves key holder.handler) ops
    → holder.handler ≢ other.handler
    → (claim (run (claim claims key holder).1 ops) key other).0 ≡ false
claim_exclusive claims key holder other ops granted leaves ne =
    let held = claim-HeldBy claims key holder granted in
    let still = run-HeldBy (claim claims key holder).1 key holder.handler ops held leaves in
    held_against (run (claim claims key holder).1 ops) key holder.handler other still ne

-- A handler that releases what it was granted frees the file for every handler.
pub release-claim :
    (claims : MediaClaims) (key : Key) (holder other : ClaimHolder)
    → (claim claims key holder).0 ≡ true
    → (claim (release (claim claims key holder).1 key holder) key other).0 ≡ true
unfolding claim claim_entry release release_entry
release-claim claims key holder other granted =
    let (current, found, same) = claim-HeldBy claims key holder granted in
    freed (claim claims key holder).1 current found same
  where
    freed :
        (c : MediaClaims) (current : ClaimHolder)
        → lookup c.held key ≡ some current
        → current.handler ≡ holder.handler
        → (claim (release c key holder) key other).0 ≡ true
    freed c current found same =
        let own : (current.handler == holder.handler) ≡ true =
          ap (λ n. n == holder.handler) same ∙ ==_self holder.handler in
        rw (found, own, lookup-remove c.held key) (==_self other.handler)
