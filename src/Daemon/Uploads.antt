-- ===== src/Daemon/Uploads.antt =====
-- `UploadsReceiving` of crates/wbf-daemon/src/data_plane.rs: which uploads a PUT is being received
-- for. The set is a list without an element twice.
use wbf_matrix_client.Common.{
  ◌≡◌, ◌≢◌, refl, sym, ◌∙◌, arith, Bool, true, false, Option, none, some, List, [], ◌∷◌, All,
  Bool-cases, inl, inr, if◌then◌else◌, if-holds,
}
use wbf_matrix_client.Core.Claims.{Key, key_eq}
use wbf_matrix_client.Core.Claims.Exclusive.{key_eq_self, key_eq→eq}

-- The server and the address of an upload.
abbrev pub Receiving : Type 0
Receiving = List Key

unfoldable pub is_receiving : Receiving → Key → Bool
is_receiving [] key = false
is_receiving (k ∷ ks) key = if key_eq k key then true else is_receiving ks key

-- `Some` guard, which is its key, or `None` where a PUT is being received already.
unfoldable pub begin : Receiving → Key → Option Key × Receiving
begin uploads key = if is_receiving uploads key then (none, uploads) else (some key, key ∷ uploads)

-- The drop of a guard.
unfoldable pub end_receiving : Receiving → Key → Receiving
end_receiving [] key = []
end_receiving (k ∷ ks) key =
    let rest = end_receiving ks key in if key_eq k key then rest else k ∷ rest

pub data UploadOp : Type 0 where
  begins ends : Key → UploadOp

unfoldable pub apply_op : Receiving → UploadOp → Receiving
apply_op uploads (begins key) = (begin uploads key).1
apply_op uploads (ends key) = end_receiving uploads key

unfoldable pub run_ops : Receiving → List UploadOp → Receiving
run_ops uploads [] = uploads
run_ops uploads (op ∷ ops) = run_ops (apply_op uploads op) ops

-- The operation does not drop the guard of this upload.
abbrev pub KeepsGuard : Key → UploadOp → Type 0
KeepsGuard key (begins k) = Unit
KeepsGuard key (ends k) = k ≢ key

end_other :
    (uploads : Receiving) (k key : Key)
    → k ≢ key
    → is_receiving uploads key ≡ true
    → is_receiving (end_receiving uploads k) key ≡ true
unfolding is_receiving end_receiving
end_other [] k key ne h = h
end_other (u ∷ us) k key ne h = elim (Bool-cases (key_eq u k)) [
  | inl gone ↦
      let apart : key_eq u key ≡ false =
        keys_differ u key (λ e. ne (sym (key_eq→eq u k gone) ∙ e)) in
      let later : is_receiving us key ≡ true = (ground arith) in
      rw gone (end_other us k key ne later)
  | inr kept ↦ rw kept (
      still (key_eq u key) (is_receiving us key) (is_receiving (end_receiving us k) key) h
        (end_other us k key ne))
]
  where
    keys_differ : (a b : Key) → a ≢ b → key_eq a b ≡ false
    keys_differ a b differ = elim (Bool-cases (key_eq a b)) [
      | inl e ↦ absurd (differ (key_eq→eq a b e))
      | inr e ↦ e
    ]

    still :
        (b x y : Bool)
        → (if b then true else x) ≡ true
        → (x ≡ true → y ≡ true)
        → (if b then true else y) ≡ true
    still true x y e f = refl
    still false x y e f = f e

apply_kept :
    (uploads : Receiving) (key : Key) (op : UploadOp)
    → KeepsGuard key op
    → is_receiving uploads key ≡ true
    → is_receiving (apply_op uploads op) key ≡ true
unfolding apply_op begin is_receiving
apply_kept uploads key (begins k) keeps h =
    if-holds {A = Option Key × Receiving} (λ r. is_receiving r.1 key ≡ true)
      (is_receiving uploads k) _ _ (λ busy. h)
      (λ free. if-holds {A = Bool} (λ b. b ≡ true) (key_eq k key) _ _ (λ same. refl) (λ other. h))
apply_kept uploads key (ends k) keeps h = end_other uploads k key keeps h

run_kept :
    (uploads : Receiving) (key : Key) (ops : List UploadOp)
    → All (KeepsGuard key) ops
    → is_receiving uploads key ≡ true
    → is_receiving (run_ops uploads ops) key ≡ true
unfolding run_ops
run_kept uploads key [] keeps h = h
run_kept uploads key (op ∷ ops) (k, ks) h =
    run_kept (apply_op uploads op) key ops ks (apply_kept uploads key op k h)

begun : (uploads : Receiving) (key : Key) → is_receiving (begin uploads key).1 key ≡ true
unfolding begin is_receiving
begun uploads key = elim (Bool-cases (is_receiving uploads key)) [
  | inl busy ↦ rw (busy, busy) refl
  | inr free ↦ rw (free, key_eq_self key) refl
]

-- After an upload was begun, and as long as no guard of it is dropped, no second PUT of it begins,
-- whatever other uploads begin and end.
pub begin_exclusive :
    (uploads : Receiving) (key : Key) (ops : List UploadOp)
    → All (KeepsGuard key) ops
    → (begin (run_ops (begin uploads key).1 ops) key).0 ≡ none
unfolding begin
begin_exclusive uploads key ops keeps =
    let busy = run_kept (begin uploads key).1 key ops keeps (begun uploads key) in rw busy refl
