-- ===== src/Core/JobQueue/Entries.antt =====
-- The maps and the inbox of the jobs, read behind each change (crates/wbf-core/src/download_queue.rs).
use wbf_matrix_client.Common.{
  ◌≡◌, inl, inr, refl, ap, ◌∙◌, arith, true, false, ◌||◌, none, some, ℕ, List, [], ◌∷◌, ◌++◌,
  if◌then◌else◌, Bool-cases,
}
use wbf_matrix_client.Media.Block.{Text, text_eq}
use wbf_matrix_client.Media.Block.Checks.{text_eq_self, text_eq→eq}
use wbf_matrix_client.Core.JobQueue.{
  DownloadJob, get, without, put, extend, or_default, is_queued, keep_others,
}

pub same_key : (l k m : Text) → text_eq l k ≡ true → text_eq k m ≡ false → text_eq l m ≡ false
same_key l k m same apart = ap (λ t. text_eq t m) (text_eq→eq l k same) ∙ apart

module _ {A : Type 0} where
  pub get-without_same : (entries : List (Text × A)) (k : Text) → get (without entries k) k ≡ none
  unfolding get without
  get-without_same [] k = refl
  get-without_same ((l, a) ∷ rest) k = elim (Bool-cases (text_eq l k)) [
    | inl gone ↦ rw gone (get-without_same rest k)
    | inr kept ↦ rw (kept, kept) (get-without_same rest k)
  ]

  pub get-without_other :
      (entries : List (Text × A)) (k m : Text)
      → text_eq k m ≡ false
      → get (without entries k) m ≡ get entries m
  unfolding get without
  get-without_other [] k m apart = refl
  get-without_other ((l, a) ∷ rest) k m apart = elim (Bool-cases (text_eq l k)) [
    | inl gone ↦ rw (gone, same_key l k m gone apart) (get-without_other rest k m apart)
    | inr kept ↦
        rw kept (ap (λ t. if text_eq l m then some a else t) (get-without_other rest k m apart))
  ]

  pub get-put_same :
      (entries : List (Text × A)) (k : Text) (a : A) → get (put entries k a) k ≡ some a
  unfolding get put
  get-put_same entries k a = rw (text_eq_self k) refl

  pub get-put_other :
      (entries : List (Text × A)) (k m : Text) (a : A)
      → text_eq k m ≡ false
      → get (put entries k a) m ≡ get entries m
  unfolding get put
  get-put_other entries k m a apart = rw apart (get-without_other entries k m apart)

pub get-extend_other :
    (entries : List (Text × List ℕ)) (k m : Text) (items : List ℕ)
    → text_eq k m ≡ false
    → get (extend entries k items) m ≡ get entries m
unfolding extend
get-extend_other entries k m [] apart = refl
get-extend_other entries k m (item ∷ items) apart =
    get-put_other entries k m (or_default (get entries k) ++ (item ∷ items)) apart

pub is_queued-append :
    (jobs : List DownloadJob) (job : DownloadJob) (m : Text)
    → is_queued (jobs ++ (job ∷ [])) m ≡ (text_eq job.mxc m || is_queued jobs m)
unfolding is_queued
is_queued-append [] job m = refl
is_queued-append (first ∷ jobs) job m = ground (arith, is_queued-append jobs job m)

pub is_queued-keep_others :
    (jobs : List DownloadJob) (k m : Text)
    → text_eq k m ≡ false
    → is_queued (keep_others jobs k) m ≡ is_queued jobs m
unfolding is_queued keep_others
is_queued-keep_others [] k m apart = refl
is_queued-keep_others (job ∷ jobs) k m apart = elim (Bool-cases (text_eq job.mxc k)) [
  | inl gone ↦ rw (gone, same_key job.mxc k m gone apart) (is_queued-keep_others jobs k m apart)
  | inr kept ↦ rw kept (ap (λ t. text_eq job.mxc m || t) (is_queued-keep_others jobs k m apart))
]

pub is_queued-keep_others_same :
    (jobs : List DownloadJob) (k : Text) → is_queued (keep_others jobs k) k ≡ false
unfolding is_queued keep_others
is_queued-keep_others_same [] k = refl
is_queued-keep_others_same (job ∷ jobs) k = elim (Bool-cases (text_eq job.mxc k)) [
  | inl gone ↦ rw gone (is_queued-keep_others_same jobs k)
  | inr kept ↦ rw (kept, kept) (is_queued-keep_others_same jobs k)
]
