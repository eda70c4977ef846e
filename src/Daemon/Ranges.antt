-- ===== src/Daemon/Ranges.antt =====
-- `parse_range` and `check_content_length` of crates/wbf-daemon/src/data_plane.rs, on header values
-- of ASCII characters.
use wbf_matrix_client.Common.{
  ℕ, ◌+◌, ◌-◌, ◌*◌, ◌^◌, ◌<◌, ◌≤◌, ◌≡◌, min, refl, arith, Bool, true, false, ◌&&◌, Option, none,
  some, [], ◌∷◌, ltb, leb, ◌==◌, if◌then◌else◌, Result, ok, err, reverse, and_then, if-holds,
}
use wbf_matrix_client.Media.Block.{Text}

pub data RangeAsked : Type 0 where
  whole : RangeAsked
  part : ℕ → ℕ → RangeAsked
  unsatisfiable : RangeAsked

-- `char::is_whitespace` of an ASCII character.
unfoldable pub is_space : ℕ → Bool
is_space c = if c == 32 then true else leb 9 c && leb c 13

unfoldable pub trim_start : Text → Text
trim_start [] = []
trim_start (c ∷ cs) = let rest = trim_start cs in if is_space c then rest else c ∷ cs

-- `str::trim`.
unfoldable pub trim : Text → Text
trim text = reverse (trim_start (reverse (trim_start text)))

unfoldable pub strip_prefix : Text → Text → Option Text
strip_prefix [] text = some text
strip_prefix (p ∷ ps) [] = none
strip_prefix (p ∷ ps) (c ∷ cs) = let rest = strip_prefix ps cs in if p == c then rest else none

unfoldable pub contains : ℕ → Text → Bool
contains sought [] = false
contains sought (c ∷ cs) = if c == sought then true else contains sought cs

-- `split_once` at the first such character.
unfoldable pub split_once : ℕ → Text → Option (Text × Text)
split_once sought [] = none
split_once sought (c ∷ cs) =
    let rest = split_once sought cs in
    if c == sought then some ([], cs) else and_then rest λ (front, back). some (c ∷ front, back)

-- The digits of `parse::<u64>`, from the value of those before.
unfoldable pub parse_digits : ℕ → Text → Option ℕ
parse_digits value [] = some value
parse_digits value (c ∷ cs) =
    let rest = parse_digits (value * 10 + (c - 48)) cs in
    if leb 48 c && leb c 57
    then (if ltb (value * 10 + (c - 48)) (2 ^ 64) then rest else none)
    else none

-- `parse::<u64>`: a sign `+` may stand in front of at least one digit.
unfoldable pub parse_u64 : Text → Option ℕ
parse_u64 [] = none
parse_u64 (c ∷ []) = parse_digits 0 (c ∷ [])
parse_u64 (c ∷ d ∷ ds) = if c == b'+' then parse_digits 0 (d ∷ ds) else parse_digits 0 (c ∷ d ∷ ds)

-- The last `n` bytes.
unfoldable pub suffix_range : Option ℕ → ℕ → RangeAsked
suffix_range none size = whole
suffix_range (some suffix) size =
    if suffix == 0
    then unsatisfiable
    else if size == 0
    then unsatisfiable
    else part (size - suffix) size

unfoldable pub bounded_range : ℕ → Option ℕ → ℕ → RangeAsked
bounded_range start none size = whole
bounded_range start (some end) size = if leb size start then unsatisfiable else part start end

-- Where the range ends: at the end of the file, or behind its last byte.
unfoldable pub range_end : ℕ → Text → ℕ → Option ℕ
range_end start [] size = some size
range_end start (c ∷ cs) size =
    and_then (parse_u64 (c ∷ cs))
      λ last. if leb start last then some (min (min (last + 1) (2 ^ 64 - 1)) size) else none

unfoldable pub range_from : Option ℕ → Text → ℕ → RangeAsked
range_from none last size = whole
range_from (some start) last size = bounded_range start (range_end start last size) size

unfoldable pub range_of : Text → Text → ℕ → RangeAsked
range_of [] last size = suffix_range (parse_u64 last) size
range_of (c ∷ cs) last size = range_from (parse_u64 (c ∷ cs)) last size

unfoldable pub range_of_split : Option (Text × Text) → ℕ → RangeAsked
range_of_split none size = whole
range_of_split (some (first, last)) size = range_of (trim first) (trim last) size

unfoldable pub range_of_spec : Option Text → ℕ → RangeAsked
range_of_spec none size = whole
range_of_spec (some spec) size =
    if contains b',' spec then whole else range_of_split (split_once b'-' (trim spec)) size

-- The text "bytes=".
abbrev bytes_prefix : Text
bytes_prefix = b'b' ∷ b'y' ∷ b't' ∷ b'e' ∷ b's' ∷ b'=' ∷ []

unfoldable pub parse_range : Option Text → ℕ → RangeAsked
parse_range value size = range_of_spec (and_then value λ v. strip_prefix bytes_prefix (trim v)) size

-- `status_for_trust`, on the status codes.
unfoldable pub status_for_trust : ℕ → Bool → ℕ
status_for_trust status true = status
status_for_trust status false = 412

-- `header` is the value of `Content-Length`, where the request has one, as text where it is text.
unfoldable pub check_content_length : Option (Option Text) → Option ℕ → Result (Unit {0}) (Unit {0})
check_content_length none size = ok tt
check_content_length (some text) size = elim (and_then text parse_u64) [
  | none ↦ err tt
  | some len ↦ elim size [ none ↦ ok tt | some wanted ↦ if wanted == len then ok tt else err tt ]
]

-- A part is never empty and ends inside the file.
abbrev pub Fits : ℕ → RangeAsked → Type 0
Fits size whole = Unit
Fits size unsatisfiable = Unit
Fits size (part from to) = (from < to) × (to ≤ size)

if-Fits :
    (size : ℕ) (b : Bool) (x y : RangeAsked)
    → (b ≡ true → Fits size x)
    → (b ≡ false → Fits size y)
    → Fits size (if b then x else y)
if-Fits size b x y = if-holds {A = RangeAsked} (Fits size) b x y

suffix_range-Fits : (o : Option ℕ) (size : ℕ) → Fits size (suffix_range o size)
unfolding suffix_range
suffix_range-Fits none size = tt
suffix_range-Fits (some n) size =
    if-Fits size (n == 0) _ _ (λ e. tt)
      λ some_bytes. if-Fits size (size == 0) _ _ (λ e. tt) λ filled. (ground arith, ground arith)

range_end_bounds :
    (start size end : ℕ) (last : Text)
    → size < 2 ^ 64
    → start < size
    → range_end start last size ≡ some end
    → (start < end) × (end ≤ size)
unfolding range_end
range_end_bounds start size end [] h lt e = ground arith
range_end_bounds start size end (c ∷ cs) h lt e = ground arith

bounded_range-Fits :
    (start size : ℕ) (last : Text) (o : Option ℕ)
    → size < 2 ^ 64
    → range_end start last size ≡ o
    → Fits size (bounded_range start o size)
unfolding bounded_range
bounded_range-Fits start size last none h e = tt
bounded_range-Fits start size last (some end) h e =
    if-Fits size (leb size start) _ _ (λ past. tt)
      λ inside. let lt : start < size = ground arith in range_end_bounds start size end last h lt e

range_of-Fits :
    (first last : Text) (size : ℕ) → size < 2 ^ 64 → Fits size (range_of first last size)
unfolding range_of range_from
range_of-Fits [] last size h = suffix_range-Fits (parse_u64 last) size
range_of-Fits (c ∷ cs) last size h = from_start (parse_u64 (c ∷ cs))
  where
    from_start : (o : Option ℕ) → Fits size (range_from o last size)
    from_start none = tt
    from_start (some start) = bounded_range-Fits start size last (range_end start last size) h refl

-- Whatever the header says, the part that is served is not empty and lies inside the file, whose
-- size is a `u64`.
pub parse_range-Fits :
    (value : Option Text) (size : ℕ) → size < 2 ^ 64 → Fits size (parse_range value size)
unfolding parse_range range_of_spec range_of_split
parse_range-Fits value size h = of_spec (and_then value λ v. strip_prefix bytes_prefix (trim v))
  where
    of_split : (o : Option (Text × Text)) → Fits size (range_of_split o size)
    of_split none = tt
    of_split (some (first, last)) = range_of-Fits (trim first) (trim last) size h

    of_spec : (o : Option Text) → Fits size (range_of_spec o size)
    of_spec none = tt
    of_spec (some spec) =
        if-Fits size (contains b',' spec) _ _ (λ several. tt)
          λ one. of_split (split_once b'-' (trim spec))
