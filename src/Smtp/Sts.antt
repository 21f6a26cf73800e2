-- ===== src/Smtp/Sts.antt =====
-- internal/smtp/mtasts.go: the policy that a recipient's domain publishes, its cache, and the match
-- of MX hosts. A `time.Duration` is the 64-bit pattern of its nanoseconds. The proofs are below.
pub mod Match
pub mod Parse
pub mod Resolve
use rookery.Base.{
  ℕ, ◌+◌, ◌-◌, ◌*◌, ◌%◌, ◌^◌, Bool, true, false, not, ◌&&◌, ◌||◌, Option, none, some, List, [], ◌∷◌,
  ◌++◌, ltb, leb, ◌==◌, if◌then◌else◌, Text, codes, text_eq, cut, split, trim_space, trim_last,
  to_lower, cut_prefix, any, take,
}

pub record StsPolicy : Type 0 where
  pub mode : Text
  pub mx : List Text
  pub id : Text

abbrev pub second : ℕ
second = 1_000_000_000

abbrev pub sts_max_age_cap : ℕ
sts_max_age_cap = 24 * 3600 * second

abbrev pub sts_max_age_floor : ℕ
sts_max_age_floor = 5 * 60 * second

-- The sign bit of an int64.
abbrev pub is_negative : ℕ → Bool
is_negative d = leb (2 ^ 63) d

-- `d <= 0`, then `d > cap`, then `d < floor`, on the signed value.
unfoldable pub clamp_max_age : ℕ → ℕ
clamp_max_age d =
    if d == 0 || is_negative d
    then sts_max_age_floor
    else if ltb sts_max_age_cap d
    then sts_max_age_cap
    else if ltb d sts_max_age_floor
    then sts_max_age_floor
    else d

-- The decimal value of a text of digits, read behind `n`.
unfoldable pub digits_from : ℕ → Text → Option ℕ
digits_from n [] = some n
digits_from n (c ∷ s) =
    let rest = digits_from (n * 10 + (c - b'0')) s in
    if leb b'0' c && leb c b'9' then rest else none

abbrev pub nonempty_digits : Text → Option ℕ
nonempty_digits [] = none
nonempty_digits (c ∷ s) = digits_from 0 (c ∷ s)

abbrev pub positive : Option ℕ → Option ℕ
positive none = none
positive (some n) = if ltb 0 n && ltb n (2 ^ 63) then some n else none

-- `strconv.Atoi(v)` followed by `err == nil && secs > 0`: the positive int64 that `v` spells.
unfoldable pub positive_int : Text → Option ℕ
positive_int [] = none
positive_int (c ∷ s) = positive (nonempty_digits (if c == b'+' then s else c ∷ s))

-- The variables of the loop over the policy's lines.
pub record PolicyScan : Type 0 where
  pub policy : StsPolicy
  pub version : Text
  pub max_age : ℕ

abbrev with_max_age : PolicyScan → Option ℕ → PolicyScan
with_max_age s none = s
with_max_age s (some secs) = record s { max_age = (secs * second) % 2 ^ 64 }

abbrev with_mx : PolicyScan → Text → PolicyScan
with_mx s [] = s
with_mx s (c ∷ v) = record s {
  policy = record (s.policy) { mx = s.policy.mx ++ to_lower (c ∷ v) ∷ [] };
}

-- The `switch` on a line's key.
unfoldable pub scan_field : Text → Text → PolicyScan → PolicyScan
scan_field k v s =
    if text_eq k (codes "version")
    then record s { version = v }
    else if text_eq k (codes "mode")
    then record s { policy = record (s.policy) { mode = v } }
    else if text_eq k (codes "mx")
    then with_mx s v
    else if text_eq k (codes "max_age")
    then with_max_age s (positive_int v)
    else s

unfoldable pub scan_pair : Option (Text × Text) → PolicyScan → PolicyScan
scan_pair none s = s
scan_pair (some (k, v)) s = scan_field (trim_space k) (trim_space v) s

unfoldable pub scan_lines : List Text → PolicyScan → PolicyScan
scan_lines [] s = s
scan_lines (line ∷ lines) s = scan_lines lines (scan_pair (cut b':' line) s)

abbrev pub empty_policy : StsPolicy
empty_policy = record { mode = []; mx = []; id = [] }

abbrev pub empty_scan : PolicyScan
empty_scan = record { policy = empty_policy; version = []; max_age = 0 }

unfoldable pub finish_scan : PolicyScan → Option (StsPolicy × ℕ)
finish_scan s =
    if not (text_eq s.version (codes "STSv1")) || text_eq s.policy.mode []
    then none
    else some (s.policy, s.max_age)

-- `none` is the triple (nil, 0, nil).
unfoldable pub parse_policy : Text → Option (StsPolicy × ℕ)
parse_policy body = finish_scan (scan_lines (split 10 body) empty_scan)

-- A pattern may have one leading "*." that stands for exactly one label.
unfoldable pub match_wildcard : Option Text → Text → Text → Bool
match_wildcard none pattern host = text_eq pattern host
match_wildcard (some suffix) pattern host = elim (cut b'.' host) [
  | none ↦ false
  | some (label, rest) ↦ text_eq rest suffix
]

unfoldable pub match_mx_pattern : Text → Text → Bool
match_mx_pattern pattern host = match_wildcard (cut_prefix pattern (codes "*.")) pattern host

unfoldable pub policy_allows_mx : StsPolicy → Text → Bool
policy_allows_mx p mx_host =
    let host = to_lower (trim_last b'.' mx_host) in
    any (λ pattern. match_mx_pattern (trim_last b'.' pattern) host) p.mx

-- The fields `v` and `id` of one TXT record.
unfoldable pub sts_field : Option (Text × Text) → Text × Text → Text × Text
sts_field none (version, rec_id) = (version, rec_id)
sts_field (some (k, v)) (version, rec_id) =
    if text_eq (trim_space k) (codes "v")
    then (trim_space v, rec_id)
    else if text_eq (trim_space k) (codes "id")
    then (version, trim_space v)
    else (version, rec_id)

unfoldable pub sts_fields : List Text → Text × Text → Text × Text
sts_fields [] acc = acc
sts_fields (field ∷ fields) acc = sts_fields fields (sts_field (cut b'=' field) acc)

unfoldable pub record_id : Text → Option Text
record_id rec =
    let (version, rec_id) = sts_fields (split b';' rec) ([], []) in
    if text_eq version (codes "STSv1") && not (text_eq rec_id []) then some rec_id else none

unfoldable pub first_id : List Text → Option Text
first_id [] = none
first_id (rec ∷ recs) =
    let rest = first_id recs in elim (record_id rec) [ some id ↦ some id | none ↦ rest ]

-- What a GET of the policy file answers: the request or the transport fails, or there is a status
-- with a body whose reading may fail.
pub data HttpReply : Type 0 where
  failed : Text → HttpReply
  answered : ℕ → Option Text → HttpReply

-- A policy, no policy, or an error.
pub data Found : Type 0 where
  policy : StsPolicy → ℕ → Found
  no_policy : Found
  fetch_error : Text → Found

abbrev max_policy_bytes : ℕ
max_policy_bytes = 64 * 1024

abbrev pub found_of : Option (StsPolicy × ℕ) → Found
found_of none = no_policy
found_of (some (p, age)) = policy p age

-- The GET of the policy file and the reading of its body (at most 64 KiB of it).
unfoldable pub fetch_policy : (Text → HttpReply) → Text → Found
fetch_policy web domain =
    elim (web (codes "https://mta-sts." ++ domain ++ codes "/.well-known/mta-sts.txt")) [
      | failed e ↦ fetch_error (codes "mta-sts: fetch policy for " ++ domain ++ codes ": " ++ e)
      | answered status body ↦
          if status == 200
          then elim body [
            | none ↦ fetch_error (codes "mta-sts: read policy for " ++ domain)
            | some text ↦ found_of (parse_policy (take max_policy_bytes text))
          ]
          else fetch_error (codes "mta-sts: policy for " ++ domain ++ codes " returned HTTP status")
    ]
