-- ===== src/Chat/Contacts.antt =====
-- apps/api/src/chat/contact-detection/contact-detection.ts and contact-detection.service.ts: contact
-- details are found in a text and masked. Positions are those of UTF-16 code units.
pub mod Slices
pub mod Merging
pub mod Masking
use appforfixiyi.Common.{
  ℕ, zero, suc, ◌+◌, ◌-◌, Bool, true, false, not, ◌&&◌, ◌||◌, Option, none, some, List, [], ◌∷◌,
  ◌++◌, map, length, take, drop, any, ltb, leb, ◌==◌, if◌then◌else◌, max, sort, Text, get_or,
}
use appforfixiyi.Store.Entities.Chat.{
  ContactPolicy, protected, unlocked, ContactRedactionType, phone, email, url, handle, off_platform,
}

-- The patterns of the source, by name.
pub data Pattern : Type 0 where
  phone_candidate digits_run plain_email obfuscated_email provider_email : Pattern
  http_url www_url domain_url obfuscated_url handle_pattern off_platform_pattern : Pattern

-- `MappedText`: a text with digits for spelled-out numbers, and for each of its units the range of
-- the original text that it stands for.
pub record MappedText : Type 0 where
  pub text : Text
  pub starts : List ℕ
  pub ends : List ℕ

-- The engine of regular expressions (`matchAll`, as positions and lengths), the numbering plans of
-- libphonenumber, and the rewriting of spelled-out numbers (normalize.ts, number-words.ts).
pub record Scanner : Type 0 where
  pub match_all : Pattern → Text → List (ℕ × ℕ)
  pub is_phone_number : Text → Bool
  pub expand_numbers : Text → MappedText
  -- The database's search by a regular expression, upper and lower case alike.
  pub body_matches : (pattern body : Text) → Bool

pub record Detection : Type 0 where
  pub type : ContactRedactionType
  pub start : Option ℕ
  pub end : Option ℕ

-- `normalizeChars`: other digits, and the full-width at sign and point.
unfoldable pub normalize_char : ℕ → ℕ
normalize_char c =
    if leb 0x0660 c && leb c 0x0669
    then c - 0x0660 + b'0'
    else if leb 0x06f0 c && leb c 0x06f9
    then c - 0x06f0 + b'0'
    else if leb 0xff10 c && leb c 0xff19
    then c - 0xff10 + b'0'
    else if c == 0xff20
    then b'@'
    else if c == 0xff0e
    then b'.'
    else c

abbrev pub normalize_chars : Text → Text
normalize_chars t = map normalize_char t

pub record DigitGroup : Type 0 where
  pub digits : Text
  pub start : ℕ
  pub end : ℕ

abbrev pub phone_min_digits : ℕ
phone_min_digits = 8

abbrev pub phone_max_digits : ℕ
phone_max_digits = 15

-- `text.slice(start, end)`.
abbrev pub slice : (start end : ℕ) → Text → Text
slice a b t = take (b - a) (drop a t)

-- `array[i] ?? 0`.
abbrev pub at : ℕ → List ℕ → ℕ
at i [] = 0
at zero (x ∷ xs) = x
at (suc i) (x ∷ xs) = at i xs

abbrev pub group_at : ℕ → List DigitGroup → Option DigitGroup
group_at i [] = none
group_at zero (g ∷ gs) = some g
group_at (suc i) (g ∷ gs) = group_at i gs

-- A range of a detection, where it has one.
abbrev pub range_of : Detection → Option (ℕ × ℕ)
range_of d = elim d.start [
  | none ↦ none
  | some a ↦ elim d.end [ none ↦ none | some b ↦ some (a, b) ]
]

abbrev pub overlap : Option (ℕ × ℕ) → Option (ℕ × ℕ) → Bool
overlap none o = false
overlap (some r) none = false
overlap (some r) (some q) = ltb r.0 q.1 && ltb q.0 r.1

abbrev pub overlaps : Detection → List Detection → Bool
overlaps d taken = any (λ o. overlap (range_of d) (range_of o)) taken

-- The loop of `withoutOverlaps`, with what it has kept so far.
unfoldable pub keep_apart : (taken kept : List Detection) → List Detection → List Detection
keep_apart taken kept [] = kept
keep_apart taken kept (d ∷ ds) =
    keep_apart taken (if overlaps d (taken ++ kept) then kept else kept ++ d ∷ []) ds

abbrev pub without_overlaps : List Detection → (taken : List Detection) → List Detection
without_overlaps ds taken = keep_apart taken [] ds

abbrev pub ranged : ContactRedactionType → (start end : ℕ) → Detection
ranged type a b = record { type = type; start = some a; end = some b }

module _ (scanner : Scanner) where
  unfoldable pub digit_groups : Text → (offset : ℕ) → List DigitGroup
  digit_groups t offset =
      map
        (λ m. record {
          digits = slice m.0 (m.0 + m.1) t;
          start = offset + m.0;
          end = offset + m.0 + m.1;
        })
        (scanner.match_all digits_run t)

  -- The loop of `longestPhoneFrom`, over the groups from `from` on; the answer counts from there.
  unfoldable pub longest_phone :
      (plus : Bool) → (digits : Text) → (to : ℕ) → (best : Option ℕ) → List DigitGroup → Option ℕ
  longest_phone plus digits to best [] = best
  longest_phone plus digits to best (g ∷ gs) =
      let all = digits ++ g.digits in
      let candidate = if plus then b'+' ∷ all else all in
      let found =
        if leb phone_min_digits (length all) && scanner.is_phone_number candidate
        then some to
        else best in
      let rest = longest_phone plus all (to + 1) found gs in
      if ltb phone_max_digits (length all) then best else rest

  -- The detection of the groups `first` to `last`, in the original text.
  abbrev pub phone_detection :
      MappedText → (index : ℕ) → (plus : Bool) → DigitGroup → DigitGroup → Detection
  phone_detection m index plus first last =
      ranged phone (at (if plus then index else first.start) m.starts) (at (last.end - 1) m.ends)

  -- The `while` over the groups of a candidate: `inside` groups are left of the phone found last.
  unfoldable pub phones_in :
      MappedText → (index : ℕ) → (plus : Bool) → (inside : ℕ) → List DigitGroup → List Detection
  phones_in m index plus inside [] = []
  phones_in m index plus (suc k) (g ∷ gs) = phones_in m index false k gs
  phones_in m index plus zero (g ∷ gs) = elim (longest_phone plus [] 0 none (g ∷ gs)) [
    | none ↦ phones_in m index false zero gs
    | some k ↦
        phone_detection m index plus g (get_or (group_at k (g ∷ gs)) g)
        ∷ phones_in m index false k gs
  ]

  abbrev pub starts_with_plus : Text → Bool
  starts_with_plus [] = false
  starts_with_plus (c ∷ cs) = c == b'+'

  abbrev pub phones_of : MappedText → List (ℕ × ℕ) → List Detection
  phones_of m [] = []
  phones_of m ((index, size) ∷ ms) =
      let candidate = slice index (index + size) m.text in
      phones_in m index (starts_with_plus candidate) 0 (digit_groups candidate index)
      ++ phones_of m ms

  unfoldable pub detect_phones : MappedText → List Detection
  unfolding digit_groups phones_in longest_phone
  detect_phones m = phones_of m (scanner.match_all phone_candidate m.text)

  abbrev pub collect : Text → List Pattern → ContactRedactionType → List Detection
  collect t [] type = []
  collect t (p ∷ ps) type =
      map (λ m. ranged type m.0 (m.0 + m.1)) (scanner.match_all p t) ++ collect t ps type

  abbrev pub emails_in : Text → List Detection
  emails_in t =
      without_overlaps (collect t (plain_email ∷ obfuscated_email ∷ provider_email ∷ []) email) []

  abbrev pub urls_in : Text → (taken : List Detection) → List Detection
  urls_in t taken =
      without_overlaps (collect t (http_url ∷ www_url ∷ domain_url ∷ obfuscated_url ∷ []) url) taken

  abbrev pub handles_in : Text → (taken : List Detection) → List Detection
  handles_in t taken = without_overlaps (collect t (handle_pattern ∷ []) handle) taken

  abbrev pub mentions_in : Text → List Detection
  mentions_in t =
      map (λ _. record { type = off_platform; start = none; end = none })
        (scanner.match_all off_platform_pattern t)

  unfoldable pub detect_contacts : Text → List Detection
  unfolding detect_phones keep_apart
  detect_contacts t =
      let chars = normalize_chars t in
      let emails = emails_in chars in
      let urls = urls_in chars emails in
      let handles = handles_in chars (emails ++ urls) in
      let phones =
        without_overlaps (detect_phones (scanner.expand_numbers t)) (emails ++ urls ++ handles) in
      emails ++ urls ++ handles ++ phones ++ mentions_in chars

-- CONTACT_REDACTION_PLACEHOLDER.
abbrev pub placeholder : Text
placeholder = 91 ∷ 8226 ∷ 8226 ∷ 8226 ∷ 93 ∷ []

abbrev pub ranges_of : List Detection → List (ℕ × ℕ)
ranges_of [] = []
ranges_of (d ∷ ds) = elim (range_of d) [ none ↦ ranges_of ds | some r ↦ r ∷ ranges_of ds ]

abbrev pub starts_before : ℕ × ℕ → ℕ × ℕ → Bool
starts_before a b = leb a.0 b.0

-- The `reduce` of `redactContacts`; the accumulator's last range is carried.
unfoldable pub merge_into : ℕ × ℕ → List (ℕ × ℕ) → List (ℕ × ℕ)
merge_into previous [] = previous ∷ []
merge_into previous (r ∷ rs) =
    let joined = merge_into (previous.0, max previous.1 r.1) rs in
    let apart = previous ∷ merge_into r rs in if leb r.0 previous.1 then joined else apart

unfoldable pub merge_ranges : List (ℕ × ℕ) → List (ℕ × ℕ)
merge_ranges [] = []
merge_ranges (r ∷ rs) = merge_into r rs

-- The `for` over the merged ranges in reverse.
unfoldable pub mask_ranges : List (ℕ × ℕ) → Text → Text
mask_ranges [] t = t
mask_ranges (r ∷ rs) t =
    let masked = mask_ranges rs t in take r.0 masked ++ (placeholder ++ drop r.1 masked)

pub record RedactionResult : Type 0 where
  pub text : Text
  pub redactions : List ContactRedactionType

unfoldable pub mask_detections : List Detection → Text → Text
unfolding merge_ranges mask_ranges
mask_detections ds t = mask_ranges (merge_ranges (sort starts_before (ranges_of ds))) t

unfoldable pub redact_contacts : Scanner → Text → RedactionResult
unfolding mask_detections
redact_contacts scanner t =
    let detections = detect_contacts scanner t in
    record { text = mask_detections detections t; redactions = map (λ d. d.type) detections }

-- ContactDetectionService.
unfoldable pub protect : Scanner → Text → ContactPolicy → RedactionResult
protect scanner t unlocked = record { text = t; redactions = [] }
protect scanner t protected = redact_contacts scanner t
