-- ===== src/Guest/Usn.antt =====
-- go/internal/agent/collectors: usn_compact.go, usn_value.go, and what they use of sysmon_files.go and
-- usn_path.go. Journal events are reduced to one entry for each path.
pub mod Merge
pub mod Order
mod Examples
use Prim.Native.String.{String}
use quarantine_lab.Prelude.{
  ℕ, ◌+◌, ◌-◌, ◌*◌, ◌^◌, Bool, true, false, ◌&&◌, ◌||◌, not, Option, none, some, List, [], ◌∷◌,
  ◌++◌, ◌==◌, ltb, leb, if◌then◌else◌, length, drop, take,
}
use quarantine_lab.Prelude.Text.{
  Text, codes, text_eq, text_lt, to_lower, trim_space, trim_char, has_prefix, has_part,
  replace_char,
}
use quarantine_lab.Guest.Noise.{
  NoiseClass, relevant, capture, ntfs, temp, onedrive_client, os_telemetry, browser_cache, wer, is,
  within, starts, has_drive, is_unresolved_file_name, classify_file_noise, file_priority,
  is_close_only_reason,
}

-- The values of "change". `unset` is the empty string.
pub data Kind : Type 0 where
  unset added removed modified : Kind

-- netUSNKind
unfoldable pub net_usn_kind : Kind → Kind → Kind
net_usn_kind prev unset = prev
net_usn_kind prev removed = removed
net_usn_kind modified added = modified
net_usn_kind prev added = added
net_usn_kind added modified = added
net_usn_kind prev modified = modified

-- reconcileKindWithDisk
unfoldable pub reconcile_kind_with_disk : Kind → Bool → Kind
reconcile_kind_with_disk removed true = added
reconcile_kind_with_disk added false = removed
reconcile_kind_with_disk kind on_disk = kind

-- One journal event, and one entry of the result: the fields of its map. An absent text is empty.
pub record Event : Type 0 where
  pub usn : Text
  pub file_name : Text
  pub file_ref : Text
  pub parent_ref : Text
  pub path : Text
  pub timestamp : Text
  pub reasons : List Text
  pub reason_code : Text
  pub change : Kind

-- The value of a digit below a base
abbrev pub digit_value : ℕ → ℕ → Option ℕ
digit_value b c =
    let v : Option ℕ =
      if leb b'0' c && leb c b'9'
      then some (c - b'0')
      else if leb b'a' c && leb c b'z'
      then some (c - b'a' + 10)
      else if leb b'A' c && leb c b'Z'
      then some (c - b'A' + 10)
      else none in
    elim v [ none ↦ none | some d ↦ if ltb d b then some d else none ]

abbrev pub parse_digits : ℕ → Text → ℕ → Option ℕ
parse_digits b [] acc = some acc
parse_digits b (c ∷ s) acc = elim (digit_value b c) [
  | none ↦ none
  | some d ↦ parse_digits b s (acc * b + d)
]

abbrev pub in_u64 : Option ℕ → Option ℕ
in_u64 none = none
in_u64 (some n) = if ltb n (2 ^ 64) then some n else none

-- strconv.ParseUint(s, b, 64)
unfoldable pub parse_uint : ℕ → Text → Option ℕ
parse_uint b [] = none
parse_uint b (c ∷ s) = in_u64 (parse_digits b (c ∷ s) 0)

-- parseUsnValue
unfoldable pub parse_usn_value : Text → Option ℕ
unfolding parse_uint trim_space trim_char to_lower has_prefix
parse_usn_value raw =
    let v = trim_space (trim_char 34 raw) in
    if text_eq v []
    then none
    else if starts (to_lower v) "ref:"
    then some 0
    else if starts (to_lower v) "0x"
    then parse_uint 16 (drop 2 v)
    else parse_uint 10 v

-- usnFromEvent: 0 for a value that does not parse
unfoldable pub usn_from_event : Event → ℕ
unfolding parse_usn_value
usn_from_event ev = elim (parse_usn_value ev.usn) [ none ↦ 0 | some n ↦ n ]

abbrev pub reason_name : Text → Text
reason_name r = to_lower (replace_char b' ' b'_' r)

abbrev pub creates : Text → Bool
creates n = within n "file_create" || within n "rename_new_name"

abbrev pub deletes : Text → Bool
deletes n = within n "file_delete" || is n "delete" || within n "rename_old_name"

-- The loop of usnChangeKind
abbrev pub any_reason : (Text → Bool) → List Text → Bool
any_reason test [] = false
any_reason test (r ∷ rs) = test (reason_name r) || any_reason test rs

-- usnChangeKind
unfoldable pub usn_change_kind : List Text → Kind
usn_change_kind rs =
    if any_reason creates rs then added else if any_reason deletes rs then removed else modified

abbrev pub seen_text : Text → List Text → Bool
seen_text t [] = false
seen_text t (u ∷ us) = text_eq t u || seen_text t us

-- The loop of mergeReasonLists, with the keys of `seen`
unfoldable pub merge_reasons : List Text → List Text → List Text
merge_reasons [] seen = []
merge_reasons (r ∷ rs) seen =
    let skip = merge_reasons rs seen in
    let keep = r ∷ merge_reasons rs (to_lower r ∷ seen) in
    if text_eq r [] || seen_text (to_lower r) seen then skip else keep

-- mergeReasonLists
unfoldable pub merge_reason_lists : List Text → List Text → List Text
unfolding merge_reasons
merge_reason_lists as' bs = merge_reasons (as' ++ bs) []

-- The keys of the counters in `noise`.
pub data NoiseKey : Type 0 where
  of_class : NoiseClass → NoiseKey
  close_only unresolved : NoiseKey

abbrev pub Merged : Type 0
Merged = List (Text × Event)

-- The variables of FinalizeUSNEvents. `noise` holds a key once for each time that it was counted.
pub record Acc : Type 0 where
  pub merged : Merged
  pub noise : List NoiseKey
  pub skipped_before_start : ℕ

-- An event joins the entry of its path.
unfoldable pub join : Event → Event → Kind → Text → Event
unfolding merge_reason_lists net_usn_kind usn_from_event
join old ev kind path = record old {
  change = net_usn_kind old.change kind;
  reasons = merge_reason_lists old.reasons ev.reasons;
  usn = if leb (usn_from_event old) (usn_from_event ev) then ev.usn else old.usn;
  reason_code =
      if leb (usn_from_event old) (usn_from_event ev) then ev.reason_code else old.reason_code;
  path = path;
}

-- merged[key], updated or set
unfoldable pub upsert : Text → (Event → Event) → Event → Merged → Merged
upsert k update fresh [] = (k, fresh) ∷ []
upsert k update fresh ((j, e) ∷ m) =
    if text_eq j k then (j, update e) ∷ m else (j, e) ∷ upsert k update fresh m

-- What the program asks of the system: paths, the file table, and the time.
pub record Host : Type 0 where
  pub clean : Text → Text
  pub base : Text → Text
  pub event_path : Text → Text → Text → Text → Text
  pub parse_time : Text → Option ℕ

abbrev pub drop_backslash : Text → Text
drop_backslash [] = []
drop_backslash (c ∷ s) = if c == 92 then s else c ∷ s

abbrev pub count_class : NoiseClass → List NoiseKey → List NoiseKey
count_class relevant ks = ks
count_class c ks = of_class c ∷ ks

abbrev pub earlier : Option ℕ → Option ℕ → Bool
earlier (some t) (some floor) = ltb t floor
earlier _ _ = false

abbrev pub before_start : ℕ → Event → Bool
before_start start ev = ltb 0 start && (ltb 0 (usn_from_event ev) && ltb (usn_from_event ev) start)

abbrev pub values : Merged → List Event
values [] = []
values ((k, e) ∷ m) = e ∷ values m

abbrev pub max_usn_sidecar_events : ℕ
max_usn_sidecar_events = 4000

-- What FinalizeUSNEvents returns. `truncated` is noise["truncated_sidecar"], 0 if it is not set.
pub record Finalized : Type 0 where
  pub kept : List Event
  pub noise : List NoiseKey
  pub truncated : ℕ
  pub skipped_before_start : ℕ

module _ (h : Host) where
  -- normalizePath
  unfoldable pub normalize_path : Text → Text
  normalize_path raw =
      let p = trim_space raw in
      let q = if starts p "\\??\\" then drop 4 p else p in
      let r = if starts q "\\\\?\\" then drop 4 q else q in if text_eq p [] then [] else h.clean r

  -- isLeafOnlyPath
  unfoldable pub is_leaf_only_path : Text → Bool
  unfolding normalize_path
  is_leaf_only_path raw =
      let p = normalize_path raw in
      let rest = drop_backslash (drop 3 p) in
      if is_unresolved_file_name p
      then true
      else if ltb (length p) 4 || not (has_drive p)
      then false
      else not (text_eq rest []) && not (within rest "\\")

  -- The path of an event, empty if it is not known.
  unfoldable pub resolved_path : Text → Event → Text
  unfolding is_leaf_only_path
  resolved_path volume ev =
      let path =
        if text_eq ev.path []
        then h.event_path volume ev.file_name ev.file_ref ev.parent_ref
        else ev.path in
      if is_leaf_only_path path then [] else path

  -- What is counted for an event whose path is not known.
  unfoldable pub unresolved_key : Event → NoiseKey
  unresolved_key ev = elim (classify_file_noise h.clean h.base [] ev.file_name) [
    | relevant ↦ if is_close_only_reason ev.reasons ev.reason_code then close_only else unresolved
    | c ↦ of_class c
  ]

  -- t.Before(timeFloor), for a floor and a timestamp that are there
  abbrev pub before_floor : Option ℕ → Event → Bool
  before_floor floor ev = not (text_eq ev.timestamp []) && earlier (h.parse_time ev.timestamp) floor

  -- An event with a path
  unfoldable pub add_event : Event → Text → Acc → Acc
  unfolding upsert join usn_change_kind
  add_event ev path acc =
      let kind = usn_change_kind ev.reasons in
      record acc {
        noise = count_class (classify_file_noise h.clean h.base path ev.file_name) acc.noise;
        merged =
            upsert (to_lower path) (λ old. join old ev kind path)
              (record ev { path = path; change = kind }) acc.merged;
      }

  -- One round of FinalizeUSNEvents. `none` is a nil event.
  unfoldable pub usn_step : Text → ℕ → Option ℕ → Acc → Option Event → Acc
  unfolding add_event resolved_path unresolved_key usn_from_event
  usn_step volume start floor acc none = acc
  usn_step volume start floor acc (some ev) =
      let path = resolved_path volume ev in
      if before_start start ev
      then record acc { skipped_before_start = acc.skipped_before_start + 1 }
      else if before_floor floor ev
      then acc
      else if text_eq path []
      then record acc { noise = unresolved_key ev ∷ acc.noise }
      else add_event ev path acc

  unfoldable pub usn_loop : Text → ℕ → Option ℕ → Acc → List (Option Event) → Acc
  unfolding usn_step
  usn_loop volume start floor acc [] = acc
  usn_loop volume start floor acc (ev ∷ evs) =
      usn_loop volume start floor (usn_step volume start floor acc ev) evs

  -- The order of sort.Slice
  unfoldable pub event_less : Event → Event → Bool
  event_less a b =
      let pa = file_priority h.clean h.base a.path in
      let pb = file_priority h.clean h.base b.path in
      if not (pa == pb) then ltb pa pb else text_lt (to_lower a.path) (to_lower b.path)

  unfoldable pub insert_event : Event → List Event → List Event
  insert_event e [] = e ∷ []
  insert_event e (f ∷ fs) = if event_less f e then f ∷ insert_event e fs else e ∷ f ∷ fs

  unfoldable pub sort_events : List Event → List Event
  unfolding insert_event event_less
  sort_events [] = []
  sort_events (e ∷ es) = insert_event e (sort_events es)

  -- FinalizeUSNEvents
  unfoldable pub finalize_usn_events : Text → List (Option Event) → ℕ → Option ℕ → Finalized
  unfolding usn_loop sort_events
  finalize_usn_events volume events start floor =
      let acc =
        usn_loop volume start floor (record { merged = []; noise = []; skipped_before_start = 0 })
          events in
      let sorted = sort_events (values acc.merged) in
      record {
        kept = take max_usn_sidecar_events sorted;
        noise = acc.noise;
        truncated = length sorted - max_usn_sidecar_events;
        skipped_before_start = acc.skipped_before_start;
      }
